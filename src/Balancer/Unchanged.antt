-- ===== src/Balancer/Unchanged.antt =====
-- A load balancer that has what is asked for, when `ensureLoadBalancer` finds it.
use cloud_provider_osc.Base.{
  Bool, true, false, not, ◌&&◌, Option, none, some, List, [], ◌∷◌, ◌≡◌, refl, ◌∙◌, ap, ◌⊎◌, ◌↔◌,
  inl, inr, arith, ◌==◌, ==_refl, list_eq, nat_eq, is_nil, any, contains, All, All-mono, Bool-cases,
  ok,
}
use cloud_provider_osc.Base.Dict.{Dict, lookup, insert, lookup-insert}
use cloud_provider_osc.Base.StringSets.{StringSets}
use cloud_provider_osc.Base.Int.{ℤ, int_eq}
use cloud_provider_osc.Base.Str.{Str}
use cloud_provider_osc.Osc.{
  Listener, BackendServerDescription, LoadBalancerAttributes, LoadBalancerDescription, list_value,
}
use cloud_provider_osc.Listener.{sync_elb_listeners}
use cloud_provider_osc.Listener.Plan.{DistinctPorts}
use cloud_provider_osc.Listener.Converge.{IsPresent, sync_elb_listeners-same}
use cloud_provider_osc.Backends.{proxy_protocol_policy_name, proxy_protocol_enabled}
use cloud_provider_osc.Service.{get_load_balancer_additional_tags}
use cloud_provider_osc.Service.Annotation
use cloud_provider_osc.Balancer.{
  proxy_backends, needs_policy, last_description, describe_load_balancer, delete_listeners,
  create_listeners, sync_policies, sync_proxy_protocol, sync_additional_tags, subnets_differ,
  update_existing, sync_attributes, make_or_update, ensure_load_balancer,
}
use cloud_provider_osc.Cloud.{Cloud}

-- The listener is there, with an instance port.
abbrev pub HasInstancePort : Option Listener → Type 0
HasInstancePort none = ⊥
HasInstancePort (some l) = (port : ℤ) × (l.instance_port ≡ some port)

-- The backend has a port, and not the policy of the proxy protocol.
abbrev pub IsPlainBackend : BackendServerDescription → Type 0
IsPlainBackend backend =
    ((port : ℤ) × (backend.instance_port ≡ some port))
    × (contains backend.policy_names proxy_protocol_policy_name ≡ false)

-- The two lists have the same elements.
abbrev pub SameElements : List Str → List Str → Type 0
SameElements xs ys = (a : Str) → contains xs a ≡ contains ys a

-- No state in the map says that a backend has the proxy protocol.
abbrev AllPlain : Dict ℤ Bool → Type 0
AllPlain states = (port : ℤ) → needs_policy false (lookup port states) ≡ false

any-contains : (xs : List Str) (a : Str) → any (λ x. x == a) xs ≡ contains xs a
any-contains [] a = refl
any-contains (x ∷ xs) a = ground (arith, any-contains xs a)

enabled-plain :
    (backend : BackendServerDescription)
    → IsPlainBackend backend
    → proxy_protocol_enabled backend ≡ false
unfolding proxy_protocol_enabled
enabled-plain backend h = any-contains backend.policy_names proxy_protocol_policy_name ∙ h.1

AllPlain-insert :
    (port : ℤ) (states : Dict ℤ Bool) → AllPlain states → AllPlain (insert port false states)
unfolding needs_policy
AllPlain-insert port states h other = ground (arith, lookup-insert other port false states, h other)

none_plain : AllPlain []
unfolding needs_policy lookup
none_plain port = refl

proxy_backends-plain :
    (backends : List BackendServerDescription) (states : Dict ℤ Bool)
    → All IsPlainBackend backends
    → AllPlain states
    → (found : Dict ℤ Bool) × (proxy_backends backends states ≡ ok found) × AllPlain found
unfolding proxy_backends
proxy_backends-plain [] states h plain = (states, refl, plain)
proxy_backends-plain (backend ∷ backends) states h plain =
    let rest =
      proxy_backends-plain backends (insert h.0.0.0 false states) h.1
        (AllPlain-insert h.0.0.0 states plain) in
    (rest.0, rw h.0.0.1 (rw (enabled-plain backend h.0) (rest.1)), rest.2)

is_nil-contains : (xs : List Str) → (is_nil xs ≡ true) ↔ ((a : Str) → contains xs a ≡ false)
is_nil-contains [] = (λ h a. refl, λ h. refl)
is_nil-contains (x ∷ xs) = (λ h. absurd (ground arith), λ h. ground (arith, h x, ==_refl x))

listener-IsPresent : (l : Option Listener) → HasInstancePort l → IsPresent l
listener-IsPresent none h = h
listener-IsPresent (some l) h = tt

module _ {S : Type 0} (c : Cloud S) (sets : StringSets) where
  -- The difference of the sets of two lists.
  difference_lem :
      (xs ys : List Str) (a : Str)
      → contains (sets.list (sets.difference (sets.new xs) (sets.new ys))) a
        ≡ (contains xs a && not (contains ys a))
  difference_lem xs ys a = ground (
    arith,
    sets.list-difference (sets.new xs) (sets.new ys) a,
    sets.list-new xs a,
    sets.list-new ys a,
  )

  subnets_differ-SameElements :
      (xs ys : List Str) → (subnets_differ c sets xs ys ≡ false) ↔ SameElements xs ys
  unfolding subnets_differ
  subnets_differ-SameElements xs ys =
      let less = is_nil-contains (sets.list (sets.difference (sets.new ys) (sets.new xs))) in
      let more = is_nil-contains (sets.list (sets.difference (sets.new xs) (sets.new ys))) in
      (
        λ h a.
            let no_less = less.0 (ground arith) a in
            let no_more = more.0 (ground arith) a in
            ground (arith, no_less, no_more, difference_lem xs ys a, difference_lem ys xs a),
        λ h.
            let no_less = less.1 (λ a. ground (arith, difference_lem ys xs a, h a)) in
            let no_more = more.1 (λ a. ground (arith, difference_lem xs ys a, h a)) in
            ground (arith, no_less, no_more),
      )

  sync_policies-plain :
      (name : Str) (states : Dict ℤ Bool) (listeners : List (Option Listener)) (s : S)
      → AllPlain states
      → All HasInstancePort listeners
      → sync_policies c name false [] states listeners false s ≡ (ok false, s)
  unfolding sync_policies
  sync_policies-plain name states [] s plain h = refl
  sync_policies-plain name states (none ∷ listeners) s plain h = absurd h.0
  sync_policies-plain name states (some l ∷ listeners) s plain h =
      rw h.0.1 (rw (plain h.0.0) (sync_policies-plain name states listeners s plain h.1))

  get_load_balancer_additional_tags-none :
      (annotations : Dict Str Str)
      → lookup Annotation.additional_tags annotations ≡ none
      → get_load_balancer_additional_tags annotations ≡ []
  unfolding get_load_balancer_additional_tags
  get_load_balancer_additional_tags-none annotations h =
      rw (h, get_load_balancer_additional_tags) refl

  update_existing-same :
      (name : Str) (listeners : List (Option Listener)) (subnets : List Str)
      (annotations : Dict Str Str) (lb : LoadBalancerDescription) (s : S)
      → DistinctPorts listeners
      → All HasInstancePort listeners
      → lb.listener_descriptions ≡ listeners
      → All IsPlainBackend lb.backend_server_descriptions
      → lookup Annotation.additional_tags annotations ≡ none
      → update_existing c sets name listeners subnets false annotations lb s
        ≡ (ok (subnets_differ c sets subnets lb.subnets), s)
  unfolding update_existing delete_listeners create_listeners sync_proxy_protocol
      sync_additional_tags
  update_existing-same name listeners subnets annotations lb s distinct ports same plain tags =
      let plan =
        ap (sync_elb_listeners listeners) same
        ∙ sync_elb_listeners-same listeners distinct
            (All-mono _ _ listeners listener-IsPresent ports) in
      let backends = proxy_backends-plain lb.backend_server_descriptions [] plain none_plain in
      rw plan (
        rw backends.1 (
          rw (sync_policies-plain name backends.0 listeners s backends.2 ports)
            (rw (get_load_balancer_additional_tags-none annotations tags) (ground arith))))

  described :
      (name : Str) (lb : LoadBalancerDescription) (s t : S)
      → c.load_balancer.describe_load_balancers name s ≡ (ok (lb ∷ []), t)
      → describe_load_balancer c name s ≡ (ok (some lb), t)
  unfolding describe_load_balancer last_description
  described name lb s t h = rw h refl

  -- A load balancer that has the desired listeners, whose ports are distinct, none of whose backends has
  -- the policy of the proxy protocol, which is not wanted, and for which the annotations ask for no tags
  -- and the service has the desired attributes. It is read, its attributes are read, nothing is changed,
  -- and it is returned, if its subnets are those wanted, in any order; and if they are not, it is read
  -- again.
  pub ensure_load_balancer-unchanged :
      (deep_equal : LoadBalancerAttributes → LoadBalancerAttributes → Bool)
      (service_name name : Str) (listeners : List (Option Listener))
      (subnets groups : Option (List Str)) (internal_elb : Bool)
      (attributes found : LoadBalancerAttributes) (annotations : Dict Str Str)
      (lb : LoadBalancerDescription) (s t u : S)
      → c.load_balancer.describe_load_balancers name s ≡ (ok (lb ∷ []), t)
      → DistinctPorts listeners
      → All HasInstancePort listeners
      → lb.listener_descriptions ≡ listeners
      → All IsPlainBackend lb.backend_server_descriptions
      → lookup Annotation.additional_tags annotations ≡ none
      → c.load_balancer.describe_load_balancer_attributes name t ≡ (ok found, u)
      → deep_equal attributes found ≡ true
      → SameElements (list_value subnets) lb.subnets
          × (ensure_load_balancer c sets deep_equal service_name name listeners subnets groups
                internal_elb false attributes annotations s
              ≡ (ok (some lb), u))
        ⊎ ¬ SameElements (list_value subnets) lb.subnets
          × (ensure_load_balancer c sets deep_equal service_name name listeners subnets groups
                internal_elb false attributes annotations s
              ≡ describe_load_balancer c name u)
  unfolding ensure_load_balancer make_or_update sync_attributes
  ensure_load_balancer-unchanged deep_equal service_name name listeners subnets groups internal_elb
        attributes found annotations lb s t u read distinct ports same plain tags attrs equal =
      let decides = subnets_differ-SameElements (list_value subnets) lb.subnets in
      let updated =
        update_existing-same name listeners (list_value subnets) annotations lb t distinct ports
          same plain tags in
      elim (Bool-cases (subnets_differ c sets (list_value subnets) lb.subnets)) [
        | inl differ ↦ inr (
          λ alike. ground (arith, decides.1 alike),
          rw (described name lb s t read) (rw updated (rw attrs (rw equal (rw differ refl)))),
        )
        | inr alike ↦ inl (
          decides.0 alike,
          rw (described name lb s t read) (rw updated (rw attrs (rw equal (rw alike refl)))),
        )
      ]
