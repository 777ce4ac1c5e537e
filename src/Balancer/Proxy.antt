-- ===== src/Balancer/Proxy.antt =====
-- The proxy protocol of the backends of a load balancer that is there, after `ensureLoadBalancer`.
use cloud_provider_osc.Base.{
  Bool, true, false, Option, none, some, List, [], ◌∷◌, ◌≡◌, refl, ◌∙◌, ◌⊎◌, inl, inr, arith,
  if◌then◌else◌, ◌==◌, list_eq, nat_eq, bool_eq, option_eq, any, All, Bool-cases, Result, ok,
}
use cloud_provider_osc.Base.Dict.{Dict, lookup}
use cloud_provider_osc.Base.Int.{ℤ, int_eq}
use cloud_provider_osc.Base.Str.{Str}
use cloud_provider_osc.Osc.{Listener, LoadBalancer}
use cloud_provider_osc.Backends.{proxy_protocol_policy_name, set_backend_policies}
use cloud_provider_osc.Backends.Policies.{set_backend_policies-ok}
use cloud_provider_osc.Balancer.{deref, instance_port_of, needs_policy, sync_policies}
use cloud_provider_osc.Cloud.{Cloud}

abbrev pub policies_for : Bool → List Str
policies_for on = if on then proxy_protocol_policy_name ∷ [] else []

-- A service that answers: whether the backend of a port has the proxy protocol, and the state after
-- its policies are set.
pub record PolicyService {S : Type 0} (elb : LoadBalancer S) (name : Str) : Type 0 where
  pub is_enabled : S → ℤ → Bool
  pub adjusted : ℤ → Bool → S → S
  pub adjusts :
      (port : ℤ) (on : Bool) (s : S)
      → elb.set_policies_for_backend_server name (some port) (policies_for on) s
        ≡ (ok tt, adjusted port on s)
  pub is_enabled-adjusted :
      (port : ℤ) (on : Bool) (s : S) (other : ℤ)
      → is_enabled (adjusted port on s) other ≡ (if port == other then on else is_enabled s other)

-- The listener has a port on the instances.
abbrev pub HasPort : Option Listener → Type 0
HasPort listener = (port : ℤ) × (instance_port_of listener ≡ ok port)

abbrev pub is_port_of : ℤ → Option Listener → Bool
is_port_of port none = false
is_port_of port (some l) = l.instance_port == some port

deref_ok : (o : Option ℤ) (port : ℤ) → deref o ≡ ok port → o ≡ some port
deref_ok none port h = absurd (ground arith)
deref_ok (some p) port h = ground arith

module _ {S : Type 0} (c : Cloud S) (name : Str)
    (service : PolicyService c.load_balancer name) where
  set_backend_policies_lem :
      (port : ℤ) (on : Bool) (s : S)
      → set_backend_policies c.load_balancer name port (policies_for on) s
        ≡ (ok tt, service.adjusted port on s)
  set_backend_policies_lem port on s =
      set_backend_policies-ok c.load_balancer name port _ s _ (service.adjusts port on s)

  -- A backend has the state that the description gave, or the one that is wanted.
  abbrev Follows : Bool → Dict ℤ Bool → S → Type 0
  Follows proxy states s =
      (p : ℤ)
      → (service.is_enabled s p ≡ proxy) ⊎ (service.is_enabled s p ≡ (lookup p states == some true))

  -- What one listener's step gives.
  abbrev Synced : Bool → List (Option Listener) → S → Result Bool × S → Type 0
  Synced proxy listeners s r =
      (t : S) × (dirty : Bool) × (r ≡ (ok dirty, t))
      × ((p : ℤ)
          → service.is_enabled t p
            ≡ (if any (is_port_of p) listeners then proxy else service.is_enabled s p))

  sync_lem :
      (proxy : Bool) (states : Dict ℤ Bool) (listeners : List (Option Listener)) (dirty : Bool)
      (s : S)
      → All HasPort listeners
      → Follows proxy states s
      → Synced proxy listeners s
          (sync_policies c name proxy (policies_for proxy) states listeners dirty s)
  unfolding sync_policies needs_policy
  sync_lem proxy states [] dirty s h f = (s, dirty, refl, λ p. refl)
  sync_lem proxy states (none ∷ listeners) dirty s h f = absurd (ground (arith, h.0))
  sync_lem proxy states (some l ∷ listeners) dirty s h f =
      let port = h.0.0 in
      let read : instance_port_of (some l) ≡ ok port = h.0.1 in
      let mine : l.instance_port ≡ some port = deref_ok l.instance_port port read in
      elim (Bool-cases (needs_policy proxy (lookup port states))) [
        | inl needs ↦
            let t = service.adjusted port proxy s in
            let rest =
              sync_lem proxy states listeners true t h.1
                (λ p. ground (arith, f p, service.is_enabled-adjusted port proxy s p)) in
            (
              rest.0,
              rest.1,
              rw read (rw needs (rw (set_backend_policies_lem port proxy s) rest.2)),
              λ p. rest.3 p ∙ ground (arith, service.is_enabled-adjusted port proxy s p, mine),
            )
        | inr other ↦
            let rest = sync_lem proxy states listeners dirty s h.1 f in
            (
              rest.0,
              rest.1,
              rw read (rw other rest.2),
              λ p. rest.3 p ∙ ground (arith, f port, mine, other),
            )
      ]

  -- If the description's states are those of the service, which answers, and each listener has a
  -- port, the loop succeeds; then the backends of the listeners have the proxy protocol exactly if it
  -- is wanted, and the others are as they were.
  pub sync_policies-enabled :
      (proxy : Bool) (states : Dict ℤ Bool) (listeners : List (Option Listener)) (s : S)
      → All HasPort listeners
      → ((p : ℤ) → service.is_enabled s p ≡ (lookup p states == some true))
      → (t : S) × (dirty : Bool) × (sync_policies c name proxy
            (policies_for proxy)
            states
            listeners
            false
            s
          ≡ (ok dirty, t))
        × ((p : ℤ)
            → service.is_enabled t p
              ≡ (if any (is_port_of p) listeners then proxy else service.is_enabled s p))
  sync_policies-enabled proxy states listeners s h reflects =
      sync_lem proxy states listeners false s h (λ p. inr (reflects p))
