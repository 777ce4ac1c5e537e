-- ===== src/Balancer.antt =====
-- cloud-controller-manager/osc/ccm_cloud.go and osc_loadbalancer.go: the load balancer itself, made or
-- brought up to date by `ensureLoadBalancer`. Child modules: `Proxy` for the proxy protocol,
-- `Unchanged` for one that is as it should be.
pub mod Proxy
pub mod Unchanged
mod Tests
use cloud_provider_osc.Base.{
  ℕ, Bool, true, false, not, ◌&&◌, ◌||◌, Option, none, some, List, [], ◌∷◌, ◌++◌, map,
  if◌then◌else◌, ◌==◌, ◌!=◌, list_eq, nat_eq, bool_eq, any, is_nil, Result, ok, err, panic, Error,
  aws_error, sdk_error, errorf, instance_not_found, M, return, fail, lift, continue_with,
  handle_with, ◌>>=◌, ◌>>◌, try, for_each,
}
use cloud_provider_osc.Base.Dict.{Dict, lookup, insert}
use cloud_provider_osc.Base.StringSets.{StringSets}
use cloud_provider_osc.Base.Int.{ℤ, int_eq}
use cloud_provider_osc.Base.Str.{Str, codes}
use cloud_provider_osc.Osc.{
  Listener, BackendServerDescription, LoadBalancerAttributes, LoadBalancerDescription,
  CreateLoadBalancerInput, LoadBalancer, str_value, int_value, list_value,
}
use cloud_provider_osc.Tags.{build_tags, to_resource_tags, lifecycle_owned}
use cloud_provider_osc.Listener.{sync_elb_listeners}
use cloud_provider_osc.Backends.{
  proxy_protocol_policy_name, proxy_protocol_enabled, create_proxy_protocol_policy,
  set_backend_policies,
}
use cloud_provider_osc.Service.{get_load_balancer_additional_tags}
use cloud_provider_osc.Cloud.{Cloud}

-- TagNameKubernetesService
abbrev pub tag_name_kubernetes_service : Str
tag_name_kubernetes_service = codes "kubernetes.io/service-name"

-- The last of the descriptions.
unfoldable pub last_description :
    List LoadBalancerDescription → Option LoadBalancerDescription → Option LoadBalancerDescription
last_description [] found = found
last_description (lb ∷ lbs) found = last_description lbs (some lb)

-- `*p`, which panics for nil.
abbrev pub deref : {A : Type 0} → Option A → Result A
deref none = panic
deref (some a) = ok a

abbrev pub instance_port_of : Option Listener → Result ℤ
instance_port_of none = panic
instance_port_of (some l) = deref l.instance_port

-- `proxyProtocolBackends`
pub proxy_backends : List BackendServerDescription → Dict ℤ Bool → Result (Dict ℤ Bool)
proxy_backends [] m = ok m
proxy_backends (b ∷ bs) m = elim b.instance_port [
  | none ↦ panic
  | some port ↦ proxy_backends bs (insert port (proxy_protocol_enabled b) m)
]

-- Whether the policy of a backend is to be set: for a new one, if the protocol is wanted, and for one
-- that is there, if its state is another.
pub needs_policy : Bool → Option Bool → Bool
needs_policy proxy_protocol none = proxy_protocol
needs_policy proxy_protocol (some current) = current != proxy_protocol

module _ {S : Type 0} (c : Cloud S) where
  abbrev pub describe_error : Error → M S (Option LoadBalancerDescription)
  describe_error (aws_error code text) =
      if code == codes "LoadBalancerNotFound" then return none else fail (aws_error code text)
  describe_error (sdk_error text) = fail (sdk_error text)
  describe_error instance_not_found = fail instance_not_found
  describe_error (errorf text) = fail (errorf text)

  unfoldable pub describe_load_balancer : Str → M S (Option LoadBalancerDescription)
  describe_load_balancer name =
      try (c.load_balancer.describe_load_balancers name) (λ lbs. return (last_description lbs none))
        describe_error

  pub add_load_balancer_tags : Str → Dict Str Str → M S (Unit {0})
  add_load_balancer_tags name requested =
      try (c.load_balancer.add_tags name (to_resource_tags requested)) return
        (λ e. fail (errorf (codes "error adding tags to load balancer")))

  -- What the creation asks for. `none` is a nil slice.
  create_request :
      Str
      → Str
      → List (Option Listener)
      → Option (List Str)
      → Option (List Str)
      → Bool
      → Dict Str Str
      → CreateLoadBalancerInput
  create_request service_name name listeners subnets security_groups internal_elb annotations =
      let tags =
        insert tag_name_kubernetes_service service_name
          (get_load_balancer_additional_tags annotations) in
      record {
        load_balancer_name = name;
        listeners = listeners;
        scheme = if internal_elb then some (codes "internal") else none;
        subnets = subnets;
        availability_zones = elim subnets [
          | none ↦ c.self_instance.availability_zone ∷ []
          | some ids ↦ []
        ];
        security_groups = elim subnets [ none ↦ none | some ids ↦ security_groups ];
        tags = to_resource_tags (build_tags c.tag_name_env c.tagging lifecycle_owned tags);
      }

  pub set_proxy_policy : Str → Option Listener → M S (Unit {0})
  set_proxy_policy name listener = do
    port ← lift (instance_port_of listener)
    set_backend_policies c.load_balancer name port (proxy_protocol_policy_name ∷ [])

  pub create_new : Str → List (Option Listener) → Bool → CreateLoadBalancerInput → M S Bool
  create_new name listeners proxy_protocol request = do
    c.load_balancer.create_load_balancer request
    if proxy_protocol
        then (create_proxy_protocol_policy c.load_balancer name false
            >> for_each listeners (set_proxy_policy name))
        else return tt
    return true

  -- Before a listener is deleted, its backend loses its policies.
  clear_policies : Str → List (Option ℤ) → BackendServerDescription → M S (Unit {0})
  clear_policies name ports backend =
      let port = int_value backend.instance_port in
      if any (λ p. port == int_value p) ports
      then set_backend_policies c.load_balancer name port []
      else return tt

  pub delete_listeners :
      Str → Bool → List BackendServerDescription → List (Option ℤ) → List (Option ℤ) → M S Bool
  delete_listeners name proxy_protocol backends removals ports =
      if is_nil removals then return false else (do
        if proxy_protocol then for_each backends (clear_policies name ports) else return tt
        try (c.load_balancer.delete_load_balancer_listeners name removals) return
            (λ e. fail (errorf (codes "error deleting OSC loadbalancer listeners")))
        return true)

  pub create_listeners : Str → List (Option Listener) → M S Bool
  create_listeners name additions = if is_nil additions then return false else (do
    try (c.load_balancer.create_load_balancer_listeners name additions) return
        (λ e. fail (errorf (codes "error creating OSC loadbalancer listeners")))
    return true)

  -- The loop over the listeners, which says whether it set a policy.
  pub sync_policies : Str → Bool → List Str → Dict ℤ Bool → List (Option Listener) → Bool → M S Bool
  sync_policies name proxy_protocol policies backends [] dirty = return dirty
  sync_policies name proxy_protocol policies backends (listener ∷ listeners) dirty =
      (lift (instance_port_of listener) >>= λ port.
      if needs_policy proxy_protocol (lookup port backends)
      then (set_backend_policies c.load_balancer name port policies
          >> sync_policies name proxy_protocol policies backends listeners true)
      else sync_policies name proxy_protocol policies backends listeners dirty)

  pub sync_proxy_protocol :
      Str → Bool → List (Option Listener) → List BackendServerDescription → M S Bool
  sync_proxy_protocol name proxy_protocol listeners backends = do
    if proxy_protocol then create_proxy_protocol_policy c.load_balancer name true else return tt
    states ← lift (proxy_backends backends [])
    let policies = if proxy_protocol then proxy_protocol_policy_name ∷ [] else []
    sync_policies name proxy_protocol policies states listeners false

  pub sync_additional_tags : Str → Dict Str Str → M S (Unit {0})
  sync_additional_tags name tags =
      if is_nil tags
      then return tt
      else try (add_load_balancer_tags name tags) return
          (λ e. fail (errorf (codes "unable to create additional load balancer tags")))

  -- The subnets cannot be changed; another set of them counts as a change all the same. Another set of
  -- security groups is only logged.
  pub subnets_differ : StringSets → List Str → List Str → Bool
  subnets_differ sets subnets actual =
      not (is_nil (sets.list (sets.difference (sets.new actual) (sets.new subnets))))
      || not (is_nil (sets.list (sets.difference (sets.new subnets) (sets.new actual))))

  module _ (sets : StringSets) where
    pub update_existing :
        Str
        → List (Option Listener)
        → List Str
        → Bool
        → Dict Str Str
        → LoadBalancerDescription
        → M S Bool
    update_existing name listeners subnets proxy_protocol annotations lb =
        let plan = sync_elb_listeners listeners lb.listener_descriptions in
        (do
          deleted ←
              delete_listeners name proxy_protocol lb.backend_server_descriptions plan.1 plan.2
          created ← create_listeners name plan.0
          adjusted ←
              sync_proxy_protocol name proxy_protocol listeners lb.backend_server_descriptions
          sync_additional_tags name (get_load_balancer_additional_tags annotations)
          return (subnets_differ sets subnets lb.subnets || deleted || created || adjusted))

    -- `reflect.DeepEqual` of the attributes, which have more fields than the model's, is a parameter.
    module _ (deep_equal : LoadBalancerAttributes → LoadBalancerAttributes → Bool) where
      pub sync_attributes : Str → LoadBalancerAttributes → M S Bool
      sync_attributes name attributes = do
        found ← c.load_balancer.describe_load_balancer_attributes name
        if deep_equal attributes found
            then return false
            else try (c.load_balancer.modify_load_balancer_attributes name attributes)
                (λ _. return true)
                (λ e. fail (
                  errorf (codes "Unable to update load balancer attributes during attribute sync")))

      make_or_update :
          Str
          → Str
          → List (Option Listener)
          → Option (List Str)
          → Option (List Str)
          → Bool
          → Bool
          → Dict Str Str
          → Option LoadBalancerDescription
          → M S Bool
      make_or_update service_name name listeners subnets groups internal_elb proxy annotations
            none =
          create_new name listeners proxy
            (create_request service_name name listeners subnets groups internal_elb annotations)
      make_or_update service_name name listeners subnets groups internal_elb proxy annotations
            (some lb) =
          update_existing name listeners (list_value subnets) proxy annotations lb

      -- A load balancer that was changed is read again.
      pub ensure_load_balancer :
          Str
          → Str
          → List (Option Listener)
          → Option (List Str)
          → Option (List Str)
          → Bool
          → Bool
          → LoadBalancerAttributes
          → Dict Str Str
          → M S (Option LoadBalancerDescription)
      ensure_load_balancer service_name name listeners subnets groups internal_elb proxy attributes
            annotations =
          do
            lb ← describe_load_balancer name
            changed ←
                make_or_update service_name name listeners subnets groups internal_elb proxy
                  annotations lb
            modified ← sync_attributes name attributes
            if changed || modified then describe_load_balancer name else return lb
