-- ===== src/Backends.antt =====
-- cloud-controller-manager/osc/osc_loadbalancer.go: the instances that are registered with a load
-- balancer, and the policies of its backends and its TLS ports. Child modules: `Registered` for the
-- instances that are registered in the end, `Policies` for calls that are answered.
pub mod Registered
pub mod Policies
mod Tests
use cloud_provider_osc.Base.{
  ℕ, Bool, true, false, not, ◌&&◌, ◌||◌, Option, none, some, List, [], ◌∷◌, ◌++◌, map,
  if◌then◌else◌, ◌==◌, list_eq, nat_eq, any, is_nil, filter, Result, ok, err, panic, Error,
  aws_error, sdk_error, errorf, instance_not_found, M, return, fail, lift, continue_with,
  handle_with, ◌>>=◌, ◌>>◌, try,
}
use cloud_provider_osc.Base.Dict.{Dict, keys}
use cloud_provider_osc.Base.StringSets.{StringSets}
use cloud_provider_osc.Base.Int.{ℤ}
use cloud_provider_osc.Base.Str.{Str, codes}
use cloud_provider_osc.Osc.{
  Vm, Listener, BackendServerDescription, LoadBalancerDescription, CreateLoadBalancerPolicyInput,
  LoadBalancer, str_value, int_value,
}

-- ProxyProtocolPolicyName
abbrev pub proxy_protocol_policy_name : Str
proxy_protocol_policy_name = codes "k8s-proxyprotocol-enabled"

-- SSLNegotiationPolicyNameFormat, applied.
abbrev pub ssl_negotiation_policy_name : Str → Str
ssl_negotiation_policy_name name = codes "k8s-SSLNegotiationPolicy-" ++ name

-- `elb.ErrCodePolicyNotFoundException` and `elb.ErrCodeDuplicatePolicyNameException`
abbrev pub policy_not_found : Str
policy_not_found = codes "PolicyNotFound"

abbrev pub duplicate_policy_name : Str
duplicate_policy_name = codes "DuplicatePolicyName"

unfoldable pub proxy_protocol_enabled : BackendServerDescription → Bool
proxy_protocol_enabled backend =
    any (λ policy. policy == proxy_protocol_policy_name) backend.policy_names

-- A description without a listener is dereferenced, and panics.
abbrev tls_port : Option Listener → List ℤ → Result (List ℤ)
tls_port none ports = panic
tls_port (some l) ports =
    let protocol = str_value l.protocol in
    if protocol == codes "SSL" || protocol == codes "HTTPS"
    then ok (ports ++ (int_value l.load_balancer_port ∷ []))
    else ok ports

tls_ports_loop : List (Option Listener) → List ℤ → Result (List ℤ)
tls_ports_loop [] ports = ok ports
tls_ports_loop (d ∷ ds) ports = elim (tls_port d ports) [
  | ok next ↦ tls_ports_loop ds next
  | err e ↦ err e
  | panic ↦ panic
]

pub get_load_balancer_tls_ports : LoadBalancerDescription → Result (List ℤ)
unfolding tls_ports_loop
get_load_balancer_tls_ports lb = tls_ports_loop lb.listener_descriptions []

module _ {S : Type 0} (elb : LoadBalancer S) where
  module _ (sets : StringSets) where
    -- Each of the two calls is made only for some instances.
    unfoldable pub register_all : Str → List Str → M S (Unit {0})
    register_all name instances =
        if is_nil instances then return tt else elb.register_instances name instances

    unfoldable pub deregister_all : Str → List Str → M S (Unit {0})
    deregister_all name instances =
        if is_nil instances then return tt else elb.deregister_instances name instances

    unfoldable pub ensure_load_balancer_instances :
        Str → List (Option Str) → Dict Str Vm → M S (Unit {0})
    ensure_load_balancer_instances name lb_instances instance_ids =
        let expected = sets.new (keys instance_ids) in
        let actual = sets.new (map str_value lb_instances) in
        let additions = sets.difference expected actual in
        let removals = sets.difference actual expected in
        (register_all name (sets.list additions) >> deregister_all name (sets.list removals))

  -- With an error, the client's result is there and lists no policy. An error that is no
  -- `awserr.Error` is not returned.
  abbrev describe_failed : Error → M S (List Str)
  describe_failed (aws_error code text) =
      if code == policy_not_found
      then return []
      else fail (errorf (codes "error describing security policies on load balancer"))
  describe_failed (sdk_error text) = return []
  describe_failed instance_not_found = return []
  describe_failed (errorf text) = return []

  abbrev ssl_policy : Option Str → Str → CreateLoadBalancerPolicyInput
  ssl_policy name policy = record {
    load_balancer_name = name;
    policy_name = ssl_negotiation_policy_name policy;
    policy_type_name = codes "SSLNegotiationPolicyType";
    attribute_name = codes "Reference-Security-Policy";
    attribute_value = policy;
  }

  pub ensure_ssl_negotiation_policy : LoadBalancerDescription → Str → M S (Unit {0})
  ensure_ssl_negotiation_policy lb policy = do
    found ←
        try
          (elb.describe_load_balancer_policies lb.load_balancer_name
            (ssl_negotiation_policy_name policy ∷ []))
          return describe_failed
    if is_nil found
        then try (elb.create_load_balancer_policy (ssl_policy lb.load_balancer_name policy)) return
            (λ e. fail (errorf (codes "error creating security policy on load balancer")))
        else return tt

  pub set_ssl_negotiation_policy : Str → Str → ℤ → M S (Unit {0})
  set_ssl_negotiation_policy name policy port =
      try (elb.set_policies_of_listener name port (ssl_negotiation_policy_name policy ∷ [])) return
        (λ e. fail (errorf (codes "error setting SSL negotiation policy")))

  abbrev proxy_policy : Str → CreateLoadBalancerPolicyInput
  proxy_policy name = record {
    load_balancer_name = some name;
    policy_name = proxy_protocol_policy_name;
    policy_type_name = codes "ProxyProtocolPolicyType";
    attribute_name = codes "ProxyProtocol";
    attribute_value = codes "true";
  }

  -- Whether an error says that the policy is there.
  abbrev pub is_duplicate : Error → Bool
  is_duplicate (aws_error code text) = code == duplicate_policy_name
  is_duplicate (sdk_error text) = false
  is_duplicate instance_not_found = false
  is_duplicate (errorf text) = false

  pub create_proxy_protocol_policy : Str → Bool → M S (Unit {0})
  create_proxy_protocol_policy name update =
      try (elb.create_load_balancer_policy (proxy_policy name)) return (λ e.
        if update && is_duplicate e
        then return tt
        else fail (errorf (codes "error creating proxy protocol policy on load balancer")))

  pub set_backend_policies : Str → ℤ → List Str → M S (Unit {0})
  set_backend_policies name port policies =
      try (elb.set_policies_for_backend_server name (some port) policies) return
        (λ e. fail (errorf (codes "error adjusting AWS loadbalancer backend policies")))
