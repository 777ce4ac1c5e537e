-- ===== src/Provision.antt =====
-- cloud-controller-manager/osc/ccm_cloud.go: `EnsureLoadBalancer`, `UpdateLoadBalancer` and
-- `GetLoadBalancer`, composed of the other modules. What the package servicehelpers makes of a service,
-- and the instances of the nodes, are parameters. Child modules: `Flow` for
-- the calls, `Guards` for the services that are turned down.
pub mod Guards
pub mod Flow
mod Tests
use cloud_provider_osc.Base.{
  ℕ, Bool, true, false, not, ◌&&◌, ◌||◌, Option, none, some, List, [], ◌∷◌, ◌++◌, map,
  if◌then◌else◌, Eq, ◌==◌, ◌!=◌, list_eq, nat_eq, is_nil, filter, Result, ok, err, panic, and_then,
  Error, errorf, M, return, fail, lift, continue_with, handle_with, ◌>>=◌, ◌>>◌, try, for_each,
}
use cloud_provider_osc.Base.Dict.{Dict, lookup}
use cloud_provider_osc.Base.StringSets.{StringSets}
use cloud_provider_osc.Base.Int.{ℤ, pos, int_eq}
use cloud_provider_osc.Base.Str.{Str, codes, split, trim_space, to_lower}
use cloud_provider_osc.Osc.{
  SecurityGroupRule, Vm, Listener, HealthCheck, LoadBalancerAttributes, LoadBalancerDescription,
  str_value, value_at,
}
use cloud_provider_osc.Listener.{ServicePort, PortSets, get_port_sets, build_listener}
use cloud_provider_osc.Rules.{IpRulesSet, new_ip_rules_set, insert_rules}
use cloud_provider_osc.Cloud.{Cloud}
use cloud_provider_osc.SecurityGroup.{default_src_sg_name, set_security_group_ingress}
use cloud_provider_osc.SecurityGroup.Ensure.{ensure_security_group}
use cloud_provider_osc.SecurityGroup.Nodes.{update_instance_security_groups_for_load_balancer}
use cloud_provider_osc.Subnets.{find_elb_subnets, choose_subnet}
use cloud_provider_osc.Backends.{
  get_load_balancer_tls_ports, ensure_load_balancer_instances, ensure_ssl_negotiation_policy,
  set_ssl_negotiation_policy,
}
use cloud_provider_osc.Service.{get_load_balancer_additional_tags, get_load_balancer_name}
use cloud_provider_osc.Service.Annotation
use cloud_provider_osc.Service.Health.{ensure_load_balancer_health_check}
use cloud_provider_osc.Service.Attributes.{attributes, is_internal, wants_proxy_protocol}
use cloud_provider_osc.Balancer.{describe_load_balancer, ensure_load_balancer, deref}

-- `v1.Service`, with what servicehelpers makes of it: the ranges of `GetLoadBalancerSourceRanges`, and
-- the path and port of `GetServiceHealthCheckPathPort`.
pub record KubeService : Type 0 where
  pub namespaced_name : Str
  pub uid : Str
  pub annotations : Dict Str Str
  pub has_affinity : Bool
  pub ports : List ServicePort
  pub load_balancer_ip : Str
  pub source_ranges : Result (List Str)
  pub health_path : Str
  pub health_node_port : ℤ

-- The listeners of the ports; one without a node port has none.
pub listeners_of :
    Dict Str Str → Option PortSets → List ServicePort → Result (List (Option Listener))
listeners_of annotations ssl_ports [] = ok []
listeners_of annotations ssl_ports (port ∷ ports) =
    let rest = listeners_of annotations ssl_ports ports in
    if port.protocol != codes "TCP"
    then err (errorf (codes "Only TCP LoadBalancer is supported for AWS ELB"))
    else if port.node_port == pos 0
    then rest
    else and_then (build_listener port annotations ssl_ports)
        (λ listener. and_then rest (λ listeners. ok (some listener ∷ listeners)))

-- The checks before the first call to the cloud.
pub check_service : KubeService → Result (List (Option Listener))
check_service service =
    if service.has_affinity
    then err (errorf (codes "unsupported load balancer affinity"))
    else if is_nil service.ports
    then err (errorf (codes "requested load balancer with no ports"))
    else and_then
        (listeners_of service.annotations
          (get_port_sets (value_at Annotation.ssl_ports service.annotations)) service.ports)
        (λ listeners.
          if service.load_balancer_ip != []
          then err (errorf (codes "LoadBalancerIP cannot be specified for AWS ELB"))
          else ok listeners)

-- The items of a comma separated list that are not blank.
pub items : Str → List Str
items list = filter (λ item. item != []) (map trim_space (split b',' list))

-- The groups of an annotation, or the one of the load balancer, and the extra ones.
pub security_group_list : Str → Dict Str Str → List Str
security_group_list own annotations =
    let chosen = items (value_at Annotation.security_groups annotations) in
    (if is_nil chosen then own ∷ [] else chosen)
    ++ items (value_at Annotation.extra_security_groups annotations)

pub rule_for : List Str → Str → ℤ → ℤ → SecurityGroupRule
rule_for ranges protocol from_port to_port = record {
  from_port_range = some from_port;
  to_port_range = some to_port;
  ip_protocol = some protocol;
  ip_ranges = some ranges;
  security_groups_members = none;
  service_ids = none;
}

-- The ports of the service, and ICMP fragmentation packets.
pub rules_for : List Str → List ServicePort → List SecurityGroupRule
rules_for ranges ports =
    map (λ port. rule_for ranges (to_lower port.protocol) port.port port.port) ports
    ++ (rule_for ranges (codes "icmp") (pos 3) (pos 4) ∷ [])

-- The port of the first listener that has one.
pub first_instance_port : List (Option Listener) → Result ℤ
first_instance_port [] = ok (pos 0)
first_instance_port (none ∷ listeners) = panic
first_instance_port (some l ∷ listeners) = elim l.instance_port [
  | none ↦ first_instance_port listeners
  | some port ↦ ok port
]

pub health_protocol : Dict Str Str → Str
health_protocol annotations =
    let protocol = to_lower (value_at Annotation.be_protocol annotations) in
    if protocol == codes "https" || protocol == codes "ssl" then codes "SSL" else codes "TCP"

-- `toStatus`: the host names of the ingress.
pub to_status : LoadBalancerDescription → List Str
to_status lb = if str_value lb.dns_name != [] then str_value lb.dns_name ∷ [] else []

-- A nil slice of subnets is one without any.
abbrev pub slice : List Str → Option (List Str)
slice [] = none
slice (x ∷ xs) = some (x ∷ xs)
