-- ===== src/Provision/Flow.antt =====
-- cloud-controller-manager/osc/ccm_cloud.go: the calls that `EnsureLoadBalancer`, `UpdateLoadBalancer`
-- and `GetLoadBalancer` make. Parameters: the search for the nodes' instances, which is
-- `find_instances_for_elb` of Cache at the nodes, the JSON text of a rule, sets of
-- strings, the validation of a health check and the comparison of attributes. Child modules: `Errors`,
-- and `Registers` for the instances that are registered in the end.
pub mod Errors
pub mod Registers
mod Tests
use cloud_provider_osc.Base.{
  ℕ, Bool, true, false, not, ◌&&◌, ◌||◌, Option, none, some, List, [], ◌∷◌, ◌++◌, if◌then◌else◌, Eq,
  ◌==◌, ◌!=◌, list_eq, nat_eq, is_nil, Result, ok, err, panic, Error, errorf, M, return, fail, lift,
  continue_with, handle_with, ◌>>=◌, ◌>>◌, try, for_each,
}
use cloud_provider_osc.Base.Dict.{Dict, lookup}
use cloud_provider_osc.Base.StringSets.{StringSets}
use cloud_provider_osc.Base.Str.{Str, codes}
use cloud_provider_osc.Osc.{
  SecurityGroupRule, Vm, Listener, HealthCheck, LoadBalancerAttributes, LoadBalancerDescription,
  str_value, value_at,
}
use cloud_provider_osc.Rules.{new_ip_rules_set, insert_rules}
use cloud_provider_osc.Cloud.{Cloud}
use cloud_provider_osc.SecurityGroup.{default_src_sg_name, set_security_group_ingress}
use cloud_provider_osc.SecurityGroup.Ensure.{ensure_security_group}
use cloud_provider_osc.SecurityGroup.Nodes.{update_instance_security_groups_for_load_balancer}
use cloud_provider_osc.Subnets.{find_elb_subnets, choose_subnet}
use cloud_provider_osc.Backends.{
  get_load_balancer_tls_ports, ensure_load_balancer_instances, ensure_ssl_negotiation_policy,
  set_ssl_negotiation_policy,
}
use cloud_provider_osc.Service.{get_load_balancer_additional_tags, get_load_balancer_name}
use cloud_provider_osc.Service.Annotation
use cloud_provider_osc.Service.Health.{ensure_load_balancer_health_check}
use cloud_provider_osc.Service.Attributes.{attributes, is_internal, wants_proxy_protocol}
use cloud_provider_osc.Balancer.{describe_load_balancer, ensure_load_balancer, deref}
use cloud_provider_osc.Provision.{
  KubeService, check_service, security_group_list, rules_for, first_instance_port, health_protocol,
  to_status, slice,
}

module _ {S : Type 0} (c : Cloud S) (find_instances : M S (Dict Str Vm)) (sets : StringSets) where
  pub build_elb_security_group_list : Str → Str → Dict Str Str → M S (List Str)
  build_elb_security_group_list service_name name annotations =
      ((if c.global.elb_security_group != []
          then return c.global.elb_security_group
          else ensure_security_group c (codes "k8s-elb-" ++ name)
              (codes "Security group for Kubernetes ELB "
                ++ name
                ++ codes " ("
                ++ service_name
                ++ codes ")")
              (get_load_balancer_additional_tags annotations))
        >>= λ own. return (security_group_list own annotations))

  -- The policy that an annotation names, for every TLS port.
  pub sync_ssl_policy : LoadBalancerDescription → Str → Dict Str Str → M S (Unit {0})
  sync_ssl_policy lb name annotations =
      elim (lookup Annotation.ssl_negotiation_policy annotations) [
        | none ↦ return tt
        | some policy ↦ (do
          ensure_ssl_negotiation_policy c.load_balancer lb policy
          ports ← lift (get_load_balancer_tls_ports lb)
          for_each ports (set_ssl_negotiation_policy c.load_balancer name policy))
      ]

  pub sync_instances : LoadBalancerDescription → Dict Str Vm → M S (Unit {0})
  sync_instances lb instances =
      ensure_load_balancer_instances c.load_balancer sets (str_value lb.load_balancer_name)
        lb.instances instances

  module _ (validate : HealthCheck → Bool) where
    pub sync_health :
        LoadBalancerDescription → KubeService → List (Option Listener) → M S (Unit {0})
    sync_health lb service listeners =
        if service.health_path != []
        then try
            (ensure_load_balancer_health_check validate c.load_balancer lb (codes "HTTP")
              service.health_node_port service.health_path service.annotations)
            return
            (λ e. fail (errorf (codes "Failed to ensure health check for localized service")))
        else (lift (first_instance_port listeners) >>= λ port.
            ensure_load_balancer_health_check validate c.load_balancer lb
              (health_protocol service.annotations) port [] service.annotations)

    module _ (deep_equal : LoadBalancerAttributes → LoadBalancerAttributes → Bool) (Json : Type 0)
        ⦃e : Eq Json⦄ (marshal : SecurityGroupRule → Json) where
      pub open_ports : List Str → List Str → KubeService → List Str → M S (Unit {0})
      open_ports subnets groups service ranges =
          if is_nil subnets || c.vpc_id == []
          then return tt
          else (first_group groups >>= λ group.
              set_security_group_ingress c Json marshal group (
                insert_rules Json marshal (rules_for ranges service.ports)
                  (new_ip_rules_set Json marshal []))
              >>= λ changed. return tt)
        where
          first_group : List Str → M S Str
          first_group [] = lift panic
          first_group (group ∷ _) = return group

      pub groups_for : List Str → Str → KubeService → M S (List Str)
      groups_for subnets name service =
          ((if is_nil subnets || c.vpc_id == []
              then return (default_src_sg_name ∷ [])
              else build_elb_security_group_list service.namespaced_name name service.annotations)
            >>= λ groups.
                if is_nil groups
                then fail (
                    errorf
                      (codes "[BUG] ELB can't have empty list of Security Groups to be assigned"))
                else return groups)

      -- Each call that may follow `ensure_load_balancer`, with a policy or without, dereferences the load
      -- balancer before it does anything else, so that nil is a panic there.
      pub ensure_load_balancer_for : KubeService → M S (List Str)
      ensure_load_balancer_for service = do
        listeners ← lift (check_service service)
        instances ← find_instances
        ranges ← lift service.source_ranges
        let internal_elb = is_internal service.annotations
        proxy ← lift (wants_proxy_protocol service.annotations)
        wanted ← lift (attributes service.annotations)
        found ← find_elb_subnets c internal_elb
        subnets ← lift (choose_subnet found (value_at Annotation.subnet_id service.annotations))
        name ← lift (get_load_balancer_name service.uid service.annotations)
        groups ← groups_for subnets name service
        open_ports subnets groups service ranges
        described ←
            ensure_load_balancer c sets deep_equal service.namespaced_name name listeners
              (slice subnets) (some groups) internal_elb proxy wanted service.annotations
        lb ← lift (deref described)
        sync_ssl_policy lb name service.annotations
        sync_health lb service listeners
        update_instance_security_groups_for_load_balancer c lb instances groups
        sync_instances lb instances
        return (to_status lb)

  -- The load balancer of a service, if it is there: its status.
  pub get_load_balancer : KubeService → M S (Option (List Str))
  get_load_balancer service = do
    name ← lift (get_load_balancer_name service.uid service.annotations)
    described ← describe_load_balancer c name
    return (elim described [ none ↦ none | some lb ↦ some (to_status lb) ])

  must_exist : Option LoadBalancerDescription → M S LoadBalancerDescription
  must_exist none = fail (errorf (codes "Load balancer not found"))
  must_exist (some lb) = return lb

  -- An error of the registration ends the call without an error.
  pub update_load_balancer : KubeService → M S (Unit {0})
  update_load_balancer service = do
    instances ← find_instances
    name ← lift (get_load_balancer_name service.uid service.annotations)
    described ← describe_load_balancer c name
    lb ← must_exist described
    sync_ssl_policy lb name service.annotations
    try (sync_instances lb instances)
        (λ _.
          update_instance_security_groups_for_load_balancer c lb instances
            (if is_nil lb.security_groups && c.vpc_id == [] then default_src_sg_name ∷ [] else []))
        (λ e. return tt)
