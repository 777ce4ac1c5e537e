-- ===== src/Osc/Clients.antt =====
-- The interfaces `Compute` and `LoadBalancer` of oapi_itf.go, over a state `S` of the outside world.
use cloud_provider_osc.Base.{Bool, Option, List}
use cloud_provider_osc.Base.{M}
use cloud_provider_osc.Base.Int.{ℤ}
use cloud_provider_osc.Base.Str.{Str}
use cloud_provider_osc.Osc.Data.{
  ResourceTag, SecurityGroupRule, SecurityGroup, Vm, Subnet, RouteTable, Listener, HealthCheck,
  LoadBalancerAttributes, LoadBalancerDescription,
}

-- `osc.FiltersSecurityGroup`
pub record FiltersSecurityGroup : Type 0 where
  pub security_group_ids : Option (List Str)
  pub security_group_names : Option (List Str)
  pub net_ids : Option (List Str)
  pub tag_keys : Option (List Str)
  pub tags : Option (List Str)
  pub inbound_rule_security_group_ids : Option (List Str)
  pub inbound_rule_security_group_names : Option (List Str)

-- `osc.FiltersVm`
pub record FiltersVm : Type 0 where
  pub vm_ids : Option (List Str)
  pub tag_keys : Option (List Str)
  pub tags : Option (List Str)

-- `osc.FiltersSubnet`
pub record FiltersSubnet : Type 0 where
  pub net_ids : Option (List Str)
  pub subnet_ids : Option (List Str)

-- `osc.FiltersRouteTable`
pub record FiltersRouteTable : Type 0 where
  pub route_table_ids : Option (List Str)
  pub net_ids : Option (List Str)

-- What `CreateSecurityGroupRule` and `DeleteSecurityGroupRule` are asked for, with the flow
-- "Inbound": the rules, or a group of another account to link, by its name and account.
pub data RuleRequest : Type 0 where
  rules : List SecurityGroupRule → RuleRequest
  link : Str → Str → RuleRequest

pub record Compute (S : Type 0) : Type 0 where
  pub read_vms : Option FiltersVm → M S (List Vm)
  pub update_vm : Str → Bool → M S (Unit {0})
  pub create_tags : Str → List ResourceTag → M S (Unit {0})
  pub read_security_groups : FiltersSecurityGroup → M S (List SecurityGroup)
  pub create_security_group : Option Str → Str → Str → M S (Option Str)
  pub delete_security_group : Str → M S (Unit {0})
  pub create_security_group_rule : Str → RuleRequest → M S (Unit {0})
  pub delete_security_group_rule : Str → RuleRequest → M S (Unit {0})
  pub describe_subnets : FiltersSubnet → M S (List Subnet)
  pub read_route_tables : Option FiltersRouteTable → M S (List RouteTable)
  pub create_route : Str → Option Str → Str → M S (Unit {0})
  pub delete_route : Str → Str → M S (Unit {0})

-- `elb.CreateLoadBalancerInput`; `none` for a list is nil.
pub record CreateLoadBalancerInput : Type 0 where
  pub load_balancer_name : Str
  pub listeners : List (Option Listener)
  pub scheme : Option Str
  pub subnets : Option (List Str)
  pub availability_zones : List Str
  pub security_groups : Option (List Str)
  pub tags : List ResourceTag

-- `elb.CreateLoadBalancerPolicyInput`, with its one attribute.
pub record CreateLoadBalancerPolicyInput : Type 0 where
  pub load_balancer_name : Option Str
  pub policy_name : Str
  pub policy_type_name : Str
  pub attribute_name : Str
  pub attribute_value : Str

-- The operations that the code calls.
pub record LoadBalancer (S : Type 0) : Type 0 where
  pub create_load_balancer : CreateLoadBalancerInput → M S (Unit {0})
  pub delete_load_balancer : Option Str → M S (Unit {0})
  pub describe_load_balancers : Str → M S (List LoadBalancerDescription)
  pub add_tags : Str → List ResourceTag → M S (Unit {0})
  pub register_instances : Str → List Str → M S (Unit {0})
  pub deregister_instances : Str → List Str → M S (Unit {0})
  pub create_load_balancer_policy : CreateLoadBalancerPolicyInput → M S (Unit {0})
  pub set_policies_for_backend_server : Str → Option ℤ → List Str → M S (Unit {0})
  pub set_policies_of_listener : Str → ℤ → List Str → M S (Unit {0})
  pub describe_load_balancer_policies : Option Str → List Str → M S (List Str)
  pub create_load_balancer_listeners : Str → List (Option Listener) → M S (Unit {0})
  pub delete_load_balancer_listeners : Str → List (Option ℤ) → M S (Unit {0})
  pub configure_health_check : Option Str → HealthCheck → M S (Unit {0})
  pub describe_load_balancer_attributes : Str → M S LoadBalancerAttributes
  pub modify_load_balancer_attributes : Str → LoadBalancerAttributes → M S (Unit {0})
