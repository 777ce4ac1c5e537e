-- ===== src/Osc/Data.antt =====
-- The data of the Outscale SDK (`osc.…`) and of the load balancer SDK (`elb.…`) that the code uses.
use cloud_provider_osc.Base.{Bool, false, Option, none, some, List, []}
use cloud_provider_osc.Base.{list_eq, nat_eq}
use cloud_provider_osc.Base.Dict.{Dict, lookup}
use cloud_provider_osc.Base.Int.{ℤ, pos}
use cloud_provider_osc.Base.Str.{Str}

-- The getters of the SDK: `x.GetName()` is the zero value where the field is nil. `aws.StringValue`
-- and `aws.Int64Value` do the same.
abbrev pub str_value : Option Str → Str
str_value none = []
str_value (some s) = s

abbrev pub int_value : Option ℤ → ℤ
int_value none = pos 0
int_value (some i) = i

abbrev pub bool_value : Option Bool → Bool
bool_value none = false
bool_value (some b) = b

abbrev pub list_value : {A : Type 0} → Option (List A) → List A
list_value none = []
list_value (some xs) = xs

-- `m[k]`, which is "" for a missing key.
abbrev pub value_at : Str → Dict Str Str → Str
value_at k m = str_value (lookup k m)

pub record ResourceTag : Type 0 where
  pub key : Str
  pub value : Str

pub record SecurityGroupsMember : Type 0 where
  pub account_id : Option Str
  pub security_group_id : Option Str
  pub security_group_name : Option Str

pub record SecurityGroupRule : Type 0 where
  pub from_port_range : Option ℤ
  pub to_port_range : Option ℤ
  pub ip_protocol : Option Str
  pub ip_ranges : Option (List Str)
  pub security_groups_members : Option (List SecurityGroupsMember)
  pub service_ids : Option (List Str)

pub record SecurityGroup : Type 0 where
  pub security_group_id : Option Str
  pub inbound_rules : Option (List SecurityGroupRule)
  pub tags : Option (List ResourceTag)

pub record SecurityGroupLight : Type 0 where
  pub security_group_id : Option Str
  pub security_group_name : Option Str

-- The part of a machine's placement that is read.
pub record Placement : Type 0 where
  pub subregion_name : Option Str

pub record PrivateIpLight : Type 0 where
  pub private_ip : Option Str

pub record Nic : Type 0 where
  pub state : Option Str
  pub private_ips : Option (List PrivateIpLight)

pub record Vm : Type 0 where
  pub vm_id : Option Str
  pub state : Option Str
  pub private_dns_name : Option Str
  pub public_dns_name : Option Str
  pub private_ip : Option Str
  pub public_ip : Option Str
  pub nics : Option (List Nic)
  pub placement : Option Placement
  pub vm_type : Option Str
  pub net_id : Option Str
  pub subnet_id : Option Str
  pub security_groups : Option (List SecurityGroupLight)
  pub tags : Option (List ResourceTag)

-- `vm.Placement.GetSubregionName()`, which is "" for a nil placement too.
abbrev pub subregion_of : Vm → Str
subregion_of vm = elim vm.placement [
  | none ↦ []
  | some placement ↦ str_value placement.subregion_name
]

pub record Subnet : Type 0 where
  pub subnet_id : Option Str
  pub subregion_name : Option Str
  pub tags : Option (List ResourceTag)

pub record LinkRouteTable : Type 0 where
  pub subnet_id : Option Str
  pub main : Option Bool

pub record Route : Type 0 where
  pub gateway_id : Option Str
  pub destination_ip_range : Option Str
  pub vm_id : Option Str
  pub state : Option Str

pub record RouteTable : Type 0 where
  pub route_table_id : Option Str
  pub link_route_tables : Option (List LinkRouteTable)
  pub routes : Option (List Route)
  pub tags : Option (List ResourceTag)

pub record Listener : Type 0 where
  pub instance_port : Option ℤ
  pub load_balancer_port : Option ℤ
  pub protocol : Option Str
  pub instance_protocol : Option Str
  pub ssl_certificate_id : Option Str

pub record BackendServerDescription : Type 0 where
  pub instance_port : Option ℤ
  pub policy_names : List Str

pub record HealthCheck : Type 0 where
  pub target : Option Str
  pub healthy_threshold : Option ℤ
  pub unhealthy_threshold : Option ℤ
  pub timeout : Option ℤ
  pub interval : Option ℤ

-- The attributes of a load balancer; an access log is a record of its own in the SDK.
pub record AccessLog : Type 0 where
  pub enabled : Option Bool
  pub emit_interval : Option ℤ
  pub s3_bucket_name : Option Str
  pub s3_bucket_prefix : Option Str

pub record LoadBalancerAttributes : Type 0 where
  pub access_log : Option AccessLog
  pub connection_draining_enabled : Option Bool
  pub connection_draining_timeout : Option ℤ
  pub idle_timeout : Option ℤ

-- The pointers that a description's lists hold are not nil, but for the listeners, which the code
-- checks, and the instances' ids.
pub record LoadBalancerDescription : Type 0 where
  pub load_balancer_name : Option Str
  pub dns_name : Option Str
  pub subnets : List Str
  pub security_groups : List Str
  pub instances : List (Option Str)
  pub listener_descriptions : List (Option Listener)
  pub backend_server_descriptions : List BackendServerDescription
  pub health_check : Option HealthCheck
