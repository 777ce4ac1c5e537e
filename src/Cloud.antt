-- ===== src/Cloud.antt =====
-- cloud-controller-manager/osc/ccm_cloud.go: the struct `Cloud`, as far as the modelled methods read
-- it. The Kubernetes clients and informers are not part of the model. The environment variable that
-- tags.go reads and the back-off of its retries, which are not fields in Go, stand here too.
use cloud_provider_osc.Base.{Bool, false, Option, []}
use cloud_provider_osc.Base.Str.{Str}
use cloud_provider_osc.Osc.{Compute, LoadBalancer}
use cloud_provider_osc.Tags.{ResourceTagging, Backoff}

-- cloud-controller-manager/osc/ccm_cloud_config.go: `CloudConfig.Global`.
pub record GlobalConfig : Type 0 where
  pub zone : Str
  pub vpc : Str
  pub subnet_id : Str
  pub role_arn : Str
  pub kubernetes_cluster_tag : Str
  pub kubernetes_cluster_id : Str
  pub disable_strict_zone_check : Bool
  pub elb_security_group : Str
  pub disable_security_group_ingress : Bool
  pub route_table_id : Str

-- The configuration of an empty file.
abbrev pub blank_global : GlobalConfig
blank_global = record {
  zone = [];
  vpc = [];
  subnet_id = [];
  role_arn = [];
  kubernetes_cluster_tag = [];
  kubernetes_cluster_id = [];
  disable_strict_zone_check = false;
  elb_security_group = [];
  disable_security_group_ingress = false;
  route_table_id = [];
}

-- cloud-controller-manager/osc/oapi_vm.go: `VM`, the machine that the manager runs on.
pub record SelfInstance : Type 0 where
  pub vm_id : Str
  pub node_name : Str
  pub availability_zone : Str
  pub vpc_id : Str
  pub subnet_id : Str
  pub instance_type : Str

-- The machine before anything is known of it.
abbrev pub blank_machine : SelfInstance
blank_machine = record {
  vm_id = [];
  node_name = [];
  availability_zone = [];
  vpc_id = [];
  subnet_id = [];
  instance_type = [];
}

pub record Cloud (S : Type 0) : Type 0 where
  pub compute : Compute S
  pub load_balancer : LoadBalancer S
  pub global : GlobalConfig
  pub region : Str
  pub vpc_id : Str
  pub tagging : ResourceTagging
  pub self_instance : SelfInstance
  pub tag_name_env : Option Str
  pub backoff : Backoff S
