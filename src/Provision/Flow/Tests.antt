-- ===== src/Provision/Flow/Tests.antt =====
-- A service that is turned down, and one whose instances cannot be registered.
use cloud_provider_osc.Base.{
  ℕ, true, false, none, some, [], ◌∷◌, ◌≡◌, refl, inl, inr, arith, list_eq, nat_eq, ok, err, Error,
  errorf, sdk_error, M,
}
use cloud_provider_osc.Base.Dict.{Dict, lookup}
use cloud_provider_osc.Base.Int.{pos, int_eq}
use cloud_provider_osc.Base.Str.{Str, codes, trim, remove_byte}
use cloud_provider_osc.Osc.{Vm, LoadBalancerDescription, SecurityGroupRule}
use cloud_provider_osc.Osc.Idle.{blank_vm, idle_compute, idle_load_balancer}
use cloud_provider_osc.Osc.ListSets.{list_sets}
use cloud_provider_osc.Cloud.{Cloud, blank_global, blank_machine}
use cloud_provider_osc.Backends.{register_all, deregister_all, ensure_load_balancer_instances}
use cloud_provider_osc.Balancer.{last_description, describe_load_balancer}
use cloud_provider_osc.Listener.{ServicePort}
use cloud_provider_osc.Rules.JsonText.{rule_eq}
use cloud_provider_osc.Service.{base_name, name_length, shorten, get_load_balancer_name}
use cloud_provider_osc.Provision.{KubeService, listeners_of, check_service}
use cloud_provider_osc.Provision.Flow.{
  must_exist, sync_ssl_policy, sync_instances, ensure_load_balancer_for, update_load_balancer,
}
use cloud_provider_osc.Provision.Flow.Errors.{ensure_load_balancer_for-rejected}

abbrev udp_port : ServicePort
udp_port = record {
  name = codes "web";
  protocol = codes "UDP";
  port = pos 80;
  node_port = pos 30080;
}

abbrev udp : KubeService
udp = record {
  namespaced_name = codes "default/web";
  uid = codes "ab-12";
  annotations = [];
  has_affinity = false;
  ports = udp_port ∷ [];
  load_balancer_ip = [];
  source_ranges = ok (codes "0.0.0.0/0" ∷ []);
  health_path = [];
  health_node_port = pos 0;
}

abbrev only_tcp : Error
only_tcp = errorf (codes "Only TCP LoadBalancer is supported for AWS ELB")

udp_run : check_service udp ≡ err only_tcp
unfolding check_service listeners_of list_eq nat_eq int_eq
udp_run = refl

abbrev lb : LoadBalancerDescription
lb = record {
  load_balancer_name = some (codes "ab12");
  dns_name = some (codes "lb.example");
  subnets = [];
  security_groups = [];
  instances = [];
  listener_descriptions = [];
  backend_server_descriptions = [];
  health_check = none;
}

abbrev refused : Error
refused = sdk_error (codes "unavailable")

-- A cloud that has the load balancer, and where the registration fails.
abbrev cloud : Cloud ℕ
cloud = record {
  compute = idle_compute;
  load_balancer = record idle_load_balancer {
    describe_load_balancers = λ name s. (ok (lb ∷ []), s);
  };
  global = blank_global;
  region = [];
  vpc_id = [];
  tagging = record { cluster_id = codes "c"; uses_legacy_tags = false };
  self_instance = blank_machine;
  tag_name_env = none;
  backoff = λ steps condition s. condition s;
}

abbrev instances : Dict Str Vm
instances = (codes "i-1", record blank_vm { vm_id = some (codes "i-1") }) ∷ []

abbrev find : M ℕ (Dict Str Vm)
find s = (ok instances, s)

ensure_load_balancer_for-rejected_example :
    (problem : Error) × (ensure_load_balancer_for cloud find list_sets
        (λ check. true)
        (λ l r. true)
        SecurityGroupRule
        (λ r. r)
        udp
        7
      ≡ (err problem, 7))
ensure_load_balancer_for-rejected_example =
    ensure_load_balancer_for-rejected cloud find list_sets (λ check. true) (λ l r. true)
      SecurityGroupRule (λ r. r) udp 7 (inr (inr (inl (inl (λ h. absurd (ground arith))))))

name_run : get_load_balancer_name udp.uid udp.annotations ≡ ok (codes "ab12")
unfolding get_load_balancer_name base_name name_length shorten lookup remove_byte trim nat_eq
    list_eq
name_run = refl

describe_run : describe_load_balancer cloud (codes "ab12") 7 ≡ (ok (some lb), 7)
unfolding describe_load_balancer last_description
describe_run = refl

policy_run : sync_ssl_policy cloud find list_sets lb (codes "ab12") udp.annotations 7 ≡ (ok tt, 7)
unfolding sync_ssl_policy lookup
policy_run = refl

instances_run : sync_instances cloud find list_sets lb instances 7 ≡ (err refused, 7)
unfolding sync_instances ensure_load_balancer_instances register_all deregister_all list_eq nat_eq
instances_run = refl

-- The error of the registration is lost.
unregistered_run : update_load_balancer cloud find list_sets udp 7 ≡ (ok tt, 7)
unfolding update_load_balancer must_exist
unregistered_run = rw name_run (rw describe_run (rw policy_run (rw instances_run refl)))
