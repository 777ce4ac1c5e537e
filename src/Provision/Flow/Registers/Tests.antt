-- ===== src/Provision/Flow/Registers/Tests.antt =====
-- Two nodes whose machines are in the cache, and a load balancer that has another instance.
use cloud_provider_osc.Base.{
  true, false, not, ◌&&◌, Option, none, some, List, [], ◌∷◌, ◌++◌, ◌≡◌, refl, subst, list_eq,
  nat_eq, filter, contains, contains-append, contains-filter, ok, M,
}
use cloud_provider_osc.Base.Dict.{Dict, lookup, insert}
use cloud_provider_osc.Base.Int.{pos}
use cloud_provider_osc.Base.Str.{Str, codes, split, trim, remove_byte}
use cloud_provider_osc.Osc.{Vm, LoadBalancerDescription}
use cloud_provider_osc.Osc.Idle.{blank_vm, idle_compute, idle_load_balancer}
use cloud_provider_osc.Osc.ListSets.{list_sets}
use cloud_provider_osc.Cloud.{Cloud, blank_global, blank_machine}
use cloud_provider_osc.Instances.{
  Node, is_instance_id, map_to_aws_instance_id, map_to_aws_instance_ids_tolerant,
}
use cloud_provider_osc.Instances.Url.{plain_parse}
use cloud_provider_osc.Cache.{
  Snapshot, InstanceCache, is_found, has_all, meets_criteria, find_instances, with_provider_ids,
  describe_all_instances_cached, find_instances_for_elb,
}
use cloud_provider_osc.Cache.Found.{Source, cached}
use cloud_provider_osc.Backends.Registered.{RegistrationService}
use cloud_provider_osc.Balancer.{last_description, describe_load_balancer}
use cloud_provider_osc.Service.{base_name, name_length, shorten, get_load_balancer_name}
use cloud_provider_osc.Provision.{KubeService}
use cloud_provider_osc.Provision.Flow.{sync_ssl_policy, update_load_balancer}
use cloud_provider_osc.Provision.Flow.Registers.{after_registration, update_load_balancer-registers}

-- The state is the list of the instances that are registered.
abbrev World : Type 0
World = List Str

abbrev lb : LoadBalancerDescription
lb = record {
  load_balancer_name = some (codes "ab12");
  dns_name = none;
  subnets = [];
  security_groups = [];
  instances = some (codes "i-9") ∷ [];
  listener_descriptions = [];
  backend_server_descriptions = [];
  health_check = none;
}

abbrev cloud : Cloud World
cloud = record {
  compute = idle_compute;
  load_balancer = record idle_load_balancer {
    describe_load_balancers = λ name s. (ok (lb ∷ []), s);
    register_instances = λ name ids s. (ok tt, s ++ ids);
    deregister_instances = λ name ids s. (ok tt, filter (λ id. not (contains ids id)) s);
  };
  global = blank_global;
  region = [];
  vpc_id = [];
  tagging = record { cluster_id = codes "c"; uses_legacy_tags = false };
  self_instance = blank_machine;
  tag_name_env = none;
  backoff = λ steps condition s. condition s;
}

abbrev registration : RegistrationService cloud.load_balancer (codes "ab12")
registration = record {
  is_registered = contains;
  registered = λ ids s. s ++ ids;
  deregistered = λ ids s. filter (λ id. not (contains ids id)) s;
  registers = λ ids s. refl;
  deregisters = λ ids s. refl;
  is_registered-registered = λ ids s id. contains-append s ids id;
  is_registered-deregistered = λ ids s id. contains-filter (λ i. not (contains ids i)) s id;
}

abbrev vm_of : Str → Vm
vm_of id = record blank_vm { vm_id = some id }

abbrev found : Dict Str Vm
found = (codes "i-1", vm_of (codes "i-1")) ∷ (codes "i-2", vm_of (codes "i-2")) ∷ []

abbrev snapshot : Snapshot
snapshot = record { timestamp = 3; instances = found }

abbrev cache : InstanceCache World
cache = record { snapshot = λ s. some snapshot; store = λ x s. s; now = λ s. (4, s) }

abbrev node_of : Str → Node
node_of id = record { name = id; provider_id = id }

abbrev nodes : List Node
nodes = node_of (codes "i-1") ∷ node_of (codes "i-2") ∷ []

abbrev ids : List Str
ids = codes "i-1" ∷ codes "i-2" ∷ []

abbrev kube : KubeService
kube = record {
  namespaced_name = codes "default/web";
  uid = codes "ab-12";
  annotations = [];
  has_affinity = false;
  ports = [];
  load_balancer_ip = [];
  source_ranges = ok [];
  health_path = [];
  health_node_port = pos 0;
}

abbrev known : Str → Option Vm
known id = lookup id found

abbrev start : World
start = codes "i-9" ∷ []

tolerant_run : ids ≡ map_to_aws_instance_ids_tolerant plain_parse nodes
unfolding map_to_aws_instance_ids_tolerant map_to_aws_instance_id plain_parse is_instance_id trim
    split list_eq nat_eq
tolerant_run = refl

complete_run : has_all snapshot ids ≡ true
unfolding lookup list_eq nat_eq
complete_run = refl

find_run : find_instances_for_elb cloud cache plain_parse nodes start ≡ (ok found, start)
unfolding find_instances_for_elb with_provider_ids describe_all_instances_cached meets_criteria
    find_instances map_to_aws_instance_ids_tolerant map_to_aws_instance_id plain_parse
    is_instance_id trim split lookup insert list_eq nat_eq
find_run = refl

name_run : get_load_balancer_name kube.uid kube.annotations ≡ ok (codes "ab12")
unfolding get_load_balancer_name base_name name_length shorten lookup remove_byte trim nat_eq
    list_eq
name_run = refl

describe_run : describe_load_balancer cloud (codes "ab12") start ≡ (ok (some lb), start)
unfolding describe_load_balancer last_description
describe_run = refl

abbrev find : M World (Dict Str Vm)
find = find_instances_for_elb cloud cache plain_parse nodes

policy_run :
    sync_ssl_policy cloud find list_sets lb (codes "ab12") kube.annotations start ≡ (ok tt, start)
unfolding sync_ssl_policy lookup
policy_run = refl

update_load_balancer-registers_example :
    (w : World) × (update_load_balancer cloud find list_sets kube start
      ≡ after_registration cloud cache plain_parse list_sets nodes lb found w)
    × ((id : Str)
        → contains w id ≡ (
            contains (map_to_aws_instance_ids_tolerant plain_parse nodes) id
            && is_found (known id)))
update_load_balancer-registers_example =
    update_load_balancer-registers cloud cache plain_parse list_sets nodes known lb registration
      kube (codes "ab12") found start start start start (λ e. cc, (λ e. cc, tt))
      (subst (λ l. Source cloud cache l start known) tolerant_run
        (cached snapshot refl complete_run (λ id. refl)))
      find_run name_run describe_run policy_run (λ id. refl)
