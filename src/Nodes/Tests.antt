-- ===== src/Nodes/Tests.antt =====
-- A node whose machine is terminated, for both interfaces, and the addresses of a machine.
use cloud_provider_osc.Base.{
  ℕ, false, none, some, List, [], ◌∷◌, ◌≡◌, refl, sym, true, ◌↔◌, list_eq, nat_eq, ok, panic,
}
use cloud_provider_osc.Base.Str.{codes, split, trim}
use cloud_provider_osc.Osc.{Vm}
use cloud_provider_osc.Osc.Idle.{blank_vm, idle_compute, idle_load_balancer}
use cloud_provider_osc.Tags.{cluster_tag_key}
use cloud_provider_osc.Cloud.{Cloud, blank_global, blank_machine}
use cloud_provider_osc.Instances.{
  Node, is_instance_id, map_to_aws_instance_id, parse_instance_id_from_provider_id_v2,
}
use cloud_provider_osc.Instances.Url.{plain_parse}
use cloud_provider_osc.Nodes.Addresses.{
  node_address, internal_ip, external_ip, internal_dns, host_name, extract_node_addresses,
  parse_metadata_local_hostname, az_to_region,
}
use cloud_provider_osc.Nodes.Metadata.{path_join}
use cloud_provider_osc.Nodes.Interface.{instance_exists_by_provider_id}
use cloud_provider_osc.Nodes.Version2.{
  InstancesV2, matching, node_filters, get_instance, instance_exists,
}
use cloud_provider_osc.Nodes.Gone.{IsGone, instance_exists-IsGone}
use cloud_provider_osc.Nodes.Agree.{outcome, has_key, with_key, instance_exists_agree}

abbrev gone_vm : Vm
gone_vm = record blank_vm {
  vm_id = some (codes "i-1");
  state = some (codes "terminated");
  private_dns_name = some (codes "ip-10-0-0-1");
  tags = some (record { key = codes "OscK8sClusterID/c"; value = codes "owned" } ∷ []);
}

abbrev by_name : Node
by_name = record { name = codes "ip-10-0-0-1"; provider_id = [] }

abbrev by_id : Node
by_id = record { name = codes "ip-10-0-0-1"; provider_id = codes "aws:///a/i-1" }

abbrev client : InstancesV2 ℕ
client = record {
  read_vms = λ filters s. (ok (some (gone_vm ∷ [])), s);
  tags = record { cluster_id = codes "c"; uses_legacy_tags = false };
}

abbrev cloud : Cloud ℕ
cloud = record {
  compute = record idle_compute { read_vms = λ filters s. (ok (gone_vm ∷ []), s) };
  load_balancer = idle_load_balancer;
  global = blank_global;
  region = codes "eu";
  vpc_id = [];
  tagging = client.tags;
  self_instance = blank_machine;
  tag_name_env = none;
  backoff = λ steps condition s. condition s;
}

gone_run : instance_exists client by_name 4 ≡ (ok false, 4)
unfolding instance_exists get_instance matching list_eq nat_eq
gone_run = refl

instance_exists-IsGone_example : (instance_exists client by_name 4 ≡ (ok false, 4)) ↔ (
    (vms : List Vm) × (client.read_vms (node_filters client by_name) 4 ≡ (ok (some vms), 4))
    × IsGone (matching by_name vms))
instance_exists-IsGone_example = instance_exists-IsGone client by_name 4 4

taken_run : map_to_aws_instance_id plain_parse by_id.provider_id ≡ ok (codes "i-1")
unfolding map_to_aws_instance_id plain_parse is_instance_id trim split list_eq nat_eq
taken_run = refl

taken_v2_run : parse_instance_id_from_provider_id_v2 by_id.provider_id ≡ codes "i-1"
unfolding parse_instance_id_from_provider_id_v2
taken_v2_run = refl

tagged_run : has_key (cluster_tag_key client.tags) gone_vm ≡ true
unfolding cluster_tag_key list_eq nat_eq
tagged_run = refl

filtered_run :
    with_key {S = ℕ} (cluster_tag_key client.tags) (ok (gone_vm ∷ []), 4)
    ≡ (ok (some (gone_vm ∷ [])), 4)
unfolding cluster_tag_key list_eq nat_eq
filtered_run = refl

instance_exists_agree_example :
    outcome (instance_exists_by_provider_id cloud plain_parse by_id.provider_id 4)
    ≡ outcome (instance_exists client by_id 4)
instance_exists_agree_example =
    instance_exists_agree client cloud plain_parse by_id (codes "i-1") 4 (λ e. cc) taken_run
      taken_v2_run (sym filtered_run) (tagged_run, tt)

-- A machine without a state is dereferenced.
stateless_run :
    instance_exists_by_provider_id
      (record cloud {
        compute = record idle_compute { read_vms = λ filters s. (ok (blank_vm ∷ []), s) };
      })
      plain_parse
      by_id.provider_id
      4
    ≡ (panic, 4)
unfolding instance_exists_by_provider_id map_to_aws_instance_id plain_parse is_instance_id trim
    split list_eq nat_eq
stateless_run = refl

addresses_run :
    extract_node_addresses
      (λ ip. some ip)
      (some (record gone_vm {
        private_ip = some (codes "10.0.0.1");
        public_ip = some (codes "1.2.3.4");
      }))
    ≡ ok (
        node_address internal_ip (codes "10.0.0.1")
        ∷ node_address external_ip (codes "1.2.3.4")
        ∷ node_address internal_dns (codes "ip-10-0-0-1")
        ∷ node_address host_name (codes "ip-10-0-0-1")
        ∷ [])
unfolding extract_node_addresses list_eq nat_eq
addresses_run = refl

hostname_run :
    parse_metadata_local_hostname (codes "ip-1.eu.internal a.a b.b")
    ≡ ok (
      codes "ip-1.eu.internal",
      codes "ip-1.eu.internal" ∷ codes "ip-1.a.a" ∷ codes "ip-1.b.b" ∷ [],
    )
unfolding parse_metadata_local_hostname
hostname_run = refl

blank_hostname_run : parse_metadata_local_hostname (codes " ") ≡ panic
unfolding parse_metadata_local_hostname
blank_hostname_run = refl

region_run : az_to_region (codes "eu-west-2a") ≡ ok (codes "eu-west-2")
unfolding az_to_region
region_run = refl

path_run :
    path_join (codes "network/interfaces/macs//0a:1b//local-ipv4s")
    ≡ codes "network/interfaces/macs/0a:1b/local-ipv4s"
unfolding path_join
path_run = refl
