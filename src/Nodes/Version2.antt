-- ===== src/Nodes/Version2.antt =====
-- cloud-controller-manager/osc/instances_v2.go: what the manager tells of a node. The client that it
-- makes of its own is a parameter: its answer to a request may have no machines (`HasVms`).
use cloud_provider_osc.Base.{
  Bool, true, false, ◌&&◌, Option, none, some, List, [], ◌∷◌, map, if◌then◌else◌, ◌==◌, list_eq,
  nat_eq, is_nil, filter, concat_map, Result, ok, err, panic, and_then, Error, aws_error, sdk_error,
  errorf, instance_not_found, M, return, fail, lift, ◌>>=◌, try,
}
use cloud_provider_osc.Base.Str.{Str, codes}
use cloud_provider_osc.Osc.{ResourceTag, Vm, FiltersVm, str_value, list_value, subregion_of}
use cloud_provider_osc.Tags.{ResourceTagging, cluster_tag_key}
use cloud_provider_osc.Instances.{
  Node, get_instance_provider_id_v2, parse_instance_id_from_provider_id_v2,
}
use cloud_provider_osc.Nodes.{tag_name_cluster_node}
use cloud_provider_osc.Nodes.Addresses.{NodeAddress, extract_node_addresses, az_to_region}

pub record InstancesV2 (S : Type 0) : Type 0 where
  pub read_vms : FiltersVm → M S (Option (List Vm))
  pub tags : ResourceTagging

abbrev is_name_tag : Str → ResourceTag → Bool
is_name_tag name tag = tag.key == tag_name_cluster_node && tag.value == name

-- A machine stands once for each of its tags with the name.
abbrev named_by_tag : Str → List Vm → List Vm
named_by_tag name =
    concat_map (λ vm. map (λ tag. vm) (filter (is_name_tag name) (list_value vm.tags)))

-- The machines of the answer that are the node's.
unfoldable pub matching : Node → List Vm → List Vm
matching node vms =
    let by_name = filter (λ vm. str_value vm.private_dns_name == node.name) vms in
    if node.provider_id == []
    then (if is_nil by_name then named_by_tag node.name vms else by_name)
    else vms

abbrev pub alive_instance : Vm → Option Str → Result Vm
alive_instance vm none = panic
alive_instance vm (some state) =
    if state == codes "terminated" then err instance_not_found else ok vm

abbrev pub the_alive : List Vm → Result Vm
the_alive [] = err instance_not_found
the_alive (vm ∷ []) = alive_instance vm vm.state
the_alive (vm ∷ other ∷ vms) = err (errorf (codes "getInstance: multiple instances found"))

pub record InstanceMetadata : Type 0 where
  pub provider_id : Str
  pub instance_type : Str
  pub node_addresses : List NodeAddress
  pub zone : Str
  pub region : Str

module _ {S : Type 0} (i : InstancesV2 S) where
  unfoldable pub node_filters : Node → FiltersVm
  node_filters node = record {
    vm_ids =
        if node.provider_id == []
        then none
        else some (parse_instance_id_from_provider_id_v2 node.provider_id ∷ []);
    tag_keys = some (cluster_tag_key i.tags ∷ []);
    tags = none;
  }

  abbrev pub describing_failed : {A : Type 0} → M S A
  describing_failed = fail (errorf (codes "error describing ec2 instances: "))

  abbrev pub instance_of : Node → Option (List Vm) → M S Vm
  instance_of node none = describing_failed
  instance_of node (some vms) = lift (the_alive (matching node vms))

  unfoldable pub get_instance : Node → M S Vm
  get_instance node =
      try (i.read_vms (node_filters node)) (instance_of node) (λ e. describing_failed)

  abbrev pub absent_or_fail : Error → M S Bool
  absent_or_fail instance_not_found = return false
  absent_or_fail (errorf text) = fail (errorf text)
  absent_or_fail (sdk_error text) = fail (sdk_error text)
  absent_or_fail (aws_error code text) = fail (aws_error code text)

  unfoldable pub instance_exists : Node → M S Bool
  instance_exists node = try (get_instance node) (λ vm. return true) absent_or_fail

  unfoldable pub instance_shutdown : Node → M S Bool
  instance_shutdown node = do
    vm ← get_instance node
    return (elim vm.state [ none ↦ false | some state ↦ state == codes "stopped" ])

  metadata_of : (Str → Option Str) → Vm → Result InstanceMetadata
  metadata_of parse_ip vm = and_then (extract_node_addresses parse_ip (some vm)) (λ addresses.
      and_then (get_instance_provider_id_v2 vm) (λ provider_id.
        and_then (az_to_region (subregion_of vm)) (λ region. ok (record {
          provider_id = provider_id;
          instance_type = str_value vm.vm_type;
          node_addresses = addresses;
          zone = subregion_of vm;
          region = region;
        }))))

  unfoldable pub instance_metadata : (Str → Option Str) → Node → M S InstanceMetadata
  unfolding metadata_of
  instance_metadata parse_ip node = do vm ← get_instance node; lift (metadata_of parse_ip vm)
