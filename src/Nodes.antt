-- ===== src/Nodes.antt =====
-- cloud-controller-manager/osc/ccm_cloud.go: the instance of a node, by its id or its name. Child
-- modules: `Addresses` for the addresses of an instance, `Metadata` for those of the manager's own, `Interface` for what the manager tells of a
-- node, `Version2` for instances_v2.go, `Gone` for what says that a node is gone.
pub mod Addresses
pub mod Version2
pub mod Metadata
pub mod Interface
pub mod Gone
pub mod Agree
mod Tests
use cloud_provider_osc.Base.{
  ℕ, Bool, true, false, not, ◌&&◌, ◌||◌, Option, none, some, List, [], ◌∷◌, ◌++◌, if◌then◌else◌,
  ◌==◌, ◌!=◌, list_eq, nat_eq, is_nil, filter, contains, Result, ok, err, panic, and_then, errorf,
  instance_not_found, M, return, fail, lift, continue_with, handle_with, ◌>>=◌, try,
}
use cloud_provider_osc.Base.Dict.{Dict, keys, lookup, insert}
use cloud_provider_osc.Base.Str.{Str, codes}
use cloud_provider_osc.Osc.{Vm, FiltersVm, str_value}
use cloud_provider_osc.Tags.{has_cluster_tag, cluster_tag_key}
use cloud_provider_osc.Cloud.{Cloud}
use cloud_provider_osc.Instances.{Node, Location, map_to_aws_instance_id}

-- TagNameClusterNode
abbrev pub tag_name_cluster_node : Str
tag_name_cluster_node = codes "OscK8sNodeName"

-- The informer of nodes, a cache of the Kubernetes client: whether it is set and has synced, and its
-- lister.
pub record NodeInformer (S : Type 0) : Type 0 where
  pub has_synced : S → Bool
  pub get : Str → S → Result Node

-- The loop of `getInstancesByIDs`: the last machine of an id stays.
unfoldable pub note_by_id : List Vm → Dict Str Vm → Dict Str Vm
note_by_id [] found = found
note_by_id (vm ∷ vms) found =
    let id = str_value vm.vm_id in note_by_id vms (if id == [] then found else insert id vm found)

module _ {S : Type 0} (c : Cloud S) where
  -- The loop of `describeInstances`.
  unfoldable pub tagged_instances : List Vm → Result (List Vm)
  tagged_instances [] = ok []
  tagged_instances (vm ∷ vms) = and_then (has_cluster_tag c.tagging vm.tags) (λ tagged.
      and_then (tagged_instances vms) (λ matches. ok (if tagged then vm ∷ matches else matches)))

  unfoldable pub describe_instances : Option FiltersVm → M S (List Vm)
  describe_instances filters = do vms ← c.compute.read_vms filters; lift (tagged_instances vms)

  unfoldable pub get_instances_by_ids : Option (List Str) → M S (Dict Str Vm)
  get_instances_by_ids none = return []
  get_instances_by_ids (some []) = return []
  get_instances_by_ids (some (id ∷ ids)) = do
    vms ←
        c.compute.read_vms
          (some (record { vm_ids = some (id ∷ ids); tag_keys = none; tags = none }))
    return (note_by_id vms [])

  -- A machine of another id leaves the id's place in the map empty: the result is then nil.
  abbrev pub the_one : Str → Dict Str Vm → M S (Option Vm)
  the_one id [] = fail instance_not_found
  the_one id (entry ∷ []) = return (lookup id (entry ∷ []))
  the_one id (entry ∷ other ∷ found) =
      fail (errorf (codes "multiple instances found for instance: "))

  unfoldable pub get_instance_by_id : Str → M S (Option Vm)
  get_instance_by_id id = do found ← get_instances_by_ids (some (id ∷ [])); the_one id found

  -- Without states every machine passes. The result is nil where it has none.
  pub get_instances_by_node_names : List Str → List Str → M S (List Vm)
  get_instances_by_node_names names states = do
    vms ← describe_instances (some (record { vm_ids = none; tag_keys = none; tags = none }))
    return (
        filter
          (λ vm.
            contains names (str_value vm.private_dns_name)
            && (is_nil states || contains states (str_value vm.state)))
          vms)

  abbrev pub alive_state : Vm → Option Str → Result (Option Vm)
  alive_state vm none = panic
  alive_state vm (some state) = ok (if state == codes "terminated" then none else some vm)

  abbrev pub alive_one : List Vm → Result (Option Vm)
  alive_one [] = ok none
  alive_one (vm ∷ []) = alive_state vm vm.state
  alive_one (vm ∷ other ∷ vms) = err (errorf (codes "multiple instances found for name: "))

  -- `mapNodeNameToPrivateDNSName` is the name itself.
  unfoldable pub find_instance_by_node_name : Str → M S (Option Vm)
  find_instance_by_node_name name = do
    vms ← describe_instances (
        some (record {
          vm_ids = none;
          tag_keys = some (cluster_tag_key c.tagging ∷ []);
          tags = some ((tag_name_cluster_node ++ codes "=" ++ name) ∷ []);
        }))
    lift (alive_one vms)

  module _ (parse : Str → Option Location) (informer : NodeInformer S) where
    abbrev id_of_node : Node → Result Str
    id_of_node node =
        if node.provider_id == []
        then err (errorf (codes "node has no providerID"))
        else map_to_aws_instance_id parse node.provider_id

    unfoldable pub node_name_to_provider_id : Str → M S Str
    node_name_to_provider_id name s = (
      if name == []
          then err (errorf (codes "no nodeName provided"))
          else if not (informer.has_synced s)
          then err (errorf (codes "node informer has not synced yet"))
          else and_then (informer.get name s) id_of_node,
      s,
    )

    abbrev pub or_not_found : Option Vm → M S Vm
    or_not_found none = fail instance_not_found
    or_not_found (some vm) = return vm

    -- By the id that the informer has for the node, or else by the node's name.
    unfoldable pub get_instance_by_node_name : Str → M S Vm
    get_instance_by_node_name name =
        try (node_name_to_provider_id name) get_instance_by_id
          (λ e. find_instance_by_node_name name)
        >>= or_not_found
