-- ===== src/Nodes/Interface.antt =====
-- cloud-controller-manager/osc/ccm_cloud.go: what the manager tells of a node by its name or its
-- provider id: addresses, existence, shutdown, id, type and zone. Parameters: `url.Parse`,
-- `net.ParseIP`, the informer of nodes and the metadata service.
use cloud_provider_osc.Base.{
  Bool, false, not, ◌||◌, Option, none, some, List, [], ◌∷◌, ◌++◌, if◌then◌else◌, ◌==◌, list_eq,
  nat_eq, is_nil, Result, ok, err, panic, Error, aws_error, sdk_error, errorf, instance_not_found,
  M, return, fail, lift, ◌>>=◌, try,
}
use cloud_provider_osc.Base.Str.{Str, codes}
use cloud_provider_osc.Osc.{Vm, str_value, subregion_of}
use cloud_provider_osc.Cloud.{Cloud}
use cloud_provider_osc.Instances.{Location, map_to_aws_instance_id, describe_instance}
use cloud_provider_osc.Nodes.{NodeInformer, get_instance_by_id, get_instance_by_node_name}
use cloud_provider_osc.Nodes.Metadata.{self_addresses}
use cloud_provider_osc.Nodes.Addresses.{NodeAddress, extract_node_addresses}

-- `cloudprovider.Zone`
pub record Zone : Type 0 where
  pub failure_domain : Str
  pub region : Str

abbrev pub exists_in_state : Option Str → Result Bool
exists_in_state none = panic
exists_in_state (some state) = ok (not (state == codes "terminated"))

abbrev pub exists_in : List Vm → Result Bool
exists_in [] = ok false
exists_in (vm ∷ []) = exists_in_state vm.state
exists_in (vm ∷ other ∷ vms) = err (errorf (codes "multiple instances found for instance: "))

abbrev pub is_stopped : Vm → Bool
is_stopped vm = elim vm.state [ none ↦ false | some state ↦ state == codes "stopped" ]

abbrev shutdown_in : List Vm → Result Bool
shutdown_in [] = ok false
shutdown_in (vm ∷ []) = ok (is_stopped vm)
shutdown_in (vm ∷ other ∷ vms) = err (errorf (codes "multiple instances found for instance: "))

module _ {S : Type 0} (c : Cloud S) (parse : Str → Option Location) where
  abbrev read_by_provider_id : (List Vm → Result Bool) → Str → M S Bool
  read_by_provider_id told provider_id = do
    id ← lift (map_to_aws_instance_id parse provider_id)
    vms ←
        c.compute.read_vms (some (record { vm_ids = some (id ∷ []); tag_keys = none; tags = none }))
    lift (told vms)

  unfoldable pub instance_exists_by_provider_id : Str → M S Bool
  instance_exists_by_provider_id = read_by_provider_id exists_in

  pub instance_shutdown_by_provider_id : Str → M S Bool
  instance_shutdown_by_provider_id = read_by_provider_id shutdown_in

  pub instance_type_by_provider_id : Str → M S Str
  instance_type_by_provider_id provider_id = do
    id ← lift (map_to_aws_instance_id parse provider_id)
    vm ← describe_instance c.compute id
    return (str_value vm.vm_type)

  pub node_addresses_by_provider_id : (Str → Option Str) → Str → M S (List NodeAddress)
  node_addresses_by_provider_id parse_ip provider_id = do
    id ← lift (map_to_aws_instance_id parse provider_id)
    vm ← describe_instance c.compute id
    lift (extract_node_addresses parse_ip (some vm))

  pub get_zone : M S Zone
  get_zone =
      return (record { failure_domain = c.self_instance.availability_zone; region = c.region })

  abbrev zone_of : Vm → Zone
  zone_of vm = record { failure_domain = subregion_of vm; region = c.region }

  abbrev zone_of_found : Option Vm → Result Zone
  zone_of_found none = panic
  zone_of_found (some vm) = ok (zone_of vm)

  pub get_zone_by_provider_id : Str → M S Zone
  get_zone_by_provider_id provider_id = do
    id ← lift (map_to_aws_instance_id parse provider_id)
    found ← get_instance_by_id c id
    lift (zone_of_found found)

  module _ (informer : NodeInformer S) where
    abbrev node_failed : {A : Type 0} → Error → M S A
    node_failed e = fail (errorf (codes "getInstanceByNodeName failed for "))

    -- The metadata service tells the addresses of the manager's own machine.
    pub node_addresses : (Str → M S Str) → (Str → Option Str) → Str → M S (List NodeAddress)
    node_addresses metadata parse_ip name =
        if c.self_instance.node_name == name || is_nil name
        then self_addresses metadata
        else try (get_instance_by_node_name c parse informer name)
            (λ vm. lift (extract_node_addresses parse_ip (some vm))) node_failed

    -- The error that there is no instance is passed on as it is.
    abbrev wrap_unless_absent : {A : Type 0} → Error → M S A
    wrap_unless_absent instance_not_found = fail instance_not_found
    wrap_unless_absent (errorf text) = node_failed (errorf text)
    wrap_unless_absent (sdk_error text) = node_failed (sdk_error text)
    wrap_unless_absent (aws_error code text) = node_failed (aws_error code text)

    abbrev slash_id : Str → Str → Str
    slash_id zone id = codes "/" ++ zone ++ codes "/" ++ id

    pub instance_id : Str → M S Str
    instance_id name =
        if c.self_instance.node_name == name
        then return (slash_id c.self_instance.availability_zone c.self_instance.vm_id)
        else try (get_instance_by_node_name c parse informer name)
            (λ vm. return (slash_id (subregion_of vm) (str_value vm.vm_id))) wrap_unless_absent

    pub instance_type : Str → M S Str
    instance_type name =
        if c.self_instance.node_name == name
        then return c.self_instance.instance_type
        else try (get_instance_by_node_name c parse informer name)
            (λ vm. return (str_value vm.vm_type)) node_failed

    pub get_zone_by_node_name : Str → M S Zone
    get_zone_by_node_name name = do
      vm ← get_instance_by_node_name c parse informer name
      return (zone_of vm)
