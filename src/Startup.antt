-- ===== src/Startup.antt =====
-- cloud-controller-manager/osc/ccm.go, metadata.go: how the manager starts. Parameters: the services
-- of the SDKs, which make the clients, the regions that the SDK knows, and the client of
-- instances_v2.go. Child module: `Identity` for what a manager that starts knows of itself.
pub mod Identity
mod Tests
use cloud_provider_osc.Base.{
  ℕ, Bool, true, false, not, ◌&&◌, ◌||◌, Option, none, some, List, [], ◌∷◌, if◌then◌else◌, ◌==◌,
  ◌!=◌, list_eq, nat_eq, is_nil, Result, ok, err, panic, and_then, Error, errorf, M, return, fail,
  lift, continue_with, handle_with, ◌>>=◌, ◌>>◌, try,
}
use cloud_provider_osc.Base.Str.{Str, codes}
use cloud_provider_osc.Osc.{ResourceTag, Vm, Compute, LoadBalancer, FiltersVm}
use cloud_provider_osc.Tags.{ResourceTagging, Backoff, init, init_from_tags}
use cloud_provider_osc.Cloud.{GlobalConfig, SelfInstance, Cloud, blank_machine}
use cloud_provider_osc.Instances.{describe_instance}
use cloud_provider_osc.Nodes.Addresses.{az_to_region}
use cloud_provider_osc.Nodes.Metadata.{
  get_availability_zone, update_config_zone, build_self_aws_instance,
}
use cloud_provider_osc.Nodes.Version2.{InstancesV2}

-- `EC2Metadata`, as far as it is used.
pub record Ec2Metadata (S : Type 0) : Type 0 where
  pub available : S → Bool
  pub get_metadata : Str → M S Str

-- `Metadata`
pub record Metadata : Type 0 where
  pub instance_id : Str
  pub instance_type : Str
  pub region : Str
  pub availability_zone : Str

abbrev nonempty_or : {S : Type 0} → Str → Str → M S Str
nonempty_or problem text = if is_nil text then fail (errorf problem) else return text

-- A query that must give a text that is not empty.
abbrev query : {S : Type 0} → Ec2Metadata S → Str → Str → M S Str
query svc path problem =
    try (svc.get_metadata path) (nonempty_or problem) (λ e. fail (errorf problem))

-- `NewMetadataService`
unfoldable pub new_metadata_service : {S : Type 0} → Ec2Metadata S → M S Metadata
new_metadata_service svc s =
    (if not (svc.available s)
        then fail (errorf (codes "EC2 instance metadata is not available"))
        else (do
          id ← query svc (codes "instance-id") (codes "could not get valid EC2 instance ID")
          type ← query svc (codes "instance-type") (codes "could not get valid EC2 instance type")
          zone ←
              query svc (codes "placement/availability-zone")
                (codes "could not get valid EC2 availavility zone")
          cut ← lift (az_to_region zone)
          region ← nonempty_or (codes "could not get valid EC2 region") cut
          return (record {
            instance_id = id;
            instance_type = type;
            region = region;
            availability_zone = zone;
          })))
      s

-- `Services` of oapi_itf.go, which the SDKs stand behind.
pub record Services (S : Type 0) : Type 0 where
  pub metadata : M S (Ec2Metadata S)
  pub compute : Str → M S (Compute S)
  pub load_balancing : Str → M S (LoadBalancer S)
  pub known_region : Str → Bool
  pub vm_client : Str → M S (FiltersVm → M S (Option (List Vm)))

abbrev or_error : {S A : Type 0} → Str → M S A → M S A
or_error problem call = try call return (λ e. fail (errorf problem))

abbrev same_region : Str → Result Str → Bool
same_region region (ok r) = region == r
same_region region r = false

-- `isRegionValid`: a region that the SDK knows, the one that it leaves out, or the machine's own.
pub is_region_valid : {S : Type 0} → Services S → Ec2Metadata S → Str → M S Bool
is_region_valid services metadata region =
    if services.known_region region
    then return true
    else if region == codes "ap-northeast-3"
    then return true
    else try (get_availability_zone metadata.get_metadata)
        (λ az. return (same_region region (az_to_region az))) (λ e. return false)

-- The tagging after an initialisation, which works on the tagging alone.
abbrev pub finished : Result (Unit {0}) × ResourceTagging → Result ResourceTagging
finished (ok done, t) = ok t
finished (err e, t) = err e
finished (panic, t) = panic

abbrev pub no_tagging : ResourceTagging
no_tagging = record { cluster_id = []; uses_legacy_tags = false }

abbrev pub initialised : M ResourceTagging (Unit {0}) → Result ResourceTagging
initialised start = finished (start no_tagging)

abbrev is_tagged : GlobalConfig → Bool
is_tagged cfg = cfg.kubernetes_cluster_tag != [] || cfg.kubernetes_cluster_id != []

-- Whether the manager runs outside of the cluster's network.
abbrev is_remote : GlobalConfig → Bool
is_remote cfg = cfg.vpc != [] && (cfg.subnet_id != [] || cfg.role_arn != []) && is_tagged cfg

abbrev check_zone : {S : Type 0} → Str → M S Str
check_zone [] = fail (errorf (codes "invalid OSC zone in config file: "))
check_zone (c ∷ []) = fail (errorf (codes "invalid OSC zone in config file: "))
check_zone (c ∷ d ∷ zone) = lift (az_to_region (c ∷ d ∷ zone))

module _ {S : Type 0} (services : Services S) (env : Option Str) (backoff : Backoff S) where
  abbrev check_region : GlobalConfig → Ec2Metadata S → Str → M S (Unit {0})
  check_region cfg metadata region =
      if cfg.disable_strict_zone_check
      then return tt
      else is_region_valid services metadata region >>= λ valid.
          if valid
          then return tt
          else fail (errorf (codes "not a valid AWS zone (unknown region): "))

  -- The machine that the manager takes itself to run on.
  pub self_of : Cloud S → GlobalConfig → Ec2Metadata S → M S SelfInstance
  self_of c cfg metadata =
      if is_remote cfg
      then return (record blank_machine {
        node_name = codes "master-dummy";
        vpc_id = cfg.vpc;
        subnet_id = cfg.subnet_id;
      })
      else build_self_aws_instance metadata.get_metadata c none

  -- The pointer to the machine's tags is dereferenced.
  abbrev tagging_from : Option (List ResourceTag) → Result ResourceTagging
  tagging_from none = panic
  tagging_from (some tags) = initialised (init_from_tags env tags)

  pub tagging_of : Cloud S → GlobalConfig → SelfInstance → M S ResourceTagging
  tagging_of c cfg self =
      if is_tagged cfg
      then lift (initialised (init cfg.kubernetes_cluster_tag cfg.kubernetes_cluster_id))
      else describe_instance c.compute self.vm_id >>= λ vm. lift (tagging_from vm.tags)

  abbrev new_instances_v2 : Str → ResourceTagging → M S (InstancesV2 S)
  new_instances_v2 zone tagging = do
    region ← lift (az_to_region zone)
    client ← services.vm_client region
    return (record { read_vms = client; tags = tagging })

  abbrev cloud_with :
      GlobalConfig → Str → Compute S → LoadBalancer S → SelfInstance → ResourceTagging → Cloud S
  cloud_with cfg region compute load_balancer self tagging = record {
    compute = compute;
    load_balancer = load_balancer;
    global = cfg;
    region = region;
    vpc_id = self.vpc_id;
    tagging = tagging;
    self_instance = self;
    tag_name_env = env;
    backoff = backoff;
  }

  -- The part after the region is known.
  unfoldable pub cloud_in : GlobalConfig → Ec2Metadata S → Str → M S (Cloud S × InstancesV2 S)
  cloud_in cfg metadata region = do
    compute ← or_error (codes "error creating OSC EC2 client: ") (services.compute region)
    elb ← or_error (codes "error creating OSC ELB client: ") (services.load_balancing region)
    self ← self_of (cloud_with cfg region compute elb blank_machine no_tagging) cfg metadata
    tagging ← tagging_of (cloud_with cfg region compute elb self no_tagging) cfg self
    v2 ← new_instances_v2 cfg.zone tagging
    return (cloud_with cfg region compute elb self tagging, v2)

  unfoldable pub new_cloud : GlobalConfig → M S (Cloud S × InstancesV2 S)
  new_cloud config = do
    metadata ← or_error (codes "error creating OSC metadata client: ") services.metadata
    zone ←
        or_error
          (codes
            "unable to determine OSC zone from cloud provider config or EC2 instance metadata: ")
          (update_config_zone (some metadata.get_metadata) config.zone)
    region ← check_zone zone
    check_region config metadata region
    cloud_in (record config { zone = zone }) metadata region
