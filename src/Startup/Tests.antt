-- ===== src/Startup/Tests.antt =====
-- A manager that runs outside of its cluster, and a metadata service without a zone.
use cloud_provider_osc.Base.{
  ℕ, true, false, none, [], ◌≡◌, ◌≢◌, refl, list_eq, nat_eq, ok, err, errorf,
}
use cloud_provider_osc.Base.Str.{codes}
use cloud_provider_osc.Osc.Idle.{idle_compute, idle_load_balancer}
use cloud_provider_osc.Tags.{ResourceTagging, Backoff, init}
use cloud_provider_osc.Cloud.{GlobalConfig, Cloud, blank_global, blank_machine}
use cloud_provider_osc.Nodes.Addresses.{az_to_region}
use cloud_provider_osc.Nodes.Metadata.{update_config_zone}
use cloud_provider_osc.Nodes.Version2.{InstancesV2}
use cloud_provider_osc.Startup.{
  Ec2Metadata, Services, new_metadata_service, is_region_valid, self_of, tagging_of, cloud_in,
  new_cloud,
}
use cloud_provider_osc.Startup.Identity.{new_cloud-identified}

abbrev silent : Ec2Metadata ℕ
silent = record { available = λ s. true; get_metadata = λ path s. (ok [], s) }

abbrev services : Services ℕ
services = record {
  metadata = λ s. (ok silent, s);
  compute = λ region s. (ok idle_compute, s);
  load_balancing = λ region s. (ok idle_load_balancer, s);
  known_region = λ region. true;
  vm_client = λ region s. (ok (λ filters u. (ok none, u)), s);
}

abbrev config : GlobalConfig
config = record blank_global {
  zone = codes "eu-west-2a";
  vpc = codes "vpc-1";
  subnet_id = codes "subnet-1";
  kubernetes_cluster_id = codes "c1";
}

abbrev backoff : Backoff ℕ
backoff steps condition s = condition s

abbrev tagging : ResourceTagging
tagging = record { cluster_id = codes "c1"; uses_legacy_tags = false }

abbrev cloud : Cloud ℕ
cloud = record {
  compute = idle_compute;
  load_balancer = idle_load_balancer;
  global = config;
  region = codes "eu-west-2";
  vpc_id = codes "vpc-1";
  tagging = tagging;
  self_instance = record blank_machine {
    node_name = codes "master-dummy";
    vpc_id = codes "vpc-1";
    subnet_id = codes "subnet-1";
  };
  tag_name_env = none;
  backoff = backoff;
}

abbrev v2 : InstancesV2 ℕ
v2 = record { read_vms = λ filters u. (ok none, u); tags = tagging }

start_run : new_cloud services none backoff config 5 ≡ (ok (cloud, v2), 5)
unfolding new_cloud cloud_in self_of tagging_of is_region_valid update_config_zone az_to_region init
    list_eq nat_eq
start_run = refl

new_cloud-identified_example : (cloud.tagging.cluster_id ≢ []) × (cloud.region ≢ [])
new_cloud-identified_example =
    new_cloud-identified services none backoff config 5 5 cloud v2 start_run

silent_run :
    new_metadata_service silent 5 ≡ (err (errorf (codes "could not get valid EC2 instance ID")), 5)
unfolding new_metadata_service
silent_run = refl
