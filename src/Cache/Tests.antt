-- ===== src/Cache/Tests.antt =====
-- Two machines, of which the cache has one.
use cloud_provider_osc.Base.{
  ℕ, ◌≤◌, ◌+◌, false, none, some, Option, List, [], ◌∷◌, ◌≡◌, refl, list_eq, nat_eq, subst, All, ok,
}
use cloud_provider_osc.Base.Dict.{lookup, insert}
use cloud_provider_osc.Base.Str.{Str, codes, split, trim}
use cloud_provider_osc.Osc.{Vm}
use cloud_provider_osc.Osc.Idle.{blank_vm, idle_compute, idle_load_balancer}
use cloud_provider_osc.Cloud.{Cloud, blank_global, blank_machine}
use cloud_provider_osc.Tags.{has_cluster_tag}
use cloud_provider_osc.Instances.{
  Node, is_instance_id, map_to_aws_instance_id, map_to_aws_instance_ids_tolerant,
}
use cloud_provider_osc.Instances.Url.{plain_parse}
use cloud_provider_osc.Nodes.{describe_instances, tagged_instances}
use cloud_provider_osc.Cache.{
  Snapshot, InstanceCache, keep_newest, index_by_id, find_instances, find_instances_for_elb,
  with_provider_ids, describe_all_instances_cached, meets_criteria, describe_all_instances_uncached,
}
use cloud_provider_osc.Cache.Newest.{after_fetches, IsNoNewer, IsAmong, after_fetches-newest}
use cloud_provider_osc.Cache.Found.{
  last_of, cached_from, Source, fetched, Finds, find_instances_for_elb-Finds,
}

abbrev vm_of : Str → Vm
vm_of id = record blank_vm { vm_id = some id; tags = some [] }

abbrev snapshot_at : ℕ → Snapshot
snapshot_at time = record { timestamp = time; instances = (codes "i-1", vm_of (codes "i-1")) ∷ [] }

-- The fetch that ends last began first, and is not kept.
late_run : after_fetches none (snapshot_at 7 ∷ snapshot_at 5 ∷ []) ≡ some (snapshot_at 7)
unfolding keep_newest
late_run = refl

after_fetches-newest_example :
    (kept : Snapshot) × (after_fetches (some (snapshot_at 3)) (snapshot_at 7 ∷ snapshot_at 5 ∷ [])
      ≡ some kept)
    × IsNoNewer (some (snapshot_at 3)) kept
    × All (λ f. f.timestamp ≤ kept.timestamp) (snapshot_at 7 ∷ snapshot_at 5 ∷ [])
    × IsAmong kept (some (snapshot_at 3)) (snapshot_at 7 ∷ snapshot_at 5 ∷ [])
after_fetches-newest_example =
    after_fetches-newest (some (snapshot_at 3)) (snapshot_at 7) (snapshot_at 5 ∷ [])

abbrev vms : List Vm
vms = vm_of (codes "i-1") ∷ vm_of (codes "i-2") ∷ []

-- The state is the clock, and the cached snapshot.
abbrev World : Type 0
World = ℕ × Option Snapshot

abbrev cloud : Cloud World
cloud = record {
  compute = record idle_compute { read_vms = λ filters s. (ok vms, s) };
  load_balancer = idle_load_balancer;
  global = blank_global;
  region = [];
  vpc_id = [];
  tagging = record { cluster_id = []; uses_legacy_tags = false };
  self_instance = blank_machine;
  tag_name_env = none;
  backoff = λ steps condition s. condition s;
}

abbrev cache : InstanceCache World
cache = record {
  snapshot = λ s. s.1;
  store = λ x s. (s.0, some x);
  now = λ s. (s.0, (s.0 + 1, s.1));
}

abbrev node_of : Str → Node
node_of id = record { name = id; provider_id = id }

abbrev nodes : List Node
nodes = node_of (codes "i-1") ∷ node_of (codes "i-2") ∷ node_of (codes "vol-3") ∷ []

abbrev ids : List Str
ids = codes "i-1" ∷ codes "i-2" ∷ []

abbrev start : World
start = (9, some (snapshot_at 3))

abbrev known : Str → Option Vm
known id = last_of id vms none

tolerant_run : ids ≡ map_to_aws_instance_ids_tolerant plain_parse nodes
unfolding map_to_aws_instance_ids_tolerant map_to_aws_instance_id plain_parse is_instance_id trim
    split list_eq nat_eq
tolerant_run = refl

missing_run : cached_from cloud cache (some (snapshot_at 3)) ids ≡ false
unfolding lookup list_eq nat_eq
missing_run = refl

describe_run :
    describe_instances cloud none (10, some (snapshot_at 3)) ≡ (ok vms, (10, some (snapshot_at 3)))
unfolding describe_instances tagged_instances has_cluster_tag list_eq nat_eq
describe_run = refl

source : Source cloud cache ids start known
source = fetched vms (10, some (snapshot_at 3)) missing_run describe_run (λ id. refl)

find_instances_for_elb-Finds_example :
    Finds cloud cache known
      (map_to_aws_instance_ids_tolerant plain_parse nodes)
      (find_instances_for_elb cloud cache plain_parse nodes)
      start
find_instances_for_elb-Finds_example =
    find_instances_for_elb-Finds cloud cache plain_parse nodes known start
      (λ e. cc, (λ e. cc, (λ e. cc, tt)))
      (subst (λ l. Source cloud cache l start known) tolerant_run source)

-- The machine that the cache has not is found too.
found_run : find_instances_for_elb cloud cache plain_parse nodes start ≡ (
  ok ((codes "i-1", vm_of (codes "i-1")) ∷ (codes "i-2", vm_of (codes "i-2")) ∷ []),
  (
    10,
    some (record {
      timestamp = 9;
      instances = (codes "i-1", vm_of (codes "i-1")) ∷ (codes "i-2", vm_of (codes "i-2")) ∷ [];
    }),
  ),
)
unfolding find_instances_for_elb with_provider_ids describe_all_instances_cached meets_criteria
    describe_all_instances_uncached describe_instances tagged_instances has_cluster_tag keep_newest
    index_by_id find_instances map_to_aws_instance_ids_tolerant map_to_aws_instance_id plain_parse
    is_instance_id trim split lookup insert list_eq nat_eq
found_run = refl
