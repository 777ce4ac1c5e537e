-- ===== src/Cache.antt =====
-- cloud-controller-manager/osc/instances.go: the cache of the cluster's instances, which several
-- goroutines share under a mutex; osc_loadbalancer.go `findInstancesForELB`, its only user. Time is in
-- nanoseconds. Child modules: `Newest` for the order in which fetches end, `Found` for the instances
-- of the nodes.
pub mod Newest
pub mod Found
mod Tests
use cloud_provider_osc.Base.{
  ℕ, ◌+◌, Bool, true, false, ◌&&◌, Option, none, some, List, [], ◌∷◌, if◌then◌else◌, ◌==◌, list_eq,
  nat_eq, ltb, all, Result, ok, M, return, continue_with, handle_with, ◌>>=◌, try,
}
use cloud_provider_osc.Base.Dict.{Dict, lookup, insert}
use cloud_provider_osc.Base.Str.{Str}
use cloud_provider_osc.Osc.{Vm, str_value}
use cloud_provider_osc.Cloud.{Cloud}
use cloud_provider_osc.Instances.{Node, Location, map_to_aws_instance_ids_tolerant}
use cloud_provider_osc.Nodes.{describe_instances, find_instance_by_node_name}

-- `allInstancesSnapshot`
pub record Snapshot : Type 0 where
  pub timestamp : ℕ
  pub instances : Dict Str Vm

-- The cache and the clock in the state of the world. Between two calls of a client another goroutine
-- may have stored a snapshot.
pub record InstanceCache (S : Type 0) : Type 0 where
  pub snapshot : S → Option Snapshot
  pub store : Snapshot → S → S
  pub now : S → ℕ × S

-- `cacheCriteria`; an age that is not positive is 0.
pub record CacheCriteria : Type 0 where
  pub max_age : ℕ
  pub has_instances : List Str

abbrev pub older_than : Snapshot → Snapshot → Bool
older_than s other = ltb s.timestamp other.timestamp

-- The snapshot that the cache holds after a fetch.
unfoldable pub keep_newest : Option Snapshot → Snapshot → Snapshot
keep_newest none fetched = fetched
keep_newest (some cached) fetched = if older_than fetched cached then cached else fetched

abbrev pub is_found : Option Vm → Bool
is_found none = false
is_found (some vm) = true

abbrev pub has_all : Snapshot → List Str → Bool
has_all s ids = all (λ id. is_found (lookup id s.instances)) ids

-- The loop that indexes the machines: the last one of an id stays.
unfoldable pub index_by_id : List Vm → Dict Str Vm → Dict Str Vm
index_by_id [] m = m
index_by_id (vm ∷ vms) m = index_by_id vms (insert (str_value vm.vm_id) vm m)

abbrev add_found : Str → Option Vm → Dict Str Vm → Dict Str Vm
add_found id none m = m
add_found id (some vm) m = insert id vm m

-- The loop of `FindInstances`, from the map that it has so far.
unfoldable pub find_instances_from : Snapshot → List Str → Dict Str Vm → Dict Str Vm
find_instances_from s [] m = m
find_instances_from s (id ∷ ids) m =
    find_instances_from s ids (add_found id (lookup id s.instances) m)

unfoldable pub find_instances : Snapshot → List Str → Dict Str Vm
unfolding find_instances_from
find_instances s ids = find_instances_from s ids []

module _ {S : Type 0} (c : Cloud S) (cache : InstanceCache S) where
  abbrev pub read_clock : M S ℕ
  read_clock s = let (time, t) = cache.now s in (ok time, t)

  abbrev pub store_newest : Snapshot → M S Snapshot
  store_newest fetched s = (ok fetched, cache.store (keep_newest (cache.snapshot s) fetched) s)

  -- The fetched snapshot is returned, whichever is kept.
  unfoldable pub describe_all_instances_uncached : M S Snapshot
  describe_all_instances_uncached = do
    time ← read_clock
    vms ← describe_instances c none
    store_newest (record { timestamp = time; instances = index_by_id vms [] })

  unfoldable pub meets_criteria : Snapshot → CacheCriteria → M S Bool
  meets_criteria s criteria =
      if ltb 0 criteria.max_age
      then (do
        time ← read_clock
        return (
            if ltb (s.timestamp + criteria.max_age) time
            then false
            else has_all s criteria.has_instances))
      else return (has_all s criteria.has_instances)

  abbrev pub use_or_fetch : Option Snapshot → CacheCriteria → M S Snapshot
  use_or_fetch none criteria = describe_all_instances_uncached
  use_or_fetch (some s) criteria = meets_criteria s criteria >>= λ good.
      if good then return s else describe_all_instances_uncached

  unfoldable pub describe_all_instances_cached : CacheCriteria → M S Snapshot
  describe_all_instances_cached criteria s = use_or_fetch (cache.snapshot s) criteria s

  abbrev id_or_empty : Option Vm → Str
  id_or_empty none = []
  id_or_empty (some vm) = str_value vm.vm_id

  abbrev pub with_provider_id : Node → M S Node
  with_provider_id node =
      if node.provider_id == []
      then try (find_instance_by_node_name c node.name)
          (λ found. return (record node { provider_id = id_or_empty found }))
          (λ e. return (record node { provider_id = [] }))
      else return node

  -- The loop that writes the id of its machine into each node that has no provider id.
  unfoldable pub with_provider_ids : List Node → M S (List Node)
  with_provider_ids [] = return []
  with_provider_ids (node ∷ nodes) = do
    known ← with_provider_id node
    rest ← with_provider_ids nodes
    return (known ∷ rest)

  module _ (parse : Str → Option Location) where
    abbrev pub find_by_ids : List Str → M S (Dict Str Vm)
    find_by_ids ids =
        describe_all_instances_cached (record { max_age = 0; has_instances = ids }) >>= λ s.
        return (find_instances s ids)

    unfoldable pub find_instances_for_elb : List Node → M S (Dict Str Vm)
    find_instances_for_elb nodes = with_provider_ids nodes >>= λ known.
        find_by_ids (map_to_aws_instance_ids_tolerant parse known)
