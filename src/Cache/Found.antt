-- ===== src/Cache/Found.antt =====
-- The instances of the nodes that a load balancer gets: from the cache if it has them all, and
-- otherwise from the service.
use cloud_provider_osc.Base.{
  Bool, true, false, Option, none, some, List, [], ◌∷◌, ◌≡◌, ◌≢◌, refl, sym, ◌∙◌, ap, arith,
  if◌then◌else◌, ◌==◌, list_eq, nat_eq, contains, All, ok, M, return, continue_with,
}
use cloud_provider_osc.Base.Dict.{Dict, lookup, insert, lookup-insert, lookup-nil}
use cloud_provider_osc.Base.Str.{Str}
use cloud_provider_osc.Osc.{Vm, str_value}
use cloud_provider_osc.Cloud.{Cloud}
use cloud_provider_osc.Instances.{Node, Location, map_to_aws_instance_ids_tolerant}
use cloud_provider_osc.Nodes.{describe_instances}
use cloud_provider_osc.Cache.{
  Snapshot, InstanceCache, has_all, keep_newest, index_by_id, add_found, find_instances_from,
  find_instances, store_newest, describe_all_instances_uncached, meets_criteria, use_or_fetch,
  describe_all_instances_cached, with_provider_id, with_provider_ids, find_by_ids,
  find_instances_for_elb,
}

-- The last machine of an id, or else another result.
abbrev pub last_of : Str → List Vm → Option Vm → Option Vm
last_of id [] found = found
last_of id (vm ∷ vms) found = last_of id vms (if str_value vm.vm_id == id then some vm else found)

lookup-index_by_id :
    (id : Str) (vms : List Vm) (m : Dict Str Vm)
    → lookup id (index_by_id vms m) ≡ last_of id vms (lookup id m)
unfolding index_by_id
lookup-index_by_id id [] m = refl
lookup-index_by_id id (vm ∷ vms) m =
    lookup-index_by_id id vms (insert (str_value vm.vm_id) vm m)
    ∙ ap (last_of id vms) (lookup-insert id (str_value vm.vm_id) vm m)

-- What is found by then, or else what the map has.
abbrev found_or : Option Vm → Option Vm → Option Vm
found_or none r = r
found_or (some vm) r = some vm

lookup-add_found :
    (id x : Str) (r : Option Vm) (m : Dict Str Vm)
    → lookup id (add_found x r m) ≡ (if x == id then found_or r (lookup id m) else lookup id m)
lookup-add_found id x none m = ground arith
lookup-add_found id x (some vm) m = lookup-insert id x vm m

lookup-find_instances_from :
    (s : Snapshot) (id : Str) (ids : List Str) (m : Dict Str Vm)
    → lookup id (find_instances_from s ids m)
      ≡ (if contains ids id then found_or (lookup id s.instances) (lookup id m) else lookup id m)
unfolding find_instances_from
lookup-find_instances_from s id [] m = refl
lookup-find_instances_from s id (x ∷ ids) m =
    lookup-find_instances_from s id ids (add_found x (lookup x s.instances) m)
    ∙ ground (arith, lookup-add_found id x (lookup x s.instances) m)

lookup-find_instances :
    (s : Snapshot) (id : Str) (ids : List Str)
    → lookup id (find_instances s ids) ≡ (if contains ids id then lookup id s.instances else none)
unfolding find_instances
lookup-find_instances s id ids =
    lookup-find_instances_from s id ids [] ∙ ground (arith, lookup-nil {V = Vm} id)

module _ {S : Type 0} (c : Cloud S) (cache : InstanceCache S) where
  -- Where the machines that a search by ids uses come from: the cached snapshot, if it has them all,
  -- without a call; or else the service's answer.
  abbrev pub cached_from : Option Snapshot → List Str → Bool
  cached_from none ids = false
  cached_from (some s) ids = has_all s ids

  pub data Source (ids : List Str) (s : S) (known : Str → Option Vm) : Type 0 where
    cached :
        (old : Snapshot)
        → cache.snapshot s ≡ some old
        → has_all old ids ≡ true
        → ((id : Str) → known id ≡ lookup id old.instances)
        → Source ids s known
    fetched :
        (vms : List Vm) (t : S)
        → cached_from (cache.snapshot s) ids ≡ false
        → describe_instances c none (cache.now s).1 ≡ (ok vms, t)
        → ((id : Str) → known id ≡ last_of id vms none)
        → Source ids s known

  with_provider_id-same :
      (node : Node) (s : S) → node.provider_id ≢ [] → with_provider_id c cache node s ≡ (ok node, s)
  with_provider_id-same node s h = ground arith

  with_provider_ids-same :
      (nodes : List Node) (s : S)
      → All (λ node. node.provider_id ≢ []) nodes
      → with_provider_ids c cache nodes s ≡ (ok nodes, s)
  unfolding with_provider_ids
  with_provider_ids-same [] s h = refl
  with_provider_ids-same (node ∷ nodes) s h =
      rw (with_provider_id-same node s h.0, with_provider_ids-same nodes s h.1) refl

  describe_all_instances_uncached-ok :
      (vms : List Vm) (s t : S)
      → describe_instances c none (cache.now s).1 ≡ (ok vms, t)
      → describe_all_instances_uncached c cache s
        ≡ store_newest c cache
            (record { timestamp = (cache.now s).0; instances = index_by_id vms [] })
            t
  unfolding describe_all_instances_uncached
  describe_all_instances_uncached-ok vms s t h = rw h refl

  use_or_fetch-cached :
      (old : Snapshot) (ids : List Str) (s : S)
      → has_all old ids ≡ true
      → use_or_fetch c cache (some old) (record { max_age = 0; has_instances = ids }) s
        ≡ (ok old, s)
  unfolding meets_criteria
  use_or_fetch-cached old ids s h = rw h refl

  use_or_fetch-fetched :
      (cached : Option Snapshot) (ids : List Str) (s : S)
      → cached_from cached ids ≡ false
      → use_or_fetch c cache cached (record { max_age = 0; has_instances = ids }) s
        ≡ describe_all_instances_uncached c cache s
  unfolding meets_criteria
  use_or_fetch-fetched none ids s h = refl
  use_or_fetch-fetched (some old) ids s h = rw h refl

  abbrev pub Finds : (Str → Option Vm) → List Str → M S (Dict Str Vm) → S → Type 0
  Finds known ids run s =
      (t : S) × (found : Dict Str Vm) × (run s ≡ (ok found, t))
      × ((id : Str) → lookup id found ≡ (if contains ids id then known id else none))

  finds_in :
      (ids : List Str) (known : Str → Option Vm) (snapshot : Snapshot)
      → ((id : Str) → known id ≡ lookup id snapshot.instances)
      → (id : Str)
      → lookup id (find_instances snapshot ids) ≡ (if contains ids id then known id else none)
  finds_in ids known snapshot same id =
      lookup-find_instances snapshot id ids
      ∙ ap (λ r. if contains ids id then r else none) (sym (same id))

  module _ (parse : Str → Option Location) where
    find_by_ids-run :
        (ids : List Str) (snapshot : Snapshot) (s t : S)
        → describe_all_instances_cached c cache (record { max_age = 0; has_instances = ids }) s
          ≡ (ok snapshot, t)
        → find_by_ids c cache parse ids s ≡ (ok (find_instances snapshot ids), t)
    find_by_ids-run ids snapshot s t h =
        ap (continue_with (λ found. return (find_instances found ids))) h

    find_by_ids-Finds :
        (ids : List Str) (known : Str → Option Vm) (s : S)
        → Source ids s known
        → Finds known ids (find_by_ids c cache parse ids) s
    unfolding describe_all_instances_cached
    find_by_ids-Finds ids known s (cached old h all_there same) = (
      s,
      find_instances old ids,
      find_by_ids-run ids old s s (
          ap (λ r. use_or_fetch c cache r (record { max_age = 0; has_instances = ids }) s) h
          ∙ use_or_fetch-cached old ids s all_there),
      finds_in ids known old same,
    )
    find_by_ids-Finds ids known s (fetched vms t missing h same) =
        let snapshot : Snapshot = record {
          timestamp = (cache.now s).0;
          instances = index_by_id vms [];
        } in
        let u = cache.store (keep_newest (cache.snapshot t) snapshot) t in
        (
          u,
          find_instances snapshot ids,
          find_by_ids-run ids snapshot s u (
              use_or_fetch-fetched (cache.snapshot s) ids s missing
              ∙ describe_all_instances_uncached-ok vms s t h),
          finds_in ids known snapshot (λ id.
              same id ∙ sym (lookup-index_by_id id vms [] ∙ ap (last_of id vms) (lookup-nil id))),
        )

    -- Let every node have a provider id, and let the cached snapshot have all of the nodes' machines,
    -- or else the service answer with the cluster's machines. Then the call succeeds, with the
    -- machine of each id that a node gives, from the snapshot or else from the answer, and no other.
    pub find_instances_for_elb-Finds :
        (nodes : List Node) (known : Str → Option Vm) (s : S)
        → All (λ node. node.provider_id ≢ []) nodes
        → Source (map_to_aws_instance_ids_tolerant parse nodes) s known
        → Finds known
            (map_to_aws_instance_ids_tolerant parse nodes)
            (find_instances_for_elb c cache parse nodes)
            s
    unfolding find_instances_for_elb
    find_instances_for_elb-Finds nodes known s named source =
        let ids = map_to_aws_instance_ids_tolerant parse nodes in
        let finds = find_by_ids-Finds ids known s source in
        (
          finds.0,
          finds.1,
          ap
                (continue_with (λ nodes'.
                  find_by_ids c cache parse (map_to_aws_instance_ids_tolerant parse nodes')))
                (with_provider_ids-same nodes s named)
              ∙ finds.2,
          finds.3,
        )
