-- ===== src/Deletion/Tests.antt =====
-- Three security groups, and a service where they are in use for two passes.
use Prim.Native.Nat.{◌*◌}
use cloud_provider_osc.Base.{
  ℕ, zero, suc, ◌-◌, ◌+◌, leb, if◌then◌else◌, false, none, some, List, [], ◌∷◌, ◌≡◌, refl, arith,
  list_eq, nat_eq, any, contains, ok, err, Error, sdk_error, M,
}
use cloud_provider_osc.Base.Str.{Str, codes, has_prefix, has_substring}
use cloud_provider_osc.Osc.{SecurityGroup, ResourceTag}
use cloud_provider_osc.Osc.Idle.{idle_compute, idle_load_balancer}
use cloud_provider_osc.Tags.{ResourceTagging, has_cluster_tag, cluster_tag_key}
use cloud_provider_osc.Cloud.{Cloud, blank_global, blank_machine}
use cloud_provider_osc.Deletion.{
  second, note_deletion, groups_to_delete, delete_pass, timed_out, delete_loop, delete_all,
}
use cloud_provider_osc.Deletion.Groups.{may_delete, groups_to_delete_lem}
use cloud_provider_osc.Deletion.Passes.{SlowService, wait_all, delete_all_lem}

abbrev tagging : ResourceTagging
tagging = record { cluster_id = codes "c"; uses_legacy_tags = false }

abbrev group_of : Str → List ResourceTag → SecurityGroup
group_of id tags = record { security_group_id = some id; inbound_rules = none; tags = some tags }

abbrev groups : List SecurityGroup
groups =
    group_of (codes "sg-global") []
    ∷ group_of (codes "sg-1")
        (record { key = codes "OscK8sClusterID/c"; value = codes "owned" } ∷ [])
    ∷ group_of (codes "sg-2") []
    ∷ []

groups_run : groups_to_delete tagging (codes "sg-global") groups [] ≡ ok (codes "sg-1" ∷ [])
unfolding groups_to_delete note_deletion has_cluster_tag cluster_tag_key list_eq nat_eq
groups_run = refl

groups_to_delete_lem_example :
    contains (codes "sg-1" ∷ []) (codes "sg-1")
    ≡ any (may_delete tagging (codes "sg-global") (codes "sg-1")) groups
groups_to_delete_lem_example =
    groups_to_delete_lem tagging (codes "sg-global") groups (codes "sg-1" ∷ []) (codes "sg-1")
      groups_run

-- The state: the passes that still fail, the time, and the groups that were deleted.
abbrev State : Type 0
State = ℕ × ℕ × List Str

abbrev in_use : Error
in_use = sdk_error (codes "409 Conflict")

abbrev delete_slowly : Str → M State (Unit {0})
delete_slowly id (zero, time, deleted) = (ok tt, (zero, time, id ∷ deleted))
delete_slowly id (suc n, time, deleted) = (err in_use, (suc n, time, deleted))

abbrev now : M State ℕ
now s = (ok s.1, s)

abbrev pause : ℕ → State → State
pause time (n, start, deleted) = (n - 1, start + time, deleted)

abbrev sleep : ℕ → M State (Unit {0})
sleep time s = (ok tt, pause time s)

abbrev cloud : Cloud State
cloud = record {
  compute = record idle_compute { delete_security_group = delete_slowly };
  load_balancer = idle_load_balancer;
  global = blank_global;
  region = [];
  vpc_id = [];
  tagging = tagging;
  self_instance = blank_machine;
  tag_name_env = none;
  backoff = λ steps condition s. condition s;
}

refuses_lem : (id : Str) (s : State) (n : ℕ) → s.0 ≡ suc n → delete_slowly id s ≡ (err in_use, s)
refuses_lem id (zero, time, deleted) n h = absurd (ground arith)
refuses_lem id (suc m, time, deleted) n h = refl

deletes_lem :
    (id : Str) (s : State) → s.0 ≡ zero → delete_slowly id s ≡ (ok tt, (s.0, s.1, id ∷ s.2))
deletes_lem id (zero, time, deleted) h = refl
deletes_lem id (suc m, time, deleted) h = absurd (ground arith)

slow : SlowService cloud now sleep
unfolding has_substring has_prefix nat_eq
slow = record {
  pending = λ s. s.0;
  clock = λ s. s.1;
  in_use = in_use;
  slept = pause;
  removed = λ id s. (s.0, s.1, id ∷ s.2);
  is_conflict = refl;
  refuses = refuses_lem;
  deletes = deletes_lem;
  pending-removed = λ id s. refl;
  tells = λ s. refl;
  sleeps = λ time s. refl;
  clock-slept = λ time s. refl;
  pending-slept = λ time s n h. omega arith;
}

delete_all_lem_example :
    delete_all cloud now sleep (codes "sg-1" ∷ codes "sg-2" ∷ []) (2, 5, []) ≡ (
      if leb 2 61
      then (ok tt, (0, 5 + 20 * second, codes "sg-2" ∷ codes "sg-1" ∷ []))
      else (err (timed_out cloud now sleep), wait_all cloud now sleep slow 61 (2, 5, [])))
unfolding slow wait_all
delete_all_lem_example =
    delete_all_lem cloud now sleep slow (codes "sg-1") (codes "sg-2" ∷ []) (2, 5, [])

-- A service that never lets the groups go, until the time limit.
never_run :
    (delete_all cloud now sleep (codes "sg-1" ∷ []) (1000, 0, [])).0
    ≡ err (timed_out cloud now sleep)
unfolding delete_all delete_loop delete_pass has_substring has_prefix nat_eq
never_run = refl
