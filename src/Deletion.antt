-- ===== src/Deletion.antt =====
-- cloud-controller-manager/osc/ccm_cloud.go: `EnsureLoadBalancerDeleted`. The clock,
-- in nanoseconds, and the pause are parameters. A pass that leaves some groups is followed by a test
-- of the time limit, 600 seconds, and a pause of 10 seconds, so that there are 62 passes at most where the
-- clock shows the pauses. Child modules: `Groups` for the groups to delete, `Passes` for the loop.
pub mod Groups
pub mod Passes
mod Tests
use Prim.Native.Nat.{◌*◌}
use cloud_provider_osc.Base.{
  ℕ, zero, suc, Bool, true, false, not, ◌&&◌, ◌||◌, Option, none, some, List, [], ◌∷◌, ◌++◌,
  if◌then◌else◌, ◌==◌, ◌!=◌, list_eq, nat_eq, is_nil, ltb, ◌+◌, contains, Result, ok, err, panic,
  and_then, Error, error_text, errorf, M, return, fail, lift, continue_with, handle_with, ◌>>=◌,
  ◌>>◌, try,
}
use cloud_provider_osc.Base.Dict.{Dict}
use cloud_provider_osc.Base.StringSets.{StringSets}
use cloud_provider_osc.Base.Str.{Str, codes, has_substring}
use cloud_provider_osc.Osc.{SecurityGroup, Vm, LoadBalancerDescription, str_value}
use cloud_provider_osc.Tags.{ResourceTagging, has_cluster_tag}
use cloud_provider_osc.Cloud.{Cloud}
use cloud_provider_osc.SecurityGroup.{default_src_sg_name, no_filters}
use cloud_provider_osc.SecurityGroup.Nodes.{update_instance_security_groups_for_load_balancer}
use cloud_provider_osc.Backends.{ensure_load_balancer_instances}
use cloud_provider_osc.Balancer.{describe_load_balancer}
use cloud_provider_osc.Provision.{KubeService}
use cloud_provider_osc.Service.{get_load_balancer_name}

-- One group of the answer: it is deleted with the load balancer if it has an id, is not the one of the
-- configuration, and has the cluster's tag, which is read only then.
pub note_deletion : ResourceTagging → Str → SecurityGroup → List Str → Result (List Str)
note_deletion tagging global group ids =
    let id = str_value group.security_group_id in
    if id == global || id == []
    then ok ids
    else and_then (has_cluster_tag tagging group.tags)
        (λ tagged. ok (if tagged && not (contains ids id) then id ∷ ids else ids))

-- The set of the ids to delete.
pub groups_to_delete : ResourceTagging → Str → List SecurityGroup → List Str → Result (List Str)
groups_to_delete tagging global [] ids = ok ids
groups_to_delete tagging global (group ∷ groups) ids =
    and_then (note_deletion tagging global group ids) (groups_to_delete tagging global groups)

-- `time.Second`
abbrev pub second : ℕ
second = 1000000000

-- The passes that the loop may need.
abbrev pub most_passes : ℕ
most_passes = 62

-- `time.Now` and `time.Sleep`.
module _ {S : Type 0} (c : Cloud S) (now : M S ℕ) (sleep : ℕ → M S (Unit {0})) where
  abbrev pub is_dependency : Error → Bool
  is_dependency e = has_substring (error_text e) (codes "Conflict")

  -- One pass: a group that is in use is kept for the next.
  pub delete_pass : List Str → M S (List Str)
  delete_pass [] = return []
  delete_pass (id ∷ ids) =
      try (c.compute.delete_security_group id) (λ _. delete_pass ids)
        (λ e.
          if is_dependency e
          then (delete_pass ids >>= λ rest. return (id ∷ rest))
          else fail (errorf (codes "error while deleting load balancer security group")))

  abbrev pub timed_out : Error
  timed_out = errorf (codes "timed out deleting ELB")

  -- The fuel is the passes that are left; without any the call fails as at the time limit.
  pub delete_loop : ℕ → ℕ → List Str → M S (Unit {0})
  delete_loop zero timeout_at ids = fail timed_out
  delete_loop (suc passes) timeout_at ids = do
    rest ← delete_pass ids
    if is_nil rest then return tt else (do
      time ← now
      if ltb timeout_at time
          then fail timed_out
          else (sleep (10 * second) >> delete_loop passes timeout_at rest))

  pub delete_all : List Str → M S (Unit {0})
  delete_all ids = now >>= λ start. delete_loop most_passes (start + 600 * second) ids

  pub delete_groups : List Str → M S (Unit {0})
  delete_groups groups = do
    found ←
        try
          (c.compute.read_security_groups (record no_filters { security_group_ids = some groups }))
          return (λ e. fail (errorf (codes "error querying security groups for ELB")))
    ids ← lift (groups_to_delete c.tagging c.global.elb_security_group found [])
    delete_all ids

  module _ (sets : StringSets) where
    -- An error of the registration is only logged.
    pub delete_balancer : Option LoadBalancerDescription → M S (Unit {0})
    delete_balancer none = return tt
    delete_balancer (some lb) =
        let groups =
          if is_nil lb.security_groups && c.vpc_id == []
          then default_src_sg_name ∷ []
          else lb.security_groups in
        (do
          try
              (ensure_load_balancer_instances c.load_balancer sets (str_value lb.load_balancer_name)
                lb.instances [])
              return (λ e. return tt)
          if c.vpc_id != []
              then update_instance_security_groups_for_load_balancer c lb [] groups
              else return tt
          c.load_balancer.delete_load_balancer lb.load_balancer_name
          delete_groups groups)

    pub ensure_load_balancer_deleted : KubeService → M S (Unit {0})
    ensure_load_balancer_deleted service = do
      name ← lift (get_load_balancer_name service.uid service.annotations)
      lb ← describe_load_balancer c name
      delete_balancer lb
