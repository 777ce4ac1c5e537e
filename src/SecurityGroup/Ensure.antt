-- ===== src/SecurityGroup/Ensure.antt =====
-- cloud-controller-manager/osc/ccm_cloud.go: `ensureSecurityGroup`, the group of a load balancer. The
-- loop ends after 30 attempts at the latest; `remaining` counts those that are left after the one in
-- hand.
pub mod Attempts
use cloud_provider_osc.Base.{
  ℕ, zero, suc, Bool, true, false, not, ◌&&◌, Option, none, some, List, [], ◌∷◌, ◌-◌, if◌then◌else◌,
  ◌==◌, ◌!=◌, list_eq, nat_eq, Result, ok, err, panic, Error, errorf, M, return, fail, lift,
  continue_with, handle_with, ◌>>=◌, ◌>>◌, try,
}
use cloud_provider_osc.Base.Dict.{Dict}
use cloud_provider_osc.Base.Str.{Str, codes}
use cloud_provider_osc.Osc.{SecurityGroup, FiltersSecurityGroup, str_value}
use cloud_provider_osc.Tags.{read_repair_cluster_tags, create_tags, lifecycle_owned}
use cloud_provider_osc.Cloud.{Cloud}
use cloud_provider_osc.SecurityGroup.{no_filters, is_conflict, max_read_then_create_retries}

module _ {S : Type 0} (c : Cloud S) where
  abbrev by_name : Str → FiltersSecurityGroup
  by_name name = record no_filters {
    security_group_names = some (name ∷ []);
    net_ids = if c.vpc_id != [] then some (c.vpc_id ∷ []) else none;
  }

  abbrev new_net : Option Str
  new_net = if c.vpc_id != [] then some c.vpc_id else none

  tag_new_group : Dict Str Str → Str → M S Str
  tag_new_group additional id =
      if id == []
      then fail (errorf (codes "created security group, but id was not returned"))
      else try
          (create_tags c.compute c.backoff c.tag_name_env c.tagging id lifecycle_owned additional)
          (λ _. return id) (λ e. fail (errorf (codes "error tagging security group")))

  -- The group that is found first, with its tags repaired.
  abbrev take_group : SecurityGroup → M S Str
  take_group group =
      let id = str_value group.security_group_id in
      (read_repair_cluster_tags c.compute c.backoff c.tag_name_env c.tagging id lifecycle_owned []
          group.tags
        >> return id)

  create_group : Str → Str → M S (Option Str)
  create_group name description = c.compute.create_security_group new_net name description

  -- One pass of the loop, with what a retry does.
  pub ensure_attempt : Str → Str → Dict Str Str → (Error → M S Str) → List SecurityGroup → M S Str
  ensure_attempt name description additional retry (group ∷ groups) = take_group group
  ensure_attempt name description additional retry [] =
      try (create_group name description) (λ id. tag_new_group additional (str_value id)) retry

  pub ensure_loop : Str → Str → Dict Str Str → ℕ → M S Str
  ensure_loop name description additional zero = do
    groups ← c.compute.read_security_groups (by_name name)
    ensure_attempt name description additional fail groups
  ensure_loop name description additional (suc remaining) = do
    groups ← c.compute.read_security_groups (by_name name)
    ensure_attempt name description additional
        (λ e. if is_conflict c e then ensure_loop name description additional remaining else fail e)
        groups

  pub ensure_security_group : Str → Str → Dict Str Str → M S Str
  ensure_security_group name description additional =
      ensure_loop name description additional (max_read_then_create_retries - 1)
