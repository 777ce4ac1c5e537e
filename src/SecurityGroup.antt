-- ===== src/SecurityGroup.antt =====
-- cloud-controller-manager/osc/ccm_cloud.go and utils.go: the security groups of the load balancers
-- and of the nodes. Child modules: `Ingress` for the rules that are set,
-- `Ensure` for the group of a load balancer, `Nodes` for those of the nodes.
pub mod Nodes
pub mod Ingress
pub mod Ensure
mod Tests
use cloud_provider_osc.Base.{
  ℕ, zero, suc, Bool, true, false, not, ◌&&◌, ◌||◌, Option, none, some, List, [], ◌∷◌, ◌++◌,
  if◌then◌else◌, Eq, ◌==◌, ◌!=◌, list_eq, nat_eq, any, is_nil, filter, contains, Result, ok, err,
  panic, Error, error_text, errorf, M, return, fail, lift, continue_with, handle_with, ◌>>=◌, ◌>>◌,
  try,
}
use cloud_provider_osc.Base.Dict.{Dict}
use cloud_provider_osc.Base.Str.{Str, codes, has_substring}
use cloud_provider_osc.Osc.{
  SecurityGroupsMember, SecurityGroupRule, SecurityGroup, FiltersSecurityGroup, RuleRequest, rules,
  link, Compute, str_value, list_value,
}
use cloud_provider_osc.Tags.{read_repair_cluster_tags, create_tags, lifecycle_owned}
use cloud_provider_osc.Rules.{
  rule_exists, IpRulesSet, rule_list, new_ip_rules_set, ungroup, difference,
}
use cloud_provider_osc.Cloud.{Cloud}

-- DefaultSrcSgName
abbrev pub default_src_sg_name : Str
default_src_sg_name = codes "outscale-elb-sg"

-- DefaultSgOwnerID
abbrev pub default_sg_owner_id : Str
default_sg_owner_id = codes "outscale-elb"

-- MaxReadThenCreateRetries
abbrev pub max_read_then_create_retries : ℕ
max_read_then_create_retries = 30

abbrev pub no_filters : FiltersSecurityGroup
no_filters = record {
  security_group_ids = none;
  security_group_names = none;
  net_ids = none;
  tag_keys = none;
  tags = none;
  inbound_rule_security_group_ids = none;
  inbound_rule_security_group_names = none;
}

module _ {S : Type 0} (c : Cloud S) where
  the_group : List SecurityGroup → M S (Option SecurityGroup)
  the_group [] = return none
  the_group (group ∷ []) = return (some group)
  the_group (group ∷ _ ∷ _) = fail (errorf (codes "multiple security groups found with same id"))

  pub find_security_group : Str → M S (Option SecurityGroup)
  unfolding the_group
  find_security_group id = do
    groups ←
        c.compute.read_security_groups (record no_filters { security_group_ids = some (id ∷ []) })
    the_group groups

  -- A group that must exist.
  abbrev require_group : Option SecurityGroup → M S SecurityGroup
  require_group none = fail (errorf (codes "security group not found"))
  require_group (some group) = return group

  -- `member.HasAccountId()` for one of the members.
  abbrev pub has_user_id : SecurityGroupRule → Bool
  has_user_id p = any has_account (list_value p.security_groups_members)
    where
      has_account : SecurityGroupsMember → Bool
      has_account m = elim m.account_id [ none ↦ false | some _ ↦ true ]

  -- One of the group's rules is the one asked for.
  abbrev pub is_granted : List SecurityGroupRule → SecurityGroupRule → Bool
  is_granted inbound p = any (λ g. rule_exists p g (has_user_id p)) inbound

  abbrev rule_request : Bool → List SecurityGroupRule → RuleRequest
  rule_request is_public_cloud changes =
      if is_public_cloud then link default_src_sg_name default_sg_owner_id else rules changes

  abbrev pub is_conflict : Error → Bool
  is_conflict e = has_substring (error_text e) (codes "Conflict")

  abbrev after_adding : Bool → Result (Unit {0}) × S → Result Bool × S
  after_adding is_public_cloud (ok _, s) = (ok true, s)
  after_adding is_public_cloud (err e, s) =
      if is_public_cloud && is_conflict e
      then (ok true, s)
      else (err (errorf (codes "error authorizing security group ingress")), s)
  after_adding is_public_cloud (panic, s) = (panic, s)

  pub add_security_group_rules : Str → List SecurityGroupRule → Bool → M S Bool
  add_security_group_rules id permissions is_public_cloud s =
      if id == c.global.elb_security_group
      then (ok false, s)
      else continue_with
          (λ group.
            let changes =
              filter (λ p. not (is_granted (list_value group.inbound_rules) p)) permissions in
            if is_nil changes && not is_public_cloud then return false else (λ t.
              after_adding is_public_cloud
                (c.compute.create_security_group_rule id (rule_request is_public_cloud changes) t)))
          ((find_security_group id >>= require_group) s)

  abbrev removal : Str → List SecurityGroupRule → Bool → Option SecurityGroup → M S Bool
  removal id permissions is_public_cloud none = return false
  removal id permissions is_public_cloud (some group) =
      let changes = filter (is_granted (list_value group.inbound_rules)) permissions in
      if is_nil changes && not is_public_cloud
      then return false
      else (c.compute.delete_security_group_rule id (rule_request is_public_cloud changes) >>= λ _.
          return true)

  pub remove_security_group_rules : Str → List SecurityGroupRule → Bool → M S Bool
  remove_security_group_rules id permissions is_public_cloud s =
      if id == c.global.elb_security_group
      then (ok false, s)
      else (find_security_group id >>= removal id permissions is_public_cloud) s

  module _ (Json : Type 0) ⦃e : Eq Json⦄ (marshal : SecurityGroupRule → Json) where
    abbrev wrapped : Error → Result (Unit {0}) × S → Result (Unit {0}) × S
    wrapped e' (ok _, s) = (ok tt, s)
    wrapped e' (err _, s) = (err e', s)
    wrapped e' (panic, s) = (panic, s)

    -- The two calls, each made only for a set that is not empty.
    authorize : Str → IpRulesSet Json marshal → M S (Unit {0})
    authorize id add s =
        if is_nil add
        then (ok tt, s)
        else wrapped (errorf (codes "error authorizing security group ingress"))
            (c.compute.create_security_group_rule id (rules (rule_list Json marshal add)) s)

    revoke : Str → IpRulesSet Json marshal → M S (Unit {0})
    revoke id remove s =
        if is_nil remove
        then (ok tt, s)
        else wrapped (errorf (codes "error revoking security group ingress"))
            (c.compute.delete_security_group_rule id (rules (rule_list Json marshal remove)) s)

    change_ingress : Str → IpRulesSet Json marshal → SecurityGroup → M S Bool
    change_ingress id permissions group =
        let wanted = ungroup Json marshal permissions in
        let actual =
          ungroup Json marshal (new_ip_rules_set Json marshal (list_value group.inbound_rules)) in
        let remove = difference Json marshal actual wanted in
        let add = difference Json marshal wanted actual in
        if is_nil add && is_nil remove
        then return false
        else (do authorize id add; revoke id remove; return true)

    pub set_security_group_ingress : Str → IpRulesSet Json marshal → M S Bool
    set_security_group_ingress id permissions s =
        if id == c.global.elb_security_group
        then (ok false, s)
        else (find_security_group id >>= require_group >>= change_ingress id permissions) s
