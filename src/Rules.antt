-- ===== src/Rules.antt =====
-- The rules of a security group. cloud-controller-manager/osc/utils.go: `ruleExists`, which decides
-- whether a rule is covered by another. cloud-controller-manager/osc/sets_ippermissions.go: the set
-- `IPRulesSet` of rules by their JSON text. That text is a parameter: a type `Json` whose values can
-- be compared, and the function `marshal` into it, which is `json.Marshal`.
pub mod Exists
pub mod Ungroup
pub mod Sets
pub mod Single
pub mod JsonText
pub mod Ec2
mod Tests
use cloud_provider_osc.Base.{
  ℕ, Bool, true, false, not, ◌&&◌, ◌||◌, Option, none, some, List, [], ◌∷◌, ◌++◌, map,
  if◌then◌else◌, Eq, ◌==◌, ◌!=◌, list_eq, nat_eq, any, all, contains, length, ltb, leb,
}
use cloud_provider_osc.Base.Dict.{Dict, keys, insert}
use cloud_provider_osc.Base.Int.{ℤ, int_eq}
use cloud_provider_osc.Base.Str.{Str}
use cloud_provider_osc.Osc.{
  SecurityGroupsMember, SecurityGroupRule, str_value, int_value, list_value,
}

pub is_equal_security_group_member : SecurityGroupsMember → SecurityGroupsMember → Bool → Bool
is_equal_security_group_member l r compare_group_user_ids =
    if str_value l.security_group_id == str_value r.security_group_id
    then (if compare_group_user_ids then str_value l.account_id == str_value r.account_id else true)
    else false

pub rule_exists : SecurityGroupRule → SecurityGroupRule → Bool → Bool
rule_exists new existing compare_group_user_ids =
    if int_value new.from_port_range != int_value existing.from_port_range
    then false
    else if int_value new.to_port_range != int_value existing.to_port_range
    then false
    else if str_value new.ip_protocol != str_value existing.ip_protocol
    then false
    else if ltb (length (list_value existing.ip_ranges)) (length (list_value new.ip_ranges))
    then false
    else if not (
        all (λ range. any (λ other. range == other) (list_value existing.ip_ranges))
          (list_value new.ip_ranges))
    then false
    else if not (
        all
          (λ l.
            any (λ r. is_equal_security_group_member l r compare_group_user_ids)
              (list_value existing.security_groups_members))
          (list_value new.security_groups_members))
    then false
    else true

-- The three passes of `Ungroup`: a rule with several ranges, members or services becomes one rule for
-- each of them.
pub ungroup_ranges : List SecurityGroupRule → List SecurityGroupRule
ungroup_ranges [] = []
ungroup_ranges (p ∷ ps) =
    let rest = ungroup_ranges ps in
    if leb (length (list_value p.ip_ranges)) 1
    then p ∷ rest
    else map (λ range. record p { ip_ranges = some (range ∷ []) }) (list_value p.ip_ranges) ++ rest

pub ungroup_members : List SecurityGroupRule → List SecurityGroupRule
ungroup_members [] = []
ungroup_members (p ∷ ps) =
    let rest = ungroup_members ps in
    if leb (length (list_value p.security_groups_members)) 1
    then p ∷ rest
    else map (λ u. record p { security_groups_members = some (u ∷ []) })
        (list_value p.security_groups_members)
      ++ rest

pub ungroup_services : List SecurityGroupRule → List SecurityGroupRule
ungroup_services [] = []
ungroup_services (p ∷ ps) =
    let rest = ungroup_services ps in
    if leb (length (list_value p.service_ids)) 1
    then p ∷ rest
    else map (λ v. record p { service_ids = some (v ∷ []) }) (list_value p.service_ids) ++ rest

module _ (Json : Type 0) ⦃e : Eq Json⦄ (marshal : SecurityGroupRule → Json) where
  abbrev pub IpRulesSet : Type 0
  IpRulesSet = Dict Json SecurityGroupRule

  -- `Insert` of several items.
  pub insert_rules : List SecurityGroupRule → IpRulesSet → IpRulesSet
  insert_rules [] s = s
  insert_rules (p ∷ items) s = insert_rules items (insert (marshal p) p s)

  pub new_ip_rules_set : List SecurityGroupRule → IpRulesSet
  new_ip_rules_set items = insert_rules items []

  -- `List`
  abbrev pub rule_list : IpRulesSet → List SecurityGroupRule
  rule_list [] = []
  rule_list ((k, v) ∷ s) = v ∷ rule_list s

  pub ungroup : IpRulesSet → IpRulesSet
  ungroup s = new_ip_rules_set (ungroup_services (ungroup_members (ungroup_ranges (rule_list s))))

  difference_loop : IpRulesSet → IpRulesSet → IpRulesSet → IpRulesSet
  difference_loop [] s2 result = result
  difference_loop ((k, v) ∷ s) s2 result =
      difference_loop s s2 (if contains (keys s2) k then result else insert k v result)

  -- `Difference`
  pub difference : IpRulesSet → IpRulesSet → IpRulesSet
  difference s s2 = difference_loop s s2 (new_ip_rules_set [])
