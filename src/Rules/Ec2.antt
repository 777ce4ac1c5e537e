-- ===== src/Rules/Ec2.antt =====
-- cloud-controller-manager/osc/utils.go: `ipPermissionAWSExists` and its comparisons of pointers.
-- cloud-controller-manager/osc/sets_ippermissions.go: `NewIPRulesSetFromAWS`, the rules of Outscale for
-- the permissions of EC2. The pointers in a permission's lists are not nil; the texts behind them may
-- be. Child module: `Agree`.
pub mod Agree
mod Tests
use Prim.Native.Nat.{◌-◌, ◌%◌, ◌^◌}
use cloud_provider_osc.Base.{
  ℕ, Bool, true, false, not, Option, none, some, List, [], ◌∷◌, map, if◌then◌else◌, Eq, ◌==◌,
  list_eq, nat_eq, any, all, is_nil, length, ltb, Result, ok, err, panic, and_then,
}
use cloud_provider_osc.Base.Int.{ℤ, pos, negsuc, int_eq}
use cloud_provider_osc.Base.Str.{Str}
use cloud_provider_osc.Osc.{SecurityGroupsMember, SecurityGroupRule}
use cloud_provider_osc.Rules.{IpRulesSet, new_ip_rules_set}

-- `ec2.IpRange`
pub record IpRange : Type 0 where
  pub cidr_ip : Option Str

-- `ec2.UserIdGroupPair`
pub record UserIdGroupPair : Type 0 where
  pub group_id : Option Str
  pub group_name : Option Str
  pub user_id : Option Str

-- `ec2.IpPermission`, of which the ports are an int64
pub record IpPermission : Type 0 where
  pub from_port : Option ℤ
  pub to_port : Option ℤ
  pub ip_protocol : Option Str
  pub ip_ranges : List IpRange
  pub user_id_group_pairs : List UserIdGroupPair

-- `isEqualInt64Pointer` and `isEqualStringPointer`
unfoldable pub is_equal_pointer : {A : Type 0} → ⦃e : Eq A⦄ → Option A → Option A → Bool
is_equal_pointer none none = true
is_equal_pointer none (some r) = false
is_equal_pointer (some l) none = false
is_equal_pointer (some l) (some r) = l == r

-- The log line dereferences both ids, so that a nil id is a panic.
unfoldable pub is_equal_user_group_pair :
    UserIdGroupPair → UserIdGroupPair → Bool → Option Str → Option Str → Result Bool
is_equal_user_group_pair l r compare_group_user_ids none right = panic
is_equal_user_group_pair l r compare_group_user_ids (some left) none = panic
is_equal_user_group_pair l r compare_group_user_ids (some left) (some right) = ok (
    if is_equal_pointer l.group_id r.group_id
    then (if compare_group_user_ids then is_equal_pointer l.user_id r.user_id else true)
    else false)

unfoldable pub find_pair : UserIdGroupPair → List UserIdGroupPair → Bool → Result Bool
find_pair l [] ids = ok false
find_pair l (r ∷ rs) ids =
    let rest = find_pair l rs ids in
    and_then (is_equal_user_group_pair l r ids l.group_id r.group_id)
      (λ found. if found then ok true else rest)

unfoldable pub find_pairs : List UserIdGroupPair → List UserIdGroupPair → Bool → Result Bool
unfolding find_pair
find_pairs [] rs ids = ok true
find_pairs (l ∷ ls) rs ids =
    let rest = find_pairs ls rs ids in
    and_then (find_pair l rs ids) (λ found. if found then rest else ok false)

unfoldable pub ip_permission_aws_exists : IpPermission → IpPermission → Bool → Result Bool
unfolding find_pairs
ip_permission_aws_exists new existing compare_group_user_ids =
    if not (is_equal_pointer new.from_port existing.from_port)
    then ok false
    else if not (is_equal_pointer new.to_port existing.to_port)
    then ok false
    else if not (is_equal_pointer new.ip_protocol existing.ip_protocol)
    then ok false
    else if ltb (length existing.ip_ranges) (length new.ip_ranges)
    then ok false
    else if not (
        all
          (λ range. any (λ other. is_equal_pointer range.cidr_ip other.cidr_ip) existing.ip_ranges)
          new.ip_ranges)
    then ok false
    else find_pairs new.user_id_group_pairs existing.user_id_group_pairs compare_group_user_ids

-- `int32(x)`: the low 32 bits of the two's complement.
unfoldable pub to_int32 : ℤ → ℤ
to_int32 (pos n) =
    if ltb (n % 2 ^ 32) (2 ^ 31) then pos (n % 2 ^ 32) else negsuc (2 ^ 32 - 1 - n % 2 ^ 32)
to_int32 (negsuc n) =
    if ltb (n % 2 ^ 32) (2 ^ 31) then negsuc (n % 2 ^ 32) else pos (2 ^ 32 - 1 - n % 2 ^ 32)

-- A range whose text is nil is dereferenced.
unfoldable pub cidr_ips : List IpRange → Result (List Str)
cidr_ips [] = ok []
cidr_ips (range ∷ ranges) =
    let rest = cidr_ips ranges in
    elim range.cidr_ip [ none ↦ panic | some cidr ↦ and_then rest (λ cidrs. ok (cidr ∷ cidrs)) ]

abbrev pub member_of : UserIdGroupPair → SecurityGroupsMember
member_of group = record {
  account_id = group.user_id;
  security_group_id = group.group_id;
  security_group_name = group.group_name;
}

abbrev pub to_int32_port : Option ℤ → Option ℤ
to_int32_port none = none
to_int32_port (some port) = some (to_int32 port)

-- An empty list is not set.
abbrev pub set_list : {A : Type 0} → List A → Option (List A)
set_list [] = none
set_list (x ∷ xs) = some (x ∷ xs)

unfoldable pub rule_from_aws : IpPermission → Result SecurityGroupRule
unfolding cidr_ips
rule_from_aws permission = and_then (cidr_ips permission.ip_ranges) (λ cidrs. ok (record {
  from_port_range = to_int32_port permission.from_port;
  to_port_range = to_int32_port permission.to_port;
  ip_protocol = permission.ip_protocol;
  ip_ranges = set_list cidrs;
  security_groups_members = set_list (map member_of permission.user_id_group_pairs);
  service_ids = none;
}))

unfoldable pub rules_from_aws : List IpPermission → Result (List SecurityGroupRule)
unfolding rule_from_aws
rules_from_aws [] = ok []
rules_from_aws (permission ∷ items) =
    let rest = rules_from_aws items in
    and_then (rule_from_aws permission) (λ rule. and_then rest (λ rules. ok (rule ∷ rules)))

module _ (Json : Type 0) ⦃e : Eq Json⦄ (marshal : SecurityGroupRule → Json) where
  unfoldable pub new_ip_rules_set_from_aws : List IpPermission → Result (IpRulesSet Json marshal)
  unfolding rules_from_aws
  new_ip_rules_set_from_aws items =
      and_then (rules_from_aws items) (λ rules. ok (new_ip_rules_set Json marshal rules))
