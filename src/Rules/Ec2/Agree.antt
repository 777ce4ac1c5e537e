-- ===== src/Rules/Ec2/Agree.antt =====
-- `ipPermissionAWSExists` and `ruleExists`: the two comparisons of the same rules.
use cloud_provider_osc.Base.{
  Bool, true, false, Option, none, some, List, [], ◌∷◌, map, ◌≡◌, refl, ◌∙◌, arith, if◌then◌else◌,
  ◌==◌, list_eq, nat_eq, any, all, length, ok, All,
}
use cloud_provider_osc.Base.Int.{ℤ, int_eq}
use cloud_provider_osc.Base.Str.{Str}
use cloud_provider_osc.Osc.{
  SecurityGroupsMember, SecurityGroupRule, str_value, int_value, list_value,
}
use cloud_provider_osc.Rules.{is_equal_security_group_member, rule_exists}
use cloud_provider_osc.Rules.Ec2.{
  IpRange, UserIdGroupPair, IpPermission, is_equal_pointer, is_equal_user_group_pair, find_pair,
  find_pairs, ip_permission_aws_exists, to_int32, cidr_ips, member_of, to_int32_port, set_list,
  rule_from_aws,
}

abbrev pub IsGiven : {A : Type 0} → Option A → Type 0
IsGiven none = ⊥
IsGiven (some a) = Unit

-- A port that an int32 can hold.
abbrev pub IsPort : Option ℤ → Type 0
IsPort none = ⊥
IsPort (some port) = to_int32 port ≡ port

abbrev pub IsPair : UserIdGroupPair → Type 0
IsPair pair = IsGiven pair.group_id × IsGiven pair.user_id

-- A permission that leaves nothing out, with ports that an int32 can hold.
pub record IsComplete (permission : IpPermission) : Type 0 where
  pub from_port : IsPort permission.from_port
  pub to_port : IsPort permission.to_port
  pub protocol : IsGiven permission.ip_protocol
  pub ranges : All (λ range. IsGiven range.cidr_ip) permission.ip_ranges
  pub pairs : All IsPair permission.user_id_group_pairs

abbrev cidr_of : IpRange → Str
cidr_of range = str_value range.cidr_ip

pointer_lem :
    (l r : Option Str) → IsGiven l → IsGiven r → is_equal_pointer l r ≡ (str_value l == str_value r)
unfolding is_equal_pointer
pointer_lem none r p q = absurd p
pointer_lem (some l) none p q = absurd q
pointer_lem (some l) (some r) p q = refl

port_lem :
    (l r : Option ℤ)
    → IsPort l
    → IsPort r
    → is_equal_pointer l r ≡ (int_value (to_int32_port l) == int_value (to_int32_port r))
unfolding is_equal_pointer
port_lem none r p q = absurd p
port_lem (some l) none p q = absurd q
port_lem (some l) (some r) p q = rw p (rw q refl)

list_value-set_list : {A : Type 0} (xs : List A) → list_value (set_list xs) ≡ xs
list_value-set_list [] = refl
list_value-set_list (x ∷ xs) = refl

cidr_ips-map :
    (ranges : List IpRange)
    → All (λ range. IsGiven range.cidr_ip) ranges
    → cidr_ips ranges ≡ ok (map cidr_of ranges)
unfolding cidr_ips
cidr_ips-map [] p = refl
cidr_ips-map (range ∷ ranges) (p, ps) = ground (arith, cidr_ips-map ranges ps)

length-map : {A B : Type 0} (f : A → B) (xs : List A) → length (map f xs) ≡ length xs
length-map f [] = refl
length-map f (x ∷ xs) = ground (arith, length-map f xs)

any-map :
    {A B : Type 0} (f : A → B) (test : A → Bool) (other : B → Bool) (P : A → Type 0) (xs : List A)
    → All P xs
    → ((x : A) → P x → test x ≡ other (f x))
    → any test xs ≡ any other (map f xs)
any-map f test other P [] ps h = refl
any-map f test other P (x ∷ xs) (p, ps) h = ground (arith, h x p, any-map f test other P xs ps h)

all-map :
    {A B : Type 0} (f : A → B) (test : A → Bool) (other : B → Bool) (P : A → Type 0) (xs : List A)
    → All P xs
    → ((x : A) → P x → test x ≡ other (f x))
    → all test xs ≡ all other (map f xs)
all-map f test other P [] ps h = refl
all-map f test other P (x ∷ xs) (p, ps) h = ground (arith, h x p, all-map f test other P xs ps h)

abbrev same_member : Bool → SecurityGroupsMember → SecurityGroupsMember → Bool
same_member ids l r = is_equal_security_group_member l r ids

ids_lem :
    (l r : UserIdGroupPair) (ids : Bool) (left right : Option Str)
    → IsGiven left
    → IsGiven right
    → is_equal_user_group_pair l r ids left right
      ≡ ok (
          if is_equal_pointer l.group_id r.group_id
          then (if ids then is_equal_pointer l.user_id r.user_id else true)
          else false)
unfolding is_equal_user_group_pair
ids_lem l r ids none right p q = absurd p
ids_lem l r ids (some left) none p q = absurd q
ids_lem l r ids (some left) (some right) p q = refl

pair_lem :
    (l r : UserIdGroupPair) (ids : Bool)
    → IsPair l
    → IsPair r
    → is_equal_user_group_pair l r ids l.group_id r.group_id
      ≡ ok (same_member ids (member_of l) (member_of r))
unfolding is_equal_security_group_member
pair_lem l r ids p q =
    ids_lem l r ids l.group_id r.group_id p.0 q.0
    ∙ rw (pointer_lem l.group_id r.group_id p.0 q.0)
        (rw (pointer_lem l.user_id r.user_id p.1 q.1) refl)

find_pair_lem :
    (l : UserIdGroupPair) (rs : List UserIdGroupPair) (ids : Bool)
    → IsPair l
    → All IsPair rs
    → find_pair l rs ids ≡ ok (any (same_member ids (member_of l)) (map member_of rs))
unfolding find_pair
find_pair_lem l [] ids p qs = refl
find_pair_lem l (r ∷ rs) ids p (q, qs) =
    ground (arith, pair_lem l r ids p q, find_pair_lem l rs ids p qs)

find_pairs_lem :
    (ls rs : List UserIdGroupPair) (ids : Bool)
    → All IsPair ls
    → All IsPair rs
    → find_pairs ls rs ids
      ≡ ok (all (λ l. any (same_member ids l) (map member_of rs)) (map member_of ls))
unfolding find_pairs
find_pairs_lem [] rs ids ps qs = refl
find_pairs_lem (l ∷ ls) rs ids (p, ps) qs =
    ground (arith, find_pair_lem l rs ids p qs, find_pairs_lem ls rs ids ps qs)

abbrev complete_rule : IpPermission → SecurityGroupRule
complete_rule permission = record {
  from_port_range = to_int32_port permission.from_port;
  to_port_range = to_int32_port permission.to_port;
  ip_protocol = permission.ip_protocol;
  ip_ranges = set_list (map cidr_of permission.ip_ranges);
  security_groups_members = set_list (map member_of permission.user_id_group_pairs);
  service_ids = none;
}

rule_from_aws-complete_rule :
    (permission : IpPermission)
    → IsComplete permission
    → rule_from_aws permission ≡ ok (complete_rule permission)
unfolding rule_from_aws
rule_from_aws-complete_rule permission h = rw (cidr_ips-map permission.ip_ranges h.ranges) refl

ranges_lem :
    (ls rs : List IpRange)
    → All (λ range. IsGiven range.cidr_ip) ls
    → All (λ range. IsGiven range.cidr_ip) rs
    → all (λ l. any (λ r. is_equal_pointer l.cidr_ip r.cidr_ip) rs) ls
      ≡ all (λ l. any (λ r. l == r) (map cidr_of rs)) (map cidr_of ls)
ranges_lem ls rs ps qs =
    all-map cidr_of (λ l. any (λ r. is_equal_pointer l.cidr_ip r.cidr_ip) rs)
      (λ l. any (λ r. l == r) (map cidr_of rs)) (λ range. IsGiven range.cidr_ip) ls ps
      (λ l p.
        any-map cidr_of (λ r. is_equal_pointer l.cidr_ip r.cidr_ip) (λ r. cidr_of l == r)
          (λ range. IsGiven range.cidr_ip) rs qs (λ r q. pointer_lem l.cidr_ip r.cidr_ip p q))

exists-complete_rule :
    (new existing : IpPermission) (ids : Bool)
    → IsComplete new
    → IsComplete existing
    → ip_permission_aws_exists new existing ids
      ≡ ok (rule_exists (complete_rule new) (complete_rule existing) ids)
unfolding ip_permission_aws_exists rule_exists
exists-complete_rule new existing ids h k =
    rw
      (
        list_value-set_list (map cidr_of new.ip_ranges),
        list_value-set_list (map cidr_of existing.ip_ranges),
        list_value-set_list (map member_of new.user_id_group_pairs),
        list_value-set_list (map member_of existing.user_id_group_pairs),
        length-map cidr_of new.ip_ranges,
        length-map cidr_of existing.ip_ranges,
        port_lem new.from_port existing.from_port h.from_port k.from_port,
        port_lem new.to_port existing.to_port h.to_port k.to_port,
        pointer_lem new.ip_protocol existing.ip_protocol h.protocol k.protocol,
        ranges_lem new.ip_ranges existing.ip_ranges h.ranges k.ranges,
        find_pairs_lem new.user_id_group_pairs existing.user_id_group_pairs ids h.pairs k.pairs,
      )
      (ground arith)

-- For two permissions that leave nothing out, with ports that an int32 can hold, the conversion to
-- rules succeeds, and `ipPermissionAWSExists` gives, without a panic, what `ruleExists` gives for the
-- two rules.
pub ip_permission_aws_exists-rule_exists :
    (new existing : IpPermission) (ids : Bool)
    → IsComplete new
    → IsComplete existing
    → (p q : SecurityGroupRule) × (rule_from_aws new ≡ ok p)
      × (rule_from_aws existing ≡ ok q)
      × (ip_permission_aws_exists new existing ids ≡ ok (rule_exists p q ids))
ip_permission_aws_exists-rule_exists new existing ids h k = (
  complete_rule new,
  complete_rule existing,
  rule_from_aws-complete_rule new h,
  rule_from_aws-complete_rule existing k,
  exists-complete_rule new existing ids h k,
)
