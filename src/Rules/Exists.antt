-- ===== src/Rules/Exists.antt =====
-- When `ruleExists` takes a rule for one that is there.
use cloud_provider_osc.Base.{
  ◌≤◌, Bool, true, false, List, [], ◌∷◌, ◌≡◌, refl, ◌↔◌, arith, ◌==◌, list_eq, nat_eq, any, all,
  length, All, Exists, any-Exists,
}
use cloud_provider_osc.Base.Int.{int_eq}
use cloud_provider_osc.Osc.{
  SecurityGroupsMember, SecurityGroupRule, str_value, int_value, list_value,
}
use cloud_provider_osc.Rules.{is_equal_security_group_member, rule_exists}

-- Two members are of one group and, where accounts count, of one account.
abbrev pub SameMember : Bool → SecurityGroupsMember → SecurityGroupsMember → Type 0
SameMember ids l r =
    (str_value l.security_group_id ≡ str_value r.security_group_id)
    × (ids ≡ true → str_value l.account_id ≡ str_value r.account_id)

all-All {ℓ} :
    {A : Type ℓ} (test : A → Bool) (P : A → Type 0) (xs : List A)
    → ((x : A) → (test x ≡ true) ↔ P x)
    → (all test xs ≡ true) ↔ All P xs
all-All test P [] h = (λ p. tt, λ p. refl)
all-All test P (x ∷ xs) h = ground (arith, h x, all-All test P xs h)

member-SameMember :
    (l r : SecurityGroupsMember) (ids : Bool)
    → (is_equal_security_group_member l r ids ≡ true) ↔ SameMember ids l r
unfolding is_equal_security_group_member
member-SameMember l r true = ground arith
member-SameMember l r false = ground arith

-- What it takes for a rule to be there: the ports and the protocol are the same, the ranges are no
-- more than those of the rule that is there, and each range and each member is one of its own.
pub record IsCovered (ids : Bool) (new existing : SecurityGroupRule) : Type 0 where
  pub from_port : int_value new.from_port_range ≡ int_value existing.from_port_range
  pub to_port : int_value new.to_port_range ≡ int_value existing.to_port_range
  pub protocol : str_value new.ip_protocol ≡ str_value existing.ip_protocol
  pub shorter : length (list_value new.ip_ranges) ≤ length (list_value existing.ip_ranges)
  pub ranges :
      All
        (λ range. Exists (λ other. range ≡ other) (list_value existing.ip_ranges))
        (list_value new.ip_ranges)
  pub members :
      All
        (λ l. Exists (λ r. SameMember ids l r) (list_value existing.security_groups_members))
        (list_value new.security_groups_members)

-- `ruleExists` decides the relation.
pub rule_exists-IsCovered :
    (new existing : SecurityGroupRule) (ids : Bool)
    → (rule_exists new existing ids ≡ true) ↔ IsCovered ids new existing
unfolding rule_exists
rule_exists-IsCovered new existing ids =
    let ranges =
      all-All (λ range. any (λ other. range == other) (list_value existing.ip_ranges))
        (λ range. Exists (λ other. range ≡ other) (list_value existing.ip_ranges))
        (list_value new.ip_ranges)
        (λ range.
          any-Exists (λ other. range == other) (λ other. range ≡ other)
            (list_value existing.ip_ranges) (λ other. (λ h. ground arith, λ h. ground arith))) in
    let members =
      all-All
        (λ l.
          any (λ r. is_equal_security_group_member l r ids)
            (list_value existing.security_groups_members))
        (λ l. Exists (λ r. SameMember ids l r) (list_value existing.security_groups_members))
        (list_value new.security_groups_members)
        (λ l.
          any-Exists (λ r. is_equal_security_group_member l r ids) (λ r. SameMember ids l r)
            (list_value existing.security_groups_members) (λ r. member-SameMember l r ids)) in
    (
      λ h. record {
        from_port = ground arith;
        to_port = ground arith;
        protocol = ground arith;
        shorter = ground arith;
        ranges = ranges.0 (ground arith);
        members = members.0 (ground arith);
      },
      λ c. ground (
        arith,
        ranges.1 c.ranges,
        members.1 c.members,
        c.from_port,
        c.to_port,
        c.protocol,
        c.shorter,
      ),
    )
