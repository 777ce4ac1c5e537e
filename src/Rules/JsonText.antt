-- ===== src/Rules/JsonText.antt =====
-- A text of a rule for the tests: the rule itself, whose fields can be compared.
use cloud_provider_osc.Base.{Option, List, ◌≡◌, refl, sym, ap, ◌∙◌, Eq, list_eq, nat_eq, option_eq}
use cloud_provider_osc.Base.Int.{ℤ, int_eq}
use cloud_provider_osc.Base.Str.{Str}
use cloud_provider_osc.Osc.{SecurityGroupsMember, SecurityGroupRule}

data Pair (A B : Type 0) : Type 0 where
  pair : A → B → Pair A B

pair_dec : {A B : Type 0} ⦃d : Eq A⦄ ⦃e : Eq B⦄ → Discrete (Pair A B)
pair_dec ⦃d⦄ ⦃e⦄ (pair a b) (pair x y) = elim (d.dec a x) [
  | yes p ↦ elim (e.dec b y) [ yes q ↦ yes (cc) | no n ↦ no (λ r. n (cc)) ]
  | no n ↦ no (λ r. n (cc))
]

instance pair_eq : {A B : Type 0} ⦃d : Eq A⦄ ⦃e : Eq B⦄ → Eq (Pair A B)
unfolding pair_dec
pair_eq = record { dec = pair_dec }

-- A type whose values are made of those of another.
eq_by :
    {A B : Type 0} ⦃e : Eq B⦄ (to : A → B) (from : B → A) → ((a : A) → from (to a) ≡ a) → Discrete A
eq_by ⦃e⦄ to from h a b = elim (e.dec (to a) (to b)) [
  | yes p ↦ yes (sym (h a) ∙ ap from p ∙ h b)
  | no n ↦ no (λ q. n (ap to q))
]

abbrev MemberFields : Type 0
MemberFields = Pair (Option Str) (Pair (Option Str) (Option Str))

abbrev member_of : MemberFields → SecurityGroupsMember
member_of (pair a (pair b c)) = record {
  account_id = a;
  security_group_id = b;
  security_group_name = c;
}

instance member_eq : Eq SecurityGroupsMember
unfolding eq_by pair_eq
member_eq = record {
  dec =
      eq_by (λ m. pair m.account_id (pair m.security_group_id m.security_group_name)) member_of
        (λ m. refl);
}

abbrev RuleFields : Type 0
RuleFields = Pair (Pair (Option ℤ) (Option ℤ)) (
    Pair (Pair (Option Str) (Option (List Str)))
      (Pair (Option (List SecurityGroupsMember)) (Option (List Str))))

abbrev rule_of : RuleFields → SecurityGroupRule
rule_of (pair (pair a b) (pair (pair c d) (pair e f))) = record {
  from_port_range = a;
  to_port_range = b;
  ip_protocol = c;
  ip_ranges = d;
  security_groups_members = e;
  service_ids = f;
}

instance pub rule_eq : Eq SecurityGroupRule
unfolding eq_by pair_eq member_eq
rule_eq = record {
  dec =
      eq_by
        (λ r.
          pair (pair r.from_port_range r.to_port_range)
            (pair (pair r.ip_protocol r.ip_ranges) (pair r.security_groups_members r.service_ids)))
        rule_of (λ r. refl);
}
