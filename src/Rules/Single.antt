-- ===== src/Rules/Single.antt =====
-- Rules that have one range, one member and one service at most are left alone by `Ungroup`.
use cloud_provider_osc.Base.{
  Bool, true, ◌&&◌, List, [], ◌∷◌, ◌≡◌, refl, sym, ap, ◌∙◌, arith, Eq, ◌==◌, any, leb, length,
  contains, filter, All,
}
use cloud_provider_osc.Base.Dict.{keys}
use cloud_provider_osc.Osc.{SecurityGroupRule, list_value}
use cloud_provider_osc.Rules.{
  ungroup_ranges, ungroup_members, ungroup_services, rule_list, new_ip_rules_set, ungroup,
}
use cloud_provider_osc.Rules.Ungroup.{IsSingle}
use cloud_provider_osc.Rules.Sets.{
  any_text, ungroup-IsCoherent, any-new_ip_rules_set, All-insert_rules,
}

ranges-single : (ps : List SecurityGroupRule) → All IsSingle ps → ungroup_ranges ps ≡ ps
unfolding ungroup_ranges
ranges-single [] h = refl
ranges-single (p ∷ ps) h = ground (arith, ranges-single ps h.1, h.0)

members-single : (ps : List SecurityGroupRule) → All IsSingle ps → ungroup_members ps ≡ ps
unfolding ungroup_members
members-single [] h = refl
members-single (p ∷ ps) h = ground (arith, members-single ps h.1, h.0)

services-single : (ps : List SecurityGroupRule) → All IsSingle ps → ungroup_services ps ≡ ps
unfolding ungroup_services
services-single [] h = refl
services-single (p ∷ ps) h = ground (arith, services-single ps h.1, h.0)

passes_same :
    (ps : List SecurityGroupRule)
    → All IsSingle ps
    → ungroup_services (ungroup_members (ungroup_ranges ps)) ≡ ps
passes_same ps h =
    ap (λ xs. ungroup_services (ungroup_members xs)) (ranges-single ps h)
    ∙ ap ungroup_services (members-single ps h)
    ∙ services-single ps h

module _ (Json : Type 0) ⦃e : Eq Json⦄ (marshal : SecurityGroupRule → Json)
    (injective : (p q : SecurityGroupRule) → marshal p ≡ marshal q → p ≡ q) where
  set-IsSingle :
      (ps : List SecurityGroupRule)
      → All IsSingle ps
      → All IsSingle (rule_list Json marshal (new_ip_rules_set Json marshal ps))
  unfolding new_ip_rules_set
  set-IsSingle ps h = All-insert_rules Json marshal IsSingle ps [] h tt

  -- The texts of a set made of such rules, once ungrouped, are those of the rules.
  pub texts_single :
      (ps : List SecurityGroupRule) (k : Json)
      → All IsSingle ps
      → contains (keys (ungroup Json marshal (new_ip_rules_set Json marshal ps))) k
        ≡ any (λ p. marshal p == k) ps
  unfolding ungroup
  texts_single ps k h =
      let test : SecurityGroupRule → Bool = λ p. marshal p == k in
      let set = new_ip_rules_set Json marshal ps in
      sym (any_text Json marshal (ungroup Json marshal set) k (ungroup-IsCoherent Json marshal set))
      ∙ any-new_ip_rules_set Json marshal injective test _
      ∙ ap (any test) (passes_same (rule_list Json marshal set) (set-IsSingle ps h))
      ∙ any-new_ip_rules_set Json marshal injective test ps

pub is_single : SecurityGroupRule → Bool
is_single r =
    leb (length (list_value r.ip_ranges)) 1
    && leb (length (list_value r.security_groups_members)) 1
    && leb (length (list_value r.service_ids)) 1

pub filter-IsSingle : (ps : List SecurityGroupRule) → All IsSingle (filter is_single ps)
unfolding is_single
filter-IsSingle [] = tt
filter-IsSingle (p ∷ ps) = ground (arith, filter-IsSingle ps)

pub is_single_lem : (p : SecurityGroupRule) → IsSingle p → is_single p ≡ true
unfolding is_single
is_single_lem p h = ground arith
