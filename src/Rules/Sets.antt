-- ===== src/Rules/Sets.antt =====
-- Sets of rules by their JSON text, if different rules have different texts.
use cloud_provider_osc.Base.{
  Bool, true, false, not, ◌&&◌, ◌||◌, List, [], ◌∷◌, ◌≡◌, refl, ◌∙◌, inl, inr, arith, if◌then◌else◌,
  Eq, ◌==◌, any, contains, All, Bool-cases,
}
use cloud_provider_osc.Base.Dict.{Dict, keys, insert, contains-keys-insert}
use cloud_provider_osc.Osc.{SecurityGroupRule}
use cloud_provider_osc.Rules.{
  insert_rules, new_ip_rules_set, rule_list, ungroup, difference, difference_loop,
}
use cloud_provider_osc.Rules.Ungroup.{
  Flow, Source, grants, IsSingle, ungroup_ranges-grants, ungroup_members-grants,
  ungroup_services-grants, ungroup_ranges-All, ungroup_members-All, ungroup_services-All,
}

module _ (Json : Type 0) ⦃e : Eq Json⦄ (marshal : SecurityGroupRule → Json) where
  -- Each rule stands under its text, as in every set that the code builds.
  abbrev pub IsCoherent : Dict Json SecurityGroupRule → Type 0
  IsCoherent [] = Unit
  IsCoherent ((k, v) ∷ s) = (k ≡ marshal v) × IsCoherent s

  insert-IsCoherent :
      (p : SecurityGroupRule) (s : Dict Json SecurityGroupRule)
      → IsCoherent s
      → IsCoherent (insert (marshal p) p s)
  unfolding insert
  insert-IsCoherent p [] c = (refl, tt)
  insert-IsCoherent p ((k, v) ∷ s) c = ground (arith, insert-IsCoherent p s c.1)

  insert_rules-IsCoherent :
      (items : List SecurityGroupRule) (s : Dict Json SecurityGroupRule)
      → IsCoherent s
      → IsCoherent (insert_rules Json marshal items s)
  unfolding insert_rules
  insert_rules-IsCoherent [] s c = c
  insert_rules-IsCoherent (p ∷ items) s c =
      insert_rules-IsCoherent items (insert (marshal p) p s) (insert-IsCoherent p s c)

  pub new_ip_rules_set-IsCoherent :
      (items : List SecurityGroupRule) → IsCoherent (new_ip_rules_set Json marshal items)
  unfolding new_ip_rules_set
  new_ip_rules_set-IsCoherent items = insert_rules-IsCoherent items [] tt

  pub ungroup-IsCoherent : (s : Dict Json SecurityGroupRule) → IsCoherent (ungroup Json marshal s)
  unfolding ungroup
  ungroup-IsCoherent s = new_ip_rules_set-IsCoherent _

  if_IsCoherent :
      (k : Json) (v : SecurityGroupRule) (s : Dict Json SecurityGroupRule) (b : Bool)
      → k ≡ marshal v
      → IsCoherent s
      → IsCoherent (if b then s else insert k v s)
  if_IsCoherent k v s true h c = c
  if_IsCoherent k v s false h c = rw h (insert-IsCoherent v s c)

  difference_loop-IsCoherent :
      (s s2 result : Dict Json SecurityGroupRule)
      → IsCoherent s
      → IsCoherent result
      → IsCoherent (difference_loop Json marshal s s2 result)
  unfolding difference_loop
  difference_loop-IsCoherent [] s2 result c d = d
  difference_loop-IsCoherent ((k, v) ∷ s) s2 result c d =
      difference_loop-IsCoherent s s2 _ c.1 (if_IsCoherent k v result (contains (keys s2) k) c.0 d)

  -- The texts of the rules of a set are its keys.
  pub any_text :
      (s : Dict Json SecurityGroupRule) (k : Json)
      → IsCoherent s
      → any (λ r. marshal r == k) (rule_list Json marshal s) ≡ contains (keys s) k
  any_text [] k c = refl
  any_text ((j, v) ∷ s) k c = ground (arith, any_text s k c.1)

  difference_loop-keys :
      (s s2 result : Dict Json SecurityGroupRule) (k : Json)
      → contains (keys (difference_loop Json marshal s s2 result)) k
        ≡ ((contains (keys s) k && not (contains (keys s2) k)) || contains (keys result) k)
  unfolding difference_loop
  difference_loop-keys [] s2 result k = refl
  difference_loop-keys ((j, v) ∷ s) s2 result k = elim (Bool-cases (contains (keys s2) j)) [
    | inl old ↦ rw old (difference_loop-keys s s2 result k ∙ ground arith)
    | inr new ↦ rw new (
        difference_loop-keys s s2 (insert j v result) k
        ∙ ground (arith, contains-keys-insert k j v result))
  ]

  pub difference-IsCoherent :
      (s s2 : Dict Json SecurityGroupRule)
      → IsCoherent s
      → IsCoherent (difference Json marshal s s2)
  unfolding difference
  difference-IsCoherent s s2 c =
      difference_loop-IsCoherent s s2 _ c (new_ip_rules_set-IsCoherent [])

  -- The difference has the texts of the first set that the second lacks.
  pub difference-keys :
      (s s2 : Dict Json SecurityGroupRule) (k : Json)
      → contains (keys (difference Json marshal s s2)) k
        ≡ (contains (keys s) k && not (contains (keys s2) k))
  unfolding difference new_ip_rules_set insert_rules
  difference-keys s s2 k = difference_loop-keys s s2 [] k ∙ ground arith

  module _ (injective : (p q : SecurityGroupRule) → marshal p ≡ marshal q → p ≡ q) where
    any-rule_list-insert :
        (test : SecurityGroupRule → Bool) (p : SecurityGroupRule) (s : Dict Json SecurityGroupRule)
        → IsCoherent s
        → any test (rule_list Json marshal (insert (marshal p) p s))
          ≡ (test p || any test (rule_list Json marshal s))
    unfolding insert
    any-rule_list-insert test p [] c = refl
    any-rule_list-insert test p ((k, v) ∷ s) c =
        ground (arith, injective v p, any-rule_list-insert test p s c.1)

    any-insert_rules :
        (test : SecurityGroupRule → Bool) (items : List SecurityGroupRule)
        (s : Dict Json SecurityGroupRule)
        → IsCoherent s
        → any test (rule_list Json marshal (insert_rules Json marshal items s))
          ≡ (any test items || any test (rule_list Json marshal s))
    unfolding insert_rules
    any-insert_rules test [] s c = refl
    any-insert_rules test (p ∷ items) s c =
        any-insert_rules test items (insert (marshal p) p s) (insert-IsCoherent p s c)
        ∙ ground (arith, any-rule_list-insert test p s c)

    pub any-new_ip_rules_set :
        (test : SecurityGroupRule → Bool) (items : List SecurityGroupRule)
        → any test (rule_list Json marshal (new_ip_rules_set Json marshal items)) ≡ any test items
    unfolding new_ip_rules_set
    any-new_ip_rules_set test items = any-insert_rules test items [] tt ∙ ground arith

    -- The set that `Ungroup` makes lets in the traffic that the set lets in: for each flow, and each
    -- kind of source. (Different rules have different texts.)
    pub ungroup-grants :
        (f : Flow) (source : Source) (s : Dict Json SecurityGroupRule)
        → any (grants f source) (rule_list Json marshal (ungroup Json marshal s))
          ≡ any (grants f source) (rule_list Json marshal s)
    unfolding ungroup
    ungroup-grants f source s =
        any-new_ip_rules_set (grants f source) _
        ∙ ungroup_services-grants f source _
        ∙ ungroup_members-grants f source _
        ∙ ungroup_ranges-grants f source _

  All-rule_list-insert :
      (P : SecurityGroupRule → Type 0) (k : Json) (p : SecurityGroupRule)
      (s : Dict Json SecurityGroupRule)
      → P p
      → All P (rule_list Json marshal s)
      → All P (rule_list Json marshal (insert k p s))
  unfolding insert
  All-rule_list-insert P k p [] h a = (h, tt)
  All-rule_list-insert P k p ((j, v) ∷ s) h a = ground (arith, All-rule_list-insert P k p s h a.1)

  pub All-insert_rules :
      (P : SecurityGroupRule → Type 0) (items : List SecurityGroupRule)
      (s : Dict Json SecurityGroupRule)
      → All P items
      → All P (rule_list Json marshal s)
      → All P (rule_list Json marshal (insert_rules Json marshal items s))
  unfolding insert_rules
  All-insert_rules P [] s h a = a
  All-insert_rules P (p ∷ items) s h a =
      All-insert_rules P items _ h.1 (All-rule_list-insert P (marshal p) p s h.0 a)

  -- Each rule of the set that `Ungroup` makes has one range, one member and one service at most.
  pub ungroup-IsSingle :
      (s : Dict Json SecurityGroupRule)
      → All IsSingle (rule_list Json marshal (ungroup Json marshal s))
  unfolding ungroup new_ip_rules_set
  ungroup-IsSingle s =
      All-insert_rules IsSingle _ []
        (ungroup_services-All _ (ungroup_members-All _ (ungroup_ranges-All _))) tt

  if_All :
      (P : SecurityGroupRule → Type 0) (b : Bool) (k : Json) (v : SecurityGroupRule)
      (s : Dict Json SecurityGroupRule)
      → P v
      → All P (rule_list Json marshal s)
      → All P (rule_list Json marshal (if b then s else insert k v s))
  if_All P true k v s h a = a
  if_All P false k v s h a = All-rule_list-insert P k v s h a

  difference_loop-All :
      (P : SecurityGroupRule → Type 0) (s s2 result : Dict Json SecurityGroupRule)
      → All P (rule_list Json marshal s)
      → All P (rule_list Json marshal result)
      → All P (rule_list Json marshal (difference_loop Json marshal s s2 result))
  unfolding difference_loop
  difference_loop-All P [] s2 result h a = a
  difference_loop-All P ((k, v) ∷ s) s2 result h a =
      difference_loop-All P s s2 _ h.1 (if_All P (contains (keys s2) k) k v result h.0 a)

  pub difference-All :
      (P : SecurityGroupRule → Type 0) (s s2 : Dict Json SecurityGroupRule)
      → All P (rule_list Json marshal s)
      → All P (rule_list Json marshal (difference Json marshal s s2))
  unfolding difference new_ip_rules_set insert_rules
  difference-All P s s2 h = difference_loop-All P s s2 [] h tt
