-- ===== src/SecurityGroup/Ingress.antt =====
-- `setSecurityGroupIngress` makes the rules of a group those that are asked for.
mod Tests
use cloud_provider_osc.Base.{
  Bool, true, false, not, ◌&&◌, ◌||◌, some, List, [], ◌∷◌, ◌≡◌, refl, ◌∙◌, inl, inr, arith, Eq,
  ◌==◌, list_eq, nat_eq, any, is_nil, contains, All, Bool-cases, ok,
}
use cloud_provider_osc.Base.Dict.{Dict, keys}
use cloud_provider_osc.Base.Str.{Str}
use cloud_provider_osc.Osc.{SecurityGroupRule, SecurityGroup, rules, Compute, list_value}
use cloud_provider_osc.Rules.{rule_list, new_ip_rules_set, ungroup, difference}
use cloud_provider_osc.Rules.Sets.{
  IsCoherent, any_text, ungroup-IsCoherent, difference-IsCoherent, difference-keys, difference-All,
  ungroup-IsSingle,
}
use cloud_provider_osc.Rules.Ungroup.{IsSingle}
use cloud_provider_osc.Cloud.{Cloud}
use cloud_provider_osc.SecurityGroup.{
  no_filters, the_group, find_security_group, authorize, revoke, change_ingress,
  set_security_group_ingress,
}

module _ (Json : Type 0) ⦃e : Eq Json⦄ (marshal : SecurityGroupRule → Json) where
  -- The texts of the single rules of a group.
  abbrev pub rule_texts : SecurityGroup → List Json
  rule_texts group =
      keys (ungroup Json marshal (new_ip_rules_set Json marshal (list_value group.inbound_rules)))

  -- A service that answers: what it has as the group of an id, and the state after a change of its
  -- rules, which has the rules that were created and not those that were deleted, for rules that have one
  -- range, one member and one service at most, as the code asks for.
  pub record IngressService {S : Type 0} (compute : Compute S) (id : Str) : Type 0 where
    pub group_at : S → SecurityGroup
    pub created : List SecurityGroupRule → S → S
    pub deleted : List SecurityGroupRule → S → S
    pub reads :
        (s : S)
        → compute.read_security_groups (record no_filters { security_group_ids = some (id ∷ []) }) s
          ≡ (ok (group_at s ∷ []), s)
    pub creates :
        (ps : List SecurityGroupRule) (s : S)
        → compute.create_security_group_rule id (rules ps) s ≡ (ok tt, created ps s)
    pub deletes :
        (ps : List SecurityGroupRule) (s : S)
        → compute.delete_security_group_rule id (rules ps) s ≡ (ok tt, deleted ps s)
    pub created-texts :
        (ps : List SecurityGroupRule) (s : S) (k : Json)
        → All IsSingle ps
        → contains (rule_texts (group_at (created ps s))) k
          ≡ (contains (rule_texts (group_at s)) k || any (λ p. marshal p == k) ps)
    pub deleted-texts :
        (ps : List SecurityGroupRule) (s : S) (k : Json)
        → All IsSingle ps
        → contains (rule_texts (group_at (deleted ps s))) k
          ≡ (contains (rule_texts (group_at s)) k && not (any (λ p. marshal p == k) ps))

  -- A dictionary without keys is empty.
  nil_of_no_keys :
      {V : Type 0} (s : Dict Json V) → ((k : Json) → contains (keys s) k ≡ false) → is_nil s ≡ true
  nil_of_no_keys [] h = refl
  nil_of_no_keys ((k, v) ∷ s) h = ground (arith, h k)

  no_keys_of_nil :
      {V : Type 0} (s : Dict Json V) (k : Json) → is_nil s ≡ true → contains (keys s) k ≡ false
  no_keys_of_nil [] k h = refl
  no_keys_of_nil (x ∷ s) k h = ground arith

  module _ {S : Type 0} (c : Cloud S) (id : Str) (service : IngressService c.compute id) where
    abbrev held : S → Json → Bool
    held s k = contains (rule_texts (service.group_at s)) k

    find_security_group-reads :
        (s : S) → find_security_group c id s ≡ (ok (some (service.group_at s)), s)
    unfolding find_security_group the_group
    find_security_group-reads s = rw (service.reads s) refl

    authorize_lem :
        (add : Dict Json SecurityGroupRule) (s : S)
        → IsCoherent Json marshal add
        → All IsSingle (rule_list Json marshal add)
        → (t : S) × (authorize c Json marshal id add s ≡ (ok tt, t))
          × ((k : Json) → held t k ≡ (held s k || contains (keys add) k))
    unfolding authorize
    authorize_lem [] s h single = (s, refl, λ k. ground arith)
    authorize_lem (x ∷ add) s h single = (
      service.created (rule_list Json marshal (x ∷ add)) s,
      rw (service.creates (rule_list Json marshal (x ∷ add)) s) refl,
      λ k.
          service.created-texts (rule_list Json marshal (x ∷ add)) s k single
          ∙ rw (any_text Json marshal (x ∷ add) k h) refl,
    )

    revoke_lem :
        (remove : Dict Json SecurityGroupRule) (s : S)
        → IsCoherent Json marshal remove
        → All IsSingle (rule_list Json marshal remove)
        → (t : S) × (revoke c Json marshal id remove s ≡ (ok tt, t))
          × ((k : Json) → held t k ≡ (held s k && not (contains (keys remove) k)))
    unfolding revoke
    revoke_lem [] s h single = (s, refl, λ k. ground arith)
    revoke_lem (x ∷ remove) s h single = (
      service.deleted (rule_list Json marshal (x ∷ remove)) s,
      rw (service.deletes (rule_list Json marshal (x ∷ remove)) s) refl,
      λ k.
          service.deleted-texts (rule_list Json marshal (x ∷ remove)) s k single
          ∙ rw (any_text Json marshal (x ∷ remove) k h) refl,
    )

    -- What the group is to hold once the changes are made.
    change_ingress_lem :
        (permissions : Dict Json SecurityGroupRule) (s : S)
        → (t : S) × (changed : Bool) × (change_ingress c Json marshal id permissions
              (service.group_at s)
              s
            ≡ (ok changed, t))
          × ((k : Json) → held t k ≡ contains (keys (ungroup Json marshal permissions)) k)
    unfolding change_ingress
    change_ingress_lem permissions s =
        let wanted = ungroup Json marshal permissions in
        let actual =
          ungroup Json marshal
            (new_ip_rules_set Json marshal (list_value (service.group_at s).inbound_rules)) in
        let add = difference Json marshal wanted actual in
        let remove = difference Json marshal actual wanted in
        let added =
          authorize_lem add s
            (difference-IsCoherent Json marshal wanted actual (ungroup-IsCoherent Json marshal _))
            (difference-All Json marshal IsSingle wanted actual
              (ungroup-IsSingle Json marshal _)) in
        let revoked =
          revoke_lem remove added.0
            (difference-IsCoherent Json marshal actual wanted (ungroup-IsCoherent Json marshal _))
            (difference-All Json marshal IsSingle actual wanted
              (ungroup-IsSingle Json marshal _)) in
        let texts = difference-keys Json marshal in
        elim (Bool-cases (is_nil add && is_nil remove)) [
          | inl same ↦ (
            s,
            false,
            rw same refl,
            λ k. ground (
              arith,
              same,
              no_keys_of_nil add k,
              no_keys_of_nil remove k,
              texts wanted actual k,
              texts actual wanted k,
            ),
          )
          | inr other ↦ (
            revoked.0,
            true,
            rw other (rw added.1 (rw revoked.1 refl)),
            λ k.
                revoked.2 k
                ∙ ground (arith, added.2 k, texts wanted actual k, texts actual wanted k),
          )
        ]

    -- A group that holds the rules asked for is left as it is.
    change_ingress-same :
        (permissions : Dict Json SecurityGroupRule) (s : S)
        → ((k : Json) → held s k ≡ contains (keys (ungroup Json marshal permissions)) k)
        → change_ingress c Json marshal id permissions (service.group_at s) s ≡ (ok false, s)
    unfolding change_ingress
    change_ingress-same permissions s h =
        let wanted = ungroup Json marshal permissions in
        let actual =
          ungroup Json marshal
            (new_ip_rules_set Json marshal (list_value (service.group_at s).inbound_rules)) in
        let no_add =
          nil_of_no_keys (difference Json marshal wanted actual)
            (λ k. difference-keys Json marshal wanted actual k ∙ ground (arith, h k)) in
        let no_remove =
          nil_of_no_keys (difference Json marshal actual wanted)
            (λ k. difference-keys Json marshal actual wanted k ∙ ground (arith, h k)) in
        rw no_add (rw no_remove refl)

    -- For a group other than the one of the configuration, and a service that answers: the call
    -- succeeds, the group then holds exactly the rules asked for, and a second call changes nothing.
    pub set_security_group_ingress-converges :
        (permissions : Dict Json SecurityGroupRule) (s : S)
        → id == c.global.elb_security_group ≡ false
        → (t : S) × (changed : Bool) × (set_security_group_ingress c Json marshal id permissions s
            ≡ (ok changed, t))
          × ((k : Json) → held t k ≡ contains (keys (ungroup Json marshal permissions)) k)
          × (set_security_group_ingress c Json marshal id permissions t ≡ (ok false, t))
    unfolding set_security_group_ingress
    set_security_group_ingress-converges permissions s h =
        let first = change_ingress_lem permissions s in
        (
          first.0,
          first.1,
          rw h (rw (find_security_group-reads s) first.2),
          first.3,
          rw h (
              rw (find_security_group-reads first.0)
                (change_ingress-same permissions first.0 first.3)),
        )
