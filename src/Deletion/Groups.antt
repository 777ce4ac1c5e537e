-- ===== src/Deletion/Groups.antt =====
-- Which security groups are deleted with a load balancer.
use cloud_provider_osc.Base.{
  Bool, true, false, not, ◌&&◌, ◌||◌, List, [], ◌∷◌, ◌≡◌, refl, sym, ◌∙◌, inl, inr, arith,
  if◌then◌else◌, ◌==◌, ◌!=◌, list_eq, nat_eq, any, contains, Bool-cases, Result, ok, err, panic,
  and_then,
}
use cloud_provider_osc.Base.Str.{Str}
use cloud_provider_osc.Osc.{SecurityGroup, str_value}
use cloud_provider_osc.Tags.{ResourceTagging, has_cluster_tag}
use cloud_provider_osc.Deletion.{note_deletion, groups_to_delete}

abbrev is_yes : Result Bool → Bool
is_yes (ok b) = b
is_yes (err e) = false
is_yes panic = false

module _ (tagging : ResourceTagging) (global : Str) where
  -- The group has the id, and may be deleted.
  abbrev pub may_delete : Str → SecurityGroup → Bool
  may_delete id group =
      str_value group.security_group_id == id
      && id != global
      && id != []
      && is_yes (has_cluster_tag tagging group.tags)

  choice_lem :
      (own id empty : Str) (ids : List Str) (tagged : Bool)
      → (own == global || own == empty) ≡ false
      → contains (if tagged && not (contains ids own) then own ∷ ids else ids) id
        ≡ (contains ids id || (own == id && id != global && id != empty && tagged))
  choice_lem own id empty ids true named = ground arith
  choice_lem own id empty ids false named = ground arith

  chosen_lem :
      (group : SecurityGroup) (ids next : List Str) (id : Str) (r : Result Bool)
      → has_cluster_tag tagging group.tags ≡ r
      → (str_value group.security_group_id == global || str_value group.security_group_id == [])
        ≡ false
      → and_then r (λ tagged. ok (
          if tagged && not (contains ids (str_value group.security_group_id))
          then str_value group.security_group_id ∷ ids
          else ids))
        ≡ ok next
      → contains next id ≡ (contains ids id || may_delete id group)
  chosen_lem group ids next id (ok tagged) q named h =
      let same : (if tagged && not (contains ids (str_value group.security_group_id))
            then str_value group.security_group_id ∷ ids
            else ids)
          ≡ next =
        ground arith in
      rw (sym same) (rw q (choice_lem (str_value group.security_group_id) id [] ids tagged named))
  chosen_lem group ids next id (err e) q named h = absurd (ground arith)
  chosen_lem group ids next id panic q named h = absurd (ground arith)

  noted_lem :
      (group : SecurityGroup) (ids next : List Str) (id : Str)
      → note_deletion tagging global group ids ≡ ok next
      → contains next id ≡ (contains ids id || may_delete id group)
  unfolding note_deletion
  noted_lem group ids next id h =
      let own = str_value group.security_group_id in
      elim (Bool-cases (own == global || own == [])) [
        | inl skipped ↦ let same : ids ≡ next = ground arith in rw (sym same) (ground arith)
        | inr named ↦
            chosen_lem group ids next id (has_cluster_tag tagging group.tags) refl named
              (ground arith)
      ]

  then_lem :
      (groups : List SecurityGroup) (group : SecurityGroup) (ids result : List Str) (id : Str)
      (r : Result (List Str))
      → note_deletion tagging global group ids ≡ r
      → and_then r (groups_to_delete tagging global groups) ≡ ok result
      → ((next : List Str)
          → groups_to_delete tagging global groups next ≡ ok result
          → contains result id ≡ (contains next id || any (may_delete id) groups))
      → contains result id
        ≡ (contains ids id || (may_delete id group || any (may_delete id) groups))
  then_lem groups group ids result id (ok next) q h rest =
      rest next h ∙ ground (arith, noted_lem group ids next id q)
  then_lem groups group ids result id (err e) q h rest = absurd (ground arith)
  then_lem groups group ids result id panic q h rest = absurd (ground arith)

  loop_lem :
      (groups : List SecurityGroup) (ids result : List Str) (id : Str)
      → groups_to_delete tagging global groups ids ≡ ok result
      → contains result id ≡ (contains ids id || any (may_delete id) groups)
  unfolding groups_to_delete
  loop_lem [] ids result id h =
      let same : ids ≡ result = ground arith in rw (sym same) (ground arith)
  loop_lem (group ∷ groups) ids result id h =
      then_lem groups group ids result id (note_deletion tagging global group ids) refl h
        (λ next. loop_lem groups next result id)

  -- The groups to delete are exactly those of the answer that have an id, are not the group of the
  -- configuration, and have the cluster's tag.
  pub groups_to_delete_lem :
      (groups : List SecurityGroup) (result : List Str) (id : Str)
      → groups_to_delete tagging global groups [] ≡ ok result
      → contains result id ≡ any (may_delete id) groups
  groups_to_delete_lem groups result id h = loop_lem groups [] result id h
