-- ===== src/Tags/ClusterId.antt =====
-- The cluster id that `initFromTags` takes from the tags of the instance.
use cloud_provider_osc.Base.{
  Bool, true, false, Option, List, [], ◌∷◌, ◌&&◌, ◌||◌, ◌≡◌, refl, ◌≢◌, ◌⊎◌, arith, ◌==◌, list_eq,
  nat_eq, any, All, All-mono, Result, ok, err, panic, errorf, continue_with,
}
use cloud_provider_osc.Base.Str.{Str, codes, has_prefix, trim_prefix}
use cloud_provider_osc.Osc.{ResourceTag}
use cloud_provider_osc.Tags.{
  ResourceTagging, cluster_prefix, tag_name_kubernetes_cluster, find_cluster_ids,
  find_cluster_ids_loop, init, init_from_tags,
}

-- A tag of the present form, whose key is the prefix and the id, names the id.
abbrev pub names_new : Str → ResourceTag → Bool
names_new id tag = has_prefix tag.key cluster_prefix && (trim_prefix tag.key cluster_prefix == id)

-- So does one of the legacy form, by its value.
abbrev pub names_legacy : Option Str → Str → ResourceTag → Bool
names_legacy env id tag = (tag.key == tag_name_kubernetes_cluster env) && (tag.value == id)

abbrev pub names : Option Str → Str → ResourceTag → Bool
names env id tag = names_new id tag || names_legacy env id tag

-- An id that is found once is kept, and each later one that is found must have met an empty one.
abbrev IsKept : Str → Str → Type 0
IsKept old id = (old ≡ []) ⊎ (id ≡ old)

loop_keeps :
    (env : Option Str) (tags : List ResourceTag) (legacy new legacy' new' : Str)
    → find_cluster_ids_loop env tags legacy new ≡ ok (legacy', new')
    → IsKept legacy legacy' × IsKept new new'
unfolding find_cluster_ids_loop
loop_keeps env [] legacy new legacy' new' h = ground arith
loop_keeps env (tag ∷ tags) legacy new legacy' new' h = ground (
  arith,
  loop_keeps env tags legacy new legacy' new',
  loop_keeps env tags tag.value new legacy' new',
  loop_keeps env tags legacy (trim_prefix tag.key cluster_prefix) legacy' new',
  loop_keeps env tags tag.value (trim_prefix tag.key cluster_prefix) legacy' new',
)

-- What a tag says agrees with the ids that are found in the end.
abbrev Agrees : Option Str → Str → Str → ResourceTag → Type 0
Agrees env legacy new tag =
    (has_prefix tag.key cluster_prefix ≡ true → IsKept (trim_prefix tag.key cluster_prefix) new)
    × ((tag.key == tag_name_kubernetes_cluster env) ≡ true → IsKept tag.value legacy)

loop-Agrees :
    (env : Option Str) (tags : List ResourceTag) (legacy new legacy' new' : Str)
    → find_cluster_ids_loop env tags legacy new ≡ ok (legacy', new')
    → All (Agrees env legacy' new') tags
unfolding find_cluster_ids_loop
loop-Agrees env [] legacy new legacy' new' h = tt
loop-Agrees env (tag ∷ tags) legacy new legacy' new' h = ground (
  arith,
  loop-Agrees env tags legacy new legacy' new',
  loop-Agrees env tags tag.value new legacy' new',
  loop-Agrees env tags legacy (trim_prefix tag.key cluster_prefix) legacy' new',
  loop-Agrees env tags tag.value (trim_prefix tag.key cluster_prefix) legacy' new',
  loop_keeps env tags legacy new legacy' new',
  loop_keeps env tags tag.value new legacy' new',
  loop_keeps env tags legacy (trim_prefix tag.key cluster_prefix) legacy' new',
  loop_keeps env tags tag.value (trim_prefix tag.key cluster_prefix) legacy' new',
)

loop_found :
    (env : Option Str) (tags : List ResourceTag) (legacy new legacy' new' : Str)
    → find_cluster_ids_loop env tags legacy new ≡ ok (legacy', new')
    → ((legacy' ≡ legacy) ⊎ (any (names_legacy env legacy') tags ≡ true))
      × ((new' ≡ new) ⊎ (any (names_new new') tags ≡ true))
unfolding find_cluster_ids_loop
loop_found env [] legacy new legacy' new' h = ground arith
loop_found env (tag ∷ tags) legacy new legacy' new' h = ground (
  arith,
  loop_found env tags legacy new legacy' new',
  loop_found env tags tag.value new legacy' new',
  loop_found env tags legacy (trim_prefix tag.key cluster_prefix) legacy' new',
  loop_found env tags tag.value (trim_prefix tag.key cluster_prefix) legacy' new',
)

-- Both forms of the tag name the id or no id.
abbrev pub NamesOnly : Option Str → Str → ResourceTag → Type 0
NamesOnly env id tag =
    (has_prefix tag.key cluster_prefix ≡ true
      → (trim_prefix tag.key cluster_prefix ≡ []) ⊎ (trim_prefix tag.key cluster_prefix ≡ id))
    × ((tag.key == tag_name_kubernetes_cluster env) ≡ true → (tag.value ≡ []) ⊎ (tag.value ≡ id))

any-names_new :
    (env : Option Str) (id : Str) (tags : List ResourceTag)
    → any (names_new id) tags ≡ true
    → any (names env id) tags ≡ true
any-names_new env id [] h = h
any-names_new env id (tag ∷ tags) h = ground (arith, any-names_new env id tags)

any-names_legacy :
    (env : Option Str) (id : Str) (tags : List ResourceTag)
    → any (names_legacy env id) tags ≡ true
    → any (names env id) tags ≡ true
any-names_legacy env id [] h = h
any-names_legacy env id (tag ∷ tags) h = ground (arith, any-names_legacy env id tags)

-- The two ids that `init` accepts agree with the one that it sets.
init-ok :
    (legacy new : Str) (t t' : ResourceTagging)
    → init legacy new t ≡ (ok tt, t')
    → (t'.cluster_id ≢ [])
      × ((legacy ≡ []) ⊎ (legacy ≡ t'.cluster_id))
      × ((new ≡ []) ⊎ (new ≡ t'.cluster_id))
      × ((legacy ≢ []) ⊎ (new ≡ t'.cluster_id))
unfolding init
init-ok legacy new t t' h = ground arith

module _ (env : Option Str) (tags : List ResourceTag) (t t' : ResourceTagging) where
  abbrev Named : Type 0
  Named =
      (t'.cluster_id ≢ [])
      × (any (names env t'.cluster_id) tags ≡ true)
      × All (NamesOnly env t'.cluster_id) tags

  Named_of_ids :
      (legacy new : Str)
      → find_cluster_ids_loop env tags [] [] ≡ ok (legacy, new)
      → init legacy new t ≡ (ok tt, t')
      → Named
  Named_of_ids legacy new found h =
      let set = init-ok legacy new t t' h in
      (
        set.0,
        ground (
          arith,
          set,
          loop_found env tags [] [] legacy new found,
          any-names_new env t'.cluster_id tags,
          any-names_legacy env t'.cluster_id tags,
        ),
        All-mono (Agrees env legacy new) (NamesOnly env t'.cluster_id) tags
            (λ tag a. ground (arith, set, a)) (loop-Agrees env tags [] [] legacy new found),
      )

  Named_of_result :
      (r : Result (Str × Str))
      → find_cluster_ids_loop env tags [] [] ≡ r
      → continue_with (λ ids. init ids.0 ids.1) (r, t) ≡ (ok tt, t')
      → Named
  Named_of_result (ok ids) e h = Named_of_ids ids.0 ids.1 e h
  Named_of_result (err _) e h = cc
  Named_of_result panic e h = cc

-- Where `initFromTags` succeeds, the cluster id is not empty, one of the tags names it, and every
-- cluster tag, of the present or of the legacy form, names this id or an empty one.
pub init_from_tags_names :
    (env : Option Str) (tags : List ResourceTag) (t t' : ResourceTagging)
    → init_from_tags env tags t ≡ (ok tt, t')
    → (t'.cluster_id ≢ [])
      × (any (names env t'.cluster_id) tags ≡ true)
      × All (NamesOnly env t'.cluster_id) tags
unfolding init_from_tags find_cluster_ids
init_from_tags_names env tags t t' h = Named_of_result env tags t t' _ refl h

-- With no cluster tag the call fails, and the cluster id is left empty.
pub init_from_tags_none :
    (env : Option Str) (tags : List ResourceTag) (t : ResourceTagging)
    → All
        (λ tag.
          (has_prefix tag.key cluster_prefix ≡ false) × (tag.key ≢ tag_name_kubernetes_cluster env))
        tags
    → init_from_tags env tags t
      ≡ (err (errorf (codes "AWS cloud failed to find ClusterID")), record t { cluster_id = [] })
unfolding init_from_tags find_cluster_ids find_cluster_ids_loop init
init_from_tags_none env [] t h = ground arith
init_from_tags_none env (tag ∷ tags) t h = ground (arith, init_from_tags_none env tags t h.1)

-- An initialisation that succeeds leaves an id that is not empty.
abbrev pub LeavesId : Result (Unit {0}) × ResourceTagging → Type 0
LeavesId (ok done, t) = t.cluster_id ≢ []
LeavesId (err e, t) = Unit
LeavesId (panic, t) = Unit

pub init-LeavesId : (legacy id : Str) (t : ResourceTagging) → LeavesId (init legacy id t)
unfolding init
init-LeavesId legacy id t = ground arith

init_found-LeavesId :
    (ids : Result (Str × Str)) (t : ResourceTagging)
    → LeavesId (continue_with (λ i. init i.0 i.1) (ids, t))
init_found-LeavesId (ok ids) t = init-LeavesId ids.0 ids.1 t
init_found-LeavesId (err e) t = tt
init_found-LeavesId panic t = tt

pub init_from_tags-LeavesId :
    (env : Option Str) (tags : List ResourceTag) (t : ResourceTagging)
    → LeavesId (init_from_tags env tags t)
unfolding init_from_tags
init_from_tags-LeavesId env tags t = init_found-LeavesId (find_cluster_ids env tags) t
