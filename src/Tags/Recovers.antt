-- ===== src/Tags/Recovers.antt =====
-- `readRepairClusterTags` gets through a service that refuses a few calls and then answers.
use cloud_provider_osc.Base.{
  ℕ, zero, suc, ◌≤◌, ◌<◌, false, Option, none, some, List, [], ◌∷◌, ◌≡◌, ◌≢◌, refl, ◌∙◌, ap, arith,
  ◌==◌, list_eq, nat_eq, is_nil, ok, err, M, Error,
}
use cloud_provider_osc.Base.Dict.{Dict, lookup, insert, NodupKeys}
use cloud_provider_osc.Base.Str.{Str}
use cloud_provider_osc.Osc.{value_at, ResourceTag, Compute}
use cloud_provider_osc.Tags.{
  ResourceTagging, cluster_tag_key, build_tags, to_resource_tags, Backoff, settle, attempt,
  last_error, create_tags, observed_map, missing_tags, read_repair_cluster_tags,
}
use cloud_provider_osc.Tags.Repair.{
  value_or, TagStore, again, IsBackoff, read_repair_cluster_tags-ok,
}

-- A call that fails a number of times in a row and then succeeds.
abbrev pub SucceedsAfter : {S : Type 0} → ℕ → M S (Unit {0}) → S → S → Type 0
SucceedsAfter zero call s t = call s ≡ (ok tt, t)
SucceedsAfter {S} (suc n) call s t =
    (u : S) × (e : Error) × (call s ≡ (err e, u)) × SucceedsAfter n call u t

module _ {S : Type 0} (backoff : Backoff S) (lawful : IsBackoff backoff) where
  backoff_recovers :
      (call : M S (Unit {0})) (n m : ℕ) (s t : S) (last : Option Error)
      → n < m
      → SucceedsAfter n call s t
      → last_error (backoff m (attempt call) (s, last)) ≡ (ok tt, t)
  backoff_recovers call n zero s t last h r = absurd (omega arith)
  backoff_recovers call zero (suc m) s t last h r = ap last_error (
      lawful.one_step m (attempt call) (s, last)
      ∙ ap (λ x. again (backoff m (attempt call)) (settle last x)) r)
  backoff_recovers call (suc n) (suc m) s t last h (u, e, c, r) =
      ap last_error (
        lawful.one_step m (attempt call) (s, last)
        ∙ ap (λ x. again (backoff m (attempt call)) (settle last x)) c)
      ∙ backoff_recovers call n m u t (some e) (omega arith) r

is_nil-insert : (k v : Str) (d : Dict Str Str) → is_nil (insert k v d) ≡ false
unfolding insert
is_nil-insert k v [] = refl
is_nil-insert k v ((j, w) ∷ d) = ground arith

is_nil-build_tags :
    (env : Option Str) (t : ResourceTagging) (lifecycle : Str) (add : Dict Str Str)
    → t.cluster_id ≢ []
    → is_nil (build_tags env t lifecycle add) ≡ false
unfolding build_tags
is_nil-build_tags env t lifecycle add h =
    let named : (t.cluster_id == []) ≡ false = ground arith in
    rw named (is_nil-insert (cluster_tag_key t) lifecycle _)

module _ {S : Type 0} (client : Compute S) (backoff : Backoff S) (env : Option Str)
    (store : TagStore client) (lawful : IsBackoff backoff) (t : ResourceTagging)
    (resource lifecycle : Str) where
  create_tags-recovers :
      (add : Dict Str Str) (n : ℕ) (s s' : S)
      → t.cluster_id ≢ []
      → n ≤ 8
      → SucceedsAfter n
          (client.create_tags resource (to_resource_tags (build_tags env t lifecycle add)))
          s
          s'
      → create_tags client backoff env t resource lifecycle add s ≡ (ok tt, s')
  unfolding create_tags
  create_tags-recovers add n s s' h le r = rw (is_nil-build_tags env t lifecycle add h) (
      backoff_recovers backoff lawful
        (client.create_tags resource (to_resource_tags (build_tags env t lifecycle add))) n 9 s s'
        none (omega arith) r)

  -- Let the observed tags be those of the resource, under no expected key one of another value. If the
  -- service refuses the call for the missing tags at most 8 times in a row and then takes it, the
  -- repair succeeds; each expected tag then has its value and each other tag is as it was.
  pub read_repair_cluster_tags-recovers :
      (additional : Dict Str Str) (observed : List ResourceTag) (tag : Str × Str)
      (tags : Dict Str Str) (n : ℕ) (s s' : S)
      → NodupKeys additional
      → ((j : Str) → value_at j (observed_map observed []) ≡ store.tag_of s resource j)
      → missing_tags (build_tags env t lifecycle additional) (observed_map observed []) []
        ≡ ok (tag ∷ tags)
      → t.cluster_id ≢ []
      → n ≤ 8
      → SucceedsAfter n
          (client.create_tags resource (to_resource_tags (build_tags env t lifecycle (tag ∷ tags))))
          s
          s'
      → (read_repair_cluster_tags client backoff env t resource lifecycle additional
            (some observed)
            s
          ≡ (ok tt, s'))
        × ((k : Str)
            → store.tag_of s' resource k
              ≡ value_or
                  (lookup k (build_tags env t lifecycle additional))
                  (store.tag_of s resource k))
  unfolding read_repair_cluster_tags
  read_repair_cluster_tags-recovers additional observed tag tags n s s' nodup agrees missing named
        le r =
      let done : read_repair_cluster_tags client backoff env t resource lifecycle additional
            (some observed) s
          ≡ (ok tt, s') =
        rw (missing, create_tags-recovers (tag ∷ tags) n s s' named le r) refl in
      (
        done,
        λ k.
            read_repair_cluster_tags-ok client backoff env store lawful t resource lifecycle
              additional observed s s' k nodup agrees done,
      )
