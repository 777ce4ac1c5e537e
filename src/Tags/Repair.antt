-- ===== src/Tags/Repair.antt =====
-- `createTags` and `readRepairClusterTags` over a service that keeps the tags of its resources.
use cloud_provider_osc.Base.{
  ℕ, zero, suc, Bool, true, false, Option, none, some, List, [], ◌∷◌, ◌≡◌, refl, ◌≢◌, ◌⊎◌, ◌↔◌, inl,
  inr, ◌==◌, ==_refl, contains, Bool-cases, arith, ap, ◌∙◌, if◌then◌else◌, list_eq, nat_eq, is_nil,
  Result, ok, err, panic, M, Error, errorf, continue_with, return,
}
use cloud_provider_osc.Base.Dict.{
  Dict, keys, lookup, insert, lookup-insert, lookup-nil, lookup-cons, NodupKeys, insert-NodupKeys,
  lookup_of_not_contains,
}
use cloud_provider_osc.Base.Str.{Str, codes}
use cloud_provider_osc.Osc.{value_at, ResourceTag, Compute}
use cloud_provider_osc.Tags.{
  ResourceTagging, build_tags, to_resource_tags, Backoff, settle, attempt, last_error, create_tags,
  create_tag_steps, observed_map, missing_tags, tagging_failed, read_repair_cluster_tags,
}
use cloud_provider_osc.Tags.Build.{lookup-build_tags, build_tags-NodupKeys}

abbrev pub value_or : Option Str → Str → Str
value_or none old = old
value_or (some v) old = v

-- What the code relies on of the service: a resource has for each key one value, "" for none; a call
-- that succeeds sets the keys that it is given and no other, and one that fails sets none.
pub record TagStore {S : Type 0} (client : Compute S) : Type 0 where
  pub tag_of : S → Str → Str → Str
  pub tagged :
      (resource : Str) (tags : Dict Str Str) (s s' : S) (k : Str)
      → client.create_tags resource (to_resource_tags tags) s ≡ (ok tt, s')
      → tag_of s' resource k ≡ value_or (lookup k tags) (tag_of s resource k)
  pub refused :
      (resource : Str) (tags : List ResourceTag) (s s' : S) (k : Str) (e : Error)
      → client.create_tags resource tags s ≡ (err e, s')
      → tag_of s' resource k ≡ tag_of s resource k

abbrev pub again : {T : Type 0} → M T Bool → Result Bool × T → Result Bool × T
again rest (ok true, s) = (ok true, s)
again rest (ok false, s) = rest s
again rest (err e, s) = (err e, s)
again rest (panic, s) = (panic, s)

-- `wait.ExponentialBackoff` calls the condition until it is met, at most as often as it has steps.
pub record IsBackoff {S : Type 0} (backoff : Backoff S) : Type 0 where
  pub no_step :
      (c : M (S × Option Error) Bool) (s : S × Option Error) → backoff 0 c s ≡ (ok false, s)
  pub one_step :
      (n : ℕ) (c : M (S × Option Error) Bool) (s : S × Option Error)
      → backoff (suc n) c s ≡ again (backoff n c) (c s)

-- A call that is repeated until it succeeds: what each failure keeps holds before the success.
module _ {S : Type 0} (backoff : Backoff S) (lawful : IsBackoff backoff) (call : M S (Unit {0}))
    (P Q : S → Type 0) (keeps : (s s' : S) (e : Error) → call s ≡ (err e, s') → P s → P s')
    (reaches : (s s' : S) → call s ≡ (ok tt, s') → P s → Q s') where
  after_call :
      (n : ℕ) (s s' : S) (last : Option Error) (r : Result (Unit {0}) × S)
      → call s ≡ r
      → P s
      → ((u : S) (e : Error)
          → P u
          → last_error (backoff n (attempt call) (u, some e)) ≡ (ok tt, s')
          → Q s')
      → last_error (again (backoff n (attempt call)) (settle last r)) ≡ (ok tt, s')
      → Q s'
  after_call n s s' last (ok _, u) c p rest h = reaches s s' (cc) p
  after_call n s s' last (err e, u) c p rest h = rest u e (keeps s u e c p) h
  after_call n s s' last (panic, u) c p rest h = cc

  more_attempts :
      (n : ℕ) (s s' : S) (e : Error)
      → P s
      → last_error (backoff n (attempt call) (s, some e)) ≡ (ok tt, s')
      → Q s'
  more_attempts zero s s' e p h = cc (lawful.no_step (attempt call) (s, some e))
  more_attempts (suc n) s s' e p h =
      after_call n s s' (some e) (call s) refl p (λ u d q. more_attempts n u s' d q)
        (rw lawful.one_step at h)

  pub attempts :
      (n : ℕ) (s s' : S)
      → P s
      → last_error (backoff (suc n) (attempt call) (s, none)) ≡ (ok tt, s')
      → Q s'
  attempts n s s' p h =
      after_call n s s' none (call s) refl p (λ u d q. more_attempts n u s' d q)
        (rw lawful.one_step at h)

abbrev pub another_cluster : Error
another_cluster = errorf (codes "resource has tag belonging to another cluster")

-- There is another value, that is not empty, under an expected key.
abbrev pub HasOther : Dict Str Str → Dict Str Str → Type 0
HasOther expected actual =
    (k v : Str) × (lookup k expected ≡ some v) × (value_at k actual ≢ []) × (value_at k actual ≢ v)

HasOther-tail :
    (j w : Str) (expected actual : Dict Str Str)
    → contains (keys expected) j ≡ false
    → HasOther expected actual
    → HasOther ((j, w) ∷ expected) actual
HasOther-tail j w expected actual n (k, v, given, filled, other) = (
  k,
  v,
  ground (arith, lookup-cons k j w expected, lookup_of_not_contains j expected n),
  filled,
  other,
)

missing_tags-err :
    (expected actual add : Dict Str Str) (e : Error)
    → NodupKeys expected
    → missing_tags expected actual add ≡ err e
    → HasOther expected actual
unfolding missing_tags
missing_tags-err [] actual add e n h = absurd (ground arith)
missing_tags-err ((j, w) ∷ expected) actual add e n h = elim (Bool-cases (value_at j actual == w)) [
  | inl same ↦
      HasOther-tail j w expected actual n.0
        (missing_tags-err expected actual add e n.1 (ground arith))
  | inr differs ↦ elim (Bool-cases (value_at j actual == [])) [
    | inl empty ↦
        HasOther-tail j w expected actual n.0
          (missing_tags-err expected actual (insert j w add) e n.1 (ground arith))
    | inr filled ↦ (
      j,
      w,
      ground (arith, lookup-cons j j w expected, ==_refl j),
      λ p. ground arith,
      λ p. ground arith,
    )
  ]
]

tagging_failed-other :
    {S : Type 0} (r : Result (Unit {0}) × S) (s : S)
    → tagging_failed r ≡ (err another_cluster, s)
    → ⊥
tagging_failed-other (ok _, u) s h = ground arith
tagging_failed-other (err e, u) s h = ground arith
tagging_failed-other (panic, u) s h = ground arith

missing_tags-ok :
    (expected actual add add' : Dict Str Str) (k : Str)
    → NodupKeys expected
    → missing_tags expected actual add ≡ ok add'
    → ((lookup k expected ≡ none) × (lookup k add' ≡ lookup k add))
      ⊎ ((v : Str) × (lookup k expected ≡ some v)
          × (((value_at k actual ≡ v) × (lookup k add' ≡ lookup k add))
              ⊎ ((value_at k actual ≡ []) × (lookup k add' ≡ some v))))
unfolding missing_tags
missing_tags-ok [] actual add add' k n h = inl (lookup-nil k, ground arith)
missing_tags-ok ((j, v) ∷ expected) actual add add' k n h = ground (
  arith,
  lookup-cons k j v expected,
  lookup-insert k j v add,
  lookup_of_not_contains j expected n.0,
  missing_tags-ok expected actual add add' k n.1,
  missing_tags-ok expected actual (insert j v add) add' k n.1,
)

missing_tags-NodupKeys :
    (expected actual add add' : Dict Str Str)
    → NodupKeys add
    → missing_tags expected actual add ≡ ok add'
    → NodupKeys add'
unfolding missing_tags
missing_tags-NodupKeys [] actual add add' n h = ground arith
missing_tags-NodupKeys ((j, v) ∷ expected) actual add add' n h = ground (
  arith,
  insert-NodupKeys j v add n,
  missing_tags-NodupKeys expected actual add add',
  missing_tags-NodupKeys expected actual (insert j v add) add',
)

-- An expected tag whose key has another value already stops the loop.
missing_tags-foreign :
    (expected actual add : Dict Str Str) (k v : Str)
    → lookup k expected ≡ some v
    → value_at k actual ≢ []
    → value_at k actual ≢ v
    → missing_tags expected actual add
      ≡ err (errorf (codes "resource has tag belonging to another cluster"))
unfolding missing_tags
missing_tags-foreign [] actual add k v e p q = cc (lookup-nil {V = Str} k)
missing_tags-foreign ((j, w) ∷ expected) actual add k v e p q = ground (
  arith,
  lookup-cons k j w expected,
  missing_tags-foreign expected actual add k v,
  missing_tags-foreign expected actual (insert j w add) k v,
)

tagging_failed-ok :
    {S : Type 0} (r : Result (Unit {0}) × S) (s' : S)
    → tagging_failed r ≡ (ok tt, s')
    → r ≡ (ok tt, s')
tagging_failed-ok (ok _, s) s' h = h
tagging_failed-ok (err e, s) s' h = cc
tagging_failed-ok (panic, s) s' h = cc

module _ {S : Type 0} (client : Compute S) (backoff : Backoff S) (env : Option Str)
    (store : TagStore client) (lawful : IsBackoff backoff) (t : ResourceTagging)
    (resource lifecycle : Str) where
  open store use {tag_of, tagged, refused}

  create_tags-ok :
      (add : Dict Str Str) (s s' : S) (k : Str)
      → create_tags client backoff env t resource lifecycle add s ≡ (ok tt, s')
      → tag_of s' resource k
        ≡ value_or (lookup k (build_tags env t lifecycle add)) (tag_of s resource k)
  unfolding create_tags
  create_tags-ok add s s' k h = applied (build_tags env t lifecycle add) h
    where
      applied :
          (tags : Dict Str Str)
          → (if is_nil tags
              then (ok tt, s)
              else last_error (
                  backoff create_tag_steps
                    (attempt (client.create_tags resource (to_resource_tags tags)))
                    (s, none)))
            ≡ (ok tt, s')
          → tag_of s' resource k ≡ value_or (lookup k tags) (tag_of s resource k)
      applied [] h = cc (lookup-nil {V = Str} k)
      applied (tag ∷ tags) h =
          attempts backoff lawful (client.create_tags resource (to_resource_tags (tag ∷ tags)))
            (λ u. tag_of u resource k ≡ tag_of s resource k)
            (λ u. tag_of u resource k ≡ value_or (lookup k (tag ∷ tags)) (tag_of s resource k))
            (λ u u' e c p. refused resource _ u u' k e c ∙ p)
            (λ u u' c p.
              tagged resource (tag ∷ tags) u u' k c ∙ ap (value_or (lookup k (tag ∷ tags))) p)
            8 s s' refl h

  module _ (additional : Dict Str Str) (observed : List ResourceTag) (s : S) where
    abbrev expected : Dict Str Str
    expected = build_tags env t lifecycle additional

    repaired :
        (s' : S) (k : Str) (r : Result (Dict Str Str))
        → NodupKeys additional
        → ((j : Str) → value_at j (observed_map observed []) ≡ tag_of s resource j)
        → missing_tags expected (observed_map observed []) [] ≡ r
        → continue_with
            (λ add. if is_nil add then return tt else (λ u.
              tagging_failed (create_tags client backoff env t resource lifecycle add u)))
            (r, s)
          ≡ (ok tt, s')
        → tag_of s' resource k ≡ value_or (lookup k expected) (tag_of s resource k)
    repaired s' k (ok []) n agrees e h = ground (
      arith,
      missing_tags-ok expected (observed_map observed []) [] [] k
          (build_tags-NodupKeys env t lifecycle additional) e,
      lookup-nil {V = Str} k,
      agrees k,
    )
    repaired s' k (ok (tag ∷ tags)) n agrees e h = ground (
      arith,
      missing_tags-ok expected (observed_map observed []) [] (tag ∷ tags) k
          (build_tags-NodupKeys env t lifecycle additional) e,
      lookup-nil {V = Str} k,
      agrees k,
      lookup-build_tags env t lifecycle additional k n,
      lookup-build_tags env t lifecycle (tag ∷ tags) k
          (missing_tags-NodupKeys expected (observed_map observed []) [] (tag ∷ tags) tt e),
      create_tags-ok (tag ∷ tags) s s' k (tagging_failed-ok _ s' h),
    )
    repaired s' k (err _) n agrees e h = cc
    repaired s' k panic n agrees e h = cc

    -- Where the repair succeeds, each expected tag of the resource has its value, and each other
    -- tag is as it was, if the observed tags are those of the resource.
    pub read_repair_cluster_tags-ok :
        (s' : S) (k : Str)
        → NodupKeys additional
        → ((j : Str) → value_at j (observed_map observed []) ≡ tag_of s resource j)
        → read_repair_cluster_tags client backoff env t resource lifecycle additional
            (some observed)
            s
          ≡ (ok tt, s')
        → tag_of s' resource k ≡ value_or (lookup k expected) (tag_of s resource k)
    unfolding read_repair_cluster_tags
    read_repair_cluster_tags-ok s' k n agrees h = repaired s' k _ n agrees refl h

    foreign_found :
        (r : Result (Dict Str Str))
        → NodupKeys additional
        → missing_tags expected (observed_map observed []) [] ≡ r
        → continue_with
            (λ add. if is_nil add then return tt else (λ u.
              tagging_failed (create_tags client backoff env t resource lifecycle add u)))
            (r, s)
          ≡ (err another_cluster, s)
        → HasOther expected (observed_map observed [])
    foreign_found (ok []) n e h = absurd (ground arith)
    foreign_found (ok (tag ∷ tags)) n e h = absurd (
        tagging_failed-other (create_tags client backoff env t resource lifecycle (tag ∷ tags) s) s
          h)
    foreign_found (err problem) n e h =
        missing_tags-err expected (observed_map observed []) [] problem
          (build_tags-NodupKeys env t lifecycle additional) e
    foreign_found panic n e h = absurd (ground arith)

    -- The call fails because of a tag of another cluster, and leaves the resource alone, exactly if the
    -- observed tags have another value, that is not empty, under one of the expected keys; the additional
    -- tags are a map. A tag under any other key, such as that of another cluster's id, is not looked at.
    pub read_repair_cluster_tags-foreign :
        NodupKeys additional
        → (read_repair_cluster_tags client backoff env t resource lifecycle additional
              (some observed)
              s
            ≡ (err another_cluster, s))
          ↔ HasOther expected (observed_map observed [])
    unfolding read_repair_cluster_tags
    read_repair_cluster_tags-foreign n = (
      foreign_found (missing_tags expected (observed_map observed []) []) n refl,
      λ h. rw (
        missing_tags-foreign expected (observed_map observed []) [] h.0 h.1 h.2 h.3 h.4,
        continue_with,
      ),
    )
