-- ===== src/Cache/Newest.antt =====
-- Fetches may end in another order than they begin.
use cloud_provider_osc.Base.{
  ◌≤◌, Option, none, some, List, [], ◌∷◌, ◌≡◌, refl, ◌⊎◌, inl, inr, arith, All, Bool-cases, ◌∙◌,
}
use cloud_provider_osc.Cache.{Snapshot, older_than, keep_newest}

-- The cached snapshot after fetches that end in the order of a list.
abbrev pub after_fetches : Option Snapshot → List Snapshot → Option Snapshot
after_fetches cached [] = cached
after_fetches cached (s ∷ fetched) = after_fetches (some (keep_newest cached s)) fetched

abbrev pub IsNoNewer : Option Snapshot → Snapshot → Type 0
IsNoNewer none kept = Unit
IsNoNewer (some s) kept = s.timestamp ≤ kept.timestamp

abbrev IsIn : Snapshot → List Snapshot → Type 0
IsIn kept [] = ⊥
IsIn kept (s ∷ fetched) = (kept ≡ s) ⊎ IsIn kept fetched

abbrev pub IsAmong : Snapshot → Option Snapshot → List Snapshot → Type 0
IsAmong kept cached fetched = (cached ≡ some kept) ⊎ IsIn kept fetched

keep_newest-le :
    (cached : Option Snapshot) (s : Snapshot)
    → IsNoNewer cached (keep_newest cached s) × (s.timestamp ≤ (keep_newest cached s).timestamp)
unfolding keep_newest
keep_newest-le none s = (tt, omega arith)
keep_newest-le (some old) s = ground arith

keep_newest-IsAmong :
    (cached : Option Snapshot) (s : Snapshot) → IsAmong (keep_newest cached s) cached (s ∷ [])
unfolding keep_newest
keep_newest-IsAmong none s = inr (inl refl)
keep_newest-IsAmong (some old) s = elim (Bool-cases (older_than s old)) [
  | inl older ↦ inl (rw older refl)
  | inr newer ↦ inr (inl (rw newer refl))
]

IsAmong-first :
    (kept newest s : Snapshot) (cached : Option Snapshot) (fetched : List Snapshot)
    → some newest ≡ some kept
    → IsAmong newest cached (s ∷ [])
    → IsAmong kept cached (s ∷ fetched)
IsAmong-first kept newest s cached fetched e (inl old) = inl (old ∙ e)
IsAmong-first kept newest s cached fetched e (inr (inl new)) = inr (inl (cc))
IsAmong-first kept newest s cached fetched e (inr (inr impossible)) = absurd impossible

IsAmong-step :
    (kept s : Snapshot) (cached : Option Snapshot) (fetched : List Snapshot)
    → IsAmong kept (some (keep_newest cached s)) fetched
    → IsAmong kept cached (s ∷ fetched)
IsAmong-step kept s cached fetched (inl e) =
    IsAmong-first kept (keep_newest cached s) s cached fetched e (keep_newest-IsAmong cached s)
IsAmong-step kept s cached fetched (inr later) = inr (inr later)

IsNoNewer-trans :
    (cached : Option Snapshot) (a b : Snapshot)
    → IsNoNewer cached a
    → a.timestamp ≤ b.timestamp
    → IsNoNewer cached b
IsNoNewer-trans none a b h k = tt
IsNoNewer-trans (some s) a b h k = omega arith

-- In whatever order fetches end: the cache then holds one of the snapshots that were fetched, or the
-- one of before, and none of them all is newer.
pub after_fetches-newest :
    (cached : Option Snapshot) (s : Snapshot) (fetched : List Snapshot)
    → (kept : Snapshot) × (after_fetches cached (s ∷ fetched) ≡ some kept)
      × IsNoNewer cached kept
      × All (λ f. f.timestamp ≤ kept.timestamp) (s ∷ fetched)
      × IsAmong kept cached (s ∷ fetched)
after_fetches-newest cached s [] =
    let le = keep_newest-le cached s in
    (keep_newest cached s, refl, le.0, (le.1, tt), keep_newest-IsAmong cached s)
after_fetches-newest cached s (x ∷ fetched) =
    let le = keep_newest-le cached s in
    let rest = after_fetches-newest (some (keep_newest cached s)) x fetched in
    (
      rest.0,
      rest.1,
      IsNoNewer-trans cached (keep_newest cached s) rest.0 le.0 rest.2,
      (omega (arith, le.1, rest.2), rest.3),
      IsAmong-step rest.0 s cached (x ∷ fetched) rest.4,
    )
