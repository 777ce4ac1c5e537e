-- ===== src/Config/Unique.antt =====
-- The check of the overrides and the resolver, for the overrides in another order.
use cloud_provider_osc.Base.{
  ◌&&◌, List, [], ◌∷◌, ◌≡◌, ◌≢◌, if◌then◌else◌, refl, sym, ap, ◌∙◌, subst, arith, ◌==◌, list_eq,
  nat_eq, contains, Result, ok, err, panic, and_then,
}
use cloud_provider_osc.Base.Dict.{Dict}
use cloud_provider_osc.Base.Str.{Str}
use cloud_provider_osc.Config.{
  endpoint_of, ServiceOverride, ResolvedEndpoint, trimmed, signature, checked, validate_loop,
  validate_overrides, resolve,
}
use mathlib.Core.List.{Permᴰ}

abbrev trim_all : Dict Str ServiceOverride → Dict Str ServiceOverride
trim_all [] = []
trim_all (entry ∷ overrides) = (entry.0, trimmed entry.1) ∷ trim_all overrides

-- Each override passes the check, with the signatures of those before it.
abbrev AreChecked : List Str → Dict Str ServiceOverride → Type 0
AreChecked set [] = Unit
AreChecked set (entry ∷ overrides) =
    (checked set (trimmed entry.1) ≡ ok tt)
    × AreChecked (signature (trimmed entry.1) ∷ set) overrides

validate_step :
    (set : List Str) (entry : Str × ServiceOverride) (overrides valid : Dict Str ServiceOverride)
    (r : Result (Unit {0})) (rest : Result (Dict Str ServiceOverride))
    → checked set (trimmed entry.1) ≡ r
    → ((found : Dict Str ServiceOverride)
        → rest ≡ ok found
        → AreChecked (signature (trimmed entry.1) ∷ set) overrides × (found ≡ trim_all overrides))
    → and_then r (λ v. and_then rest (λ found. ok ((entry.0, trimmed entry.1) ∷ found))) ≡ ok valid
    → AreChecked set (entry ∷ overrides) × (valid ≡ trim_all (entry ∷ overrides))
validate_step set entry overrides valid (ok done) (ok found) e h k =
    let rest = h found refl in
    let same : valid ≡ (entry.0, trimmed entry.1) ∷ found = cc in
    ((e, rest.0), same ∙ ap (λ l. (entry.0, trimmed entry.1) ∷ l) rest.1)
validate_step set entry overrides valid (ok done) (err p) e h k = absurd (ground arith)
validate_step set entry overrides valid (ok done) panic e h k = absurd (ground arith)
validate_step set entry overrides valid (err p) rest e h k = absurd (ground arith)
validate_step set entry overrides valid panic rest e h k = absurd (ground arith)

validate_loop-AreChecked :
    (set : List Str) (overrides valid : Dict Str ServiceOverride)
    → validate_loop set overrides ≡ ok valid
    → AreChecked set overrides × (valid ≡ trim_all overrides)
unfolding validate_loop
validate_loop-AreChecked set [] valid h = (tt, ground arith)
validate_loop-AreChecked set (entry ∷ overrides) valid h =
    validate_step set entry overrides valid (checked set (trimmed entry.1))
      (validate_loop (signature (trimmed entry.1) ∷ set) overrides) refl
      (validate_loop-AreChecked (signature (trimmed entry.1) ∷ set) overrides) h

AreChecked-validate_loop :
    (set : List Str) (overrides : Dict Str ServiceOverride)
    → AreChecked set overrides
    → validate_loop set overrides ≡ ok (trim_all overrides)
unfolding validate_loop
AreChecked-validate_loop set [] h = refl
AreChecked-validate_loop set (entry ∷ overrides) h =
    rw h.0 (rw (AreChecked-validate_loop (signature (trimmed entry.1) ∷ set) overrides h.1) refl)

checked_among :
    (set other : List Str) (o : ServiceOverride)
    → contains set (signature o) ≡ contains other (signature o)
    → checked set o ≡ ok tt
    → checked other o ≡ ok tt
checked_among set other o e h = ground arith

-- Of the signatures before only the membership counts.
AreChecked-among :
    (set other : List Str) (overrides : Dict Str ServiceOverride)
    → ((a : Str) → contains set a ≡ contains other a)
    → AreChecked set overrides
    → AreChecked other overrides
AreChecked-among set other [] e h = tt
AreChecked-among set other (entry ∷ overrides) e h =
    let o = trimmed entry.1 in
    (
      checked_among set other o (e (signature o)) h.0,
      AreChecked-among (signature o ∷ set) (signature o ∷ other) overrides
          (λ a. ground (arith, e a)) h.1,
    )

checked_without :
    (set : List Str) (a : Str) (o : ServiceOverride)
    → checked (a ∷ set) o ≡ ok tt
    → checked set o ≡ ok tt
checked_without set a o h = ground arith

checked-apart :
    (set : List Str) (o p : ServiceOverride)
    → checked (signature o ∷ set) p ≡ ok tt
    → signature o ≢ signature p
checked-apart set o p h = ground arith

checked_with :
    (set : List Str) (o : ServiceOverride) (a : Str)
    → checked set o ≡ ok tt
    → a ≢ signature o
    → checked (a ∷ set) o ≡ ok tt
checked_with set o a h k = ground arith

AreChecked-swap :
    (set : List Str) (x y : Str × ServiceOverride) (overrides : Dict Str ServiceOverride)
    → AreChecked set (x ∷ y ∷ overrides)
    → AreChecked set (y ∷ x ∷ overrides)
AreChecked-swap set x y overrides h =
    let o = trimmed x.1 in
    let p = trimmed y.1 in
    (
      checked_without set (signature o) p h.1.0,
      (
        checked_with set o (signature p) h.0 (λ e. checked-apart set o p h.1.0 (sym e)),
        AreChecked-among (signature p ∷ signature o ∷ set) (signature o ∷ signature p ∷ set)
            overrides (λ a. ground arith) h.1.1,
      ),
    )

signature_cong :
    (o p : ServiceOverride)
    → o.service ≡ p.service
    → o.region ≡ p.region
    → signature o ≡ signature p
signature_cong o p e f = cc

module _ (default_resolver : Str → Str → Result ResolvedEndpoint) where
  -- The resolver gives the same for the one list and the other.
  abbrev pub ResolveSame : Dict Str ServiceOverride → Dict Str ServiceOverride → Type 0
  ResolveSame overrides others =
      (service region : Str)
      → resolve default_resolver overrides service region
        ≡ resolve default_resolver others service region

  ResolveSame-swap :
      (set : List Str) (x y : Str × ServiceOverride) (overrides : Dict Str ServiceOverride)
      → AreChecked set (x ∷ y ∷ overrides)
      → ResolveSame (trim_all (x ∷ y ∷ overrides)) (trim_all (y ∷ x ∷ overrides))
  unfolding resolve
  ResolveSame-swap set x y overrides h service region = ground (
    arith,
    checked-apart set (trimmed x.1) (trimmed y.1) h.1.0,
    signature_cong (trimmed x.1) (trimmed y.1),
  )

  ResolveSame-cons :
      (x : Str × ServiceOverride) (overrides others : Dict Str ServiceOverride)
      → ResolveSame overrides others
      → ResolveSame (x ∷ overrides) (x ∷ others)
  unfolding resolve
  ResolveSame-cons x overrides others h service region =
      ap (λ r. if x.1.service == service && x.1.region == region then ok (endpoint_of x.1) else r)
        (h service region)

  -- Another order of overrides that are checked.
  abbrev Agree : List Str → Dict Str ServiceOverride → Dict Str ServiceOverride → Type 0
  Agree set overrides others =
      AreChecked set others × ResolveSame (trim_all overrides) (trim_all others)

  reorder :
      (set : List Str) {overrides others : Dict Str ServiceOverride}
      → Permᴰ overrides others
      → AreChecked set overrides
      → Agree set overrides others
  reorder set Permᴰ.nil h = (tt, λ service region. refl)
  reorder set (Permᴰ.cons {a = a} {l₁ = l₁} {l₂ = l₂} e d) h =
      let rest = reorder (signature (trimmed a.1) ∷ set) d h.1 in
      subst (λ b. Agree set (a ∷ l₁) (b ∷ l₂)) e
        ((h.0, rest.0), ResolveSame-cons (a.0, trimmed a.1) (trim_all l₁) (trim_all l₂) rest.1)
  reorder set (Permᴰ.swap {a = a} {b = b} {b' = b'} {l = l} e f) h =
      subst (λ y. Agree set (a ∷ b ∷ l) (y ∷ b' ∷ l)) f
        (subst (λ x. Agree set (a ∷ b ∷ l) (b ∷ x ∷ l)) e
          (AreChecked-swap set a b l h, ResolveSame-swap set a b l h))
  reorder set (Permᴰ.trans d d') h =
      let here = reorder set d h in
      let there = reorder set d' here.0 in
      (there.0, λ service region. here.1 service region ∙ there.1 service region)

  -- If the check of the overrides succeeds in one order, then it does in any other, and the resolver
  -- gives the same for every service and region.
  pub resolve-reordered :
      (overrides others valid : Dict Str ServiceOverride)
      → Permᴰ overrides others
      → validate_overrides overrides ≡ ok valid
      → (found : Dict Str ServiceOverride) × (validate_overrides others ≡ ok found)
        × ((service region : Str)
            → resolve default_resolver valid service region
              ≡ resolve default_resolver found service region)
  unfolding validate_overrides
  resolve-reordered overrides others valid order h =
      let given = validate_loop-AreChecked [] overrides valid h in
      let other = reorder [] order given.0 in
      (trim_all others, AreChecked-validate_loop [] others other.0, rw given.1 other.1)
