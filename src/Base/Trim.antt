-- ===== src/Base/Trim.antt =====
-- What `strings.Trim` leaves of a text: no byte of the cutset at either end, no more bytes, and no new
-- ones.
use Prim.Native.Nat.{ℕ, ◌≤◌, ◌+◌}
use mathlib.Core.Path.{◌≡◌, refl, sym, ap, ◌∙◌}
use mathlib.Core.Bool.{Bool, true, false, not, ◌&&◌}
use mathlib.Core.List.{[], ◌∷◌, ◌++◌, reverse, reverse_aux}
use native.Mathlib.Omega.{arith}
use cloud_provider_osc.Base.Equality.{if◌then◌else◌}
use cloud_provider_osc.Base.Lists.{length, all}
use cloud_provider_osc.Base.Str.{Str, drop_while, trim}

module _ (test : ℕ → Bool) where
  abbrev pub starts : Str → Bool
  starts [] = false
  starts (c ∷ cs) = test c

  starts-drop_while : (s : Str) → starts (drop_while test s) ≡ false
  unfolding drop_while
  starts-drop_while [] = refl
  starts-drop_while (c ∷ cs) = ground (arith, starts-drop_while cs)

  starts-append : (s t : Str) → starts (s ++ t) ≡ false → starts s ≡ false
  starts-append [] t h = refl
  starts-append (c ∷ cs) t h = h

  dropped : Str → Str
  unfolding drop_while
  dropped [] = []
  dropped (c ∷ cs) = let rest = dropped cs in if test c then c ∷ rest else []

  dropped-append : (s : Str) → dropped s ++ drop_while test s ≡ s
  unfolding dropped drop_while
  dropped-append [] = refl
  dropped-append (c ∷ cs) = ground (arith, dropped-append cs)

  pub all-append : (good : ℕ → Bool) (s t : Str) → all good (s ++ t) ≡ (all good s && all good t)
  all-append good [] t = refl
  all-append good (c ∷ cs) t = ground (arith, all-append good cs t)

  all-reverse_aux :
      (good : ℕ → Bool) (s r : Str) → all good (reverse_aux s r) ≡ (all good s && all good r)
  all-reverse_aux good [] r = refl
  all-reverse_aux good (c ∷ cs) r = ground (arith, all-reverse_aux good cs (c ∷ r))

  length-reverse_aux : (s r : Str) → length (reverse_aux s r) ≡ length s + length r
  length-reverse_aux [] r = omega arith
  length-reverse_aux (c ∷ cs) r = omega (arith, length-reverse_aux cs (c ∷ r))

  reverse_aux-append : (s r q : Str) → reverse_aux s (r ++ q) ≡ reverse_aux s r ++ q
  reverse_aux-append [] r q = refl
  reverse_aux-append (c ∷ cs) r q = reverse_aux-append cs (c ∷ r) q

  pub append-reverse_aux : (s t r : Str) → reverse_aux (s ++ t) r ≡ reverse_aux t (reverse_aux s r)
  append-reverse_aux [] t r = refl
  append-reverse_aux (c ∷ cs) t r = append-reverse_aux cs t (c ∷ r)

  reverse_reverse_aux : (s r : Str) → reverse_aux (reverse_aux s r) [] ≡ reverse_aux r s
  reverse_reverse_aux [] r = refl
  reverse_reverse_aux (c ∷ cs) r = reverse_reverse_aux cs (c ∷ r)

  pub ends-trim : (s : Str) → starts (reverse (trim test s)) ≡ false
  unfolding trim
  ends-trim s =
      ap starts (reverse_reverse_aux (drop_while test (reverse (drop_while test s))) [])
      ∙ starts-drop_while (reverse (drop_while test s))

  pub starts-trim : (s : Str) → starts (trim test s) ≡ false
  unfolding trim
  starts-trim s =
      let u = drop_while test s in
      let v = drop_while test (reverse u) in
      let p = dropped (reverse u) in
      let whole : reverse v ++ reverse p ≡ u =
        sym (reverse_aux-append v [] (reverse p))
        ∙ sym (append-reverse_aux p v [])
        ∙ ap reverse (dropped-append (reverse u))
        ∙ reverse_reverse_aux u [] in
      starts-append (reverse v) (reverse p) (ap starts whole ∙ starts-drop_while s)

  length-drop_while-le : (s : Str) → length (drop_while test s) ≤ length s
  unfolding drop_while
  length-drop_while-le [] = omega arith
  length-drop_while-le (c ∷ cs) = ground (arith, length-drop_while-le cs)

  pub length-trim-le : (s : Str) → length (trim test s) ≤ length s
  unfolding trim
  length-trim-le s =
      let u = drop_while test s in
      let v = drop_while test (reverse u) in
      omega (
        arith,
        length-reverse_aux v [],
        length-drop_while-le (reverse u),
        length-reverse_aux u [],
        length-drop_while-le s,
      )

  all-drop_while :
      (good : ℕ → Bool) (s : Str) → all good s ≡ true → all good (drop_while test s) ≡ true
  unfolding drop_while
  all-drop_while good [] h = refl
  all-drop_while good (c ∷ cs) h = ground (arith, all-drop_while good cs)

  pub all-trim : (good : ℕ → Bool) (s : Str) → all good s ≡ true → all good (trim test s) ≡ true
  unfolding trim
  all-trim good s h =
      let u = drop_while test s in
      let v = drop_while test (reverse u) in
      let back : all good (reverse u) ≡ true =
        all-reverse_aux good u [] ∙ ground (arith, all-drop_while good s h) in
      all-reverse_aux good v [] ∙ ground (arith, all-drop_while good (reverse u) back)

  drop_while-plain : (s : Str) → starts s ≡ false → drop_while test s ≡ s
  unfolding drop_while
  drop_while-plain [] h = refl
  drop_while-plain (c ∷ cs) h = ground arith

  -- A text that has no byte of the cutset at either end is left as it is.
  pub trim-plain : (s : Str) → starts s ≡ false → starts (reverse s) ≡ false → trim test s ≡ s
  unfolding trim
  trim-plain s h k =
      rw (drop_while-plain s h, drop_while-plain (reverse s) k) (reverse_reverse_aux s [])

  pub trim-cons : (c : ℕ) (s : Str) → test c ≡ true → trim test (c ∷ s) ≡ trim test s
  unfolding trim drop_while
  trim-cons c s h = rw h refl

  pub starts-reverse_aux :
      (s r : Str)
      → all (λ c. not (test c)) s ≡ true
      → starts r ≡ false
      → starts (reverse_aux s r) ≡ false
  starts-reverse_aux [] r h k = k
  starts-reverse_aux (c ∷ cs) r h k = starts-reverse_aux cs (c ∷ r) (ground arith) (ground arith)
