-- ===== src/Subnets/Single.antt =====
-- The one subnet that `EnsureLoadBalancer` uses.
use cloud_provider_osc.Base.{
  true, false, ◌||◌, List, [], ◌∷◌, ◌≡◌, refl, subst, sym, inl, inr, ◌≢◌, arith, if◌then◌else◌,
  ◌==◌, list_eq, nat_eq, is_nil, contains, All, Bool-cases, ok, err, errorf,
}
use cloud_provider_osc.Base.Str.{Str, codes, compares_after}
use cloud_provider_osc.Subnets.{first_subnet, choose_subnet}

compares_after_trans :
    (a b c : Str)
    → compares_after a b ≡ false
    → compares_after b c ≡ false
    → compares_after a c ≡ false
unfolding compares_after
compares_after_trans [] b c p q = refl
compares_after_trans (x ∷ a) [] c p q = absurd (ground arith)
compares_after_trans (x ∷ a) (y ∷ b) [] p q = absurd (ground arith)
compares_after_trans (x ∷ a) (y ∷ b) (z ∷ c) p q = ground (arith, compares_after_trans a b c)

compares_after_refl : (a : Str) → compares_after a a ≡ false
unfolding compares_after
compares_after_refl [] = refl
compares_after_refl (x ∷ a) = ground (arith, compares_after_refl a)

compares_after_asym : (a b : Str) → compares_after a b ≡ true → compares_after b a ≡ false
unfolding compares_after
compares_after_asym [] b p = absurd (ground arith)
compares_after_asym (x ∷ a) [] p = refl
compares_after_asym (x ∷ a) (y ∷ b) p = ground (arith, compares_after_asym a b)

-- The first of a list is not after any of its texts.
abbrev IsFirst : Str → List Str → Type 0
IsFirst x xs = All (λ y. compares_after x y ≡ false) xs

first_subnet-nil : (current : Str) → first_subnet current [] ≡ current
unfolding first_subnet
first_subnet-nil current = refl

first_subnet-cons :
    (current x : Str) (xs : List Str)
    → first_subnet current (x ∷ xs)
      ≡ first_subnet (if compares_after current x then x else current) xs
unfolding first_subnet
first_subnet-cons current x xs = refl

abbrev IsFirstOf : Str → List Str → Str → Type 0
IsFirstOf current xs r =
    ((r == current || contains xs r) ≡ true) × (compares_after r current ≡ false) × IsFirst r xs

first_subnet_lem : (current : Str) (xs : List Str) → IsFirstOf current xs (first_subnet current xs)
first_subnet_lem current [] =
    subst (IsFirstOf current []) (sym (first_subnet-nil current))
      (ground arith, compares_after_refl current, tt)
first_subnet_lem current (x ∷ xs) =
    subst (IsFirstOf current (x ∷ xs)) (sym (first_subnet-cons current x xs))
      (elim (Bool-cases (compares_after current x)) [
        | inl after ↦
            let rest = first_subnet_lem x xs in
            subst (λ b. IsFirstOf current (x ∷ xs) (first_subnet (if b then x else current) xs))
              (sym after)
              (
                ground (arith, rest.0),
                compares_after_trans _ x current rest.1 (compares_after_asym current x after),
                (rest.1, rest.2),
              )
        | inr before ↦
            let rest = first_subnet_lem current xs in
            subst (λ b. IsFirstOf current (x ∷ xs) (first_subnet (if b then x else current) xs))
              (sym before)
              (
                ground (arith, rest.0),
                rest.1,
                (compares_after_trans _ current x rest.1 before, rest.2),
              )
      ])

-- Without an annotation, a load balancer that has some subnets gets one of them, the first in the
-- order of texts. With an annotation it gets the subnet that this names if it is one of them, and
-- otherwise the call fails.
pub choose_subnet_lem :
    (ids : List Str) (target : Str)
    → is_nil ids ≡ false
    → (target ≡ []
        → (id : Str) × (choose_subnet ids target ≡ ok (id ∷ []))
          × (contains ids id ≡ true)
          × All (λ y. compares_after id y ≡ false) ids)
      × (target ≢ []
          → choose_subnet ids target ≡ (
              if contains ids target
              then ok (target ∷ [])
              else err (errorf (codes "user subnet specified in the annotation was not found"))))
unfolding choose_subnet list_eq
choose_subnet_lem [] target h = absurd (ground arith)
choose_subnet_lem (x ∷ []) target h = (
  λ none_given. (x, rw none_given refl, ground arith, (compares_after_refl x, tt)),
  λ given. ground arith,
)
choose_subnet_lem (x ∷ y ∷ ids) target h = (
  λ none_given.
      let first = first_subnet_lem x (x ∷ y ∷ ids) in
      (first_subnet x (x ∷ y ∷ ids), rw none_given refl, ground (arith, first.0), first.2),
  λ given. ground arith,
)
