-- ===== src/Service/Name.antt =====
-- The name of a load balancer: its length, its bytes, and when it cannot be made.
use cloud_provider_osc.Base.{
  ℕ, zero, suc, ◌≤◌, Bool, true, false, some, [], ◌∷◌, ◌≡◌, refl, sym, ◌↔◌, arith, ◌==◌, list_eq,
  nat_eq, all, length, length-take-le, take, Result, ok, err, panic, and_then,
}
use cloud_provider_osc.Base.Dict.{Dict, lookup}
use cloud_provider_osc.Base.Decimal.{parse_int}
use cloud_provider_osc.Base.Int.{ℤ, pos, negsuc}
use cloud_provider_osc.Base.Str.{Str, trim, remove_byte}
use cloud_provider_osc.Base.Trim.{starts, starts-trim, ends-trim, length-trim-le, all-trim}
use cloud_provider_osc.Service.{
  base_name, name_length, shorten, get_load_balancer_name, is_name_byte,
}
use cloud_provider_osc.Service.Annotation
use mathlib.Core.List.{reverse}

-- The name cannot be made exactly when there is an annotation for its length and its text is a negative
-- number: then the slice of the name panics.
pub get_load_balancer_name-panic :
    (uid : Str) (annotations : Dict Str Str)
    → (get_load_balancer_name uid annotations ≡ panic) ↔ (
        (s : Str) × (n : ℕ) × (lookup Annotation.name_length annotations ≡ some s)
        × (parse_int s ≡ some (negsuc n)))
unfolding get_load_balancer_name shorten name_length
get_load_balancer_name-panic uid annotations = ground arith

abbrev pub is_hyphen : ℕ → Bool
is_hyphen b = b == b'-'

all-take : (good : ℕ → Bool) (n : ℕ) (s : Str) → all good s ≡ true → all good (take n s) ≡ true
all-take good zero s h = refl
all-take good (suc n) [] h = refl
all-take good (suc n) (c ∷ cs) h = ground (arith, all-take good n cs)

all-remove_byte :
    (s : Str) → all is_name_byte s ≡ true → all is_name_byte (remove_byte b'-' s) ≡ true
unfolding remove_byte
all-remove_byte [] h = refl
all-remove_byte (c ∷ cs) h = ground (arith, all-remove_byte cs)

base_name-all :
    (uid : Str) (annotations : Dict Str Str)
    → all is_name_byte uid ≡ true
    → all is_name_byte (base_name uid annotations) ≡ true
unfolding base_name
base_name-all uid annotations h = ground (arith, all-remove_byte uid h)

name_length-le : (annotations : Dict Str Str) (n : ℕ) → name_length annotations ≡ pos n → n ≤ 32
unfolding name_length
name_length-le annotations n h = ground arith

shorten_lem :
    (s r : Str) (k : ℤ)
    → shorten s k ≡ ok r
    → ((n : ℕ) → k ≡ pos n → n ≤ 32)
    → (length r ≤ 32) × (all is_name_byte s ≡ true → all is_name_byte r ≡ true)
unfolding shorten
shorten_lem s r (pos n) h bound =
    ground (arith, bound n refl, length-take-le n s, all-take is_name_byte n s)
shorten_lem s r (negsuc n) h bound = absurd (ground arith)

-- The name that the cloud's rules allow.
pub record IsName (name : Str) : Type 0 where
  pub short : length name ≤ 32
  pub bytes : all is_name_byte name ≡ true
  pub no_hyphen_first : starts is_hyphen name ≡ false
  pub no_hyphen_last : starts is_hyphen (reverse name) ≡ false

name_lem :
    (r : Result Str) (name base : Str) (k : ℤ)
    → shorten base k ≡ r
    → ((n : ℕ) → k ≡ pos n → n ≤ 32)
    → all is_name_byte base ≡ true
    → and_then r (λ s. ok (trim is_hyphen s)) ≡ ok name
    → IsName name
name_lem (ok s) name base k q bound valid h =
    let part = shorten_lem base s k q bound in
    let same : trim is_hyphen s ≡ name = ground arith in
    rw (sym same) (record {
      short = omega (arith, part.0, length-trim-le is_hyphen s);
      bytes = all-trim is_hyphen is_name_byte s (part.1 valid);
      no_hyphen_first = starts-trim is_hyphen s;
      no_hyphen_last = ends-trim is_hyphen s;
    })
name_lem (err e) name base k q bound valid h = absurd (ground arith)
name_lem panic name base k q bound valid h = absurd (ground arith)

-- Where the name of a load balancer is made, it has 32 bytes at most, all of them letters, digits and
-- hyphens, and does not start or end with a hyphen, if the service's UID has such bytes alone.
pub get_load_balancer_name-IsName :
    (uid name : Str) (annotations : Dict Str Str)
    → all is_name_byte uid ≡ true
    → get_load_balancer_name uid annotations ≡ ok name
    → IsName name
unfolding get_load_balancer_name
get_load_balancer_name-IsName uid name annotations valid h =
    name_lem (shorten (base_name uid annotations) (name_length annotations)) name
      (base_name uid annotations) (name_length annotations) refl (name_length-le annotations)
      (base_name-all uid annotations valid) h
