-- ===== src/Base/Effect.antt =====
-- What a Go function that may fail returns, and code that calls the cloud's services: a state `S`
-- of the outside world is passed along, and is kept where a later call fails.
use Prim.Native.Nat.{ℕ}
use cloud_provider_osc.Base.Str.{codes}
use mathlib.Core.List.{List, [], ◌∷◌}

-- An error of a client: an `awserr.Error` with its code and text, or another with its text; an error
-- made by `fmt.Errorf`, with the constant beginning of its format alone; and the error
-- `cloudprovider.InstanceNotFound`, which the code compares with by its address.
pub data Error : Type 0 where
  aws_error : List ℕ → List ℕ → Error
  sdk_error : List ℕ → Error
  errorf : List ℕ → Error
  instance_not_found : Error

-- `err.Error()`
abbrev pub error_text : Error → List ℕ
error_text (aws_error code text) = text
error_text (sdk_error text) = text
error_text (errorf text) = text
error_text instance_not_found = codes "instance not found"

-- `panic` is a run-time panic, such as a slice out of range or a nil dereference.
pub data Result {ℓ} (A : Type ℓ) : Type ℓ where
  ok : A → Result A
  err : Error → Result A
  panic : Result A

abbrev pub and_then {ℓ κ} : {A : Type ℓ} {B : Type κ} → Result A → (A → Result B) → Result B
and_then (ok a) f = f a
and_then (err e) f = err e
and_then panic f = panic

abbrev pub M : Type 0 → Type 0 → Type 0
M S A = S → Result A × S

abbrev pub return : {S A : Type 0} → A → M S A
return a s = (ok a, s)

abbrev pub fail : {S A : Type 0} → Error → M S A
fail e s = (err e, s)

abbrev pub lift : {S A : Type 0} → Result A → M S A
lift r s = (r, s)

abbrev pub continue_with : {S A B : Type 0} → (A → M S B) → Result A × S → Result B × S
continue_with f (ok a, s) = f a s
continue_with f (err e, s) = (err e, s)
continue_with f (panic, s) = (panic, s)

infixl 5 ◌>>=◌ ◌>>◌
abbrev pub ◌>>=◌ : {S A B : Type 0} → M S A → (A → M S B) → M S B
◌>>=◌ m f s = continue_with f (m s)

abbrev pub ◌>>◌ : {S B : Type 0} → M S (Unit {0}) → M S B → M S B
m >> k = m >>= λ _. k

-- A call whose error is handled: `_, err := call(); if err != nil { … }`.
abbrev pub handle_with :
    {S A B : Type 0} → (A → M S B) → (Error → M S B) → Result A × S → Result B × S
handle_with f g (ok a, s) = f a s
handle_with f g (err e, s) = g e s
handle_with f g (panic, s) = (panic, s)

abbrev pub try : {S A B : Type 0} → M S A → (A → M S B) → (Error → M S B) → M S B
try m f g s = handle_with f g (m s)

-- The loop `for _, x := range xs { if err := body(x); err != nil { return err } }`.
abbrev pub for_each : {S A : Type 0} → List A → (A → M S (Unit {0})) → M S (Unit {0})
for_each [] body = return tt
for_each (x ∷ xs) body = body x >> for_each xs body
