-- ===== src/Base/Decimal.antt =====
-- What the code uses of the package `strconv`: decimal integers of 64 bits, and truth values.
use Prim.Native.Nat.{ℕ, zero, suc, ◌+◌, ◌-◌, ◌*◌, ◌/◌, ◌%◌, ◌^◌}
use mathlib.Core.Bool.{Bool, true, false, ◌&&◌}
use mathlib.Core.List.{List, [], ◌∷◌}
use mathlib.Core.Option.{Option, none, some}
use cloud_provider_osc.Base.Equality.{if◌then◌else◌, ◌==◌, nat_eq, list_eq}
use cloud_provider_osc.Base.Lists.{ltb, leb, contains}
use cloud_provider_osc.Base.Int.{ℤ, pos, negsuc}
use cloud_provider_osc.Base.Str.{Str, codes}

abbrev is_digit : ℕ → Bool
is_digit c = leb b'0' c && leb c b'9'

digits_from : Str → ℕ → Option ℕ
digits_from [] n = some n
digits_from (c ∷ cs) n =
    let rest = digits_from cs (n * 10 + (c - b'0')) in if is_digit c then rest else none

digits_value : Str → Option ℕ
unfolding digits_from
digits_value [] = none
digits_value (c ∷ cs) = digits_from (c ∷ cs) 0

abbrev negative : ℕ → ℤ
negative zero = pos 0
negative (suc n) = negsuc n

in_range : Bool → Option ℕ → Option ℤ
in_range minus none = none
in_range true (some n) = if leb n (2 ^ 63) then some (negative n) else none
in_range false (some n) = if ltb n (2 ^ 63) then some (pos n) else none

-- strconv.Atoi and strconv.ParseInt(s, 10, 0 or 64) on a 64-bit machine; `none` is an error.
unfoldable pub parse_int : Str → Option ℤ
unfolding digits_value in_range nat_eq
parse_int [] = none
parse_int (c ∷ cs) =
    if c == b'-'
    then in_range true (digits_value cs)
    else if c == b'+'
    then in_range false (digits_value cs)
    else in_range false (digits_value (c ∷ cs))

abbrev true_texts : List Str
true_texts = codes "1" ∷ codes "t" ∷ codes "T" ∷ codes "TRUE" ∷ codes "true" ∷ codes "True" ∷ []

abbrev false_texts : List Str
false_texts = codes "0" ∷ codes "f" ∷ codes "F" ∷ codes "FALSE" ∷ codes "false" ∷ codes "False" ∷ []

-- strconv.ParseBool
unfoldable pub parse_bool : Str → Option Bool
unfolding list_eq nat_eq
parse_bool s =
    if contains true_texts s then some true else if contains false_texts s then some false else none

-- strconv.FormatInt(i, 10): a number of 64 bits has 20 digits at most.
unfoldable pub digits : ℕ → ℕ → Str → Str
digits zero n acc = acc
digits (suc fuel) n acc =
    let rest = digits fuel (n / 10) ((b'0' + (n % 10)) ∷ acc) in
    if ltb n 10 then (b'0' + n) ∷ acc else rest

unfoldable pub format_int : ℤ → Str
unfolding digits
format_int (pos n) = digits 20 n []
format_int (negsuc n) = b'-' ∷ digits 20 (suc n) []
