-- ===== src/Base/Str.antt =====
-- Go strings as lists of bytes, and what the code uses of the package `strings`. Case mapping is
-- that of ASCII: the protocols, certificates and names that the code folds are ASCII texts.
use Prim.Native.Nat.{ℕ, ◌+◌, ◌-◌}
use Prim.Native.Char.{code}
use Prim.Native.String.{String}
use mathlib.Core.Path.{◌≡◌, refl}
use mathlib.Core.Bool.{Bool, true, false, not, ◌&&◌, ◌||◌}
use mathlib.Core.List.{List, [], ◌∷◌, map, reverse}
use native.Mathlib.Omega.{arith}
use cloud_provider_osc.Base.Equality.{if◌then◌else◌, ◌==◌, nat_eq, list_eq}
use cloud_provider_osc.Base.Lists.{ltb, leb, filter, is_nil}

abbrev pub Str : Type 0
Str = List ℕ

-- A literal, as its bytes.
abbrev pub codes : String → Str
codes String.[] = []
codes (String.◌∷◌ c s) = code c ∷ codes s

-- strings.HasPrefix
unfoldable pub has_prefix : Str → Str → Bool
unfolding nat_eq
has_prefix s [] = true
has_prefix [] (p ∷ ps) = false
has_prefix (c ∷ cs) (p ∷ ps) = c == p && has_prefix cs ps

-- strings.TrimPrefix
unfoldable pub trim_prefix : Str → Str → Str
unfolding has_prefix
trim_prefix s p = if has_prefix s p then drop_bytes p s else s
  where
    drop_bytes : Str → Str → Str
    drop_bytes [] s = s
    drop_bytes (p ∷ ps) [] = []
    drop_bytes (p ∷ ps) (c ∷ cs) = drop_bytes ps cs

pub trim_prefix_without : (s p : Str) → has_prefix s p ≡ false → trim_prefix s p ≡ s
unfolding trim_prefix
trim_prefix_without s p h = rw h refl

-- strings.Contains
unfoldable pub has_substring : Str → Str → Bool
unfolding has_prefix
has_substring [] p = has_prefix [] p
has_substring (c ∷ cs) p = has_prefix (c ∷ cs) p || has_substring cs p

unfoldable pub lower_byte : ℕ → ℕ
lower_byte c = if leb b'A' c && leb c b'Z' then c + 32 else c

unfoldable pub upper_byte : ℕ → ℕ
upper_byte c = if leb b'a' c && leb c b'z' then c - 32 else c

-- strings.ToLower, strings.ToUpper
unfoldable pub to_lower : Str → Str
unfolding lower_byte
to_lower = map lower_byte

unfoldable pub to_upper : Str → Str
unfolding upper_byte
to_upper = map upper_byte

-- strings.EqualFold
unfoldable pub equal_fold : Str → Str → Bool
unfolding to_lower list_eq nat_eq
equal_fold s t = to_lower s == to_lower t

pub equal_fold_refl : (s : Str) → equal_fold s s ≡ true
unfolding equal_fold
equal_fold_refl s = ground arith

-- strings.Split by one byte: a text without it is one part.
unfoldable pub push_byte : ℕ → List Str → List Str
push_byte c [] = (c ∷ []) ∷ []
push_byte c (part ∷ parts) = (c ∷ part) ∷ parts

unfoldable pub split : ℕ → Str → List Str
unfolding push_byte nat_eq
split sep [] = [] ∷ []
split sep (c ∷ cs) = let rest = split sep cs in if c == sep then [] ∷ rest else push_byte c rest

-- strings.Fields: the parts between runs of spaces.
abbrev pub is_space : ℕ → Bool
is_space c = (leb 9 c && leb c 13) || (leb 32 c && leb c 32)

unfoldable pub split_at_spaces : Str → List Str
unfolding push_byte
split_at_spaces [] = [] ∷ []
split_at_spaces (c ∷ cs) =
    let rest = split_at_spaces cs in if is_space c then [] ∷ rest else push_byte c rest

unfoldable pub fields : Str → List Str
unfolding split_at_spaces
fields s = filter (λ part. not (is_nil part)) (split_at_spaces s)

unfoldable pub drop_while : (ℕ → Bool) → Str → Str
drop_while test [] = []
drop_while test (c ∷ cs) = let rest = drop_while test cs in if test c then rest else c ∷ cs

-- strings.Trim with the bytes that pass the test as its cutset.
unfoldable pub trim : (ℕ → Bool) → Str → Str
unfolding drop_while
trim test s = reverse (drop_while test (reverse (drop_while test s)))

-- strings.TrimSpace
unfoldable pub trim_space : Str → Str
unfolding trim
trim_space = trim is_space

-- strings.Replace(s, old, "", -1) for a single byte.
unfoldable pub remove_byte : ℕ → Str → Str
unfolding nat_eq
remove_byte b = filter (λ c. not (c == b))

-- strings.Compare(a, b) > 0: the order of bytes, a proper prefix first.
unfoldable pub compares_after : Str → Str → Bool
unfolding nat_eq
compares_after [] t = false
compares_after (a ∷ l) [] = true
compares_after (a ∷ l) (b ∷ m) = ltb b a || (a == b && compares_after l m)

-- sort.Strings
unfoldable pub insert_string : Str → List Str → List Str
unfolding compares_after
insert_string s [] = s ∷ []
insert_string s (t ∷ ts) =
    let rest = insert_string s ts in if compares_after s t then t ∷ rest else s ∷ t ∷ ts

unfoldable pub sort_strings : List Str → List Str
unfolding insert_string
sort_strings [] = []
sort_strings (s ∷ ss) = insert_string s (sort_strings ss)
