-- ===== src/Instances/Url.antt =====
-- The package url, as far as `MapToAWSInstanceID` relies on it, and a parser that does as much.
use cloud_provider_osc.Base.{
  ℕ, Bool, true, ◌&&◌, ◌||◌, Option, none, some, [], ◌∷◌, ◌++◌, ◌≡◌, refl, arith, if◌then◌else◌,
  nat_eq, leb, all,
}
use cloud_provider_osc.Base.Str.{Str, codes, has_prefix, trim_prefix}
use cloud_provider_osc.Instances.{Location, is_slash}

-- Letters, digits, "-", "." and "_".
abbrev pub is_plain : ℕ → Bool
is_plain c =
    (leb b'a' c && leb c b'z')
    || (leb b'A' c && leb c b'Z')
    || (leb b'0' c && leb c b'9')
    || (leb b'-' c && leb c b'.')
    || (leb b'_' c && leb c b'_')

abbrev pub is_path_byte : ℕ → Bool
is_path_byte c = is_plain c || is_slash c

-- A text without a path after the host, or with one that starts with "/".
abbrev pub IsPlainPath : Str → Type 0
IsPlainPath [] = Unit
IsPlainPath (c ∷ path) = (is_slash c ≡ true) × (all is_path_byte path ≡ true)

-- `url.Parse` keeps a host and a path of plain bytes as they are written.
abbrev pub IsUrlParser : (Str → Option Location) → Type 0
IsUrlParser parse =
    (host path : Str)
    → all is_plain host ≡ true
    → IsPlainPath path
    → parse (codes "aws://" ++ host ++ path) ≡ some (record { scheme = codes "aws"; path = path })

-- A parser for the tests, which leaves out the host.
unfoldable pub drop_host : Str → Str
unfolding nat_eq
drop_host [] = []
drop_host (c ∷ cs) = let rest = drop_host cs in if is_slash c then c ∷ cs else rest

unfoldable pub plain_parse : Str → Option Location
unfolding drop_host trim_prefix
plain_parse text =
    if has_prefix text (codes "aws://")
    then some
        (record { scheme = codes "aws"; path = drop_host (trim_prefix text (codes "aws://")) })
    else none

drop_host-append :
    (host path : Str)
    → all is_plain host ≡ true
    → IsPlainPath path
    → drop_host (host ++ path) ≡ path
unfolding drop_host
drop_host-append [] [] h p = refl
drop_host-append [] (c ∷ path) h p = ground (arith, p.0)
drop_host-append (c ∷ host) path h p = ground (arith, drop_host-append host path)

pub plain_parse-IsUrlParser : IsUrlParser plain_parse
unfolding plain_parse
plain_parse-IsUrlParser host path h p = rw (drop_host-append host path h p) refl
