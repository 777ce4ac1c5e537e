-- ===== src/Instances/ProviderId.antt =====
-- The names of instances that the manager makes and takes: what it makes, both parsers take, and a
-- bare id too.
use mathlib.Core.List.{reverse}
use cloud_provider_osc.Base.{
  ℕ, Bool, true, false, not, Option, [], ◌∷◌, ◌++◌, ◌≡◌, ◌≢◌, refl, ◌∙◌, ap, arith, if◌then◌else◌,
  list_eq, nat_eq, all, ok,
}
use cloud_provider_osc.Base.Str.{
  Str, codes, has_prefix, split, push_byte, trim, trim_prefix_without,
}
use cloud_provider_osc.Base.Trim.{
  starts, all-append, append-reverse_aux, starts-reverse_aux, trim-cons, trim-plain,
}
use cloud_provider_osc.Osc.{Vm, str_value, subregion_of}
use cloud_provider_osc.Instances.{
  Location, is_slash, id_token, id_token_v2, id_of_parsed, is_instance_id, id_of_location,
  map_to_aws_instance_id, get_instance_provider_id_v2, parse_instance_id_from_provider_id_v2,
}
use cloud_provider_osc.Instances.Url.{is_plain, is_path_byte, IsPlainPath, IsUrlParser}

abbrev not_slash : ℕ → Bool
not_slash c = not (is_slash c)

is_slash-plain : (c : ℕ) → is_plain c ≡ true → is_slash c ≡ false
unfolding nat_eq
is_slash-plain c h = ground arith

all-not_slash : (s : Str) → all is_plain s ≡ true → all not_slash s ≡ true
all-not_slash [] h = refl
all-not_slash (c ∷ cs) h = ground (arith, is_slash-plain c, all-not_slash cs)

all-is_path_byte : (s : Str) → all is_plain s ≡ true → all is_path_byte s ≡ true
all-is_path_byte [] h = refl
all-is_path_byte (c ∷ cs) h = ground (arith, all-is_path_byte cs)

split-plain : (s : Str) → all not_slash s ≡ true → split b'/' s ≡ s ∷ []
unfolding split push_byte
split-plain [] h = refl
split-plain (c ∷ cs) h = ground (arith, split-plain cs)

split-append : (s t : Str) → all not_slash s ≡ true → split b'/' (s ++ b'/' ∷ t) ≡ s ∷ split b'/' t
unfolding split push_byte
split-append [] t h = ground arith
split-append (c ∷ cs) t h = ground (arith, split-append cs t)

-- The text that is left of a path with a zone and an id.
trim-path :
    (zone id : Str)
    → zone ≢ []
    → id ≢ []
    → all not_slash zone ≡ true
    → all not_slash id ≡ true
    → trim is_slash (b'/' ∷ zone ++ b'/' ∷ id) ≡ zone ++ b'/' ∷ id
unfolding nat_eq
trim-path [] id z i h k = absurd (z refl)
trim-path (a ∷ zone) [] z i h k = absurd (i refl)
trim-path (a ∷ zone) (b ∷ id) z i h k =
    trim-cons is_slash b'/' (a ∷ zone ++ b'/' ∷ b ∷ id) refl
    ∙ trim-plain is_slash (a ∷ zone ++ b'/' ∷ b ∷ id) (ground arith) (
        ap (starts is_slash) (append-reverse_aux is_slash (a ∷ zone) (b'/' ∷ b ∷ id) [])
        ∙ starts-reverse_aux is_slash id (b ∷ b'/' ∷ reverse (a ∷ zone)) (ground arith)
            (ground arith))

-- A bare id is taken from a path with two slashes before it.
trim-bare : (id : Str) → id ≢ [] → all not_slash id ≡ true → trim is_slash (b'/' ∷ b'/' ∷ id) ≡ id
unfolding nat_eq
trim-bare [] i h = absurd (i refl)
trim-bare (b ∷ id) i h =
    trim-cons is_slash b'/' (b'/' ∷ b ∷ id) refl
    ∙ trim-cons is_slash b'/' (b ∷ id) refl
    ∙ trim-plain is_slash (b ∷ id) (ground arith)
        (starts-reverse_aux is_slash id (b ∷ []) (ground arith) (ground arith))

is_instance_id-nonempty : (id : Str) → is_instance_id id ≡ true → id ≢ []
unfolding is_instance_id
is_instance_id-nonempty [] h = ground arith
is_instance_id-nonempty (c ∷ id) h = ground arith

has_prefix-bare : (id : Str) → is_instance_id id ≡ true → has_prefix id (codes "aws://") ≡ false
unfolding is_instance_id
has_prefix-bare [] h = ground arith
has_prefix-bare (c ∷ id) h = ground arith

append-cons : (s t : Str) → s ++ b'/' ∷ [] ++ t ≡ s ++ b'/' ∷ t
append-cons [] t = refl
append-cons (c ∷ s) t = ap (◌∷◌ c) (append-cons s t)

IsPlainPath-path :
    (zone id : Str)
    → all is_plain zone ≡ true
    → all is_plain id ≡ true
    → IsPlainPath (b'/' ∷ zone ++ b'/' ∷ id)
unfolding nat_eq
IsPlainPath-path zone id h k = (
  refl,
  all-append is_slash is_path_byte zone (b'/' ∷ id)
      ∙ ground (arith, all-is_path_byte zone h, all-is_path_byte id k),
)

parse_v2-path :
    (zone id : Str)
    → all not_slash zone ≡ true
    → all not_slash id ≡ true
    → parse_instance_id_from_provider_id_v2 (codes "aws:///" ++ zone ++ b'/' ∷ id) ≡ id
unfolding parse_instance_id_from_provider_id_v2
parse_v2-path zone id sz si = ap id_token_v2 (
    split-append [] (zone ++ b'/' ∷ id) refl
    ∙ ap (◌∷◌ []) (split-append zone id sz ∙ ap (◌∷◌ zone) (split-plain id si)))

parse_v2-bare :
    (id : Str)
    → all not_slash id ≡ true
    → is_instance_id id ≡ true
    → parse_instance_id_from_provider_id_v2 id ≡ id
unfolding parse_instance_id_from_provider_id_v2
parse_v2-bare id si ii =
    ap (λ s. id_token_v2 (split b'/' s))
      (trim_prefix_without id (codes "aws://") (has_prefix-bare id ii))
    ∙ ap id_token_v2 (split-plain id si)

module _ (parse : Str → Option Location) where
  -- What a location with the scheme gives, if the id is the last token of its path.
  id_of_location-ok :
      (path id : Str)
      → id_token (split b'/' (trim is_slash path)) ≡ id
      → is_instance_id id ≡ true
      → id_of_location parse (record { scheme = codes "aws"; path = path }) ≡ ok id
  unfolding id_of_location
  id_of_location-ok path id h i = rw (h, i) (ground (arith, is_instance_id-nonempty id i))

  module _ (parser : IsUrlParser parse) where
    map_to_aws_instance_id-path :
        (path id : Str)
        → IsPlainPath path
        → id_token (split b'/' (trim is_slash path)) ≡ id
        → is_instance_id id ≡ true
        → map_to_aws_instance_id parse (codes "aws://" ++ path) ≡ ok id
    unfolding map_to_aws_instance_id has_prefix
    map_to_aws_instance_id-path path id p h i =
        ap (id_of_parsed parse) (parser [] path refl p) ∙ id_of_location-ok path id h i

    map_to_aws_instance_id-bare :
        (id : Str)
        → all is_plain id ≡ true
        → is_instance_id id ≡ true
        → map_to_aws_instance_id parse id ≡ ok id
    unfolding map_to_aws_instance_id nat_eq
    map_to_aws_instance_id-bare id pi ii =
        let si = all-not_slash id pi in
        let bare = trim-bare id (is_instance_id-nonempty id ii) si in
        ap (id_of_parsed parse) (
          ap (λ b. parse (if b then id else codes "aws://" ++ codes "//" ++ id))
            (has_prefix-bare id ii)
          ∙ parser [] (b'/' ∷ b'/' ∷ id) refl (refl, ground (arith, all-is_path_byte id pi)))
        ∙ id_of_location-ok (b'/' ∷ b'/' ∷ id) id
            (ap id_token (ap (split b'/') bare ∙ split-plain id si)) ii

    -- Let a machine have a zone and an id of plain bytes, the zone not empty and the id one that
    -- starts with "i-". Then it gets a provider id, from which both parsers take the machine's id.
    -- They take the bare id as well.
    pub get_instance_provider_id_v2-parsed :
        (vm : Vm) (zone id : Str)
        → subregion_of vm ≡ zone
        → str_value vm.vm_id ≡ id
        → zone ≢ []
        → all is_plain zone ≡ true
        → all is_plain id ≡ true
        → is_instance_id id ≡ true
        → (provider_id : Str) × (get_instance_provider_id_v2 vm ≡ ok provider_id)
          × (map_to_aws_instance_id parse provider_id ≡ ok id)
          × (parse_instance_id_from_provider_id_v2 provider_id ≡ id)
          × (map_to_aws_instance_id parse id ≡ ok id)
          × (parse_instance_id_from_provider_id_v2 id ≡ id)
    unfolding get_instance_provider_id_v2
    get_instance_provider_id_v2-parsed vm zone id hz hi nz pz pi ii =
        let ni = is_instance_id-nonempty id ii in
        let sz = all-not_slash zone pz in
        let si = all-not_slash id pi in
        (
          codes "aws:///" ++ zone ++ b'/' ∷ id,
          rw (hz, hi, append-cons zone id) (ground arith),
          map_to_aws_instance_id-path (b'/' ∷ zone ++ b'/' ∷ id) id (IsPlainPath-path zone id pz pi)
              (ap id_token (
                ap (split b'/') (trim-path zone id nz ni sz si)
                ∙ split-append zone id sz
                ∙ ap (◌∷◌ zone) (split-plain id si)))
              ii,
          parse_v2-path zone id sz si,
          map_to_aws_instance_id-bare id pi ii,
          parse_v2-bare id si ii,
        )
