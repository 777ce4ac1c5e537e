-- ===== src/Service.antt =====
-- What a service's annotations say of its load balancer, by
-- cloud-controller-manager/osc/osc_loadbalancer.go and ccm_cloud.go. Child modules: `Annotation` for the
-- names of the annotations, `Name` for the load balancer's name, `Health` for its health check,
-- `Attributes` for its attributes.
pub mod Annotation
pub mod Name
pub mod Health
pub mod Attributes
mod Tests
use cloud_provider_osc.Base.{
  ℕ, zero, suc, Bool, true, false, not, ◌&&◌, ◌||◌, Option, none, some, List, [], ◌∷◌, ◌++◌, map,
  if◌then◌else◌, ◌==◌, ◌!=◌, list_eq, nat_eq, ltb, leb, all, is_nil, length, take, Result, ok, err,
  panic, and_then, Error, errorf, M, return, fail, lift, continue_with, handle_with, ◌>>=◌, ◌>>◌,
  try,
}
use cloud_provider_osc.Base.Dict.{Dict, lookup, insert}
use cloud_provider_osc.Base.Decimal.{parse_int, parse_bool}
use cloud_provider_osc.Base.Int.{ℤ, pos, negsuc, int_eq}
use cloud_provider_osc.Base.Str.{Str, codes, split, trim, trim_space, remove_byte}
use cloud_provider_osc.Osc.{
  AccessLog, LoadBalancerAttributes, HealthCheck, LoadBalancerDescription, LoadBalancer, str_value,
  int_value, value_at,
}

-- The loop over the items "Key=Val", "Key=" and "Key".
pub note_tag : List Str → Dict Str Str → Dict Str Str
note_tag [] tags = tags
note_tag (key ∷ []) tags = if key == [] then tags else insert key [] tags
note_tag (key ∷ value ∷ _) tags = if key == [] then tags else insert key value tags

pub note_tags : List Str → Dict Str Str → Dict Str Str
note_tags [] tags = tags
note_tags (item ∷ items) tags = note_tags items (note_tag (split b'=' (trim_space item)) tags)

unfoldable pub get_load_balancer_additional_tags : Dict Str Str → Dict Str Str
get_load_balancer_additional_tags annotations =
    elim (lookup Annotation.additional_tags annotations) [
      | none ↦ []
      | some list ↦ note_tags (split b',' (trim_space list)) []
    ]

-- LbNameMaxLength
abbrev pub lb_name_max_length : ℕ
lb_name_max_length = 32

-- The expression "^[a-zA-Z0-9-]+$" matches the text.
abbrev pub is_name_byte : ℕ → Bool
is_name_byte b =
    (leb b'a' b && leb b b'z')
    || (leb b'A' b && leb b b'Z')
    || (leb b'0' b && leb b b'9')
    || b == b'-'

abbrev pub is_valid_name : Str → Bool
is_valid_name s = not (is_nil s) && all is_name_byte s

unfoldable pub base_name : Str → Dict Str Str → Str
base_name uid annotations = elim (lookup Annotation.name annotations) [
  | none ↦ remove_byte b'-' uid
  | some s ↦ if is_valid_name s then s else remove_byte b'-' uid
]

-- The length that an annotation asks for, if it can be read and is not too great.
abbrev read_length : Option ℤ → ℤ
read_length none = pos lb_name_max_length
read_length (some (pos n)) = if ltb lb_name_max_length n then pos lb_name_max_length else pos n
read_length (some (negsuc n)) = negsuc n

unfoldable pub name_length : Dict Str Str → ℤ
name_length annotations = elim (lookup Annotation.name_length annotations) [
  | none ↦ pos lb_name_max_length
  | some s ↦ read_length (parse_int s)
]

-- `ret[:nameLength]` for a text that is longer; a negative length panics.
unfoldable pub shorten : Str → ℤ → Result Str
shorten s (pos n) = if ltb n (length s) then ok (take n s) else ok s
shorten s (negsuc n) = panic

unfoldable pub get_load_balancer_name : Str → Dict Str Str → Result Str
get_load_balancer_name uid annotations =
    and_then (shorten (base_name uid annotations) (name_length annotations))
      (λ s. ok (trim (λ b. b == b'-') s))
