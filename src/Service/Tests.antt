-- ===== src/Service/Tests.antt =====
-- Names, attributes and tags of some services.
use cloud_provider_osc.Base.{
  some, ℕ, [], ◌∷◌, ◌≡◌, refl, ◌↔◌, if◌then◌else◌, list_eq, nat_eq, option_eq, ok, err, panic,
}
use cloud_provider_osc.Base.Dict.{Dict, lookup, insert}
use cloud_provider_osc.Base.Int.{negsuc, int_eq}
use cloud_provider_osc.Base.Decimal.{parse_int}
use cloud_provider_osc.Base.Str.{Str, codes, split, trim, trim_space, remove_byte}
use cloud_provider_osc.Service.{
  get_load_balancer_name, name_length, base_name, shorten, note_tag, note_tags,
  get_load_balancer_additional_tags,
}
use cloud_provider_osc.Service.Annotation
use cloud_provider_osc.Service.Name.{
  IsName, get_load_balancer_name-panic, get_load_balancer_name-IsName,
}
use cloud_provider_osc.Service.Attributes.{attributes, bad_annotation}
use cloud_provider_osc.Service.Attributes.Parsed.{all_readable, expected_attributes, attributes_lem}

abbrev short_name : Dict Str Str
short_name = (Annotation.name_length, codes "5") ∷ []

short_run : get_load_balancer_name (codes "ab1-2-cd") short_name ≡ ok (codes "ab12c")
unfolding get_load_balancer_name name_length base_name shorten lookup list_eq nat_eq parse_int
    remove_byte trim
short_run = refl

get_load_balancer_name-IsName_example : IsName (codes "ab12c")
unfolding nat_eq
get_load_balancer_name-IsName_example =
    get_load_balancer_name-IsName (codes "ab1-2-cd") (codes "ab12c") short_name refl short_run

abbrev negative_length : Dict Str Str
negative_length = (Annotation.name_length, codes "-1") ∷ []

get_load_balancer_name-panic_example :
    (get_load_balancer_name (codes "ab") negative_length ≡ panic) ↔ (
      (s : Str) × (n : ℕ) × (lookup Annotation.name_length negative_length ≡ some s)
      × (parse_int s ≡ some (negsuc n)))
get_load_balancer_name-panic_example = get_load_balancer_name-panic (codes "ab") negative_length

negative_run : get_load_balancer_name (codes "ab") negative_length ≡ panic
unfolding get_load_balancer_name name_length base_name shorten lookup list_eq nat_eq parse_int
    remove_byte trim
negative_run = refl

abbrev some_attributes : Dict Str Str
some_attributes =
    (Annotation.connection_draining_enabled, codes "true")
    ∷ (Annotation.connection_idle_timeout, codes "5m")
    ∷ []

attributes_lem_example : attributes some_attributes ≡ (
    if all_readable some_attributes
    then ok (expected_attributes some_attributes)
    else err bad_annotation)
attributes_lem_example = attributes_lem some_attributes

tags_run :
    get_load_balancer_additional_tags ((Annotation.additional_tags, codes " a=1, b ,=2,c=") ∷ [])
    ≡ (codes "a", codes "1") ∷ (codes "b", []) ∷ (codes "c", []) ∷ []
unfolding get_load_balancer_additional_tags note_tags note_tag lookup list_eq nat_eq split
    trim_space insert
tags_run = refl
