-- ===== src/Config/Tests.antt =====
-- Two overrides, and one that stands twice.
use cloud_provider_osc.Base.{[], ◌∷◌, ◌≡◌, refl, list_eq, nat_eq, Result, ok, err, errorf}
use cloud_provider_osc.Base.Dict.{Dict}
use cloud_provider_osc.Base.Str.{Str, codes, trim_space}
use cloud_provider_osc.Config.{
  ServiceOverride, ResolvedEndpoint, validate_loop, validate_overrides, resolve,
}
use mathlib.Core.List.{Permᴰ}
use cloud_provider_osc.Config.Unique.{resolve-reordered}

abbrev override : Str → Str → ServiceOverride
override service region = record {
  service = service;
  region = region;
  url = codes "https://api";
  signing_region = codes "eu";
  signing_method = [];
  signing_name = [];
}

abbrev overrides : Dict Str ServiceOverride
overrides =
    (codes "1", override (codes " s3") (codes "eu"))
    ∷ (codes "2", override (codes "ec2") (codes "eu"))
    ∷ []

abbrev valid : Dict Str ServiceOverride
valid =
    (codes "1", override (codes "s3") (codes "eu"))
    ∷ (codes "2", override (codes "ec2") (codes "eu"))
    ∷ []

valid_run : validate_overrides overrides ≡ ok valid
unfolding validate_overrides validate_loop trim_space list_eq nat_eq
valid_run = refl

abbrev unresolved : Str → Str → Result ResolvedEndpoint
unresolved service region = err (errorf [])

abbrev reversed : Dict Str ServiceOverride
reversed =
    (codes "2", override (codes "ec2") (codes "eu"))
    ∷ (codes "1", override (codes " s3") (codes "eu"))
    ∷ []

resolve-reordered_example :
    (found : Dict Str ServiceOverride) × (validate_overrides reversed ≡ ok found)
    × ((service region : Str)
        → resolve unresolved valid service region ≡ resolve unresolved found service region)
resolve-reordered_example =
    resolve-reordered unresolved overrides reversed valid (Permᴰ.swap refl refl) valid_run

duplicate_run :
    validate_overrides (
      (codes "1", override (codes "s3 ") (codes "eu"))
      ∷ (codes "2", override (codes "s3") (codes " eu"))
      ∷ [])
    ≡ err (errorf (codes "duplicate entry found for service override ["))
unfolding validate_overrides validate_loop trim_space list_eq nat_eq
duplicate_run = refl
