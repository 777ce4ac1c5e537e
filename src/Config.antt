-- ===== src/Config.antt =====
-- cloud-controller-manager/osc/ccm_cloud_config.go: the endpoints that the configuration overrides. A
-- Go map is ranged over in any order, which the list stands for. Child module: `Unique` for another
-- order.
pub mod Unique
mod Tests
use cloud_provider_osc.Base.{
  ℕ, Bool, true, false, ◌&&◌, Option, none, some, List, [], ◌∷◌, ◌++◌, if◌then◌else◌, ◌==◌, list_eq,
  nat_eq, contains, Result, ok, err, and_then, errorf,
}
use cloud_provider_osc.Base.Dict.{Dict}
use cloud_provider_osc.Base.Str.{Str, codes, trim_space}

-- A value of `CloudConfig.ServiceOverride`.
pub record ServiceOverride : Type 0 where
  pub service : Str
  pub region : Str
  pub url : Str
  pub signing_region : Str
  pub signing_method : Str
  pub signing_name : Str

-- `endpoints.ResolvedEndpoint`, as far as it is set.
pub record ResolvedEndpoint : Type 0 where
  pub url : Str
  pub signing_region : Str
  pub signing_method : Str
  pub signing_name : Str

abbrev pub trimmed : ServiceOverride → ServiceOverride
trimmed o = record o { service = trim_space o.service; region = trim_space o.region }

abbrev pub signature : ServiceOverride → Str
signature o = o.service ++ codes "_" ++ o.region

-- What the loop does with one override, of which the name and region are trimmed.
abbrev pub checked : List Str → ServiceOverride → Result (Unit {0})
checked set o =
    if o.service == []
    then err (errorf (codes "service name is missing [Service is \"\"] in override "))
    else if o.region == []
    then err (errorf (codes "service region is missing [Region is \"\"] in override "))
    else if trim_space o.url == []
    then err (errorf (codes "url is missing [URL is \"\"] in override "))
    else if trim_space o.signing_region == []
    then err (errorf (codes "signingRegion is missing [SigningRegion is \"\"] in override "))
    else if contains set (signature o)
    then err (errorf (codes "duplicate entry found for service override ["))
    else ok tt

-- The loop, with the signatures so far; it gives the overrides as it changes them.
unfoldable pub validate_loop :
    List Str → Dict Str ServiceOverride → Result (Dict Str ServiceOverride)
validate_loop set [] = ok []
validate_loop set ((onum, ovrd) ∷ overrides) = and_then (checked set (trimmed ovrd)) (λ valid.
    and_then (validate_loop (signature (trimmed ovrd) ∷ set) overrides)
      (λ rest. ok ((onum, trimmed ovrd) ∷ rest)))

pub validate_overrides : Dict Str ServiceOverride → Result (Dict Str ServiceOverride)
validate_overrides = validate_loop []

abbrev pub endpoint_of : ServiceOverride → ResolvedEndpoint
endpoint_of o = record {
  url = o.url;
  signing_region = o.signing_region;
  signing_method = o.signing_method;
  signing_name = o.signing_name;
}

-- `getResolver`: the first override for the service and region; the resolver of the SDK is a parameter.
unfoldable pub resolve :
    (Str → Str → Result ResolvedEndpoint)
    → Dict Str ServiceOverride
    → Str
    → Str
    → Result ResolvedEndpoint
resolve default_resolver [] service region = default_resolver service region
resolve default_resolver ((onum, o) ∷ overrides) service region =
    if o.service == service && o.region == region
    then ok (endpoint_of o)
    else resolve default_resolver overrides service region
