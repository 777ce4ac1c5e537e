-- ===== src/Rules/Tests.antt =====
-- Rules with several ranges.
use cloud_provider_osc.Base.{
  true, false, none, some, List, [], ◌∷◌, ◌≡◌, refl, ◌↔◌, ◌==◌, list_eq, nat_eq, any, All,
}
use cloud_provider_osc.Base.Dict.{Dict}
use cloud_provider_osc.Base.Int.{pos, int_eq}
use cloud_provider_osc.Base.Str.{Str, codes}
use cloud_provider_osc.Osc.{SecurityGroupRule}
use cloud_provider_osc.Rules.{rule_exists, rule_list, ungroup}
use cloud_provider_osc.Rules.Exists.{IsCovered, rule_exists-IsCovered}
use cloud_provider_osc.Rules.Ungroup.{Flow, from_ranges, grants, IsSingle}
use cloud_provider_osc.Rules.Sets.{ungroup-grants, ungroup-IsSingle}
use cloud_provider_osc.Rules.JsonText.{rule_eq}

abbrev rule_with : List Str → SecurityGroupRule
rule_with ranges = record {
  from_port_range = some (pos 80);
  to_port_range = some (pos 80);
  ip_protocol = some (codes "tcp");
  ip_ranges = some ranges;
  security_groups_members = none;
  service_ids = none;
}

abbrev two_ranges : SecurityGroupRule
two_ranges = rule_with (codes "10.0.0.0/8" ∷ codes "192.168.0.0/16" ∷ [])

abbrev one_range : SecurityGroupRule
one_range = rule_with (codes "10.0.0.0/8" ∷ [])

rule_exists-IsCovered_example :
    (rule_exists one_range two_ranges false ≡ true) ↔ IsCovered false one_range two_ranges
rule_exists-IsCovered_example = rule_exists-IsCovered one_range two_ranges false

exists_run : rule_exists one_range two_ranges false ≡ true
unfolding rule_exists list_eq nat_eq int_eq
exists_run = refl

abbrev text : SecurityGroupRule → SecurityGroupRule
text r = r

abbrev set : Dict SecurityGroupRule SecurityGroupRule
set = (two_ranges, two_ranges) ∷ []

abbrev small_set : Dict SecurityGroupRule SecurityGroupRule
small_set = (one_range, one_range) ∷ []

abbrev web : Flow
web = record { from_port = pos 80; to_port = pos 80; protocol = codes "tcp" }

ungroup-grants_example :
    any
      (grants web (from_ranges (λ range. range == codes "10.0.0.0/8")))
      (rule_list SecurityGroupRule text (ungroup SecurityGroupRule text set))
    ≡ any
        (grants web (from_ranges (λ range. range == codes "10.0.0.0/8")))
        (rule_list SecurityGroupRule text set)
ungroup-grants_example =
    ungroup-grants SecurityGroupRule text (λ p q h. h) web
      (from_ranges (λ range. range == codes "10.0.0.0/8")) set

ungroup-IsSingle_example :
    All IsSingle (rule_list SecurityGroupRule text (ungroup SecurityGroupRule text set))
ungroup-IsSingle_example = ungroup-IsSingle SecurityGroupRule text set
