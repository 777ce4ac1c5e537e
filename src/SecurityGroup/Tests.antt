-- ===== src/SecurityGroup/Tests.antt =====
-- A service that refuses a group, and the groups of two nodes.
use cloud_provider_osc.Base.{
  ℕ, suc, Bool, true, false, none, some, List, [], ◌∷◌, ◌≡◌, refl, if◌then◌else◌, ◌==◌, list_eq,
  nat_eq, bool_eq, option_eq, any, ok, err, Error, sdk_error,
}
use cloud_provider_osc.Base.Dict.{Dict, lookup}
use cloud_provider_osc.Base.Str.{Str, codes}
use cloud_provider_osc.Osc.{SecurityGroup, str_value}
use cloud_provider_osc.Osc.Idle.{idle_compute, idle_load_balancer}
use cloud_provider_osc.Cloud.{Cloud, blank_global, blank_machine}
use cloud_provider_osc.SecurityGroup.{is_conflict}
use cloud_provider_osc.SecurityGroup.Ensure.{ensure_security_group}
use cloud_provider_osc.SecurityGroup.Ensure.Attempts.{times, ensure_security_group-refused}
use cloud_provider_osc.SecurityGroup.Nodes.{compare_groups}
use cloud_provider_osc.SecurityGroup.Nodes.Plan.{compare_groups_lem}

abbrev conflict : Error
conflict = sdk_error (codes "409 Conflict")

-- The state counts the creations.
abbrev refusing : Cloud ℕ
refusing = record {
  compute = record idle_compute {
    read_security_groups = λ filters s. (ok [], s);
    create_security_group = λ net name description s. (err conflict, suc s);
  };
  load_balancer = idle_load_balancer;
  global = blank_global;
  region = [];
  vpc_id = codes "vpc";
  tagging = record { cluster_id = codes "c"; uses_legacy_tags = false };
  self_instance = blank_machine;
  tag_name_env = none;
  backoff = λ steps condition s. condition s;
}

ensure_security_group-refused_example :
    ensure_security_group refusing (codes "k8s-elb-lb") (codes "text") [] 0
    ≡ (err conflict, if is_conflict refusing conflict then times refusing 30 suc 0 else suc 0)
ensure_security_group-refused_example =
    ensure_security_group-refused refusing (codes "k8s-elb-lb") (codes "text") [] conflict suc 0
      (λ s. refl, λ s. refl)

abbrev group_of : Str → SecurityGroup
group_of id = record { security_group_id = some id; inbound_rules = none; tags = none }

abbrev actual : List SecurityGroup
actual = group_of (codes "sg-1") ∷ group_of (codes "sg-2") ∷ []

abbrev needed : Dict Str Bool
needed = (codes "sg-2", true) ∷ (codes "sg-3", true) ∷ []

compare_groups_lem_example : lookup (codes "sg-1") (compare_groups actual needed) ≡ (
    if any (λ g. str_value g.security_group_id == codes "sg-1") actual
    then (if lookup (codes "sg-1") needed == some true then none else some false)
    else lookup (codes "sg-1") needed)
unfolding list_eq nat_eq
compare_groups_lem_example = compare_groups_lem actual needed (codes "sg-1") (refl, (refl, tt)) refl
