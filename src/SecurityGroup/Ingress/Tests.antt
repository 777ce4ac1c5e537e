-- ===== src/SecurityGroup/Ingress/Tests.antt =====
-- A service whose state is the list of the rules of one group.
use cloud_provider_osc.Base.{
  Bool, true, false, not, ◌&&◌, ◌||◌, none, some, List, [], ◌∷◌, ◌++◌, ◌≡◌, refl, ◌∙◌, arith, ◌==◌,
  list_eq, nat_eq, any, any-append, filter, contains, All, ok, M,
}
use cloud_provider_osc.Base.Dict.{Dict, keys}
use cloud_provider_osc.Base.Int.{pos}
use cloud_provider_osc.Base.Str.{Str, codes}
use cloud_provider_osc.Osc.{SecurityGroupRule, SecurityGroup, RuleRequest, rules, link}
use cloud_provider_osc.Osc.Idle.{idle_compute, idle_load_balancer}
use cloud_provider_osc.Rules.{ungroup}
use cloud_provider_osc.Rules.JsonText.{rule_eq}
use cloud_provider_osc.Rules.Single.{is_single, filter-IsSingle, is_single_lem, texts_single}
use cloud_provider_osc.Rules.Ungroup.{IsSingle}
use cloud_provider_osc.Cloud.{Cloud, blank_global, blank_machine}
use cloud_provider_osc.SecurityGroup.{set_security_group_ingress}
use cloud_provider_osc.SecurityGroup.Ingress.{
  rule_texts, IngressService, set_security_group_ingress-converges,
}

abbrev State : Type 0
State = List SecurityGroupRule

abbrev text : SecurityGroupRule → SecurityGroupRule
text r = r

abbrev group_at : State → SecurityGroup
group_at s = record {
  security_group_id = some (codes "sg-1");
  inbound_rules = some (filter is_single s);
  tags = none;
}

abbrev is_one_of : List SecurityGroupRule → SecurityGroupRule → Bool
is_one_of ps r = any (λ p. p == r) ps

abbrev deleted : List SecurityGroupRule → State → State
deleted ps s = filter (λ r. not (is_one_of ps r)) s

abbrev create : RuleRequest → M State (Unit {0})
create (rules ps) s = (ok tt, s ++ ps)
create (link name owner) s = (ok tt, s)

abbrev delete : RuleRequest → M State (Unit {0})
delete (rules ps) s = (ok tt, deleted ps s)
delete (link name owner) s = (ok tt, s)

abbrev cloud : Cloud State
cloud = record {
  compute = record idle_compute {
    read_security_groups = λ filters s. (ok (group_at s ∷ []), s);
    create_security_group_rule = λ id. create;
    delete_security_group_rule = λ id. delete;
  };
  load_balancer = idle_load_balancer;
  global = blank_global;
  region = [];
  vpc_id = codes "vpc";
  tagging = record { cluster_id = codes "c"; uses_legacy_tags = false };
  self_instance = blank_machine;
  tag_name_env = none;
  backoff = λ steps condition s. condition s;
}

any-filter :
    (test : SecurityGroupRule → Bool) (k : SecurityGroupRule) (s : State)
    → is_one_of (filter test s) k ≡ (is_one_of s k && test k)
any-filter test k [] = refl
any-filter test k (r ∷ s) = ground (arith, any-filter test k s)

is_single-of :
    (ps : List SecurityGroupRule) (k : SecurityGroupRule)
    → All IsSingle ps
    → is_one_of ps k ≡ true
    → is_single k ≡ true
is_single-of [] k h p = absurd (ground arith)
is_single-of (r ∷ ps) k h p = ground (arith, is_single-of ps k h.1, is_single_lem r h.0)

held_lem :
    (s : State) (k : SecurityGroupRule)
    → contains (rule_texts SecurityGroupRule text (group_at s)) k ≡ (is_one_of s k && is_single k)
held_lem s k =
    texts_single SecurityGroupRule text (λ p q h. h) (filter is_single s) k (filter-IsSingle s)
    ∙ any-filter is_single k s

created_lem :
    (ps : List SecurityGroupRule) (s : State) (k : SecurityGroupRule)
    → All IsSingle ps
    → contains (rule_texts SecurityGroupRule text (group_at (s ++ ps))) k
      ≡ (contains (rule_texts SecurityGroupRule text (group_at s)) k || is_one_of ps k)
created_lem ps s k h =
    held_lem (s ++ ps) k
    ∙ rw (held_lem s k) (rw (any-append (λ p. p == k) s ps) (ground (arith, is_single-of ps k h)))

deleted_lem :
    (ps : List SecurityGroupRule) (s : State) (k : SecurityGroupRule)
    → All IsSingle ps
    → contains (rule_texts SecurityGroupRule text (group_at (deleted ps s))) k
      ≡ (contains (rule_texts SecurityGroupRule text (group_at s)) k && not (is_one_of ps k))
deleted_lem ps s k h =
    held_lem (deleted ps s) k
    ∙ rw (held_lem s k) (rw (any-filter (λ r. not (is_one_of ps r)) k s) (ground arith))

service : IngressService SecurityGroupRule text cloud.compute (codes "sg-1")
service = record {
  group_at = group_at;
  created = λ ps s. s ++ ps;
  deleted = deleted;
  reads = λ s. refl;
  creates = λ ps s. refl;
  deletes = λ ps s. refl;
  created-texts = created_lem;
  deleted-texts = deleted_lem;
}

abbrev rule_with : List Str → SecurityGroupRule
rule_with ranges = record {
  from_port_range = some (pos 80);
  to_port_range = some (pos 80);
  ip_protocol = some (codes "tcp");
  ip_ranges = some ranges;
  security_groups_members = none;
  service_ids = none;
}

abbrev wanted : Dict SecurityGroupRule SecurityGroupRule
wanted =
    (
      rule_with (codes "10.0.0.0/8" ∷ codes "192.168.0.0/16" ∷ []),
      rule_with (codes "10.0.0.0/8" ∷ codes "192.168.0.0/16" ∷ []),
    )
    ∷ []

abbrev before : State
before = rule_with (codes "0.0.0.0/0" ∷ []) ∷ rule_with (codes "10.0.0.0/8" ∷ []) ∷ []

set_security_group_ingress-converges_example :
    (t : State) × (changed : Bool) × (set_security_group_ingress cloud SecurityGroupRule text
        (codes "sg-1")
        wanted
        before
      ≡ (ok changed, t))
    × ((k : SecurityGroupRule)
        → contains (rule_texts SecurityGroupRule text (group_at t)) k
          ≡ contains (keys (ungroup SecurityGroupRule text wanted)) k)
    × (set_security_group_ingress cloud SecurityGroupRule text (codes "sg-1") wanted t
        ≡ (ok false, t))
unfolding service list_eq
set_security_group_ingress-converges_example =
    set_security_group_ingress-converges SecurityGroupRule text cloud (codes "sg-1") service wanted
      before refl
