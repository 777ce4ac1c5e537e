-- ===== src/Balancer/Tests.antt =====
-- A load balancer with two listeners.
use cloud_provider_osc.Base.{
  ℕ, Bool, true, false, Option, none, some, List, [], ◌∷◌, ◌≡◌, ◌⊎◌, refl, if◌then◌else◌, ◌==◌,
  list_eq, nat_eq, bool_eq, option_eq, any, ok, M,
}
use cloud_provider_osc.Base.Dict.{Dict, lookup}
use cloud_provider_osc.Base.Int.{ℤ, pos, int_eq}
use cloud_provider_osc.Base.Str.{Str, codes}
use cloud_provider_osc.Osc.{Listener, LoadBalancer, LoadBalancerAttributes, LoadBalancerDescription}
use cloud_provider_osc.Osc.Idle.{idle_compute, idle_load_balancer}
use cloud_provider_osc.Osc.ListSets.{list_sets}
use cloud_provider_osc.Cloud.{Cloud, blank_global, blank_machine}
use cloud_provider_osc.Balancer.{
  last_description, describe_load_balancer, sync_policies, ensure_load_balancer,
}
use cloud_provider_osc.Balancer.Proxy.{
  PolicyService, policies_for, is_port_of, sync_policies-enabled,
}
use cloud_provider_osc.Balancer.Unchanged.{SameElements, ensure_load_balancer-unchanged}

abbrev cloud_with : {S : Type 0} → LoadBalancer S → Cloud S
cloud_with elb = record {
  compute = idle_compute;
  load_balancer = elb;
  global = blank_global;
  region = [];
  vpc_id = [];
  tagging = record { cluster_id = codes "c"; uses_legacy_tags = false };
  self_instance = blank_machine;
  tag_name_env = none;
  backoff = λ steps condition s. condition s;
}

-- The state says which ports have the proxy protocol.
abbrev State : Type 0
State = ℤ → Bool

abbrev adjust : ℤ → Bool → State → State
adjust port on s other = if port == other then on else s other

abbrev set_policies : Option ℤ → List Str → M State (Unit {0})
set_policies none policies s = (ok tt, s)
set_policies (some port) [] s = (ok tt, adjust port false s)
set_policies (some port) (p ∷ ps) s = (ok tt, adjust port true s)

abbrev with_policies : Cloud State
with_policies =
    cloud_with
      (record idle_load_balancer { set_policies_for_backend_server = λ name. set_policies })

adjusts_lem :
    (port : ℤ) (on : Bool) (s : State)
    → set_policies (some port) (policies_for on) s ≡ (ok tt, adjust port on s)
adjusts_lem port true s = refl
adjusts_lem port false s = refl

policies : PolicyService with_policies.load_balancer (codes "lb")
policies = record {
  is_enabled = λ s. s;
  adjusted = adjust;
  adjusts = adjusts_lem;
  is_enabled-adjusted = λ port on s other. refl;
}

abbrev listener : ℕ → ℕ → Option Listener
listener port node = some (record {
  instance_port = some (pos node);
  load_balancer_port = some (pos port);
  protocol = some (codes "TCP");
  instance_protocol = some (codes "TCP");
  ssl_certificate_id = none;
})

abbrev listeners : List (Option Listener)
listeners = listener 80 30080 ∷ listener 443 30443 ∷ []

abbrev states : Dict ℤ Bool
states = (pos 30080, true) ∷ []

sync_policies-enabled_example :
    (t : State) × (dirty : Bool) × (sync_policies with_policies
        (codes "lb")
        true
        (policies_for true)
        states
        listeners
        false
        (λ p. lookup p states == some true)
      ≡ (ok dirty, t))
    × ((p : ℤ)
        → t p ≡ (if any (is_port_of p) listeners then true else (lookup p states == some true)))
unfolding policies
sync_policies-enabled_example =
    sync_policies-enabled with_policies (codes "lb") policies true states listeners
      (λ p. lookup p states == some true) ((pos 30080, refl), ((pos 30443, refl), tt)) (λ p. refl)

abbrev balanced : LoadBalancerDescription
balanced = record {
  load_balancer_name = some (codes "lb");
  dns_name = some (codes "lb.example");
  subnets = [];
  security_groups = [];
  instances = [];
  listener_descriptions = listener 80 30080 ∷ [];
  backend_server_descriptions = [];
  health_check = none;
}

abbrev no_attributes : LoadBalancerAttributes
no_attributes = record {
  access_log = none;
  connection_draining_enabled = none;
  connection_draining_timeout = none;
  idle_timeout = none;
}

abbrev balanced_cloud : Cloud ℕ
balanced_cloud = cloud_with (record idle_load_balancer {
  describe_load_balancers = λ name s. (ok (balanced ∷ []), s);
  describe_load_balancer_attributes = λ name s. (ok no_attributes, s);
})

describe_run : describe_load_balancer balanced_cloud (codes "lb") 7 ≡ (ok (some balanced), 7)
unfolding describe_load_balancer last_description
describe_run = refl

ensure_load_balancer-unchanged_example :
    SameElements [] []
      × (ensure_load_balancer balanced_cloud list_sets
            (λ l r. true)
            (codes "default/web")
            (codes "lb")
            (listener 80 30080 ∷ [])
            none
            none
            false
            false
            no_attributes
            []
            7
          ≡ (ok (some balanced), 7))
    ⊎ ¬ SameElements [] []
      × (ensure_load_balancer balanced_cloud list_sets
            (λ l r. true)
            (codes "default/web")
            (codes "lb")
            (listener 80 30080 ∷ [])
            none
            none
            false
            false
            no_attributes
            []
            7
          ≡ describe_load_balancer balanced_cloud (codes "lb") 7)
unfolding lookup
ensure_load_balancer-unchanged_example =
    ensure_load_balancer-unchanged balanced_cloud list_sets (λ l r. true) (codes "default/web")
      (codes "lb") (listener 80 30080 ∷ []) none none false no_attributes no_attributes [] balanced
      7 7 7 refl (refl, tt) ((pos 30080, refl), tt) refl tt refl refl refl
