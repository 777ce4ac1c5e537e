-- ===== src/Service/Health/Tests.antt =====
-- A health check that is configured again.
use cloud_provider_osc.Base.{
  true, Option, none, some, [], ◌∷◌, ◌++◌, ◌≡◌, refl, list_eq, nat_eq, ok,
}
use cloud_provider_osc.Base.Dict.{Dict, lookup}
use cloud_provider_osc.Base.Int.{pos}
use cloud_provider_osc.Base.Decimal.{parse_int, format_int}
use cloud_provider_osc.Base.Str.{Str, codes}
use cloud_provider_osc.Osc.{HealthCheck, LoadBalancerDescription, LoadBalancer}
use cloud_provider_osc.Osc.Idle.{idle_load_balancer}
use cloud_provider_osc.Service.Annotation
use cloud_provider_osc.Service.Health.{
  get_or_default, validated, get_expected_health_check, ensure_load_balancer_health_check,
}
use cloud_provider_osc.Service.Health.Synced.{
  HealthService, IsSameCheck, ensure_load_balancer_health_check-synced,
}

-- A service whose state is the health check.
abbrev checking : LoadBalancer HealthCheck
checking = record idle_load_balancer { configure_health_check = λ name check s. (ok tt, check) }

abbrev checks : (name : Option Str) → HealthService (λ check. true) checking name
checks name = record {
  check_at = λ s. s;
  configured = λ check s. check;
  configures = λ check s. refl;
  check_at-configured = λ check s. refl;
}

abbrev old_check : HealthCheck
old_check = record {
  target = some (codes "TCP:80");
  healthy_threshold = some (pos 2);
  unhealthy_threshold = some (pos 6);
  timeout = some (pos 5);
  interval = some (pos 10);
}

abbrev new_check : HealthCheck
new_check = record old_check { target = some (codes "TCP:30080"); interval = some (pos 20) }

abbrev checked : LoadBalancerDescription
checked = record {
  load_balancer_name = some (codes "lb");
  dns_name = none;
  subnets = [];
  security_groups = [];
  instances = [];
  listener_descriptions = [];
  backend_server_descriptions = [];
  health_check = some old_check;
}

abbrev every_20 : Dict Str Str
every_20 = (Annotation.interval, codes "20") ∷ []

expected_run :
    get_expected_health_check
      (λ check. true)
      (codes "TCP" ++ codes ":" ++ format_int (pos 30080) ++ [])
      every_20
    ≡ ok new_check
unfolding get_expected_health_check get_or_default validated lookup list_eq nat_eq format_int
    parse_int
expected_run = refl

ensure_load_balancer_health_check-synced_example :
    (t : HealthCheck) × (ensure_load_balancer_health_check
        (λ check. true)
        checking
        checked
        (codes "TCP")
        (pos 30080)
        []
        every_20
        old_check
      ≡ (ok tt, t))
    × IsSameCheck new_check t
ensure_load_balancer_health_check-synced_example =
    ensure_load_balancer_health_check-synced (λ check. true) checking checked (codes "TCP") []
      (pos 30080) every_20 new_check (checks (some (codes "lb"))) old_check expected_run refl
