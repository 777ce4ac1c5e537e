-- ===== src/Service/Health/Synced.antt =====
-- When the health check of a load balancer is configured again.
use cloud_provider_osc.Base.{
  Bool, true, Option, some, ◌++◌, ◌≡◌, refl, inl, inr, arith, list_eq, nat_eq, Bool-cases, ok,
}
use cloud_provider_osc.Base.Dict.{Dict}
use cloud_provider_osc.Base.Decimal.{format_int}
use cloud_provider_osc.Base.Int.{ℤ, int_eq}
use cloud_provider_osc.Base.Str.{Str, codes}
use cloud_provider_osc.Osc.{
  HealthCheck, LoadBalancerDescription, LoadBalancer, str_value, int_value,
}
use cloud_provider_osc.Service.Health.{
  get_expected_health_check, same_check, configure, ensure_load_balancer_health_check,
}

-- Two checks that ask for the same: each field has the same value, where nil counts as the empty text or
-- as 0.
pub record IsSameCheck (expected actual : HealthCheck) : Type 0 where
  pub target : str_value expected.target ≡ str_value actual.target
  pub healthy_threshold : int_value expected.healthy_threshold ≡ int_value actual.healthy_threshold
  pub unhealthy_threshold :
      int_value expected.unhealthy_threshold ≡ int_value actual.unhealthy_threshold
  pub interval : int_value expected.interval ≡ int_value actual.interval
  pub timeout : int_value expected.timeout ≡ int_value actual.timeout

module _ (validate : HealthCheck → Bool) {S : Type 0} (elb : LoadBalancer S) where
  -- A service that answers: the health check that it has, and the state after another is configured.
  pub record HealthService (name : Option Str) : Type 0 where
    pub check_at : S → HealthCheck
    pub configured : HealthCheck → S → S
    pub configures :
        (check : HealthCheck) (s : S)
        → elb.configure_health_check name check s ≡ (ok tt, configured check s)
    pub check_at-configured : (check : HealthCheck) (s : S) → check_at (configured check s) ≡ check

  same_check-IsSameCheck :
      (expected actual : HealthCheck)
      → same_check validate expected actual ≡ true
      → IsSameCheck expected actual
  unfolding same_check
  same_check-IsSameCheck expected actual h = record {
    target = ground arith;
    healthy_threshold = ground arith;
    unhealthy_threshold = ground arith;
    interval = ground arith;
    timeout = ground arith;
  }

  -- For a load balancer whose description has the check that the service has, and annotations that
  -- can be read: the call succeeds, and then each field of the service's check has the value asked for.
  pub ensure_load_balancer_health_check-synced :
      (lb : LoadBalancerDescription) (protocol path : Str) (port : ℤ) (annotations : Dict Str Str)
      (expected : HealthCheck) (service : HealthService lb.load_balancer_name) (s : S)
      → get_expected_health_check validate
          (protocol ++ codes ":" ++ format_int port ++ path)
          annotations
        ≡ ok expected
      → lb.health_check ≡ some (service.check_at s)
      → (t : S) × (ensure_load_balancer_health_check validate elb lb protocol port path annotations
            s
          ≡ (ok tt, t))
        × IsSameCheck expected (service.check_at t)
  unfolding ensure_load_balancer_health_check configure
  ensure_load_balancer_health_check-synced lb protocol path port annotations expected service s p
        q =
      elim (Bool-cases (same_check validate expected (service.check_at s))) [
        | inl same ↦ (s, rw p (rw q (rw same refl)), same_check-IsSameCheck _ _ same)
        | inr other ↦ (
          service.configured expected s,
          rw p (rw q (rw other (rw (service.configures expected s) refl))),
          rw (service.check_at-configured expected s) (record {
            target = refl;
            healthy_threshold = refl;
            unhealthy_threshold = refl;
            interval = refl;
            timeout = refl;
          }),
        )
      ]
