-- ===== src/Service/Health.antt =====
-- cloud-controller-manager/osc/osc_loadbalancer.go: the health check of a load balancer. The
-- validation of a check by the client's package is a parameter. Child module: `Synced`.
pub mod Synced
mod Tests
use cloud_provider_osc.Base.{
  ℕ, zero, suc, Bool, true, false, ◌&&◌, Option, none, some, List, [], ◌∷◌, ◌++◌, if◌then◌else◌,
  ◌==◌, list_eq, nat_eq, Result, ok, err, panic, and_then, Error, errorf, M, return, fail, lift,
  continue_with, handle_with, ◌>>=◌, ◌>>◌, try,
}
use cloud_provider_osc.Base.Dict.{Dict, lookup}
use cloud_provider_osc.Base.Decimal.{parse_int, format_int}
use cloud_provider_osc.Base.Int.{ℤ, pos, int_eq}
use cloud_provider_osc.Base.Str.{Str, codes}
use cloud_provider_osc.Osc.{
  HealthCheck, LoadBalancerDescription, LoadBalancer, str_value, int_value,
}
use cloud_provider_osc.Service.Annotation

-- `getOrDefault`
pub get_or_default : Dict Str Str → Str → ℤ → Result ℤ
get_or_default annotations annotation default_value = elim (lookup annotation annotations) [
  | none ↦ ok default_value
  | some s ↦ elim (parse_int s) [
    | none ↦ err (errorf (codes "failed parsing health check annotation value"))
    | some i ↦ ok i
  ]
]

module _ (validate : HealthCheck → Bool) where
  validated : HealthCheck → Result HealthCheck
  validated check =
      if validate check
      then ok check
      else err (errorf (codes "some of the load balancer health check parameters are invalid"))

  pub get_expected_health_check : Str → Dict Str Str → Result HealthCheck
  get_expected_health_check target annotations =
      and_then (get_or_default annotations Annotation.healthy_threshold (pos 2)) (λ healthy.
        and_then (get_or_default annotations Annotation.unhealthy_threshold (pos 6)) (λ unhealthy.
          and_then (get_or_default annotations Annotation.timeout (pos 5)) (λ timeout.
            and_then (get_or_default annotations Annotation.interval (pos 10)) (λ interval.
              validated (record {
                target = some target;
                healthy_threshold = some healthy;
                unhealthy_threshold = some unhealthy;
                timeout = some timeout;
                interval = some interval;
              })))))

  pub same_check : HealthCheck → HealthCheck → Bool
  same_check expected actual =
      str_value expected.target == str_value actual.target
      && int_value expected.healthy_threshold == int_value actual.healthy_threshold
      && int_value expected.unhealthy_threshold == int_value actual.unhealthy_threshold
      && int_value expected.interval == int_value actual.interval
      && int_value expected.timeout == int_value actual.timeout

  module _ {S : Type 0} (elb : LoadBalancer S) where
    configure : LoadBalancerDescription → HealthCheck → Option HealthCheck → M S (Unit {0})
    configure lb expected none = lift panic
    configure lb expected (some actual) =
        if same_check expected actual
        then return tt
        else try (elb.configure_health_check lb.load_balancer_name expected) return
            (λ e. fail (errorf (codes "error configuring load balancer health check")))

    pub ensure_load_balancer_health_check :
        LoadBalancerDescription → Str → ℤ → Str → Dict Str Str → M S (Unit {0})
    ensure_load_balancer_health_check lb protocol port path annotations =
        try
          (lift (
            get_expected_health_check (protocol ++ codes ":" ++ format_int port ++ path)
              annotations))
          (λ expected. configure lb expected lb.health_check)
          (λ e. fail (errorf (codes "cannot update health check for load balancer")))
