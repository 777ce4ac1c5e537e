-- ===== src/Service/Attributes.antt =====
-- cloud-controller-manager/osc/ccm_cloud.go, `EnsureLoadBalancer`: what the annotations of a service
-- say of the scheme, the proxy protocol and the attributes of its load balancer. Child module:
-- `Parsed`.
pub mod Parsed
use cloud_provider_osc.Base.{
  ℕ, Bool, true, false, not, ◌&&◌, Option, none, some, List, [], ◌∷◌, if◌then◌else◌, ◌==◌, ◌!=◌,
  list_eq, nat_eq, Result, ok, err, panic, and_then, Error, errorf,
}
use cloud_provider_osc.Base.Dict.{Dict, lookup}
use cloud_provider_osc.Base.Decimal.{parse_int, parse_bool}
use cloud_provider_osc.Base.Int.{ℤ, pos}
use cloud_provider_osc.Base.Str.{Str, codes}
use cloud_provider_osc.Osc.{AccessLog, LoadBalancerAttributes, str_value, value_at}
use cloud_provider_osc.Service.Annotation

abbrev pub is_set : Str → Dict Str Str → Bool
is_set annotation annotations = value_at annotation annotations != []

abbrev pub bad_annotation : Error
bad_annotation = errorf (codes "error parsing service annotation")

abbrev parsed : {A : Type 0} → Option A → Result (Option A)
parsed none = err bad_annotation
parsed (some a) = ok (some a)

-- A value that an annotation may replace, if it is not empty.
pub override : {A : Type 0} → (Str → Option A) → Dict Str Str → Str → Option A → Result (Option A)
override parse annotations annotation old =
    if is_set annotation annotations
    then parsed (parse (value_at annotation annotations))
    else ok old

-- Access logs are set up only if the bucket's name and its prefix are both given.
pub access_log : Dict Str Str → Result (Option AccessLog)
access_log annotations =
    let bucket = value_at Annotation.access_log_s3_bucket_name annotations in
    let prefix = value_at Annotation.access_log_s3_bucket_prefix annotations in
    if bucket != [] && prefix != []
    then and_then (override parse_bool annotations Annotation.access_log_enabled (some false))
        (λ enabled.
          and_then (override parse_int annotations Annotation.access_log_emit_interval none)
            (λ interval. ok (
              some (record {
                enabled = enabled;
                emit_interval = interval;
                s3_bucket_name = some bucket;
                s3_bucket_prefix = some prefix;
              }))))
    else ok none

pub attributes : Dict Str Str → Result LoadBalancerAttributes
attributes annotations = and_then (access_log annotations) (λ log.
    and_then (override parse_bool annotations Annotation.connection_draining_enabled (some false))
      (λ draining.
        and_then (override parse_int annotations Annotation.connection_draining_timeout none)
          (λ timeout.
            and_then
              (override parse_int annotations Annotation.connection_idle_timeout (some (pos 60)))
              (λ idle. ok (record {
                access_log = log;
                connection_draining_enabled = draining;
                connection_draining_timeout = timeout;
                idle_timeout = idle;
              })))))

pub is_internal : Dict Str Str → Bool
is_internal annotations =
    let value = value_at Annotation.internal annotations in
    if value == codes "false" then false else value != []

pub wants_proxy_protocol : Dict Str Str → Result Bool
wants_proxy_protocol annotations =
    let value = value_at Annotation.proxy_protocol annotations in
    if value != []
    then (if value != codes "*"
        then err (errorf (codes "the only value supported currently is '*'"))
        else ok true)
    else ok false
