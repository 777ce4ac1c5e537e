-- ===== src/Service/Attributes/Parsed.antt =====
-- Which annotations the attributes of a load balancer can be made of.
use cloud_provider_osc.Base.{
  Bool, true, false, not, ◌&&◌, ◌||◌, Option, none, some, ◌≡◌, refl, arith, if◌then◌else◌, list_eq,
  nat_eq, ok, err, and_then, Error,
}
use cloud_provider_osc.Base.Dict.{Dict}
use cloud_provider_osc.Base.Decimal.{parse_int, parse_bool}
use cloud_provider_osc.Base.Int.{ℤ, pos}
use cloud_provider_osc.Base.Str.{Str}
use cloud_provider_osc.Osc.{AccessLog, LoadBalancerAttributes, value_at}
use cloud_provider_osc.Service.Annotation
use cloud_provider_osc.Service.Attributes.{is_set, bad_annotation, override, access_log, attributes}

abbrev is_some : {A : Type 0} → Option A → Bool
is_some none = false
is_some (some a) = true

-- An annotation is empty, or can be read.
abbrev pub is_readable : {A : Type 0} → (Str → Option A) → Dict Str Str → Str → Bool
is_readable parse annotations annotation =
    not (is_set annotation annotations) || is_some (parse (value_at annotation annotations))

-- What is read, or the default.
abbrev pub value_or : {A : Type 0} → (Str → Option A) → Dict Str Str → Str → Option A → Option A
value_or parse annotations annotation default_value =
    if is_set annotation annotations then parse (value_at annotation annotations) else default_value

abbrev pub wants_log : Dict Str Str → Bool
wants_log annotations =
    is_set Annotation.access_log_s3_bucket_name annotations
    && is_set Annotation.access_log_s3_bucket_prefix annotations

-- Every annotation that is read can be; those of the access log count only if it is wanted.
abbrev pub all_readable : Dict Str Str → Bool
all_readable annotations =
    (not (wants_log annotations)
      || (is_readable parse_bool annotations Annotation.access_log_enabled
          && is_readable parse_int annotations Annotation.access_log_emit_interval))
    && is_readable parse_bool annotations Annotation.connection_draining_enabled
    && is_readable parse_int annotations Annotation.connection_draining_timeout
    && is_readable parse_int annotations Annotation.connection_idle_timeout

abbrev pub expected_log : Dict Str Str → Option AccessLog
expected_log annotations =
    if wants_log annotations
    then some (record {
      enabled = value_or parse_bool annotations Annotation.access_log_enabled (some false);
      emit_interval = value_or parse_int annotations Annotation.access_log_emit_interval none;
      s3_bucket_name = some (value_at Annotation.access_log_s3_bucket_name annotations);
      s3_bucket_prefix = some (value_at Annotation.access_log_s3_bucket_prefix annotations);
    })
    else none

abbrev pub expected_attributes : Dict Str Str → LoadBalancerAttributes
expected_attributes annotations = record {
  access_log = expected_log annotations;
  connection_draining_enabled =
      value_or parse_bool annotations Annotation.connection_draining_enabled (some false);
  connection_draining_timeout =
      value_or parse_int annotations Annotation.connection_draining_timeout none;
  idle_timeout = value_or parse_int annotations Annotation.connection_idle_timeout (some (pos 60));
}

override_lem :
    {A : Type 0} (parse : Str → Option A) (annotations : Dict Str Str) (annotation : Str)
    (old : Option A)
    → override parse annotations annotation old ≡ (
        if is_readable parse annotations annotation
        then ok (value_or parse annotations annotation old)
        else err bad_annotation)
unfolding override
override_lem parse annotations annotation old = ground arith

access_log_lem :
    (annotations : Dict Str Str)
    → access_log annotations ≡ (
        if not (wants_log annotations)
          || (is_readable parse_bool annotations Annotation.access_log_enabled
              && is_readable parse_int annotations Annotation.access_log_emit_interval)
        then ok (expected_log annotations)
        else err bad_annotation)
unfolding access_log
access_log_lem annotations = ground (
  arith,
  override_lem parse_bool annotations Annotation.access_log_enabled (some false),
  override_lem parse_int annotations Annotation.access_log_emit_interval none,
)

-- Four results in turn, all of which may fail with one error.
four_results :
    {A B C D R : Type 0} (f : A → B → C → D → R) (a : A) (b : B) (c : C) (d : D) (e : Error)
    (p q r t : Bool)
    → and_then (if p then ok a else err e) (λ x. and_then (if q then ok b else err e) (λ y.
      and_then
        (if r then ok c else err e)
        (λ z. and_then (if t then ok d else err e) (λ w. ok (f x y z w)))))
      ≡ (if p && q && r && t then ok (f a b c d) else err e)
four_results f a b c d e true true true true = refl
four_results f a b c d e true true true false = refl
four_results f a b c d e true true false t = refl
four_results f a b c d e true false r t = refl
four_results f a b c d e false q r t = refl

-- The attributes are made exactly when every annotation that is read is empty or can be parsed; then
-- each has the value of its annotation, or its default: no connection draining, 60 seconds for idle
-- connections, and an access log only for a bucket with a name and a prefix.
pub attributes_lem :
    (annotations : Dict Str Str)
    → attributes annotations ≡ (
        if all_readable annotations
        then ok (expected_attributes annotations)
        else err bad_annotation)
unfolding attributes
attributes_lem annotations = rw (access_log_lem annotations) (
    rw (override_lem parse_bool annotations Annotation.connection_draining_enabled (some false)) (
      rw (override_lem parse_int annotations Annotation.connection_draining_timeout none) (
        rw (override_lem parse_int annotations Annotation.connection_idle_timeout (some (pos 60))) (
          four_results {A = Option AccessLog} {B = Option Bool} {C = Option ℤ} {D = Option ℤ}
            (λ log draining timeout idle. record {
              access_log = log;
              connection_draining_enabled = draining;
              connection_draining_timeout = timeout;
              idle_timeout = idle;
            })
            (expected_log annotations)
            (value_or parse_bool annotations Annotation.connection_draining_enabled (some false))
            (value_or parse_int annotations Annotation.connection_draining_timeout none)
            (value_or parse_int annotations Annotation.connection_idle_timeout (some (pos 60)))
            bad_annotation
            (not (wants_log annotations)
              || (is_readable parse_bool annotations Annotation.access_log_enabled
                  && is_readable parse_int annotations Annotation.access_log_emit_interval))
            (is_readable parse_bool annotations Annotation.connection_draining_enabled)
            (is_readable parse_int annotations Annotation.connection_draining_timeout)
            (is_readable parse_int annotations Annotation.connection_idle_timeout)))))
