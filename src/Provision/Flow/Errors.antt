-- ===== src/Provision/Flow/Errors.antt =====
-- A service that `EnsureLoadBalancer` turns down.
use cloud_provider_osc.Base.{
  Bool, true, some, List, [], ◌∷◌, ◌≡◌, ◌≢◌, refl, ◌⊎◌, inl, inr, arith, Eq, ◌!=◌, if◌then◌else◌,
  errorf, list_eq, nat_eq, All, Exists, Option, Result, ok, err, panic, and_then, Error, M,
}
use cloud_provider_osc.Base.Dict.{Dict}
use cloud_provider_osc.Base.StringSets.{StringSets}
use cloud_provider_osc.Base.Str.{Str, codes}
use cloud_provider_osc.Osc.{
  SecurityGroupRule, Vm, Listener, HealthCheck, LoadBalancerAttributes, value_at,
}
use cloud_provider_osc.Cloud.{Cloud}
use cloud_provider_osc.Listener.{ServicePort, PortSets, get_port_sets, build_listener}
use cloud_provider_osc.Listener.Build.{build_listener-total}
use cloud_provider_osc.Service.Annotation
use cloud_provider_osc.Provision.{KubeService, listeners_of, check_service}
use cloud_provider_osc.Provision.Guards.{check_service-ok}
use cloud_provider_osc.Provision.Flow.{ensure_load_balancer_for}

-- What a service may not ask for: session affinity, no ports, a port that is not TCP, or an address of
-- its own.
abbrev pub IsUnsupported : KubeService → Type 0
IsUnsupported service =
    (service.has_affinity ≡ true)
    ⊎ (service.ports ≡ [])
    ⊎ Exists (λ port. port.protocol ≢ codes "TCP") service.ports
    ⊎ (service.load_balancer_ip ≢ [])

Exists-All :
    (ports : List ServicePort)
    → All (λ port. port.protocol ≡ codes "TCP") ports
    → Exists (λ port. port.protocol ≢ codes "TCP") ports
    → ⊥
Exists-All [] h e = e
Exists-All (port ∷ ports) h (inl other) = other h.0
Exists-All (port ∷ ports) h (inr rest) = Exists-All ports h.1 rest

and_then-total :
    {A B : Type 0} (r : Result A) (f : A → Result B)
    → r ≢ panic
    → ((a : A) → f a ≢ panic)
    → and_then r f ≢ panic
and_then-total (ok a) f h k = k a
and_then-total (err e) f h k = λ p. ground arith
and_then-total panic f h k = λ p. h refl

listeners_of-total :
    (annotations : Dict Str Str) (ssl_ports : Option PortSets) (ports : List ServicePort)
    → listeners_of annotations ssl_ports ports ≢ panic
unfolding listeners_of
listeners_of-total annotations ssl_ports [] = λ h. ground arith
listeners_of-total annotations ssl_ports (port ∷ ports) =
    let rest = listeners_of-total annotations ssl_ports ports in
    let here =
      and_then-total (build_listener port annotations ssl_ports)
        (λ listener.
          and_then (listeners_of annotations ssl_ports ports)
            (λ listeners. ok (some listener ∷ listeners)))
        (build_listener-total port annotations ssl_ports)
        (λ listener.
          and_then-total (listeners_of annotations ssl_ports ports)
            (λ listeners. ok (some listener ∷ listeners)) rest (λ listeners. λ h. ground arith)) in
    λ h. ground (arith, rest, here)

abbrev without_address : Str → List (Option Listener) → Result (List (Option Listener))
without_address address listeners =
    if address != []
    then err (errorf (codes "LoadBalancerIP cannot be specified for AWS ELB"))
    else ok listeners

check_service-total : (service : KubeService) → check_service service ≢ panic
unfolding check_service
check_service-total service =
    let ssl_ports = get_port_sets (value_at Annotation.ssl_ports service.annotations) in
    let listed =
      and_then-total (listeners_of service.annotations ssl_ports service.ports)
        (without_address service.load_balancer_ip)
        (listeners_of-total service.annotations ssl_ports service.ports)
        (λ listeners. λ k. ground arith) in
    λ h. ground (arith, listed)

-- A service that asks for something unsupported is not accepted.
unaccepted :
    (service : KubeService) (listeners : List (Option Listener))
    → IsUnsupported service
    → check_service service ≡ ok listeners
    → ⊥
unaccepted service listeners (inl affinity) h =
    let accepted = check_service-ok service listeners h in ground (arith, accepted.0)
unaccepted service listeners (inr (inl none_there)) h =
    let accepted = check_service-ok service listeners h in ground (arith, accepted.1, none_there)
unaccepted service listeners (inr (inr (inl other))) h =
    Exists-All service.ports (check_service-ok service listeners h).3 other
unaccepted service listeners (inr (inr (inr address))) h =
    address (check_service-ok service listeners h).2

module _ {S : Type 0} (c : Cloud S) (find_instances : M S (Dict Str Vm)) (sets : StringSets)
    (validate : HealthCheck → Bool)
    (deep_equal : LoadBalancerAttributes → LoadBalancerAttributes → Bool) (Json : Type 0)
    ⦃e : Eq Json⦄ (marshal : SecurityGroupRule → Json) where
  rejected :
      (service : KubeService) (s : S) (r : Result (List (Option Listener)))
      → IsUnsupported service
      → check_service service ≡ r
      → (problem : Error) × (ensure_load_balancer_for c find_instances sets validate deep_equal Json
            marshal service s
          ≡ (err problem, s))
  unfolding ensure_load_balancer_for
  rejected service s (ok listeners) bad h = absurd (unaccepted service listeners bad h)
  rejected service s (err problem) bad h = (problem, rw h refl)
  rejected service s panic bad h = absurd (check_service-total service h)

  -- A service that asks for session affinity, has no ports, has a port that is not TCP, or asks for an
  -- address of its own: the call returns an error, without a panic, and before any call to the cloud.
  pub ensure_load_balancer_for-rejected :
      (service : KubeService) (s : S)
      → IsUnsupported service
      → (problem : Error) × (ensure_load_balancer_for c find_instances sets validate deep_equal Json
            marshal service s
          ≡ (err problem, s))
  ensure_load_balancer_for-rejected service s bad =
      rejected service s (check_service service) bad refl
