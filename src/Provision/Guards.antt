-- ===== src/Provision/Guards.antt =====
-- The services that `EnsureLoadBalancer` accepts.
use cloud_provider_osc.Base.{
  Bool, true, false, not, Option, some, List, [], ◌∷◌, ◌≡◌, refl, sym, inl, inr, arith,
  if◌then◌else◌, ◌==◌, ◌!=◌, list_eq, nat_eq, is_nil, filter, length, All, Bool-cases, Result, ok,
  err, panic, and_then, errorf,
}
use cloud_provider_osc.Base.Dict.{Dict}
use cloud_provider_osc.Base.Int.{pos, int_eq}
use cloud_provider_osc.Base.Str.{Str, codes}
use cloud_provider_osc.Osc.{Listener, value_at}
use cloud_provider_osc.Listener.{ServicePort, PortSets, get_port_sets, build_listener}
use cloud_provider_osc.Service.Annotation
use cloud_provider_osc.Provision.{KubeService, listeners_of, check_service}

abbrev pub has_node_port : ServicePort → Bool
has_node_port port = not (port.node_port == pos 0)

-- What the listeners that are made say of the ports.
abbrev Accepted : List ServicePort → List (Option Listener) → Type 0
Accepted ports listeners =
    All (λ port. port.protocol ≡ codes "TCP") ports
    × (length listeners ≡ length (filter has_node_port ports))

module _ (annotations : Dict Str Str) (ssl_ports : Option PortSets) where
  listener_lem :
      (port : ServicePort) (ports : List ServicePort) (listeners : List (Option Listener))
      (built : Result Listener) (rest : Result (List (Option Listener)))
      → port.protocol ≡ codes "TCP"
      → has_node_port port ≡ true
      → and_then built (λ l. and_then rest (λ ls. ok (some l ∷ ls))) ≡ ok listeners
      → ((ls : List (Option Listener)) → rest ≡ ok ls → Accepted ports ls)
      → Accepted (port ∷ ports) listeners
  listener_lem port ports listeners (ok l) (ok ls) tcp node h k =
      let same : (some l ∷ ls) ≡ listeners = ground arith in
      let tail = k ls refl in rw (sym same) ((tcp, tail.0), rw node (ground (arith, tail.1)))
  listener_lem port ports listeners (ok l) (err e) tcp node h k = absurd (ground arith)
  listener_lem port ports listeners (ok l) panic tcp node h k = absurd (ground arith)
  listener_lem port ports listeners (err e) rest tcp node h k = absurd (ground arith)
  listener_lem port ports listeners panic rest tcp node h k = absurd (ground arith)

  listeners_of_lem :
      (ports : List ServicePort) (listeners : List (Option Listener))
      → listeners_of annotations ssl_ports ports ≡ ok listeners
      → Accepted ports listeners
  unfolding listeners_of
  listeners_of_lem [] listeners h =
      let same : [] ≡ listeners = ground arith in rw (sym same) (tt, refl)
  listeners_of_lem (port ∷ ports) listeners h = elim (Bool-cases (port.protocol == codes "TCP")) [
    | inl tcp ↦ elim (Bool-cases (port.node_port == pos 0)) [
      | inl without ↦
          let rest = listeners_of_lem ports listeners (ground arith) in
          ((ground arith, rest.0), rw without rest.1)
      | inr node ↦
          listener_lem port ports listeners (build_listener port annotations ssl_ports)
            (listeners_of annotations ssl_ports ports) (ground arith) (ground arith) (ground arith)
            (listeners_of_lem ports)
    ]
    | inr other ↦ absurd (ground arith)
  ]

without_address :
    (address : Str) (listeners : List (Option Listener)) (r : Result (List (Option Listener)))
    → and_then r (λ ls.
      if address != []
      then err (errorf (codes "LoadBalancerIP cannot be specified for AWS ELB"))
      else ok ls)
      ≡ ok listeners
    → (address ≡ []) × (r ≡ ok listeners)
without_address address listeners (ok ls) h = (ground arith, ground arith)
without_address address listeners (err e) h = absurd (ground arith)
without_address address listeners panic h = absurd (ground arith)

-- A service that is not turned down has no session affinity, some ports, all of them TCP, and no
-- address of its own; and it gets one listener for each port that has a node port.
pub check_service-ok :
    (service : KubeService) (listeners : List (Option Listener))
    → check_service service ≡ ok listeners
    → (service.has_affinity ≡ false)
      × (is_nil service.ports ≡ false)
      × (service.load_balancer_ip ≡ [])
      × All (λ port. port.protocol ≡ codes "TCP") service.ports
      × (length listeners ≡ length (filter has_node_port service.ports))
unfolding check_service
check_service-ok service listeners h =
    let listed =
      listeners_of service.annotations
        (get_port_sets (value_at Annotation.ssl_ports service.annotations)) service.ports in
    let affinity : service.has_affinity ≡ false = ground arith in
    let ports : is_nil service.ports ≡ false = ground arith in
    let address = without_address service.load_balancer_ip listeners listed (ground arith) in
    let accepted = listeners_of_lem service.annotations _ service.ports listeners address.1 in
    (affinity, ports, address.0, accepted.0, accepted.1)
