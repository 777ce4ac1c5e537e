-- ===== src/Listener.antt =====
-- The listeners of a load balancer. cloud-controller-manager/osc/osc_loadbalancer.go: the plan of
-- `syncElbListeners` and the equality of listeners that it goes by. cloud-controller-manager/osc/
-- utils.go: `buildListener` and `getPortSets`, which say what listener a service's port wants.
pub mod Plan
pub mod Converge
pub mod Build
mod Tests
use cloud_provider_osc.Base.{
  ℕ, zero, suc, ◌+◌, Bool, true, false, not, ◌&&◌, ◌||◌, Option, none, some, List, [], ◌∷◌, ◌++◌,
  if◌then◌else◌, ◌==◌, ◌!=◌, list_eq, nat_eq, any, contains, Result, ok, err, errorf, and_then,
}
use cloud_provider_osc.Base.Dict.{Dict}
use cloud_provider_osc.Base.Decimal.{parse_int}
use cloud_provider_osc.Base.Int.{ℤ, pos, negsuc, int_eq}
use cloud_provider_osc.Base.Str.{Str, codes, equal_fold, to_lower, to_upper, split}
use cloud_provider_osc.Osc.{Listener, int_value, value_at}

-- elbProtocolsAreEqual and awsArnEquals, which are alike: two pointers, nil or to texts that are
-- compared without regard to case.
pub elb_protocols_are_equal : Option Str → Option Str → Bool
elb_protocols_are_equal none none = true
elb_protocols_are_equal none (some r) = false
elb_protocols_are_equal (some l) none = false
elb_protocols_are_equal (some l) (some r) = equal_fold l r

pub aws_arn_equals : Option Str → Option Str → Bool
aws_arn_equals none none = true
aws_arn_equals none (some r) = false
aws_arn_equals (some l) none = false
aws_arn_equals (some l) (some r) = equal_fold l r

pub elb_listeners_are_equal : Listener → Listener → Bool
elb_listeners_are_equal actual expected =
    if not (elb_protocols_are_equal actual.protocol expected.protocol)
    then false
    else if not (elb_protocols_are_equal actual.instance_protocol expected.instance_protocol)
    then false
    else if int_value actual.instance_port != int_value expected.instance_port
    then false
    else if int_value actual.load_balancer_port != int_value expected.load_balancer_port
    then false
    else if not (aws_arn_equals actual.ssl_certificate_id expected.ssl_certificate_id)
    then false
    else true

-- The inner loop's test: a nil desired listener is skipped.
pub is_wanted : Listener → Option Listener → Bool
is_wanted actual none = false
is_wanted actual (some expected) = elb_listeners_are_equal actual expected

-- The inner loop: the index of the first desired listener that is equal, if there is one.
find_listener : Listener → List (Option Listener) → ℕ → Option ℕ
find_listener actual [] i = none
find_listener actual (x ∷ xs) i =
    let rest = find_listener actual xs (suc i) in if is_wanted actual x then some i else rest

-- The variables of `syncElbListeners`.
pub record SyncPlan : Type 0 where
  pub found_set : List ℕ
  pub removals : List (Option ℤ)
  pub removals_instance_ports : List (Option ℤ)

note_listener : Option ℕ → Listener → SyncPlan → SyncPlan
note_listener (some i) actual p = record p { found_set = i ∷ p.found_set }
note_listener none actual p = record p {
  removals = p.removals ++ (actual.load_balancer_port ∷ []);
  removals_instance_ports = p.removals_instance_ports ++ (actual.instance_port ∷ []);
}

-- The outer loop over the descriptions.
sync_loop : List (Option Listener) → List (Option Listener) → SyncPlan → SyncPlan
sync_loop listeners [] p = p
sync_loop listeners (none ∷ descriptions) p = sync_loop listeners descriptions p
sync_loop listeners (some actual ∷ descriptions) p =
    sync_loop listeners descriptions (note_listener (find_listener actual listeners 0) actual p)

-- The last loop: the desired listeners whose index was not found.
not_found : List (Option Listener) → ℕ → List ℕ → List (Option Listener)
not_found [] i found = []
not_found (x ∷ xs) i found =
    let rest = not_found xs (suc i) found in if contains found i then rest else x ∷ rest

-- The additions, the ports to remove, and the instance ports of the listeners that are removed.
pub sync_elb_listeners :
    List (Option Listener)
    → List (Option Listener)
    → List (Option Listener) × List (Option ℤ) × List (Option ℤ)
unfolding sync_loop
sync_elb_listeners listeners descriptions =
    let p =
      sync_loop listeners descriptions
        (record { found_set = []; removals = []; removals_instance_ports = [] }) in
    (not_found listeners 0 p.found_set, p.removals, p.removals_instance_ports)

-- `v1.ServicePort`
pub record ServicePort : Type 0 where
  pub name : Str
  pub protocol : Str
  pub port : ℤ
  pub node_port : ℤ

pub record PortSets : Type 0 where
  pub names : List Str
  pub numbers : List ℤ

-- `strconv.Atoi` decides whether an item of the annotation is a number or a name.
add_item : Str → Option ℤ → PortSets → PortSets
add_item item none ports = record ports { names = item ∷ ports.names }
add_item item (some n) ports = record ports { numbers = n ∷ ports.numbers }

port_sets_loop : List Str → PortSets → PortSets
unfolding add_item
port_sets_loop [] ports = ports
port_sets_loop (item ∷ items) ports = port_sets_loop items (add_item item (parse_int item) ports)

-- `none` is the nil pointer, which stands for all ports.
pub get_port_sets : Str → Option PortSets
unfolding port_sets_loop
get_port_sets annotation =
    if (annotation != []) && (annotation != codes "*")
    then some (port_sets_loop (split b',' annotation) (record { names = []; numbers = [] }))
    else none

abbrev pub annotation_certificate : Str
annotation_certificate = codes "service.beta.kubernetes.io/aws-load-balancer-ssl-cert"

abbrev pub annotation_be_protocol : Str
annotation_be_protocol = codes "service.beta.kubernetes.io/aws-load-balancer-backend-protocol"

abbrev pub backend_protocol_mapping : Dict Str Str
backend_protocol_mapping =
    (codes "https", codes "https")
    ∷ (codes "http", codes "https")
    ∷ (codes "ssl", codes "ssl")
    ∷ (codes "tcp", codes "ssl")
    ∷ []

-- Whether the port is one of those that get the certificate.
pub is_ssl_port : Option PortSets → ℤ → Str → Bool
is_ssl_port none number name = true
is_ssl_port (some ports) number name = contains ports.numbers number || contains ports.names name

-- The listener of a port with its protocols and certificate, which are put into upper case.
listener_of : ServicePort → Str → Str → Option Str → Listener
listener_of port protocol instance_protocol certificate = record {
  instance_port = some port.node_port;
  load_balancer_port = some port.port;
  protocol = some (to_upper protocol);
  instance_protocol = some (to_upper instance_protocol);
  ssl_certificate_id = certificate;
}

ssl_listener : ServicePort → Str → Str → Result Listener
unfolding listener_of
ssl_listener port certificate instance_protocol =
    let protocol = value_at instance_protocol backend_protocol_mapping in
    if instance_protocol == []
    then ok (listener_of port (codes "ssl") (codes "tcp") (some certificate))
    else if protocol == []
    then err (errorf (codes "Invalid backend protocol"))
    else ok (listener_of port protocol instance_protocol (some certificate))

pub build_listener : ServicePort → Dict Str Str → Option PortSets → Result Listener
unfolding ssl_listener
build_listener port annotations ssl_ports =
    let certificate = value_at annotation_certificate annotations in
    let backend = value_at annotation_be_protocol annotations in
    let protocol = to_lower port.protocol in
    if (certificate != []) && is_ssl_port ssl_ports port.port (to_lower port.name)
    then ssl_listener port certificate backend
    else if backend == codes "http"
    then ok (listener_of port (codes "http") backend none)
    else ok (listener_of port protocol protocol none)
