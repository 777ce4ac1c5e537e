-- ===== src/Listener/Tests.antt =====
-- Two desired listeners against a load balancer that has one of them and an old one.
use cloud_provider_osc.Base.{
  ℕ, not, ◌&&◌, Option, none, some, List, [], ◌∷◌, map, ◌≡◌, refl, ◌≢◌, ◌⊎◌, ◌==◌, list_eq, nat_eq,
  option_eq, any, filter, contains, ok, err, errorf,
}
use cloud_provider_osc.Base.Decimal.{parse_int}
use cloud_provider_osc.Base.Dict.{Dict, lookup}
use cloud_provider_osc.Base.Int.{pos, int_eq}
use cloud_provider_osc.Base.Str.{Str, codes, equal_fold, split, to_lower, to_upper}
use cloud_provider_osc.Osc.{Listener, value_at}
use cloud_provider_osc.Listener.{
  ServicePort, PortSets, sync_elb_listeners, elb_listeners_are_equal, elb_protocols_are_equal,
  aws_arn_equals, get_port_sets, build_listener, annotation_certificate, annotation_be_protocol,
  is_ssl_port, is_wanted, find_listener, not_found, note_listener,
}
use cloud_provider_osc.Listener.Plan.{
  DistinctPorts, actual_listeners, is_present, unwanted, sync_elb_listeners_lem,
}
use cloud_provider_osc.Listener.Converge.{after_plan, sync_elb_listeners_twice}
use cloud_provider_osc.Listener.Build.{
  GetsCertificate, TlsProtocols, PlainProtocols, with_protocols, build_listener-ok,
  get_port_sets_lem,
}

abbrev tcp : ℕ → ℕ → Str → Option Listener
tcp port node protocol = some (record {
  instance_port = some (pos node);
  load_balancer_port = some (pos port);
  protocol = some protocol;
  instance_protocol = some protocol;
  ssl_certificate_id = none;
})

abbrev desired : List (Option Listener)
desired = tcp 80 30080 (codes "TCP") ∷ tcp 443 30443 (codes "TCP") ∷ []

abbrev present : List (Option Listener)
present = none ∷ tcp 80 30080 (codes "tcp") ∷ tcp 8080 30081 (codes "TCP") ∷ []

plan_run :
    sync_elb_listeners desired present
    ≡ (tcp 443 30443 (codes "TCP") ∷ [], some (pos 8080) ∷ [], some (pos 30081) ∷ [])
unfolding sync_elb_listeners find_listener not_found note_listener is_wanted elb_listeners_are_equal
    elb_protocols_are_equal aws_arn_equals equal_fold int_eq
plan_run = refl

desired-DistinctPorts : DistinctPorts desired
unfolding int_eq
desired-DistinctPorts = (refl, (refl, tt))

present-DistinctPorts : DistinctPorts present
unfolding int_eq
present-DistinctPorts = (refl, (refl, tt))

sync_elb_listeners_lem_example : sync_elb_listeners desired present ≡ (
  filter (λ x. not (is_present (actual_listeners present) x)) desired,
  map (λ a. a.load_balancer_port) (unwanted desired present),
  map (λ a. a.instance_port) (unwanted desired present),
)
sync_elb_listeners_lem_example = sync_elb_listeners_lem desired present desired-DistinctPorts

sync_elb_listeners_twice_example :
    sync_elb_listeners desired (
      after_plan
        (sync_elb_listeners desired present).0
        (sync_elb_listeners desired present).1
        present)
    ≡ ([], [], [])
sync_elb_listeners_twice_example =
    sync_elb_listeners_twice desired present (tt, (tt, tt)) desired-DistinctPorts
      present-DistinctPorts

abbrev https_port : ServicePort
https_port = record {
  name = codes "https";
  protocol = codes "TCP";
  port = pos 443;
  node_port = pos 30443;
}

abbrev annotations : Dict Str Str
annotations =
    (annotation_certificate, codes "arn:cert") ∷ (annotation_be_protocol, codes "http") ∷ []

abbrev https_listener : Listener
https_listener = record {
  instance_port = some (pos 30443);
  load_balancer_port = some (pos 443);
  protocol = some (codes "HTTPS");
  instance_protocol = some (codes "HTTP");
  ssl_certificate_id = some (codes "arn:cert");
}

build_run : build_listener https_port annotations none ≡ ok https_listener
unfolding build_listener lookup list_eq nat_eq is_ssl_port to_lower to_upper
build_run = refl

build_listener-ok_example :
    (p i : Str) × ((GetsCertificate https_port annotations none
        × TlsProtocols (value_at annotation_be_protocol annotations) p i
        × (https_listener
            ≡ with_protocols https_port p i (some (value_at annotation_certificate annotations))))
      ⊎ (¬ GetsCertificate https_port annotations none
          × PlainProtocols (codes "TCP") (value_at annotation_be_protocol annotations) p i
          × (https_listener ≡ with_protocols https_port p i none)))
build_listener-ok_example = build_listener-ok https_port annotations none https_listener build_run

abbrev bad_annotations : Dict Str Str
bad_annotations =
    (annotation_certificate, codes "arn:cert") ∷ (annotation_be_protocol, codes "udp") ∷ []

bad_backend :
    build_listener https_port bad_annotations none ≡ err (errorf (codes "Invalid backend protocol"))
unfolding build_listener lookup list_eq nat_eq is_ssl_port
bad_backend = refl

get_port_sets_lem_example :
    (get_port_sets (codes "443,web") ≡ none)
      × ((codes "443,web" ≡ []) ⊎ (codes "443,web" ≡ codes "*"))
    ⊎ ((ports : PortSets) × (get_port_sets (codes "443,web") ≡ some ports)
        × (codes "443,web" ≢ [])
        × (codes "443,web" ≢ codes "*")
        × (contains ports.numbers (pos 443)
            ≡ any (λ item. parse_int item == some (pos 443)) (split b',' (codes "443,web")))
        × (contains ports.names (codes "web")
            ≡ any
                (λ item. (parse_int item == none) && (item == codes "web"))
                (split b',' (codes "443,web"))))
get_port_sets_lem_example = get_port_sets_lem (codes "443,web") (pos 443) (codes "web")
