-- ===== src/Listener/Build.antt =====
-- The listener that `buildListener` makes of a port, and the ports that `getPortSets` reads.
use cloud_provider_osc.Base.{
  Bool, true, Bool-cases, ◌&&◌, ◌||◌, Option, none, some, List, [], ◌∷◌, ◌≡◌, refl, ◌≢◌, ◌⊎◌, inl,
  inr, ◌↔◌, arith, if◌then◌else◌, ◌==◌, ◌!=◌, list_eq, nat_eq, option_eq, any, contains, ok, err,
  panic, errorf,
}
use cloud_provider_osc.Base.Decimal.{parse_int}
use cloud_provider_osc.Base.Dict.{Dict, lookup}
use cloud_provider_osc.Base.Int.{ℤ, int_eq}
use cloud_provider_osc.Base.Str.{Str, codes, split, to_lower, to_upper}
use cloud_provider_osc.Osc.{Listener, value_at}
use cloud_provider_osc.Listener.{
  ServicePort, PortSets, add_item, port_sets_loop, get_port_sets, annotation_certificate,
  annotation_be_protocol, backend_protocol_mapping, is_ssl_port, listener_of, ssl_listener,
  build_listener,
}

-- The annotations give a certificate, and the port is one of those that get it.
abbrev pub wants_tls : ServicePort → Dict Str Str → Option PortSets → Bool
wants_tls port annotations ssl_ports =
    (value_at annotation_certificate annotations != [])
    && is_ssl_port ssl_ports port.port (to_lower port.name)

-- The annotations give a certificate, and the port is one of those that get it: any port where there are
-- no sets of ports, and else one whose number, or name in lower case, is in its set.
abbrev pub GetsCertificate : ServicePort → Dict Str Str → Option PortSets → Type 0
GetsCertificate port annotations none = value_at annotation_certificate annotations ≢ []
GetsCertificate port annotations (some ports) =
    (value_at annotation_certificate annotations ≢ [])
    × ((contains ports.numbers port.port ≡ true)
        ⊎ (contains ports.names (to_lower port.name) ≡ true))

-- The protocols, of the load balancer and of the instance, of a listener with a certificate, by the
-- annotated backend protocol.
abbrev pub TlsProtocols : Str → Str → Str → Type 0
TlsProtocols backend protocol instance_protocol =
    ((backend ≡ []) × (protocol ≡ codes "SSL") × (instance_protocol ≡ codes "TCP"))
    ⊎ ((backend ≡ codes "tcp") × (protocol ≡ codes "SSL") × (instance_protocol ≡ codes "TCP"))
    ⊎ ((backend ≡ codes "ssl") × (protocol ≡ codes "SSL") × (instance_protocol ≡ codes "SSL"))
    ⊎ ((backend ≡ codes "http") × (protocol ≡ codes "HTTPS") × (instance_protocol ≡ codes "HTTP"))
    ⊎ ((backend ≡ codes "https") × (protocol ≡ codes "HTTPS") × (instance_protocol ≡ codes "HTTPS"))

-- And of one without: HTTP if the annotation says so, and else the protocol of the port.
abbrev pub PlainProtocols : Str → Str → Str → Str → Type 0
PlainProtocols port_protocol backend protocol instance_protocol =
    ((backend ≡ codes "http") × (protocol ≡ codes "HTTP") × (instance_protocol ≡ codes "HTTP"))
    ⊎ ((backend ≢ codes "http")
        × (protocol ≡ to_upper (to_lower port_protocol))
        × (instance_protocol ≡ to_upper (to_lower port_protocol)))

abbrev pub with_protocols : ServicePort → Str → Str → Option Str → Listener
with_protocols port protocol instance_protocol certificate = record {
  instance_port = some port.node_port;
  load_balancer_port = some port.port;
  protocol = some protocol;
  instance_protocol = some instance_protocol;
  ssl_certificate_id = certificate;
}

GetsCertificate_lem :
    (port : ServicePort) (annotations : Dict Str Str) (ssl_ports : Option PortSets)
    → (wants_tls port annotations ssl_ports ≡ true) ↔ GetsCertificate port annotations ssl_ports
unfolding is_ssl_port
GetsCertificate_lem port annotations none = ground arith
GetsCertificate_lem port annotations (some ports) = ground arith

mapping_cases :
    (s : Str)
    → (s ≡ codes "tcp") × (value_at s backend_protocol_mapping ≡ codes "ssl")
      ⊎ (s ≡ codes "ssl") × (value_at s backend_protocol_mapping ≡ codes "ssl")
      ⊎ (s ≡ codes "http") × (value_at s backend_protocol_mapping ≡ codes "https")
      ⊎ (s ≡ codes "https") × (value_at s backend_protocol_mapping ≡ codes "https")
      ⊎ (value_at s backend_protocol_mapping ≡ [])
unfolding lookup
mapping_cases s = ground arith

ssl_listener-run :
    (port : ServicePort) (certificate backend known : Str) (l m : Listener)
    → ssl_listener port certificate known ≡ ok m
    → backend ≡ known
    → ssl_listener port certificate backend ≡ ok l
    → l ≡ m
ssl_listener-run port certificate backend known l m run e h = cc

ssl_listener-none :
    (port : ServicePort) (certificate backend : Str) (l : Listener)
    → value_at backend backend_protocol_mapping ≡ []
    → ssl_listener port certificate backend ≡ ok l
    → backend ≡ []
unfolding ssl_listener
ssl_listener-none port certificate backend l e h = ground arith

plain_listener-http :
    (port : ServicePort) (backend : Str) (l : Listener)
    → backend ≡ codes "http"
    → ok (listener_of port (codes "http") backend none) ≡ ok l
    → l ≡ with_protocols port (codes "HTTP") (codes "HTTP") none
unfolding listener_of to_upper
plain_listener-http port backend l e h =
    let run : listener_of port (codes "http") (codes "http") none
        ≡ with_protocols port (codes "HTTP") (codes "HTTP") none =
      refl in
    cc

plain_listener-ok :
    (port : ServicePort) (backend : Str) (l : Listener)
    → (if backend == codes "http"
        then ok (listener_of port (codes "http") backend none)
        else ok (listener_of port (to_lower port.protocol) (to_lower port.protocol) none))
      ≡ ok l
    → (p i : Str) × PlainProtocols port.protocol backend p i × (l ≡ with_protocols port p i none)
unfolding listener_of
plain_listener-ok port backend l h = elim (Bool-cases (backend == codes "http")) [
  | inl http ↦ (
    codes "HTTP",
    codes "HTTP",
    inl (ground arith, refl, refl),
    plain_listener-http port backend l (ground arith) (ground arith),
  )
  | inr other ↦ (
    to_upper (to_lower port.protocol),
    to_upper (to_lower port.protocol),
    inr (ground arith, refl, refl),
    ground arith,
  )
]

ssl_listener-ok :
    (port : ServicePort) (certificate backend : Str) (l : Listener)
    → ssl_listener port certificate backend ≡ ok l
    → (p i : Str) × TlsProtocols backend p i × (l ≡ with_protocols port p i (some certificate))
unfolding ssl_listener listener_of to_upper lookup list_eq nat_eq
ssl_listener-ok port certificate backend l h = elim (mapping_cases backend) [
  | inl e ↦ (
    codes "SSL",
    codes "TCP",
    inr (inl (e.0, refl, refl)),
    ssl_listener-run port certificate backend (codes "tcp") l _ refl e.0 h,
  )
  | inr (inl e) ↦ (
    codes "SSL",
    codes "SSL",
    inr (inr (inl (e.0, refl, refl))),
    ssl_listener-run port certificate backend (codes "ssl") l _ refl e.0 h,
  )
  | inr (inr (inl e)) ↦ (
    codes "HTTPS",
    codes "HTTP",
    inr (inr (inr (inl (e.0, refl, refl)))),
    ssl_listener-run port certificate backend (codes "http") l _ refl e.0 h,
  )
  | inr (inr (inr (inl e))) ↦ (
    codes "HTTPS",
    codes "HTTPS",
    inr (inr (inr (inr (e.0, refl, refl)))),
    ssl_listener-run port certificate backend (codes "https") l _ refl e.0 h,
  )
  | inr (inr (inr (inr e))) ↦
      let given = ssl_listener-none port certificate backend l e h in
      (
        codes "SSL",
        codes "TCP",
        inl (given, refl, refl),
        ssl_listener-run port certificate backend [] l _ refl given h,
      )
]

-- What a listener that is built holds: the two ports of the service's port; with the certificate of the
-- annotation, exactly where the port gets it, the protocols that the annotated backend protocol stands
-- for; and without it, HTTP if the annotation asks for it, and else the protocol of the port.
pub build_listener-ok :
    (port : ServicePort) (annotations : Dict Str Str) (ssl_ports : Option PortSets) (l : Listener)
    → build_listener port annotations ssl_ports ≡ ok l
    → (p i : Str) × ((GetsCertificate port annotations ssl_ports
          × TlsProtocols (value_at annotation_be_protocol annotations) p i
          × (l ≡ with_protocols port p i (some (value_at annotation_certificate annotations))))
        ⊎ (¬ GetsCertificate port annotations ssl_ports
            × PlainProtocols port.protocol (value_at annotation_be_protocol annotations) p i
            × (l ≡ with_protocols port p i none)))
unfolding build_listener
build_listener-ok port annotations ssl_ports l h =
    let gets = GetsCertificate_lem port annotations ssl_ports in
    elim (Bool-cases (wants_tls port annotations ssl_ports)) [
      | inl tls ↦
          let made =
            ssl_listener-ok port (value_at annotation_certificate annotations)
              (value_at annotation_be_protocol annotations) l (ground arith) in
          (made.0, made.1, inl (gets.0 tls, made.2, made.3))
      | inr plain ↦
          let made =
            plain_listener-ok port (value_at annotation_be_protocol annotations) l (ground arith) in
          (made.0, made.1, inr (λ g. ground (arith, gets.1 g), made.2, made.3))
    ]

pub build_listener-total :
    (port : ServicePort) (annotations : Dict Str Str) (ssl_ports : Option PortSets)
    → build_listener port annotations ssl_ports ≢ panic
unfolding build_listener ssl_listener
build_listener-total port annotations ssl_ports = λ h. ground arith

-- The call fails exactly if the port wants TLS and the annotated backend protocol is one that has
-- no entry in the mapping, and then with the error of that branch.
pub build_listener-err :
    (port : ServicePort) (annotations : Dict Str Str) (ssl_ports : Option PortSets)
    → (build_listener port annotations ssl_ports ≡ err (errorf (codes "Invalid backend protocol")))
      ↔ ((wants_tls port annotations ssl_ports ≡ true)
          × (value_at annotation_be_protocol annotations ≢ [])
          × (value_at (value_at annotation_be_protocol annotations) backend_protocol_mapping ≡ []))
unfolding build_listener ssl_listener
build_listener-err port annotations ssl_ports = (λ h. ground arith, λ h. ground arith)

port_sets_loop-contains :
    (items : List Str) (ports : PortSets) (n : ℤ) (name : Str)
    → (contains (port_sets_loop items ports).numbers n
        ≡ (any (λ item. parse_int item == some n) items || contains ports.numbers n))
      × (contains (port_sets_loop items ports).names name ≡ (
          any (λ item. (parse_int item == none) && (item == name)) items
          || contains ports.names name))
unfolding port_sets_loop add_item
port_sets_loop-contains [] ports n name = (refl, refl)
port_sets_loop-contains (item ∷ items) ports n name =
    ground (arith, port_sets_loop-contains items (add_item item (parse_int item) ports) n name)

-- The empty annotation and "*" give the nil pointer. Any other gives the numbers and the names
-- that stand between its commas: an item is a number if it can be read as one, and a name if not.
pub get_port_sets_lem :
    (annotation : Str) (n : ℤ) (name : Str)
    → (get_port_sets annotation ≡ none) × ((annotation ≡ []) ⊎ (annotation ≡ codes "*"))
      ⊎ ((ports : PortSets) × (get_port_sets annotation ≡ some ports)
          × (annotation ≢ [])
          × (annotation ≢ codes "*")
          × (contains ports.numbers n
              ≡ any (λ item. parse_int item == some n) (split b',' annotation))
          × (contains ports.names name
              ≡ any (λ item. (parse_int item == none) && (item == name)) (split b',' annotation)))
unfolding get_port_sets
get_port_sets_lem annotation n name = ground (
  arith,
  port_sets_loop-contains (split b',' annotation) (record { names = []; numbers = [] }) n name,
)
