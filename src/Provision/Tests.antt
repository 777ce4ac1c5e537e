-- ===== src/Provision/Tests.antt =====
-- A service that is accepted, with a port that gets no listener.
use cloud_provider_osc.Base.{
  ℕ, false, Option, List, [], ◌∷◌, ◌≡◌, refl, list_eq, nat_eq, is_nil, length, filter, All, ok,
}
use cloud_provider_osc.Base.Int.{pos, int_eq}
use cloud_provider_osc.Base.Str.{Str, codes}
use cloud_provider_osc.Osc.{Listener}
use cloud_provider_osc.Listener.{ServicePort}
use cloud_provider_osc.Provision.{KubeService, listeners_of, check_service}
use cloud_provider_osc.Provision.Guards.{has_node_port, check_service-ok}

abbrev port_of : Str → ℕ → ServicePort
port_of protocol node = record {
  name = codes "web";
  protocol = protocol;
  port = pos 80;
  node_port = pos node;
}

abbrev service_with : List ServicePort → KubeService
service_with ports = record {
  namespaced_name = codes "default/web";
  uid = codes "ab-12";
  annotations = [];
  has_affinity = false;
  ports = ports;
  load_balancer_ip = [];
  source_ranges = ok (codes "0.0.0.0/0" ∷ []);
  health_path = [];
  health_node_port = pos 0;
}

abbrev hidden : KubeService
hidden = service_with (port_of (codes "TCP") 0 ∷ [])

hidden_run : check_service hidden ≡ ok []
unfolding check_service listeners_of list_eq nat_eq int_eq
hidden_run = refl

check_service-ok_example :
    (hidden.has_affinity ≡ false)
    × (is_nil hidden.ports ≡ false)
    × (hidden.load_balancer_ip ≡ [])
    × All (λ port. port.protocol ≡ codes "TCP") hidden.ports
    × (length {A = Option Listener} [] ≡ length (filter has_node_port hidden.ports))
check_service-ok_example = check_service-ok hidden [] hidden_run
