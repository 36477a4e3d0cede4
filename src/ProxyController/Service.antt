-- ===== src/ProxyController/Service.antt =====
-- newProxyService. The ports are int32 values that the schema keeps positive.
use oooi.Prelude.{ℕ, String, List, [], ◌∷◌, ◌++◌, map, concat, show_ℕ, ◌==◌, if◌then◌else◌, or_port}
use oooi.Api.Meta.{named}
use oooi.Api.Proxy.{ProxyServer, ProxyBackend}
use oooi.Api.Pods.{ServicePort, ServiceType, Service}

abbrev pub service_port : String → ℕ → ServicePort
service_port name port = record { name = name; port = port; target_port = port; protocol = "TCP" }

-- backendPorts[port] = true
unfoldable pub add_port : ℕ → List ℕ → List ℕ
add_port port [] = port ∷ []
add_port port (p ∷ ports) = if p == port then p ∷ ports else p ∷ add_port port ports

unfoldable pub ports_from : List ℕ → List ProxyBackend → List ℕ
unfolding add_port
ports_from ports [] = ports
ports_from ports (b ∷ bs) = ports_from (add_port b.port ports) bs

unfoldable pub port_name : ℕ → ℕ → String
port_name main port = if port == main then "proxy" else concat ("proxy-" ∷ show_ℕ port ∷ [])

abbrev pub admin_port : ServicePort
admin_port = service_port "admin" 9901

-- `order` is the order in which Go happens to go over the keys of the map.
unfoldable pub service_ports : (List ℕ → List ℕ) → ProxyServer → List ServicePort
unfolding ports_from port_name
service_ports order proxy =
    map (λ p. service_port (port_name (or_port proxy.spec.port 443) p) p)
      (order (ports_from [] proxy.spec.backends))
    ++ admin_port ∷ []

unfoldable pub new_proxy_service : (List ℕ → List ℕ) → ProxyServer → Service
unfolding service_ports
new_proxy_service order proxy = record {
  metadata = record (named proxy.metadata.name proxy.metadata.namespace) {
    labels = ("app", "proxy-server") ∷ [];
  };
  spec = record {
    type = ServiceType.cluster_ip;
    selector = ("app", "proxy-server") ∷ [];
    ports = service_ports order proxy;
    address = "";
  };
}
