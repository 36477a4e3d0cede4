-- ===== src/ProxyController/Examples.antt =====
-- The Service of a proxy with backends on two ports, its ports visited backwards.
use mathlib.Core.List.{Permᴰ}
use mathlib.Core.List.Permᴰ
use oooi.Prelude.{
  ℕ, String, true, List, [], ◌∷◌, map, ok, ◌≡◌, ◌≢◌, refl, arith, Has, All, NoRepeat, inl, inr,
}
use oooi.Api.Meta.{named}
use oooi.Api.Proxy.{ProxyBackend, ProxyServer}
use oooi.Api.Proxy
use oooi.Api.Pods.{ServicePort}
use oooi.ProxyController.Service.{new_proxy_service}
use oooi.ProxyController.Ports.{ports-NoRepeat, listener-Has}
use oooi.Xds.Envoy.{Listener, Cluster}
use oooi.Xds.Build.{Groups, build_envoy_resources, group_by_port}
use oooi.Xds.Ports.{expected_resources, expected_listener}
use oooi.Xds.Resources.{build_total}

abbrev on_port : String → ℕ → ProxyBackend
on_port name port = record {
  name = name;
  hostname = name;
  alternate_hostnames = [];
  port = port;
  target_service = name;
  target_port = 8443;
  target_namespace = "hcp";
  protocol = "TCP";
  timeout_seconds = 30;
}

abbrev backends : List ProxyBackend
backends = on_port "api" 6443 ∷ on_port "oauth" 443 ∷ on_port "ignition" 443 ∷ []

abbrev pub proxy : ProxyServer
proxy = record {
  metadata = named "edge" "infra";
  spec = record {
    network_config = record {
      server_ip = "10.0.0.5";
      network_attachment_name = "vlan";
      network_attachment_namespace = "infra";
    };
    backends = backends;
    proxy_image = "";
    manager_image = "";
    port = 0;
    xds_port = 18000;
    log_level = "info";
  };
  status = Proxy.no_status;
}

-- Two keys are visited the other way round.
abbrev pub backwards : List ℕ → List ℕ
backwards (a ∷ b ∷ []) = b ∷ a ∷ []
backwards ports = ports

abbrev same_order : Groups → Groups
same_order gs = gs

backwards-perm : (ports : List ℕ) → Permᴰ (backwards ports) ports
backwards-perm [] = Permᴰ.refl []
backwards-perm (a ∷ []) = Permᴰ.refl (a ∷ [])
backwards-perm (a ∷ b ∷ []) = Permᴰ.swap refl refl
backwards-perm (a ∷ b ∷ c ∷ rest) = Permᴰ.refl (a ∷ b ∷ c ∷ rest)

not_on_admin : All (λ b. b.port ≢ 9901) backends
not_on_admin = (λ e. omega arith, (λ e. omega arith, (λ e. omega arith, tt)))

ports-NoRepeat_example : NoRepeat (map (λ s. s.port) (new_proxy_service backwards proxy).spec.ports)
ports-NoRepeat_example = ports-NoRepeat backwards backwards-perm proxy not_on_admin

abbrev built : List Listener × List Cluster
built = expected_resources proxy (group_by_port backends)

built-eq : build_envoy_resources (λ m. true) same_order proxy ≡ ok built
built-eq = build_total (λ m. true) proxy same_order (λ m. refl)

abbrev tls_listener : Listener
tls_listener = expected_listener proxy 443 (on_port "oauth" 443 ∷ on_port "ignition" 443 ∷ [])

tls_listener-Has : Has tls_listener built.0
unfolding group_by_port
tls_listener-Has = inr (inl refl)

listener-Has_example :
    (s : ServicePort) × Has s (new_proxy_service backwards proxy).spec.ports
    × (s.port ≡ 443)
    × (s.target_port ≡ 443)
listener-Has_example =
    listener-Has backwards backwards-perm proxy (λ m. true) same_order (λ gs. Permᴰ.refl gs) built.0
      built.1 tls_listener built-eq tls_listener-Has
