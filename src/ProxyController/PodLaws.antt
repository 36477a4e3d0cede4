-- ===== src/ProxyController/PodLaws.antt =====
-- The pods of a proxy find what the controller creates for them, and Envoy and the manager that
-- share a pod agree on the port of the xDS server.
use text.Mathlib.TextLemmas.{append_assoc, append-nil}
use oooi.Prelude.{
  arith, ℕ, String, List, [], ◌∷◌, concat, show_ℕ, or_port, ◌≡◌, refl, inl, inr, Has, true,
  Bool-cases,
}
use oooi.Prelude.Paths.{has_char, has_char-at}
use oooi.Api.Proxy.{ProxyServer}
use oooi.Api.Pods.{Container, ContainerPort}
use oooi.Workloads.Builders.{ensure_ip_with_cidr}
use oooi.Workloads.Mounts.{Fits, Selects}
use oooi.ProxyController.Objects.{new_proxy_service_account}
use oooi.ProxyController.Bootstrap.{
  new_envoy_bootstrap_config_map, bootstrap, build_envoy_bootstrap_config, resources_head,
  resources_rest, admin_text, runtime_text,
}
use oooi.ProxyController.Pod.{new_proxy_deployment}
use oooi.ProxyController.Service.{new_proxy_service}

pub new_proxy_deployment-Fits :
    (proxy : ProxyServer)
    → Fits
        (new_envoy_bootstrap_config_map proxy)
        []
        (new_proxy_service_account proxy).metadata
        (new_proxy_deployment proxy)
unfolding new_proxy_deployment new_envoy_bootstrap_config_map new_proxy_service_account
new_proxy_deployment-Fits proxy = (
  refl,
  refl,
  ((refl, tt), (tt, tt)),
  (((_, inl refl, refl), ((_, inr (inl refl), refl), tt)), (tt, tt)),
  (refl, (refl, tt)),
)

-- The Service of a proxy selects the pods of every proxy.
pub new_proxy_service-Selects :
    (order : List ℕ → List ℕ) (proxy other : ProxyServer)
    → Selects (new_proxy_service order proxy) (new_proxy_deployment other)
unfolding new_proxy_service new_proxy_deployment
new_proxy_service-Selects order proxy other = (λ e. ground arith, (inl refl, tt))

-- An address has a slash afterwards, and one with a slash is left as it is.
pub ensure_ip_with_cidr-again :
    (ip : String)
    → (has_char "/" (ensure_ip_with_cidr ip) ≡ true)
      × (ensure_ip_with_cidr (ensure_ip_with_cidr ip) ≡ ensure_ip_with_cidr ip)
unfolding ensure_ip_with_cidr
ensure_ip_with_cidr-again ip = elim (Bool-cases (has_char "/" ip)) [
  | inl q ↦ rw (q, ensure_ip_with_cidr) (q, rw (q, ensure_ip_with_cidr) refl)
  | inr q ↦
      let slash : has_char "/" (concat (ip ∷ "/24" ∷ [])) ≡ true = has_char-at "/" ip "24" in
      rw (q, ensure_ip_with_cidr) (slash, rw (slash, ensure_ip_with_cidr) refl)
]

-- A bootstrap document names the node and the port of the xDS server.
abbrev pub ServedAt : String → String → ℕ → Type 0
ServedAt text id port =
    (a : String) × (b : String) × (c : String) × (text
      ≡ concat (a ∷ "\"id\": \"" ∷ id ∷ b ∷ "\"port_value\": " ∷ show_ℕ port ∷ c ∷ []))

abbrev pub xds_port : ProxyServer → ℕ
xds_port proxy = or_port proxy.spec.xds_port 18000

pub bootstrap-ServedAt :
    (proxy : ProxyServer)
    → ServedAt (bootstrap proxy) proxy.metadata.name (xds_port proxy)
      × ServedAt
          (build_envoy_bootstrap_config proxy (xds_port proxy))
          proxy.metadata.name
          (xds_port proxy)
unfolding bootstrap build_envoy_bootstrap_config
bootstrap-ServedAt proxy = (
  (
    "{\n  \"node\": {\n    ",
    concat ("\",\n    \"cluster\": \"" ∷ proxy.metadata.name ∷ resources_head ∷ []),
    concat (resources_rest ∷ admin_text ∷ "\n}" ∷ []),
    simp (append_assoc, append-nil),
  ),
  (
    "{\n  \"node\": {\n    ",
    concat ("\",\n    \"cluster\": \"" ∷ proxy.metadata.name ∷ resources_head ∷ []),
    concat (resources_rest ∷ admin_text ∷ runtime_text ∷ []),
    simp (append_assoc, append-nil),
  ),
)

-- Envoy and the manager in the pod of a proxy agree: the bootstrap document in the ConfigMap names
-- the proxy as its node and a port of the xDS server, the document of the package envoy for that
-- port names the same, and the manager container exposes the port and is started with it, with the
-- namespace and with the name of the proxy.
pub xds_port-agrees :
    (proxy : ProxyServer)
    → (text : String) × (k : Container) × (port : ContainerPort) × ((new_envoy_bootstrap_config_map
          proxy).entries
        ≡ ("bootstrap.json", text) ∷ [])
      × ServedAt text proxy.metadata.name port.container_port
      × ServedAt
          (build_envoy_bootstrap_config proxy port.container_port)
          proxy.metadata.name
          port.container_port
      × Has k (new_proxy_deployment proxy).spec.pod.containers
      × Has port k.ports
      × (k.args
          ≡ "proxy"
            ∷ "--xds-port"
            ∷ show_ℕ port.container_port
            ∷ "--namespace"
            ∷ proxy.metadata.namespace
            ∷ "--proxy-name"
            ∷ proxy.metadata.name
            ∷ [])
unfolding new_envoy_bootstrap_config_map new_proxy_deployment
xds_port-agrees proxy = (
  _,
  _,
  record { name = "xds"; container_port = xds_port proxy; protocol = "TCP" },
  refl,
  (bootstrap-ServedAt proxy).0,
  (bootstrap-ServedAt proxy).1,
  inr (inl refl),
  inl refl,
  refl,
)
