-- ===== src/Infra/Endpoints.antt =====
-- How the objects of one Infra fit together: the names that its DNS server answers and the routes
-- of its proxy.
use oooi.Prelude.{
  List, [], ◌∷◌, ◌++◌, concat, map, ◌≡◌, refl, inl, inr, ◌⊎◌, All, Has, none, select, ◌==◌,
}
use oooi.Api.Infra.{Infra}
use oooi.Api.Proxy.{ProxyBackend}
use oooi.Infra.Desired.{dns_server_for_infra, proxy_server_for_infra, static_entries, hcp_backends}
use oooi.Xds.Envoy.{tcp_proxy, Listener}
use oooi.Xds.Build.{chain}
use oooi.Xds.Ports.{sni_chain}

module _ (infra : Infra) where
  abbrev pub Routed : Type 0
  Routed =
      let dns = (dns_server_for_infra infra).spec in
      let proxy = (proxy_server_for_infra infra).spec in
      All
        (λ e.
          (b : ProxyBackend) × Has b proxy.backends
          × (b.hostname ≡ e.hostname)
          × (e.ip ≡ proxy.network_config.server_ip))
        dns.static_entries
      × All
          (λ b.
            Has b.hostname (map (λ e. e.hostname) dns.static_entries)
            ⊎ (b.hostname ≡ concat ("kubernetes." ∷ dns.hosted_cluster_domain ∷ [])))
          proxy.backends

  -- Each name that the DNS server of an Infra answers has the proxy's address and is the host name
  -- of one of the proxy's backends; and each backend's host name is answered, but for the API
  -- server's kubernetes name.
  pub static_entries-routed : Routed
  unfolding dns_server_for_infra proxy_server_for_infra static_entries hcp_backends
  static_entries-routed = (
    (
      (_, inl refl, refl, refl),
      (
        (_, inr (inl refl), refl, refl),
        (
          (_, inr (inr (inl refl)), refl, refl),
          (
            (_, inr (inr (inr (inl refl))), refl, refl),
            ((_, inr (inr (inr (inr (inr (inl refl))))), refl, refl), tt),
          ),
        ),
      ),
    ),
    (
      inl (inl refl),
      (
        inl (inr (inl refl)),
        (
          inl (inr (inr (inl refl))),
          (
            inl (inr (inr (inr (inl refl)))),
            (inr refl, (inl (inr (inr (inr (inr (inl refl))))), tt)),
          ),
        ),
      ),
    ),
  )

  abbrev pub Listens : Listener → Type 0
  Listens l =
      let proxy = proxy_server_for_infra infra in
      ((l.address.port_value ≡ 6443)
        × (l.filter_chains
            ≡ chain none
                (tcp_proxy "plain-tcp" (concat (proxy.metadata.name ∷ "-" ∷ "kube-apiserver" ∷ [])))
              ∷ []))
      ⊎ ((l.address.port_value ≡ 443)
          × (l.filter_chains
              ≡ map (sni_chain proxy) (select (λ b. b.port == 443) proxy.spec.backends)
                ++ chain none (
                    tcp_proxy "fallback"
                      (concat (proxy.metadata.name ∷ "-" ∷ "konnectivity-server" ∷ [])))
                  ∷ []))
