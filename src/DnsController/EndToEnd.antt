-- ===== src/DnsController/EndToEnd.antt =====
-- From an Infra to the answers of its DNS server: the DNSServer that the Infra controller asks for,
-- its Corefile, and the names that the proxy of the Infra routes.
use oooi.Prelude.{
  String, Bool, true, some, List, [], ◌∷◌, ◌≡◌, refl, ap, ◌∙◌, arith, inl, inr, All, Has, ◌===◌,
  Bool-cases, eq_iff, All-at,
}
use oooi.Prelude.Paths.{Word}
use oooi.Api.Infra.{Infra}
use oooi.Api.Dns.{DnsStaticEntry}
use oooi.Api.Proxy.{ProxyBackend}
use oooi.Infra.Desired.{dns_server_for_infra, proxy_server_for_infra, static_entries}
use oooi.Infra.Endpoints.{static_entries-routed}
use oooi.DnsController.Corefile.{new_dns_config_map}
use oooi.DnsController.Hosts.{read_hosts, Plain}
use oooi.DnsController.Corefile.{corefile}
use oooi.DnsController.Hosts.{Plain-Named}
use oooi.DnsController.Views.{
  multus, default, hosts_in, resolve, lookup_host, lookup_host-multus, lookup_host-default,
  HasViews, network, corefile-HasViews,
}

resolve-Has :
    (address : DnsStaticEntry → String) (ip : String) (entries : List DnsStaticEntry)
    (e : DnsStaticEntry)
    → All (λ x. address x ≡ ip) entries
    → Has e entries
    → resolve address entries e.hostname ≡ some ip
unfolding resolve
resolve-Has address ip [] e same here = absurd here
resolve-Has address ip (x ∷ xs) e (first, later) here =
    elim (Bool-cases (x.hostname === e.hostname)) [
      | inl q ↦ rw (q, resolve) (ap (λ v. some v) first)
      | inr q ↦ elim here [
        | inl at ↦ absurd (
            ground
              (arith, eq_iff x.hostname e.hostname, ap (λ (v : DnsStaticEntry). v.hostname) at))
        | inr there ↦ rw (q, resolve) (resolve-Has address ip xs e later there)
      ]
    ]

All-const : {P : Type 0} → P → (xs : List DnsStaticEntry) → All (λ x. P) xs
All-const p [] = tt
All-const p (x ∷ xs) = (p, All-const p xs)

module _ (is_ip : String → Bool) (infra : Infra) where
  at_proxy :
      All
        (λ x. x.ip ≡ infra.spec.infra_components.proxy.server_ip)
        (dns_server_for_infra infra).spec.static_entries
  unfolding dns_server_for_infra static_entries
  at_proxy = (refl, (refl, (refl, (refl, (refl, tt)))))

  internal_ip :
      (dns_server_for_infra infra).spec.network_config.internal_proxy_ip
      ≡ infra.spec.infra_components.proxy.internal_proxy_service
  unfolding dns_server_for_infra
  internal_ip = refl

  -- The proxy has a backend for the name of the entry.
  abbrev Routable : DnsStaticEntry → Type 0
  Routable e =
      (b : ProxyBackend) × Has b (proxy_server_for_infra infra).spec.backends
      × (b.hostname ≡ e.hostname)
      × (e.ip ≡ (proxy_server_for_infra infra).spec.network_config.server_ip)

  -- From an Infra to the answers of its DNS server: for each static entry of the DNSServer that the
  -- Infra controller asks for, the Corefile of that DNSServer resolves the name to the address of
  -- the proxy in the multus view and to the internal proxy in the default view, and the proxy that
  -- the Infra controller asks for has a backend of that host name. The two addresses have to be IP
  -- addresses, and they and the names have no blanks.
  pub infra-resolves :
      (e : DnsStaticEntry)
      → is_ip infra.spec.infra_components.proxy.internal_proxy_service ≡ true
      → Word infra.spec.infra_components.proxy.internal_proxy_service
      → Plain is_ip (dns_server_for_infra infra).spec.static_entries
      → Has e (dns_server_for_infra infra).spec.static_entries
      → (text : String) × (m : String) × (d : String) × ((new_dns_config_map
            (dns_server_for_infra infra)).entries
          ≡ ("Corefile", text) ∷ [])
        × HasViews text (network (dns_server_for_infra infra)) m d
        × (lookup_host e.hostname (read_hosts is_ip m)
            ≡ some infra.spec.infra_components.proxy.server_ip)
        × (lookup_host e.hostname (read_hosts is_ip d)
            ≡ some infra.spec.infra_components.proxy.internal_proxy_service)
        × ((b : ProxyBackend) × Has b (proxy_server_for_infra infra).spec.backends
            × (b.hostname ≡ e.hostname))
  unfolding new_dns_config_map
  infra-resolves e good word plain here =
      let dns = dns_server_for_infra infra in
      let entries = dns.spec.static_entries in
      let internal = infra.spec.infra_components.proxy.internal_proxy_service in
      let internal_word : Word dns.spec.network_config.internal_proxy_ip = rw internal_ip word in
      let outer = lookup_host-multus is_ip dns e.hostname plain in
      let inner =
        lookup_host-default is_ip dns e.hostname (rw internal_ip good) internal_word
          (Plain-Named is_ip entries plain) in
      let (b, there, same, ip) = All-at Routable e entries here (static_entries-routed infra).0 in
      (
        corefile dns,
        hosts_in dns multus,
        hosts_in dns default,
        refl,
        corefile-HasViews dns internal_word.0,
        outer
            ∙ resolve-Has (λ x. x.ip) infra.spec.infra_components.proxy.server_ip entries e at_proxy
                here,
        inner
            ∙ resolve-Has (λ x. dns.spec.network_config.internal_proxy_ip) internal entries e
                (All-const internal_ip entries) here,
        (b, there, same),
      )
