-- ===== src/DnsController/Views.antt =====
-- The two views of the Corefile against what they promise: a name of the static entries has the
-- address of the entry for the secondary network, and that of the internal proxy for the pods of
-- the management cluster.
use text.Mathlib.TextLemmas.{append_assoc, append-nil}
use oooi.Prelude.{
  String, Bool, true, false, Option, none, some, List, [], ◌∷◌, map, concat, ◌≡◌, ◌≢◌, refl, ap,
  ◌∙◌, arith, ◌===◌, if◌then◌else◌, or_default, Bool-cases, inl, inr, eq_iff,
}
use oooi.Prelude.Paths.{Word}
use oooi.Api.Dns.{DnsServer, DnsStaticEntry}
use oooi.DnsController.Corefile.{
  multus_hosts, default_hosts, settings, corefile_header, block_tail, corefile_body, corefile,
  new_dns_config_map,
}
use oooi.DnsController.Hosts.{
  read_hosts, Plain, Named, read_hosts-multus_hosts, read_hosts-default_hosts,
}

pub data View : Type 0 where
  multus default : View

-- The specification: whether the name is that of an entry decides, and the view gives the address.
abbrev pub address_in : DnsServer → View → DnsStaticEntry → String
address_in dns multus entry = entry.ip
address_in dns default entry = dns.spec.network_config.internal_proxy_ip

unfoldable pub resolve : (DnsStaticEntry → String) → List DnsStaticEntry → String → Option String
resolve address [] hostname = none
resolve address (entry ∷ entries) hostname =
    let rest = resolve address entries hostname in
    if entry.hostname === hostname then some (address entry) else rest

-- The first line with the name.
unfoldable pub lookup_host : String → List (String × String) → Option String
lookup_host hostname [] = none
lookup_host hostname ((ip, name) ∷ hosts) =
    let rest = lookup_host hostname hosts in if name === hostname then some ip else rest

-- The text of the section of a view.
abbrev pub hosts_in : DnsServer → View → String
hosts_in dns multus = multus_hosts dns.spec.static_entries
hosts_in dns default = default_hosts dns

lookup-resolve :
    (address : DnsStaticEntry → String) (entries : List DnsStaticEntry) (hostname : String)
    → lookup_host hostname (map (λ (e : DnsStaticEntry). (address e, e.hostname)) entries)
      ≡ resolve address entries hostname
unfolding resolve lookup_host
lookup-resolve address [] hostname = refl
lookup-resolve address (e ∷ es) hostname = ground (arith, lookup-resolve address es hostname)

pub lookup_host-multus :
    (is_ip : String → Bool) (dns : DnsServer) (hostname : String)
    → Plain is_ip dns.spec.static_entries
    → lookup_host hostname (read_hosts is_ip (hosts_in dns multus))
      ≡ resolve (address_in dns multus) dns.spec.static_entries hostname
lookup_host-multus is_ip dns hostname plain =
    ap (lookup_host hostname) (read_hosts-multus_hosts is_ip dns.spec.static_entries plain)
    ∙ lookup-resolve (λ e. e.ip) dns.spec.static_entries hostname

pub lookup_host-default :
    (is_ip : String → Bool) (dns : DnsServer) (hostname : String)
    → is_ip dns.spec.network_config.internal_proxy_ip ≡ true
    → Word dns.spec.network_config.internal_proxy_ip
    → Named dns.spec.static_entries
    → lookup_host hostname (read_hosts is_ip (hosts_in dns default))
      ≡ resolve (address_in dns default) dns.spec.static_entries hostname
lookup_host-default is_ip dns hostname good word named =
    ap (lookup_host hostname) (read_hosts-default_hosts is_ip dns word named ∙ rw good refl)
    ∙ lookup-resolve (λ e. dns.spec.network_config.internal_proxy_ip) dns.spec.static_entries
        hostname

lookup_host-none :
    (is_ip : String → Bool) (dns : DnsServer) (hostname : String)
    → is_ip dns.spec.network_config.internal_proxy_ip ≡ false
    → Word dns.spec.network_config.internal_proxy_ip
    → Named dns.spec.static_entries
    → lookup_host hostname (read_hosts is_ip (hosts_in dns default)) ≡ none
unfolding lookup_host
lookup_host-none is_ip dns hostname bad word named =
    let nothing : read_hosts is_ip (hosts_in dns default) ≡ [] =
      read_hosts-default_hosts is_ip dns word named ∙ rw bad refl in
    ap (lookup_host hostname) nothing

-- The text is one server block after another, each with its view and its hosts section. The view
-- multus is for the clients of a network, and the view default for all others.
abbrev pub HasViews : String → String → String → String → Type 0
HasViews text cidr multus_text default_text =
    (a : String) × (b : String) × (c : String) × (text
      ≡ concat (
          a ∷ "    view multus {\n" ∷ "        expr incidr(client_ip(), '" ∷ cidr ∷ "')\n    }\n\n"
          ∷ "    hosts {\n" ∷ multus_text ∷ "        fallthrough\n" ∷ b ∷ "    view default {\n"
          ∷ "        expr true\n    }\n\n" ∷ "    hosts {\n" ∷ default_text
          ∷ "        fallthrough\n" ∷ c ∷ []))

-- The network of the machines: that of the spec, or the default.
abbrev pub network : DnsServer → String
network dns =
    if dns.spec.network_config.secondary_network_cidr === ""
    then "192.168.0.0/16"
    else dns.spec.network_config.secondary_network_cidr

pub corefile-HasViews :
    (dns : DnsServer)
    → dns.spec.network_config.internal_proxy_ip ≢ ""
    → HasViews (corefile dns) (network dns) (hosts_in dns multus) (hosts_in dns default)
unfolding corefile corefile_body settings or_default
corefile-HasViews dns internal =
    elim (Bool-cases (dns.spec.network_config.internal_proxy_ip === "")) [
      | inl q ↦ absurd (ground (arith, eq_iff dns.spec.network_config.internal_proxy_ip ""))
      | inr q ↦
          let s = settings dns in
          rw (q, corefile_body)
            (
              concat (
                  corefile_header s.cidr
                  ∷ "# Multus view - traffic from secondary network ("
                  ∷ s.cidr
                  ∷ ")\n# Routes VMs on isolated VLANs to external proxy\n.:"
                  ∷ s.port
                  ∷ " {\n"
                  ∷ []),
              concat (
                  block_tail s
                  ∷ "\n\n    health :8080\n    ready :8181\n}\n\n"
                  ∷ "# Default view - traffic from pod network\n# Routes management cluster pods to internal proxy\n.:"
                  ∷ s.port
                  ∷ " {\n"
                  ∷ []),
              concat (block_tail s ∷ "\n}\n" ∷ []),
              simp (append_assoc, append-nil),
            )
    ]

-- If the internal proxy of a DNSServer is set to a text that is not an IP address, such as the name
-- of a service, then the Corefile has the hosts section of the default view, and reading it as
-- CoreDNS does gives no address for any name. The text and the names have no blanks.
pub corefile-unanswered :
    (is_ip : String → Bool) (dns : DnsServer) (hostname : String)
    → is_ip dns.spec.network_config.internal_proxy_ip ≡ false
    → Word dns.spec.network_config.internal_proxy_ip
    → Named dns.spec.static_entries
    → (text : String) × (m : String) × (d : String) × ((new_dns_config_map dns).entries
        ≡ ("Corefile", text) ∷ [])
      × HasViews text (network dns) m d
      × (lookup_host hostname (read_hosts is_ip d) ≡ none)
unfolding new_dns_config_map
corefile-unanswered is_ip dns hostname bad (full, blank, line) named = (
  corefile dns,
  hosts_in dns multus,
  hosts_in dns default,
  refl,
  corefile-HasViews dns full,
  lookup_host-none is_ip dns hostname bad (full, blank, line) named,
)
