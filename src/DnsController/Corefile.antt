-- ===== src/DnsController/Corefile.antt =====
-- newDNSConfigMap: the Corefile. The texts are those of the source's formats, their pieces between
-- the arguments written out.
use oooi.Prelude.{
  String, List, [], ◌∷◌, concat, show_ℕ, join, or_default, or_port, ◌===◌, if◌then◌else◌,
}
use oooi.Api.Dns.{DnsServer, DnsStaticEntry}
use oooi.Api.Rbac.{ConfigMap}
use oooi.Workloads.Builders.{suffixed}

abbrev pub host_line : String → String → String
host_line ip hostname = concat ("        " ∷ ip ∷ " " ∷ hostname ∷ "\n" ∷ [])

-- The entries for the VMs on the secondary network.
unfoldable pub multus_hosts : List DnsStaticEntry → String
multus_hosts [] = ""
multus_hosts (entry ∷ entries) =
    concat (host_line entry.ip entry.hostname ∷ multus_hosts entries ∷ [])

-- The entries for the pods of the management cluster: the same names at the internal proxy.
unfoldable pub default_hosts_at : String → List DnsStaticEntry → String
default_hosts_at ip [] = ""
default_hosts_at ip (entry ∷ entries) =
    concat (host_line ip entry.hostname ∷ default_hosts_at ip entries ∷ [])

unfoldable pub default_hosts : DnsServer → String
unfolding default_hosts_at
default_hosts dns =
    let ip = dns.spec.network_config.internal_proxy_ip in
    if ip === "" then "" else default_hosts_at ip dns.spec.static_entries

unfoldable pub upstream : List String → String
unfolding join
upstream [] = "8.8.8.8"
upstream (server ∷ servers) = join (server ∷ servers) " "

-- The arguments that the formats have in common.
pub record Settings : Type 0 where
  pub cidr : String
  pub port : String
  pub forward : String
  pub ttl : String
  pub interval : String

unfoldable pub settings : DnsServer → Settings
unfolding upstream show_ℕ or_default or_port
settings dns = record {
  cidr = or_default dns.spec.network_config.secondary_network_cidr "192.168.0.0/16";
  port = show_ℕ (or_port dns.spec.network_config.dns_port 53);
  forward = upstream dns.spec.upstream_dns;
  ttl = or_default dns.spec.cache_ttl "30s";
  interval = or_default dns.spec.reload_interval "5s";
}

-- What follows the hosts section in a block that has one.
abbrev pub block_tail : Settings → String
block_tail s = concat (
    "    }\n\n    forward . " ∷ s.forward ∷ " {\n        policy sequential\n    }\n\n    cache "
    ∷ s.ttl ∷ "\n    log\n    errors\n    reload " ∷ s.interval ∷ [])

-- The server block of the multus view, the same in both formats.
abbrev pub multus_block : Settings → String → String
multus_block s hosts = concat (
    concat (
      "# Multus view - traffic from secondary network (" ∷ s.cidr
      ∷ ")\n# Routes VMs on isolated VLANs to external proxy\n.:" ∷ s.port ∷ " {\n" ∷ [])
    ∷ "    view multus {\n"
    ∷ concat ("        expr incidr(client_ip(), '" ∷ s.cidr ∷ "')\n    }\n\n" ∷ [])
    ∷ "    hosts {\n"
    ∷ hosts
    ∷ "        fallthrough\n"
    ∷ concat (block_tail s ∷ "\n\n    health :8080\n    ready :8181\n}\n\n" ∷ [])
    ∷ [])

-- The server block of the default view with an internal proxy.
abbrev pub internal_block : Settings → String → String
internal_block s hosts = concat (
    concat (
      "# Default view - traffic from pod network\n# Routes management cluster pods to internal proxy\n.:"
      ∷ s.port ∷ " {\n" ∷ [])
    ∷ "    view default {\n"
    ∷ "        expr true\n    }\n\n"
    ∷ "    hosts {\n"
    ∷ hosts
    ∷ "        fallthrough\n"
    ∷ concat (block_tail s ∷ "\n}\n" ∷ [])
    ∷ [])

-- The server block of the default view without one.
abbrev pub forward_block : Settings → String
forward_block s = concat (
    "# Default view - traffic from pod network\n# No internal proxy configured, all traffic forwarded to upstream\n.:"
    ∷ s.port ∷ " {\n    view default {\n        expr true\n    }\n\n    forward . " ∷ s.forward
    ∷ "\n    cache " ∷ s.ttl ∷ "\n    log\n    errors\n    reload " ∷ s.interval ∷ "\n}\n" ∷ [])

unfoldable pub corefile_body : DnsServer → String
unfolding settings multus_hosts default_hosts
corefile_body dns =
    let s = settings dns in
    let multus = multus_block s (multus_hosts dns.spec.static_entries) in
    if dns.spec.network_config.internal_proxy_ip === ""
    then concat (multus ∷ forward_block s ∷ [])
    else concat (multus ∷ internal_block s (default_hosts dns) ∷ [])

abbrev pub corefile_header : String → String
corefile_header cidr = concat (
    "# Hosted Control Plane dual-view split-horizon DNS using view plugin\n# Source-based routing with two proxy targets:\n# - Multus view (VMs): queries from "
    ∷ cidr
    ∷ " → HCP resolves to external proxy\n# - Default view (Pods): queries from pod network → HCP resolves to internal proxy\n\n"
    ∷ [])

unfoldable pub corefile : DnsServer → String
unfolding corefile_body
corefile dns = concat (corefile_header (settings dns).cidr ∷ corefile_body dns ∷ [])

unfoldable pub new_dns_config_map : DnsServer → ConfigMap
unfolding corefile
new_dns_config_map dns = record {
  metadata = suffixed dns.metadata "-dns-config" dns.metadata.name;
  entries = ("Corefile", corefile dns) ∷ [];
}
