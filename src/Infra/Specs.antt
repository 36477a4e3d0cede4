-- ===== src/Infra/Specs.antt =====
-- The objects of the Infra controller and reflect.DeepEqual on their specs.
use oooi.Prelude.{
  Bool, true, false, List, [], ◌∷◌, ◌≡◌, ◌↔◌, refl, arith, eq_iff, ◌==◌, ◌===◌, ◌&&◌,
}
use oooi.Api.Dhcp.{DhcpServer, DhcpServerSpec, DhcpOption}
use oooi.Api.Dns.{DnsServer, DnsServerSpec, DnsStaticEntry}
use oooi.Api.Proxy.{ProxyServer, ProxyServerSpec, ProxyBackend}
use oooi.Infra.Cluster.{Shape}

unfoldable pub same_list : {A : Type 0} → (A → A → Bool) → List A → List A → Bool
same_list same [] [] = true
same_list same [] (y ∷ ys) = false
same_list same (x ∷ xs) [] = false
same_list same (x ∷ xs) (y ∷ ys) = same x y && same_list same xs ys

pub same_list_iff :
    {A : Type 0} (same : A → A → Bool)
    → ((x y : A) → (same x y ≡ true) ↔ (x ≡ y))
    → (xs ys : List A) → (same_list same xs ys ≡ true) ↔ (xs ≡ ys)
unfolding same_list
same_list_iff same each [] [] = ground arith
same_list_iff same each [] (y ∷ ys) = ground arith
same_list_iff same each (x ∷ xs) [] = ground arith
same_list_iff same each (x ∷ xs) (y ∷ ys) = ground (arith, each x y, same_list_iff same each xs ys)

unfoldable pub same_options : DhcpOption → DhcpOption → Bool
same_options a b = a.code == b.code && a.value === b.value

same_options_iff : (a b : DhcpOption) → (same_options a b ≡ true) ↔ (a ≡ b)
unfolding same_options
same_options_iff a b = ground (arith, eq_iff a.value b.value)

unfoldable pub same_entries : DnsStaticEntry → DnsStaticEntry → Bool
same_entries a b = a.hostname === b.hostname && a.ip === b.ip

same_entries_iff : (a b : DnsStaticEntry) → (same_entries a b ≡ true) ↔ (a ≡ b)
unfolding same_entries
same_entries_iff a b = ground (arith, eq_iff a.hostname b.hostname, eq_iff a.ip b.ip)

unfoldable pub same_backends : ProxyBackend → ProxyBackend → Bool
same_backends a b =
    a.name === b.name
    && a.hostname === b.hostname
    && same_list ◌===◌ a.alternate_hostnames b.alternate_hostnames
    && a.port == b.port
    && a.target_service === b.target_service
    && a.target_port == b.target_port
    && a.target_namespace === b.target_namespace
    && a.protocol === b.protocol
    && a.timeout_seconds == b.timeout_seconds

same_backends_iff : (a b : ProxyBackend) → (same_backends a b ≡ true) ↔ (a ≡ b)
unfolding same_backends
same_backends_iff a b = ground (
  arith,
  eq_iff a.name b.name,
  eq_iff a.hostname b.hostname,
  same_list_iff ◌===◌ eq_iff a.alternate_hostnames b.alternate_hostnames,
  eq_iff a.target_service b.target_service,
  eq_iff a.target_namespace b.target_namespace,
  eq_iff a.protocol b.protocol,
)

unfoldable pub same_dhcp_spec : DhcpServerSpec → DhcpServerSpec → Bool
unfolding same_options
same_dhcp_spec a b =
    let n = a.network_config in
    let m = b.network_config in
    let l = a.lease_config in
    let k = b.lease_config in
    n.cidr === m.cidr
    && n.gateway === m.gateway
    && n.server_ip === m.server_ip
    && same_list ◌===◌ n.dns_servers m.dns_servers
    && n.network_attachment_name === m.network_attachment_name
    && n.network_attachment_namespace === m.network_attachment_namespace
    && l.range_start === k.range_start
    && l.range_end === k.range_end
    && l.lease_time === k.lease_time
    && same_list same_options a.options b.options
    && a.image === b.image

pub same_dhcp_spec_iff : (a b : DhcpServerSpec) → (same_dhcp_spec a b ≡ true) ↔ (a ≡ b)
unfolding same_dhcp_spec
same_dhcp_spec_iff a b =
    let n = a.network_config in
    let m = b.network_config in
    let l = a.lease_config in
    let k = b.lease_config in
    ground (
      arith,
      eq_iff n.cidr m.cidr,
      eq_iff n.gateway m.gateway,
      eq_iff n.server_ip m.server_ip,
      same_list_iff ◌===◌ eq_iff n.dns_servers m.dns_servers,
      eq_iff n.network_attachment_name m.network_attachment_name,
      eq_iff n.network_attachment_namespace m.network_attachment_namespace,
      eq_iff l.range_start k.range_start,
      eq_iff l.range_end k.range_end,
      eq_iff l.lease_time k.lease_time,
      same_list_iff same_options same_options_iff a.options b.options,
      eq_iff a.image b.image,
    )

unfoldable pub same_dns_spec : DnsServerSpec → DnsServerSpec → Bool
same_dns_spec a b =
    let n = a.network_config in
    let m = b.network_config in
    n.server_ip === m.server_ip
    && n.proxy_ip === m.proxy_ip
    && n.internal_proxy_ip === m.internal_proxy_ip
    && n.secondary_network_cidr === m.secondary_network_cidr
    && n.network_attachment_name === m.network_attachment_name
    && n.network_attachment_namespace === m.network_attachment_namespace
    && n.dns_port == m.dns_port
    && a.hosted_cluster_domain === b.hosted_cluster_domain
    && same_list same_entries a.static_entries b.static_entries
    && same_list ◌===◌ a.upstream_dns b.upstream_dns
    && a.image === b.image
    && a.reload_interval === b.reload_interval
    && a.cache_ttl === b.cache_ttl

pub same_dns_spec_iff : (a b : DnsServerSpec) → (same_dns_spec a b ≡ true) ↔ (a ≡ b)
unfolding same_dns_spec
same_dns_spec_iff a b =
    let n = a.network_config in
    let m = b.network_config in
    ground (
      arith,
      eq_iff n.server_ip m.server_ip,
      eq_iff n.proxy_ip m.proxy_ip,
      eq_iff n.internal_proxy_ip m.internal_proxy_ip,
      eq_iff n.secondary_network_cidr m.secondary_network_cidr,
      eq_iff n.network_attachment_name m.network_attachment_name,
      eq_iff n.network_attachment_namespace m.network_attachment_namespace,
      eq_iff a.hosted_cluster_domain b.hosted_cluster_domain,
      same_list_iff same_entries same_entries_iff a.static_entries b.static_entries,
      same_list_iff ◌===◌ eq_iff a.upstream_dns b.upstream_dns,
      eq_iff a.image b.image,
      eq_iff a.reload_interval b.reload_interval,
      eq_iff a.cache_ttl b.cache_ttl,
    )

unfoldable pub same_proxy_spec : ProxyServerSpec → ProxyServerSpec → Bool
same_proxy_spec a b =
    let n = a.network_config in
    let m = b.network_config in
    n.server_ip === m.server_ip
    && n.network_attachment_name === m.network_attachment_name
    && n.network_attachment_namespace === m.network_attachment_namespace
    && same_list same_backends a.backends b.backends
    && a.proxy_image === b.proxy_image
    && a.manager_image === b.manager_image
    && a.port == b.port
    && a.xds_port == b.xds_port
    && a.log_level === b.log_level

pub same_proxy_spec_iff : (a b : ProxyServerSpec) → (same_proxy_spec a b ≡ true) ↔ (a ≡ b)
unfolding same_proxy_spec
same_proxy_spec_iff a b =
    let n = a.network_config in
    let m = b.network_config in
    ground (
      arith,
      eq_iff n.server_ip m.server_ip,
      eq_iff n.network_attachment_name m.network_attachment_name,
      eq_iff n.network_attachment_namespace m.network_attachment_namespace,
      same_list_iff same_backends same_backends_iff a.backends b.backends,
      eq_iff a.proxy_image b.proxy_image,
      eq_iff a.manager_image b.manager_image,
      eq_iff a.log_level b.log_level,
    )

abbrev pub dhcp_shape : Shape DhcpServer DhcpServerSpec
dhcp_shape = record {
  meta_of = λ o. o.metadata;
  with_meta = λ o m. record o { metadata = m };
  spec_of = λ o. o.spec;
  with_spec = λ o s. record o { spec = s };
  same_spec = same_dhcp_spec;
  same_spec_iff = same_dhcp_spec_iff;
  meta-with_spec = λ o s. refl;
  spec-with_spec = λ o s. refl;
  meta-with_meta = λ o m. refl;
  spec-with_meta = λ o m. refl;
}

abbrev pub dns_shape : Shape DnsServer DnsServerSpec
dns_shape = record {
  meta_of = λ o. o.metadata;
  with_meta = λ o m. record o { metadata = m };
  spec_of = λ o. o.spec;
  with_spec = λ o s. record o { spec = s };
  same_spec = same_dns_spec;
  same_spec_iff = same_dns_spec_iff;
  meta-with_spec = λ o s. refl;
  spec-with_spec = λ o s. refl;
  meta-with_meta = λ o m. refl;
  spec-with_meta = λ o m. refl;
}

abbrev pub proxy_shape : Shape ProxyServer ProxyServerSpec
proxy_shape = record {
  meta_of = λ o. o.metadata;
  with_meta = λ o m. record o { metadata = m };
  spec_of = λ o. o.spec;
  with_spec = λ o s. record o { spec = s };
  same_spec = same_proxy_spec;
  same_spec_iff = same_proxy_spec_iff;
  meta-with_spec = λ o s. refl;
  spec-with_spec = λ o s. refl;
  meta-with_meta = λ o m. refl;
  spec-with_meta = λ o m. refl;
}
