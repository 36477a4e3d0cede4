-- ===== src/DnsController/InfraExamples.antt =====
-- The answers of the DNS server of an Infra.
use oooi.Prelude.{String, true, some, [], ◌∷◌, ◌≡◌, refl, eq_iff, arith, inl, inr, Has}
use oooi.Prelude.Paths.{has_char, Word}
use oooi.Api.Dns.{DnsStaticEntry}
use oooi.Api.Proxy.{ProxyBackend}
use oooi.Infra.Desired.{dns_server_for_infra, proxy_server_for_infra}
use oooi.Infra.Examples.{infra}
use oooi.DnsController.Corefile.{new_dns_config_map}
use oooi.DnsController.Hosts.{read_hosts, Plain}
use oooi.DnsController.Sample.{dotted}
use oooi.DnsController.Views.{lookup_host, HasViews, network}
use oooi.DnsController.EndToEnd.{infra-resolves}

abbrev oauth : DnsStaticEntry
oauth = record {
  hostname = "oauth.lab.example.com";
  ip = infra.spec.infra_components.proxy.server_ip;
}

internal_good : dotted "172.30.0.9" ≡ true
unfolding dotted
internal_good = refl

internal_text : Word infra.spec.infra_components.proxy.internal_proxy_service
unfolding has_char
internal_text = ((λ e. ground (arith, eq_iff "172.30.0.9" "")), refl, refl)

plain : Plain dotted (dns_server_for_infra infra).spec.static_entries
unfolding has_char dns_server_for_infra dotted
plain = (
  (
    refl,
    ((λ e. ground (arith, eq_iff "10.0.0.4" "")), refl, refl),
    ((λ e. ground (arith, eq_iff "api.lab.example.com" "")), refl, refl),
  ),
  (
    (
      refl,
      ((λ e. ground (arith, eq_iff "10.0.0.4" "")), refl, refl),
      ((λ e. ground (arith, eq_iff "api-int.lab.example.com" "")), refl, refl),
    ),
    (
      (
        refl,
        ((λ e. ground (arith, eq_iff "10.0.0.4" "")), refl, refl),
        ((λ e. ground (arith, eq_iff "oauth.lab.example.com" "")), refl, refl),
      ),
      (
        (
          refl,
          ((λ e. ground (arith, eq_iff "10.0.0.4" "")), refl, refl),
          ((λ e. ground (arith, eq_iff "ignition.lab.example.com" "")), refl, refl),
        ),
        (
          (
            refl,
            ((λ e. ground (arith, eq_iff "10.0.0.4" "")), refl, refl),
            ((λ e. ground (arith, eq_iff "konnectivity.lab.example.com" "")), refl, refl),
          ),
          tt,
        ),
      ),
    ),
  ),
)

here : Has oauth (dns_server_for_infra infra).spec.static_entries
unfolding dns_server_for_infra
here = inr (inr (inl refl))

infra-resolves_example :
    (text : String) × (m : String) × (d : String) × ((new_dns_config_map
        (dns_server_for_infra infra)).entries
      ≡ ("Corefile", text) ∷ [])
    × HasViews text (network (dns_server_for_infra infra)) m d
    × (lookup_host "oauth.lab.example.com" (read_hosts dotted m) ≡ some "10.0.0.4")
    × (lookup_host "oauth.lab.example.com" (read_hosts dotted d) ≡ some "172.30.0.9")
    × ((b : ProxyBackend) × Has b (proxy_server_for_infra infra).spec.backends
        × (b.hostname ≡ "oauth.lab.example.com"))
infra-resolves_example = infra-resolves dotted infra oauth internal_good internal_text plain here
