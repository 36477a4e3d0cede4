-- ===== src/Infra/Desired.antt =====
-- The objects that an Infra asks for.
use oooi.Prelude.{ℕ, String, List, [], ◌∷◌, concat, or_default, if◌then◌else◌}
use oooi.Api.Meta.{named}
use oooi.Api.Infra.{Infra}
use oooi.Api.Dhcp.{DhcpServer}
use oooi.Api.Dhcp
use oooi.Api.Dns.{DnsServer, DnsStaticEntry}
use oooi.Api.Dns
use oooi.Api.Proxy.{ProxyServer, ProxyBackend}
use oooi.Api.Proxy
use oooi.Api.Network.{NetworkPolicy, PolicyType}

abbrev pub default_image : String
default_image = "quay.io/cldmnky/oooi:latest"

-- Where the network attachment is, for every component.
unfoldable pub nad_namespace : Infra → String
nad_namespace infra =
    or_default infra.spec.network_config.network_attachment_namespace infra.metadata.namespace

unfoldable pub hosted_cluster_domain : Infra → String
hosted_cluster_domain infra =
    let dns = infra.spec.infra_components.dns in
    concat (dns.cluster_name ∷ "." ∷ dns.base_domain ∷ [])

unfoldable pub client_dns_servers : Infra → List String
client_dns_servers infra =
    if infra.spec.infra_components.dns.enabled
    then infra.spec.infra_components.dns.server_ip ∷ []
    else infra.spec.network_config.dns_servers

unfoldable pub dhcp_server_for_infra : Infra → DhcpServer
unfolding nad_namespace client_dns_servers
dhcp_server_for_infra infra =
    let net = infra.spec.network_config in
    let dhcp = infra.spec.infra_components.dhcp in
    record {
      metadata = named (concat (infra.metadata.name ∷ "-dhcp" ∷ [])) infra.metadata.namespace;
      spec = record {
        network_config = record {
          cidr = net.cidr;
          gateway = net.gateway;
          server_ip = dhcp.server_ip;
          dns_servers = client_dns_servers infra;
          network_attachment_name = net.network_attachment_definition;
          network_attachment_namespace = nad_namespace infra;
        };
        lease_config = record {
          range_start = dhcp.range_start;
          range_end = dhcp.range_end;
          lease_time = dhcp.lease_time;
        };
        options = [];
        image = or_default dhcp.image default_image;
      };
      status = Dhcp.no_status;
    }

abbrev pub entry : String → String → String → DnsStaticEntry
entry host domain ip = record { hostname = concat (host ∷ domain ∷ []); ip = ip }

unfoldable pub static_entries : String → String → List DnsStaticEntry
static_entries domain ip =
    entry "api." domain ip
    ∷ entry "api-int." domain ip
    ∷ entry "oauth." domain ip
    ∷ entry "ignition." domain ip
    ∷ entry "konnectivity." domain ip
    ∷ []

unfoldable pub dns_server_for_infra : Infra → DnsServer
unfolding nad_namespace hosted_cluster_domain static_entries
dns_server_for_infra infra =
    let net = infra.spec.network_config in
    let dns = infra.spec.infra_components.dns in
    let proxy = infra.spec.infra_components.proxy in
    record {
      metadata = named (concat (infra.metadata.name ∷ "-dns" ∷ [])) infra.metadata.namespace;
      spec = record {
        network_config = record {
          server_ip = dns.server_ip;
          proxy_ip = proxy.server_ip;
          internal_proxy_ip = proxy.internal_proxy_service;
          secondary_network_cidr = net.cidr;
          network_attachment_name = net.network_attachment_definition;
          network_attachment_namespace = nad_namespace infra;
          dns_port = 53;
        };
        hosted_cluster_domain = hosted_cluster_domain infra;
        static_entries = static_entries (hosted_cluster_domain infra) proxy.server_ip;
        upstream_dns = net.dns_servers;
        image = or_default dns.image default_image;
        reload_interval = "5s";
        cache_ttl = "30s";
      };
      status = Dns.no_status;
    }

-- The namespace of the hosted cluster's services.
unfoldable pub target_namespace : Infra → String
target_namespace infra =
    or_default infra.spec.infra_components.proxy.control_plane_namespace
      (concat (infra.metadata.namespace ∷ "-" ∷ infra.metadata.name ∷ []))

-- The fields that the source gives each backend, and those that all of them share.
abbrev pub backend : String → String → List String → ℕ → String → ℕ → String → ProxyBackend
backend name hostname alternates port service target_port namespace = record {
  name = name;
  hostname = hostname;
  alternate_hostnames = alternates;
  port = port;
  target_service = service;
  target_port = target_port;
  target_namespace = namespace;
  protocol = "TCP";
  timeout_seconds = 30;
}

unfoldable pub hcp_backends : String → String → List ProxyBackend
hcp_backends domain ns =
    backend "kube-apiserver" (concat ("api." ∷ domain ∷ [])) [] 6443 "kube-apiserver" 6443 ns
    ∷ backend "kube-apiserver-internal" (concat ("api-int." ∷ domain ∷ [])) [] 6443 "kube-apiserver"
        6443 ns
    ∷ backend "oauth-openshift" (concat ("oauth." ∷ domain ∷ [])) [] 443 "oauth-openshift" 6443 ns
    ∷ backend "ignition-server" (concat ("ignition." ∷ domain ∷ [])) [] 443 "ignition-server-proxy"
        443 ns
    ∷ backend "kube-apiserver-kubernetes-hostname" (concat ("kubernetes." ∷ domain ∷ []))
        ("kubernetes" ∷ "kubernetes.default" ∷ "kubernetes.default.svc"
          ∷ "kubernetes.default.svc.cluster.local" ∷ [])
        443 "kube-apiserver" 6443 ns
    ∷ backend "konnectivity-server" (concat ("konnectivity." ∷ domain ∷ [])) [] 443
        "konnectivity-server" 8091 ns
    ∷ []

unfoldable pub proxy_server_for_infra : Infra → ProxyServer
unfolding nad_namespace hosted_cluster_domain target_namespace hcp_backends
proxy_server_for_infra infra =
    let net = infra.spec.network_config in
    let proxy = infra.spec.infra_components.proxy in
    record {
      metadata = named (concat (infra.metadata.name ∷ "-proxy" ∷ [])) infra.metadata.namespace;
      spec = record {
        network_config = record {
          server_ip = proxy.server_ip;
          network_attachment_name = net.network_attachment_definition;
          network_attachment_namespace = nad_namespace infra;
        };
        backends = hcp_backends (hosted_cluster_domain infra) (target_namespace infra);
        proxy_image = proxy.proxy_image;
        manager_image = proxy.manager_image;
        port = 443;
        xds_port = 18000;
        log_level = "info";
      };
      status = Proxy.no_status;
    }

unfoldable pub network_policy_for_infra : Infra → NetworkPolicy
network_policy_for_infra infra = record {
  metadata = named "allow-infrastructure" infra.spec.infra_components.proxy.control_plane_namespace;
  spec = record {
    pod_selector = [];
    ingress =
        record {
          peers =
              record {
                namespace_selector =
                    ("hostedcluster.densityops.com/network-policy-group", "infrastructure") ∷ [];
              }
              ∷ [];
        }
        ∷ [];
    policy_types = PolicyType.ingress ∷ [];
  };
}
