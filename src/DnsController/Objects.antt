-- ===== src/DnsController/Objects.antt =====
-- The service account of the DNS server, its right to run as any user, and its Service.
use oooi.Prelude.{String, [], ◌∷◌, or_port}
use oooi.Prelude.Assoc.{Assoc}
use oooi.Api.Meta.{named}
use oooi.Api.Dns.{DnsServer}
use oooi.Api.Rbac.{ServiceAccount, RoleBinding}
use oooi.Api.Pods.{Service, ServiceType}
use oooi.Workloads.Builders.{suffixed, account_subject}

unfoldable pub new_dns_service_account : DnsServer → ServiceAccount
new_dns_service_account dns = record { metadata = suffixed dns.metadata "-dns" dns.metadata.name }

unfoldable pub new_anyuid_role_binding : DnsServer → String → RoleBinding
new_anyuid_role_binding dns account = record {
  metadata = suffixed dns.metadata "-anyuid-scc" dns.metadata.name;
  role_ref = record {
    api_group = "rbac.authorization.k8s.io";
    kind = "ClusterRole";
    name = "system:openshift:scc:anyuid";
  };
  subjects = account_subject account dns.metadata.namespace ∷ [];
}

abbrev pub dns_labels : DnsServer → Assoc String
dns_labels dns = ("app", "dns-server") ∷ ("hostedcluster.densityops.com", dns.metadata.name) ∷ []

unfoldable pub new_dns_service : DnsServer → Service
unfolding or_port
new_dns_service dns =
    let port = or_port dns.spec.network_config.dns_port 53 in
    record {
      metadata = record (named dns.metadata.name dns.metadata.namespace) {
        labels = dns_labels dns;
      };
      spec = record {
        type = ServiceType.cluster_ip;
        selector = dns_labels dns;
        ports =
            record { name = "dns-udp"; port = port; target_port = port; protocol = "UDP" }
            ∷ record { name = "dns-tcp"; port = port; target_port = port; protocol = "TCP" }
            ∷ [];
        address = "";
      };
    }
