-- ===== src/Xds/Exact.antt =====
-- Everything that is built for a proxy, whatever the order of Go's range over the ports.
use oooi.Prelude.{ℕ, List, [], ◌∷◌, concat, length, select, ◌==◌}
use oooi.Api.Proxy.{ProxyServer, ProxyBackend}
use oooi.Xds.Envoy.{Protocol, DiscoveryType, LbPolicy, DnsLookupFamily, Cluster, Listener}

-- The cluster of a backend: its service, by its name in the DNS of the cluster.
abbrev pub described_cluster : ProxyServer → ProxyBackend → Cluster
described_cluster proxy b =
    let name = concat (proxy.metadata.name ∷ "-" ∷ b.name ∷ []) in
    record {
      name = name;
      connect_timeout = b.timeout_seconds;
      discovery_type = DiscoveryType.logical_dns;
      lb_policy = LbPolicy.round_robin;
      load_assignment = record {
        cluster_name = name;
        endpoints =
            (record {
              protocol = Protocol.tcp;
              address =
                  concat (b.target_service ∷ "." ∷ b.target_namespace ∷ ".svc.cluster.local" ∷ []);
              port_value = b.target_port;
            }
              ∷ [])
            ∷ [];
      };
      dns_lookup_family = DnsLookupFamily.v4_only;
    }

-- How many listeners are on a port.
abbrev pub on_port : ℕ → List Listener → ℕ
on_port port ls = length (select (λ l. l.address.port_value == port) ls)
