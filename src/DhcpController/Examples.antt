-- ===== src/DhcpController/Examples.antt =====
-- A DHCPServer in a cluster that has nothing else, and what its reconciliation makes.
use oooi.Prelude.{ℕ, String, true, List, [], ◌∷◌, Outcome, ok, err, ◌≡◌, ◌⊎◌, refl}
use oooi.Api.Meta.{named, key_of}
use oooi.Api.Dhcp.{DhcpServer}
use oooi.Api.Dhcp
use oooi.Infra.Sample.{find}
use oooi.Workloads.Kinds.{ClusterState}
use oooi.Workloads.Sample.{cluster, cluster_laws, empty_cluster}
use oooi.Retry.Loop.{RetryError, stopped}
use oooi.Retry.Sample.{four, four_laws}
use oooi.DhcpController.Reconcile.{Meanwhile, reconcile_dhcp}
use oooi.DhcpController.Config.{dhcp_config}
use oooi.DhcpController.Ready.{reconcile_dhcp-ordered}
use oooi.DhcpController.Steps.{AllStored, Referenced}

abbrev server : DhcpServer
server = record {
  metadata = named "lab-dhcp" "guests";
  spec = record {
    network_config = record {
      cidr = "10.0.0.0/16";
      gateway = "10.0.0.1";
      server_ip = "10.0.0.2";
      dns_servers = [];
      network_attachment_name = "vlan";
      network_attachment_namespace = "guests";
    };
    lease_config = record { range_start = "10.0.0.100"; range_end = "10.0.0.200"; lease_time = "" };
    options = [];
    image = "oooi";
  };
  status = Dhcp.no_status;
}

abbrev calm : Meanwhile cluster
calm = record {
  config_maps = λ n os. os;
  claims = λ n os. os;
  service_accounts = λ n os. os;
  role_bindings = λ n os. os;
  cluster_roles = λ n os. os;
  cluster_role_bindings = λ n os. os;
  deployments = λ n os. os;
}

abbrev at_first : ClusterState cluster
at_first = record empty_cluster { dhcp_servers = server ∷ [] }

found : cluster.dhcp_servers.get (key_of server.metadata) at_first.dhcp_servers ≡ ok server
unfolding find
found = refl

config_text :
    dhcp_config server
    ≡ "# hyperdhcp configuration\nserver4:\n    listen:\n    - \"%net1\"\n    plugins:\n        - kubevirt:\n        - server_id: 10.0.0.2\n        - dns: 8.8.8.8\n        - router: 10.0.0.1\n        - netmask: 255.255.255.0\n        - range: /var/lib/dhcp/leases.txt 10.0.0.100 10.0.0.200 60s\n"
unfolding dhcp_config oooi.Prelude.or_default
config_text = refl

reconcile_dhcp-ordered_example :
    let out = reconcile_dhcp cluster four calm true 7 (key_of server.metadata) at_first in
    ((out.1.deployments ≡ [])
      ⊎ Referenced cluster cluster_laws four four_laws calm true server out.1)
    × ((out.1.dhcp_servers ≡ server ∷ [])
        ⊎ AllStored cluster cluster_laws four four_laws calm true server out.1)
reconcile_dhcp-ordered_example =
    reconcile_dhcp-ordered cluster cluster_laws four four_laws calm true server 7
      (key_of server.metadata) at_first found
