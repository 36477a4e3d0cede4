-- ===== src/DhcpController/Pod.antt =====
-- newDHCPDeployment and getNetmaskBits.
use oooi.Prelude.{String, true, false, none, List, [], ◌∷◌, concat}
use oooi.Prelude.Paths.{split}
use oooi.Prelude.Assoc.{Assoc}
use oooi.Api.Meta.{named}
use oooi.Api.Dhcp.{DhcpServer}
use oooi.Api.Pods.{Container, PodSpec, Deployment, config_map, persistent_volume_claim}
use oooi.Workloads.Builders.{network_annotation}

-- The part behind the slash, if there are two parts.
unfoldable pub second_of : List String → String
second_of (a ∷ b ∷ []) = b
second_of parts = "24"

unfoldable pub get_netmask_bits : String → String
unfolding second_of
get_netmask_bits cidr = second_of (split "/" cidr)

abbrev pub dhcp_labels : DhcpServer → Assoc String
dhcp_labels dhcp =
    ("app", "dhcp-server") ∷ ("hostedcluster.densityops.com", dhcp.metadata.name) ∷ []

unfoldable pub dhcp_container : DhcpServer → Container
dhcp_container dhcp = record {
  name = "dhcp-server";
  image = dhcp.spec.image;
  command = [];
  args = "dhcp" ∷ "--config-file" ∷ "/etc/dhcp/hyperdhcp.yaml" ∷ [];
  ports = record { name = "dhcp"; container_port = 67; protocol = "UDP" } ∷ [];
  allow_privilege_escalation = none;
  added_capabilities = "NET_RAW" ∷ "NET_BIND_SERVICE" ∷ [];
  volume_mounts =
      record { name = "dhcp-config"; mount_path = "/etc/dhcp"; read_only = true }
      ∷ record { name = "dhcp-leases"; mount_path = "/var/lib/dhcp"; read_only = false }
      ∷ [];
  liveness_probe = none;
  readiness_probe = none;
  resources = none;
}

unfoldable pub dhcp_pod : DhcpServer → PodSpec
unfolding dhcp_container
dhcp_pod dhcp = record {
  service_account_name = concat (dhcp.metadata.name ∷ "-dhcp" ∷ []);
  run_as_non_root = false;
  run_as_user = 0;
  containers = dhcp_container dhcp ∷ [];
  volumes =
      record {
        name = "dhcp-config";
        source =
            config_map (concat (dhcp.metadata.name ∷ "-dhcp-config" ∷ []))
              (("hyperdhcp.yaml", "hyperdhcp.yaml") ∷ []);
      }
      ∷ record {
        name = "dhcp-leases";
        source = persistent_volume_claim (concat (dhcp.metadata.name ∷ "-dhcp-leases" ∷ []));
      }
      ∷ [];
}

unfoldable pub new_dhcp_deployment : DhcpServer → Deployment
unfolding dhcp_pod get_netmask_bits
new_dhcp_deployment dhcp =
    let network = dhcp.spec.network_config in
    let ip = concat (network.server_ip ∷ "/" ∷ get_netmask_bits network.cidr ∷ []) in
    record {
      metadata = record (named dhcp.metadata.name dhcp.metadata.namespace) {
        labels = dhcp_labels dhcp;
      };
      spec = record {
        replicas = 1;
        match_labels = dhcp_labels dhcp;
        template_labels = dhcp_labels dhcp;
        template_annotations =
            (
              "k8s.v1.cni.cncf.io/networks",
              network_annotation network.network_attachment_name
                  network.network_attachment_namespace ip,
            )
            ∷ [];
        pod = dhcp_pod dhcp;
      };
    }
