-- ===== src/DhcpController/Config.antt =====
-- newDHCPConfigMap: the configuration of the DHCP server. The text is that of the source's format,
-- its pieces between the arguments written out.
use oooi.Prelude.{String, List, [], ◌∷◌, concat, or_default}
use oooi.Api.Dhcp.{DhcpServer}
use oooi.Api.Rbac.{ConfigMap}
use oooi.Workloads.Builders.{suffixed}

-- The first server of the list, and the default without one.
unfoldable pub first_server : List String → String
first_server [] = "8.8.8.8"
first_server (server ∷ servers) = server

unfoldable pub dhcp_config : DhcpServer → String
unfolding first_server
dhcp_config dhcp =
    let network = dhcp.spec.network_config in
    let lease = dhcp.spec.lease_config in
    concat (
      "# hyperdhcp configuration\nserver4:\n    listen:\n    - \"%net1\"\n    plugins:\n"
      ∷ "        - kubevirt:\n"
      ∷ "        - server_id: "
      ∷ network.server_ip
      ∷ "\n"
      ∷ "        - dns: "
      ∷ first_server network.dns_servers
      ∷ "\n"
      ∷ "        - router: "
      ∷ network.gateway
      ∷ "\n"
      ∷ "        - netmask: "
      ∷ "255.255.255.0"
      ∷ "\n"
      ∷ "        - range: /var/lib/dhcp/leases.txt "
      ∷ lease.range_start
      ∷ " "
      ∷ lease.range_end
      ∷ " "
      ∷ or_default lease.lease_time "60s"
      ∷ "\n"
      ∷ [])

unfoldable pub new_dhcp_config_map : DhcpServer → ConfigMap
unfolding dhcp_config
new_dhcp_config_map dhcp = record {
  metadata = suffixed dhcp.metadata "-dhcp-config" dhcp.metadata.name;
  entries = ("hyperdhcp.yaml", dhcp_config dhcp) ∷ [];
}
