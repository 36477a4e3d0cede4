-- ===== src/DhcpServer/RangeExamples.antt =====
-- The configuration of a DHCPServer with the range from 10 to 12, read by the plugin range.
use oooi.Prelude.{String, List, [], ◌∷◌, ok, some, ◌≡◌, ◌≢◌, refl, arith, eq_iff}
use oooi.Prelude.Paths.{has_char}
use oooi.Api.Meta.{named}
use oooi.Api.Dhcp.{DhcpServer}
use oooi.Api.Dhcp
use oooi.Time.{pos}
use oooi.Leases.State.{PluginState}
use oooi.Leases.Sample.{host, net_laws, allocator_laws}
use oooi.Leases.Setup.{setup_range}
use oooi.Leases.Addresses.{IsValid}
use oooi.DhcpController.Config.{dhcp_config}
use oooi.DhcpServer.Configured.{Plain, config-args}
use oooi.DhcpServer.Range.{Covers, config-Covers}

abbrev server : DhcpServer
server = record {
  metadata = named "lab-dhcp" "guests";
  spec = record {
    network_config = record {
      cidr = "10.0.0.0/16";
      gateway = "10.0.0.1";
      server_ip = "10.0.0.2";
      dns_servers = [];
      network_attachment_name = "vlan";
      network_attachment_namespace = "guests";
    };
    lease_config = record { range_start = "10"; range_end = "12"; lease_time = "1h" };
    options = [];
    image = "oooi";
  };
  status = Dhcp.no_status;
}

server-Plain : Plain server
unfolding has_char oooi.DhcpController.Config.first_server oooi.Prelude.or_default
server-Plain = record {
  ip = refl;
  dns = refl;
  gateway = refl;
  first = ((λ e. ground (arith, eq_iff "10" "")), refl, refl);
  last = ((λ e. ground (arith, eq_iff "12" "")), refl, refl);
  lease = ((λ e. ground (arith, eq_iff "1h" "")), refl, refl);
}

abbrev set_up : PluginState host
set_up = record {
  records_v4 = [];
  lease_time = pos 3_600_000_000_000;
  leasedb = [];
  allocator = record { first = 10; last = 12; taken = [] };
}

set_up-made : setup_range host ("/var/lib/dhcp/leases.txt" ∷ "10" ∷ "12" ∷ "1h" ∷ []) ≡ ok set_up
unfolding setup_range oooi.Prelude.value oooi.Leases.Storage.register_backing_db
    oooi.Leases.Storage.load_records oooi.Leases.Storage.load_rows oooi.Leases.Sample.keyed
    oooi.Leases.Setup.reallocate
set_up-made = refl

config-Covers_example : Covers host "10" "12" "1h" set_up × IsValid host allocator_laws set_up
unfolding oooi.Prelude.or_default
config-Covers_example =
    config-Covers host net_laws allocator_laws server
      ("/var/lib/dhcp/leases.txt" ∷ "10" ∷ "12" ∷ "1h" ∷ []) set_up server-Plain
      (config-args server server-Plain) set_up-made
