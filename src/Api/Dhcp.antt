-- ===== src/Api/Dhcp.antt =====
-- api/v1alpha1/dhcp_server_types.go
use oooi.Prelude.{ℕ, String, List, []}
use oooi.Api.Meta.{ObjectMeta, Condition}

pub record DhcpNetworkConfig : Type 0 where
  pub cidr : String
  pub gateway : String
  pub server_ip : String
  pub dns_servers : List String
  pub network_attachment_name : String
  pub network_attachment_namespace : String

pub record DhcpLeaseConfig : Type 0 where
  pub range_start : String
  pub range_end : String
  pub lease_time : String

pub record DhcpOption : Type 0 where
  pub code : ℕ
  pub value : String

pub record DhcpServerSpec : Type 0 where
  pub network_config : DhcpNetworkConfig
  pub lease_config : DhcpLeaseConfig
  pub options : List DhcpOption
  pub image : String

pub record DhcpServerStatus : Type 0 where
  pub conditions : List Condition
  pub active_leases : ℕ
  pub total_leases : ℕ
  pub observed_generation : ℕ

pub record DhcpServer : Type 0 where
  pub metadata : ObjectMeta
  pub spec : DhcpServerSpec
  pub status : DhcpServerStatus

-- The status that an object has when the code builds it.
abbrev pub no_status : DhcpServerStatus
no_status = record { conditions = []; active_leases = 0; total_leases = 0; observed_generation = 0 }
