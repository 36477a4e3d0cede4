-- ===== src/Api/Infra.antt =====
-- api/v1alpha1/infra_types.go
use oooi.Prelude.{ℕ, String, Bool, List}
use oooi.Api.Meta.{ObjectMeta, Condition}

pub record NetworkConfig : Type 0 where
  pub cidr : String
  pub gateway : String
  pub network_attachment_definition : String
  pub network_attachment_namespace : String
  pub dns_servers : List String

pub record DhcpConfig : Type 0 where
  pub enabled : Bool
  pub server_ip : String
  pub range_start : String
  pub range_end : String
  pub lease_time : String
  pub image : String

pub record DnsConfig : Type 0 where
  pub enabled : Bool
  pub server_ip : String
  pub base_domain : String
  pub cluster_name : String
  pub image : String

pub record ProxyConfig : Type 0 where
  pub enabled : Bool
  pub server_ip : String
  pub internal_proxy_service : String
  pub control_plane_namespace : String
  pub api_server_service : String
  pub proxy_image : String
  pub manager_image : String

pub record InfraComponents : Type 0 where
  pub dhcp : DhcpConfig
  pub dns : DnsConfig
  pub proxy : ProxyConfig

pub record InfraSpec : Type 0 where
  pub network_config : NetworkConfig
  pub infra_components : InfraComponents

pub record ComponentStatus : Type 0 where
  pub dhcp_ready : Bool
  pub dns_ready : Bool
  pub proxy_ready : Bool

pub record InfraStatus : Type 0 where
  pub conditions : List Condition
  pub component_status : ComponentStatus
  pub observed_generation : ℕ

pub record Infra : Type 0 where
  pub metadata : ObjectMeta
  pub spec : InfraSpec
  pub status : InfraStatus
