-- ===== src/Api/Dns.antt =====
-- api/v1alpha1/dns_server_types.go. `dns_port` is an int32 that the schema keeps within 1..65535.
use oooi.Prelude.{ℕ, String, List, []}
use oooi.Api.Meta.{ObjectMeta, Condition}

pub record DnsNetworkConfig : Type 0 where
  pub server_ip : String
  pub proxy_ip : String
  pub internal_proxy_ip : String
  pub secondary_network_cidr : String
  pub network_attachment_name : String
  pub network_attachment_namespace : String
  pub dns_port : ℕ

pub record DnsStaticEntry : Type 0 where
  pub hostname : String
  pub ip : String

pub record DnsServerSpec : Type 0 where
  pub network_config : DnsNetworkConfig
  pub hosted_cluster_domain : String
  pub static_entries : List DnsStaticEntry
  pub upstream_dns : List String
  pub image : String
  pub reload_interval : String
  pub cache_ttl : String

pub record DnsServerStatus : Type 0 where
  pub conditions : List Condition
  pub config_map_name : String
  pub deployment_name : String
  pub service_name : String
  pub service_cluster_ip : String
  pub observed_generation : ℕ

pub record DnsServer : Type 0 where
  pub metadata : ObjectMeta
  pub spec : DnsServerSpec
  pub status : DnsServerStatus

-- The status that an object has when the code builds it.
abbrev pub no_status : DnsServerStatus
no_status = record {
  conditions = [];
  config_map_name = "";
  deployment_name = "";
  service_name = "";
  service_cluster_ip = "";
  observed_generation = 0;
}
