-- ===== src/Api/Proxy.antt =====
-- api/v1alpha1/proxy_server_types.go. The ports and the timeout are int32 fields that the schema
-- keeps positive, the ports below 65536.
use oooi.Prelude.{ℕ, String, List, []}
use oooi.Api.Meta.{ObjectMeta, Condition}

pub record ProxyNetworkConfig : Type 0 where
  pub server_ip : String
  pub network_attachment_name : String
  pub network_attachment_namespace : String

pub record ProxyBackend : Type 0 where
  pub name : String
  pub hostname : String
  pub alternate_hostnames : List String
  pub port : ℕ
  pub target_service : String
  pub target_port : ℕ
  pub target_namespace : String
  pub protocol : String
  pub timeout_seconds : ℕ

pub record ProxyServerSpec : Type 0 where
  pub network_config : ProxyNetworkConfig
  pub backends : List ProxyBackend
  pub proxy_image : String
  pub manager_image : String
  pub port : ℕ
  pub xds_port : ℕ
  pub log_level : String

pub record ProxyServerStatus : Type 0 where
  pub conditions : List Condition
  pub config_map_name : String
  pub deployment_name : String
  pub service_name : String
  pub service_ip : String
  pub observed_generation : ℕ
  pub backend_count : ℕ

pub record ProxyServer : Type 0 where
  pub metadata : ObjectMeta
  pub spec : ProxyServerSpec
  pub status : ProxyServerStatus

-- The status that an object has when the code builds it.
abbrev pub no_status : ProxyServerStatus
no_status = record {
  conditions = [];
  config_map_name = "";
  deployment_name = "";
  service_name = "";
  service_ip = "";
  observed_generation = 0;
  backend_count = 0;
}
