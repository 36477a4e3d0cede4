-- ===== src/ProxyController/Runs.antt =====
-- A ProxyServer in a cluster that has nothing else, with the data of the other examples.
use oooi.Prelude.{[], ◌∷◌, err}
use oooi.Infra.Cluster.{refused}
use oooi.Workloads.Kinds.{ClusterState, ClusterApi}
use oooi.Workloads.Sample.{cluster, empty_cluster}
use oooi.ProxyController.Examples.{proxy}
use oooi.ProxyController.Objects.{new_proxy_service_account}

abbrev at_first : ClusterState cluster
at_first = record empty_cluster { proxy_servers = proxy ∷ [] }

-- The API server refuses to create the Service.
abbrev denied : ClusterApi
denied = record cluster {
  services = record cluster.services { create = λ o os. (err refused, os) };
}

abbrev denied_start : ClusterState denied
denied_start = record {
  dhcp_servers = [];
  dns_servers = [];
  proxy_servers = proxy ∷ [];
  config_maps = [];
  claims = [];
  service_accounts = [];
  roles = [];
  role_bindings = [];
  cluster_roles = [];
  cluster_role_bindings = [];
  deployments = [];
  services = [];
}
