-- ===== src/Workloads/Kinds.antt =====
-- The Kubernetes API as the three controllers of the components use it: controller-runtime's
-- client for each kind of object, and controllerutil.SetControllerReference.
use oooi.Prelude.{String, List, Outcome, ◌≡◌, refl}
use oooi.Prelude.Assoc.{Assoc}
use oooi.Api.Meta.{ObjectMeta}
use oooi.Api.Dhcp.{DhcpServer}
use oooi.Api.Dns.{DnsServer}
use oooi.Api.Proxy.{ProxyServer}
use oooi.Api.Rbac.{
  ConfigMap, PersistentVolumeClaim, ServiceAccount, Role, RoleBinding, PolicyRule, RoleRef, Subject,
}
use oooi.Api.Pods.{Deployment, DeploymentSpec, Service, ServiceSpec}
use oooi.Infra.Cluster.{ApiError, Kind}

pub record ClusterApi : Type 1 where
  pub dhcp_servers : Kind DhcpServer
  pub dns_servers : Kind DnsServer
  pub proxy_servers : Kind ProxyServer
  pub config_maps : Kind ConfigMap
  pub claims : Kind PersistentVolumeClaim
  pub service_accounts : Kind ServiceAccount
  pub roles : Kind Role
  pub role_bindings : Kind RoleBinding
  pub cluster_roles : Kind Role
  pub cluster_role_bindings : Kind RoleBinding
  pub deployments : Kind Deployment
  pub services : Kind Service
  -- The metadata of the owned object with the owner's reference added.
  pub set_controller_reference : ObjectMeta → ObjectMeta → Outcome ApiError ObjectMeta

pub record ClusterState (a : ClusterApi) : Type 0 where
  pub dhcp_servers : a.dhcp_servers.Objects
  pub dns_servers : a.dns_servers.Objects
  pub proxy_servers : a.proxy_servers.Objects
  pub config_maps : a.config_maps.Objects
  pub claims : a.claims.Objects
  pub service_accounts : a.service_accounts.Objects
  pub roles : a.roles.Objects
  pub role_bindings : a.role_bindings.Objects
  pub cluster_roles : a.cluster_roles.Objects
  pub cluster_role_bindings : a.cluster_role_bindings.Objects
  pub deployments : a.deployments.Objects
  pub services : a.services.Objects

-- The metadata of an object and the rest of it.
pub record Parts (O C : Type 0) : Type 0 where
  pub meta_of : O → ObjectMeta
  pub with_meta : O → ObjectMeta → O
  pub content_of : O → C
  pub meta-with_meta : (o : O) (m : ObjectMeta) → meta_of (with_meta o m) ≡ m
  pub content-with_meta : (o : O) (m : ObjectMeta) → content_of (with_meta o m) ≡ content_of o

abbrev pub config_map_parts : Parts ConfigMap (Assoc String)
config_map_parts = record {
  meta_of = λ o. o.metadata;
  with_meta = λ o m. record o { metadata = m };
  content_of = λ o. o.entries;
  meta-with_meta = λ o m. refl;
  content-with_meta = λ o m. refl;
}

abbrev pub claim_parts : Parts PersistentVolumeClaim String
claim_parts = record {
  meta_of = λ o. o.metadata;
  with_meta = λ o m. record o { metadata = m };
  content_of = λ o. o.storage;
  meta-with_meta = λ o m. refl;
  content-with_meta = λ o m. refl;
}

abbrev pub service_account_parts : Parts ServiceAccount (Unit {0})
service_account_parts = record {
  meta_of = λ o. o.metadata;
  with_meta = λ o m. record o { metadata = m };
  content_of = λ o. tt;
  meta-with_meta = λ o m. refl;
  content-with_meta = λ o m. refl;
}

abbrev pub role_parts : Parts Role (List PolicyRule)
role_parts = record {
  meta_of = λ o. o.metadata;
  with_meta = λ o m. record o { metadata = m };
  content_of = λ o. o.rules;
  meta-with_meta = λ o m. refl;
  content-with_meta = λ o m. refl;
}

abbrev pub binding_parts : Parts RoleBinding (RoleRef × List Subject)
binding_parts = record {
  meta_of = λ o. o.metadata;
  with_meta = λ o m. record o { metadata = m };
  content_of = λ o. (o.role_ref, o.subjects);
  meta-with_meta = λ o m. refl;
  content-with_meta = λ o m. refl;
}

abbrev pub deployment_parts : Parts Deployment DeploymentSpec
deployment_parts = record {
  meta_of = λ o. o.metadata;
  with_meta = λ o m. record o { metadata = m };
  content_of = λ o. o.spec;
  meta-with_meta = λ o m. refl;
  content-with_meta = λ o m. refl;
}

abbrev pub service_parts : Parts Service ServiceSpec
service_parts = record {
  meta_of = λ o. o.metadata;
  with_meta = λ o m. record o { metadata = m };
  content_of = λ o. o.spec;
  meta-with_meta = λ o m. refl;
  content-with_meta = λ o m. refl;
}
