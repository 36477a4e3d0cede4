-- ===== src/Workloads/Laws.antt =====
-- The API server that the controllers rely on: it keeps what it takes.
use oooi.Prelude.{◌≡◌, ◌≢◌, ok, ◌∙◌}
use oooi.Api.Meta.{ObjectMeta, NamespacedName, key_of}
use oooi.Api.Dhcp.{DhcpServer}
use oooi.Api.Dns.{DnsServer}
use oooi.Api.Proxy.{ProxyServer}
use oooi.Infra.Cluster.{Kind, LawfulKind}
use oooi.Workloads.Kinds.{
  ClusterApi, Parts, config_map_parts, claim_parts, service_account_parts, role_parts,
  binding_parts, deployment_parts, service_parts,
}

-- The objects of a kind are kept, their content behind the schema's defaults.
abbrev pub Lawful : {O C : Type 0} → Parts O C → Kind O → Type 0
Lawful p k = LawfulKind p.meta_of p.content_of k

-- The schema has no defaults for the content.
abbrev pub NoDefaults : {O C : Type 0} (p : Parts O C) (k : Kind O) → Lawful p k → Type 0
NoDefaults {C = C} p k laws = (c : C) → laws.defaulted c ≡ c

-- A creation or an update of an object leaves those under other keys alone.
pub record Apart {O C : Type 0} (p : Parts O C) (k : Kind O) : Type 0 where
  pub create_apart :
      (key : NamespacedName) (o : O) (os : k.Objects)
      → key ≢ key_of (p.meta_of o)
      → k.get key (k.create o os).1 ≡ k.get key os
  pub update_apart :
      (key : NamespacedName) (o : O) (os : k.Objects)
      → key ≢ key_of (p.meta_of o)
      → k.get key (k.update o os).1 ≡ k.get key os

-- A status update stores the status, and leaves the rest of the object alone.
abbrev pub KeepsStatus : {O : Type 0} → (O → ObjectMeta) → (O → O → O) → Kind O → Type 0
KeepsStatus {O = O} meta_of merge k =
    (request : NamespacedName) (o o' : O) (os : k.Objects)
    → k.get request os ≡ ok o
    → meta_of o' ≡ meta_of o
    → (k.update_status o' os).0 ≡ ok tt
    → k.get request (k.update_status o' os).1 ≡ ok (merge o o')

abbrev pub merge_dhcp : DhcpServer → DhcpServer → DhcpServer
merge_dhcp found new = record found { status = new.status }

abbrev pub merge_dns : DnsServer → DnsServer → DnsServer
merge_dns found new = record found { status = new.status }

abbrev pub merge_proxy : ProxyServer → ProxyServer → ProxyServer
merge_proxy found new = record found { status = new.status }

-- The data of a ConfigMap, the rules of a role and the sides of a binding have no defaults; those
-- of a Deployment, a Service and a claim are left open.
pub record LawfulCluster (a : ClusterApi) : Type 0 where
  pub config_maps : Lawful config_map_parts a.config_maps
  pub config_maps_whole : NoDefaults config_map_parts a.config_maps config_maps
  pub claims : Lawful claim_parts a.claims
  pub service_accounts : Lawful service_account_parts a.service_accounts
  pub roles : Lawful role_parts a.roles
  pub roles_whole : NoDefaults role_parts a.roles roles
  pub role_bindings : Lawful binding_parts a.role_bindings
  pub role_bindings_apart : Apart binding_parts a.role_bindings
  pub role_bindings_whole : NoDefaults binding_parts a.role_bindings role_bindings
  pub cluster_roles : Lawful role_parts a.cluster_roles
  pub cluster_roles_whole : NoDefaults role_parts a.cluster_roles cluster_roles
  pub cluster_role_bindings : Lawful binding_parts a.cluster_role_bindings
  pub cluster_role_bindings_whole :
      NoDefaults binding_parts a.cluster_role_bindings cluster_role_bindings
  pub deployments : Lawful deployment_parts a.deployments
  pub services : Lawful service_parts a.services
  pub dhcp_status : KeepsStatus (λ o. o.metadata) merge_dhcp a.dhcp_servers
  pub dns_status : KeepsStatus (λ o. o.metadata) merge_dns a.dns_servers
  pub proxy_status : KeepsStatus (λ o. o.metadata) merge_proxy a.proxy_servers
  pub keeps :
      (owner m m' : ObjectMeta) → a.set_controller_reference owner m ≡ ok m' → key_of m' ≡ key_of m

-- Without defaults, what is equal to a content stays equal to it.
pub whole-keeps :
    {O C : Type 0} (p : Parts O C) (k : Kind O) (laws : Lawful p k)
    → NoDefaults p k laws
    → (d c : C) → c ≡ d
    → laws.defaulted c ≡ d
whole-keeps p k laws whole d c e = whole c ∙ e
