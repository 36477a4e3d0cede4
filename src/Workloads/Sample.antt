-- ===== src/Workloads/Sample.antt =====
-- A cluster in memory, whose API server has the laws that the controllers rely on.
use oooi.Prelude.{
  List, [], ◌∷◌, some, Outcome, ok, ◌≡◌, ◌≢◌, refl, sym, arith, inl, inr, Outcome-cases, Bool-cases,
}
use oooi.Api.Meta.{ObjectMeta, NamespacedName, key_of, same_key}
use oooi.Infra.Cluster.{ApiError}
use oooi.Infra.Sample.{
  find, find-found, find-newest, create_in, update_in, update_status_in, memory, memory_laws,
  same_key_eq,
}
use oooi.Workloads.Kinds.{
  ClusterApi, ClusterState, Parts, config_map_parts, claim_parts, service_account_parts, role_parts,
  binding_parts, deployment_parts, service_parts,
}
use oooi.Workloads.Laws.{Apart, KeepsStatus, LawfulCluster, merge_dhcp, merge_dns, merge_proxy}

module _ {O : Type 0} (meta_of : O → ObjectMeta) where
  find-apart :
      (key : NamespacedName) (o : O) (os : List O)
      → key ≢ key_of (meta_of o)
      → find meta_of key (o ∷ os) ≡ find meta_of key os
  unfolding find
  find-apart key o os away = elim (Bool-cases (same_key (key_of (meta_of o)) key)) [
    | inl q ↦ absurd (away (sym (same_key_eq (key_of (meta_of o)) key q)))
    | inr q ↦ ground arith
  ]

  create_in-apart :
      (key : NamespacedName) (o : O) (os : List O)
      → key ≢ key_of (meta_of o)
      → find meta_of key (create_in meta_of o os).1 ≡ find meta_of key os
  unfolding create_in
  create_in-apart key o os away = elim (Outcome-cases (find meta_of (key_of (meta_of o)) os)) [
    | inl (e, q) ↦ rw (q, create_in) (find-apart key o os away)
    | inr (x, q) ↦ rw (q, create_in) refl
  ]

  update_in-apart :
      (key : NamespacedName) (o : O) (os : List O)
      → key ≢ key_of (meta_of o)
      → find meta_of key (update_in meta_of o os).1 ≡ find meta_of key os
  unfolding update_in
  update_in-apart key o os away = elim (Outcome-cases (find meta_of (key_of (meta_of o)) os)) [
    | inl (e, q) ↦ rw (q, update_in) refl
    | inr (x, q) ↦ rw (q, update_in) (find-apart key o os away)
  ]

  pub status_in :
      (merge : O → O → O)
      → ((o o' : O) → meta_of (merge o o') ≡ meta_of o)
      → KeepsStatus meta_of merge (memory meta_of merge)
  unfolding update_status_in
  status_in merge same request o o' os here keeps good =
      let at : key_of (meta_of o) ≡ request = find-found meta_of request os o here in
      let newest = find-newest meta_of (merge o o') os in
      let found : find meta_of (key_of (meta_of o')) os ≡ ok o = rw (keeps, at) here in
      rw (found, update_status_in) (rw (same o o', at) at newest)

abbrev pub owned_by : ObjectMeta → ObjectMeta → Outcome ApiError ObjectMeta
owned_by owner m = ok (record m { owner = some (record { kind = "Server"; name = owner.name }) })

abbrev pub kept_found : {O : Type 0} → O → O → O
kept_found found new = found

abbrev pub cluster : ClusterApi
cluster = record {
  dhcp_servers = memory (λ o. o.metadata) merge_dhcp;
  dns_servers = memory (λ o. o.metadata) merge_dns;
  proxy_servers = memory (λ o. o.metadata) merge_proxy;
  config_maps = memory config_map_parts.meta_of kept_found;
  claims = memory claim_parts.meta_of kept_found;
  service_accounts = memory service_account_parts.meta_of kept_found;
  roles = memory role_parts.meta_of kept_found;
  role_bindings = memory binding_parts.meta_of kept_found;
  cluster_roles = memory role_parts.meta_of kept_found;
  cluster_role_bindings = memory binding_parts.meta_of kept_found;
  deployments = memory deployment_parts.meta_of kept_found;
  services = memory service_parts.meta_of kept_found;
  set_controller_reference = owned_by;
}

pub key_kept : (owner m m' : ObjectMeta) → owned_by owner m ≡ ok m' → key_of m' ≡ key_of m
key_kept owner m m' e = ground arith

pub memory-Apart : {O C : Type 0} (p : Parts O C) → Apart p (memory p.meta_of kept_found)
memory-Apart p = record {
  create_apart = create_in-apart p.meta_of;
  update_apart = update_in-apart p.meta_of;
}

abbrev pub cluster_laws : LawfulCluster cluster
cluster_laws = record {
  config_maps = memory_laws config_map_parts.meta_of config_map_parts.content_of kept_found;
  config_maps_whole = λ c. refl;
  claims = memory_laws claim_parts.meta_of claim_parts.content_of kept_found;
  service_accounts =
      memory_laws service_account_parts.meta_of service_account_parts.content_of kept_found;
  roles = memory_laws role_parts.meta_of role_parts.content_of kept_found;
  roles_whole = λ c. refl;
  role_bindings = memory_laws binding_parts.meta_of binding_parts.content_of kept_found;
  role_bindings_apart = memory-Apart binding_parts;
  role_bindings_whole = λ c. refl;
  cluster_roles = memory_laws role_parts.meta_of role_parts.content_of kept_found;
  cluster_roles_whole = λ c. refl;
  cluster_role_bindings = memory_laws binding_parts.meta_of binding_parts.content_of kept_found;
  cluster_role_bindings_whole = λ c. refl;
  deployments = memory_laws deployment_parts.meta_of deployment_parts.content_of kept_found;
  services = memory_laws service_parts.meta_of service_parts.content_of kept_found;
  dhcp_status = status_in (λ o. o.metadata) merge_dhcp (λ o o'. refl);
  dns_status = status_in (λ o. o.metadata) merge_dns (λ o o'. refl);
  proxy_status = status_in (λ o. o.metadata) merge_proxy (λ o o'. refl);
  keeps = key_kept;
}

-- A cluster without any object.
abbrev pub empty_cluster : ClusterState cluster
empty_cluster = record {
  dhcp_servers = [];
  dns_servers = [];
  proxy_servers = [];
  config_maps = [];
  claims = [];
  service_accounts = [];
  roles = [];
  role_bindings = [];
  cluster_roles = [];
  cluster_role_bindings = [];
  deployments = [];
  services = [];
}
