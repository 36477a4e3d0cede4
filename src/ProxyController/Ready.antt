-- ===== src/ProxyController/Ready.antt =====
-- What holds when the reconciliation of a ProxyServer has succeeded, and what when it has failed.
use oooi.Prelude.{ℕ, Bool, false, List, ok, err, ◌≡◌, ◌⊎◌, refl}
use oooi.Api.Meta.{NamespacedName, key_of}
use oooi.Api.Proxy.{ProxyServer}
use oooi.Api.Pods.{Service}
use oooi.Infra.Cluster.{ApiError}
use oooi.Workloads.Kinds.{ClusterApi, ClusterState}
use oooi.Workloads.Laws.{LawfulCluster}
use oooi.Workloads.Ensure.{followed_by}
use oooi.Workloads.Stored.{followed_by-err, followed_by-keeps}
use oooi.Workloads.Kept.{
  ConfigKept, RoleKept, BindingKept, AccountThere, DeploymentThere, ServiceThere,
}
use oooi.ProxyController.Objects.{
  new_proxy_service_account, new_proxy_role, new_proxy_role_binding, new_privileged_role_binding,
}
use oooi.ProxyController.Bootstrap.{new_envoy_bootstrap_config_map}
use oooi.ProxyController.Pod.{new_proxy_deployment}
use oooi.ProxyController.Service.{new_proxy_service}
use oooi.ProxyController.Reconcile.{
  ready_proxy, ensure_proxy_account, ensure_proxy_role, ensure_proxy_binding, ensure_proxy_scc,
  ensure_proxy_config_map, ensure_proxy_pods, ensure_proxy_service, ensure_proxy_deployment,
  update_proxy_status, reconcile_proxy,
}

module _ (a : ClusterApi) (enable_open_shift : Bool) (order : List ℕ → List ℕ)
    (proxy : ProxyServer) where
  servers-kept :
      (w : ClusterState a)
      → (ensure_proxy_deployment a enable_open_shift order proxy w).1.proxy_servers
        ≡ w.proxy_servers
  unfolding ensure_proxy_deployment ensure_proxy_account ensure_proxy_role ensure_proxy_binding
      ensure_proxy_scc ensure_proxy_config_map ensure_proxy_pods ensure_proxy_service
  servers-kept w =
      let part : ClusterState a → a.proxy_servers.Objects = λ v. v.proxy_servers in
      followed_by-keeps part w _ _ refl (λ w1. followed_by-keeps part w1 _ _ refl (λ w2.
        followed_by-keeps part w2 _ _ refl (λ w3. followed_by-keeps part w3 _ _ refl (λ w4.
          followed_by-keeps part w4 _ _ refl
            (λ w5. followed_by-keeps part w5 _ _ refl (λ w6. refl))))))

  reconcile_proxy-found :
      (now : ℕ) (request : NamespacedName) (w : ClusterState a)
      → a.proxy_servers.get request w.proxy_servers ≡ ok proxy
      → reconcile_proxy a enable_open_shift order now request w
        ≡ followed_by
            (ensure_proxy_deployment a enable_open_shift order proxy w)
            (update_proxy_status a enable_open_shift order proxy now)
  unfolding reconcile_proxy
  reconcile_proxy-found now request w here = rw (here, reconcile_proxy) refl

  pub reconcile_proxy-failed :
      (now : ℕ) (request : NamespacedName) (w : ClusterState a) (cause : ApiError)
      → a.proxy_servers.get request w.proxy_servers ≡ ok proxy
      → (ensure_proxy_deployment a enable_open_shift order proxy w).0 ≡ err cause
      → let out = reconcile_proxy a enable_open_shift order now request w in
        (out.0 ≡ err cause) × (out.1.proxy_servers ≡ w.proxy_servers)
  reconcile_proxy-failed now request w cause here failed =
      let update = update_proxy_status a enable_open_shift order proxy now in
      let first = ensure_proxy_deployment a enable_open_shift order proxy w in
      rw (reconcile_proxy-found now request w here, followed_by-err first update cause failed)
        (refl, servers-kept w)

module _ (a : ClusterApi) (laws : LawfulCluster a) (enable_open_shift : Bool)
    (order : List ℕ → List ℕ) (proxy : ProxyServer) where
  abbrev pub ProxyParts : ClusterState a → Type 0
  ProxyParts w =
      let account = (new_proxy_service_account proxy).metadata.name in
      AccountThere a (new_proxy_service_account proxy) w.service_accounts
      × RoleKept a (new_proxy_role proxy) w.roles
      × BindingKept a (new_proxy_role_binding proxy) w.role_bindings
      × ((enable_open_shift ≡ false)
          ⊎ BindingKept a (new_privileged_role_binding proxy account) w.role_bindings)
      × ConfigKept a (new_envoy_bootstrap_config_map proxy) w.config_maps
      × DeploymentThere a (new_proxy_deployment proxy) w.deployments
      × ServiceThere a (new_proxy_service order proxy) w.services

  abbrev pub ProxyReady : ℕ → NamespacedName → ClusterState a → Type 0
  ProxyReady now request w =
      (service : Service) × (a.services.get (key_of proxy.metadata) w.services ≡ ok service)
      × (a.proxy_servers.get request w.proxy_servers
          ≡ ok (record proxy { status = ready_proxy proxy now service }))
