-- ===== src/ProxyController/Reconcile.antt =====
-- ProxyServerReconciler.Reconcile and ensureProxyDeployment. `order` is the order in which Go goes
-- over the ports of the Service.
use oooi.Prelude.{ℕ, Bool, List, [], ◌∷◌, concat, show_ℕ, length, ok, err}
use oooi.Api.Meta.{NamespacedName, key_of}
use oooi.Api.Proxy.{ProxyServer, ProxyServerStatus}
use oooi.Api.Rbac.{Role}
use oooi.Api.Pods.{Service}
use oooi.Infra.Cluster.{ApiError, not_found}
use oooi.Workloads.Kinds.{
  ClusterApi, ClusterState, config_map_parts, service_account_parts, role_parts, binding_parts,
  deployment_parts, service_parts,
}
use oooi.Workloads.Ensure.{
  Ends, followed_by, only_if, ready, ensure_object, copy_config, copy_binding,
  copy_labelled_binding,
}
use oooi.ProxyController.Objects.{
  new_proxy_service_account, new_proxy_role, new_proxy_role_binding, new_privileged_role_binding,
}
use oooi.ProxyController.Bootstrap.{new_envoy_bootstrap_config_map}
use oooi.ProxyController.Pod.{new_proxy_deployment}
use oooi.ProxyController.Service.{new_proxy_service}

unfoldable pub ready_proxy : ProxyServer → ℕ → Service → ProxyServerStatus
unfolding show_ℕ
ready_proxy proxy now service =
    let count = length proxy.spec.backends in
    record {
      conditions =
          ready proxy.metadata.generation now
            (concat ("Proxy deployment ready with " ∷ show_ℕ count ∷ " backends" ∷ []))
          ∷ [];
      config_map_name = concat (proxy.metadata.name ∷ "-proxy-bootstrap" ∷ []);
      deployment_name = proxy.metadata.name;
      service_name = proxy.metadata.name;
      service_ip = service.spec.address;
      observed_generation = proxy.metadata.generation;
      backend_count = count;
    }

-- The update function of the role leaves its labels alone.
abbrev pub copy_rules : Role → Role → Role
copy_rules desired found = record found { rules = desired.rules }

module _ (a : ClusterApi) (enable_open_shift : Bool) (order : List ℕ → List ℕ)
    (proxy : ProxyServer) where
  abbrev Ensures : Type 0
  Ensures = ClusterState a → Ends ApiError × ClusterState a

  unfoldable pub ensure_proxy_account : Ensures
  unfolding ensure_object
  ensure_proxy_account w =
      let out =
        ensure_object service_account_parts a.set_controller_reference proxy.metadata
          a.service_accounts (λ found. found) (new_proxy_service_account proxy)
          w.service_accounts in
      (out.0, record w { service_accounts = out.1 })

  unfoldable pub ensure_proxy_role : Ensures
  unfolding ensure_object
  ensure_proxy_role w =
      let desired = new_proxy_role proxy in
      let out =
        ensure_object role_parts a.set_controller_reference proxy.metadata a.roles
          (copy_rules desired) desired w.roles in
      (out.0, record w { roles = out.1 })

  unfoldable pub ensure_proxy_binding : Ensures
  unfolding ensure_object
  ensure_proxy_binding w =
      let desired = new_proxy_role_binding proxy in
      let out =
        ensure_object binding_parts a.set_controller_reference proxy.metadata a.role_bindings
          (copy_binding desired) desired w.role_bindings in
      (out.0, record w { role_bindings = out.1 })

  unfoldable pub ensure_proxy_scc : Ensures
  unfolding ensure_object only_if
  ensure_proxy_scc w =
      let account = (new_proxy_service_account proxy).metadata.name in
      let desired = new_privileged_role_binding proxy account in
      let out =
        only_if enable_open_shift
          (ensure_object binding_parts a.set_controller_reference proxy.metadata a.role_bindings
            (copy_labelled_binding desired) desired)
          w.role_bindings in
      (out.0, record w { role_bindings = out.1 })

  unfoldable pub ensure_proxy_config_map : Ensures
  unfolding ensure_object
  ensure_proxy_config_map w =
      let desired = new_envoy_bootstrap_config_map proxy in
      let out =
        ensure_object config_map_parts a.set_controller_reference proxy.metadata a.config_maps
          (copy_config desired) desired w.config_maps in
      (out.0, record w { config_maps = out.1 })

  unfoldable pub ensure_proxy_pods : Ensures
  unfolding ensure_object
  ensure_proxy_pods w =
      let out =
        ensure_object deployment_parts a.set_controller_reference proxy.metadata a.deployments
          (λ found. found) (new_proxy_deployment proxy) w.deployments in
      (out.0, record w { deployments = out.1 })

  unfoldable pub ensure_proxy_service : Ensures
  unfolding ensure_object
  ensure_proxy_service w =
      let out =
        ensure_object service_parts a.set_controller_reference proxy.metadata a.services
          (λ found. found) (new_proxy_service order proxy) w.services in
      (out.0, record w { services = out.1 })

  unfoldable pub ensure_proxy_deployment : Ensures
  unfolding ensure_proxy_account ensure_proxy_role ensure_proxy_binding ensure_proxy_scc
      ensure_proxy_config_map ensure_proxy_pods ensure_proxy_service
  ensure_proxy_deployment w = followed_by (ensure_proxy_account w) (λ w1.
      followed_by (ensure_proxy_role w1) (λ w2. followed_by (ensure_proxy_binding w2) (λ w3.
        followed_by (ensure_proxy_scc w3) (λ w4.
          followed_by (ensure_proxy_config_map w4)
            (λ w5. followed_by (ensure_proxy_pods w5) ensure_proxy_service)))))

  -- The Service is read again for its address.
  unfoldable pub update_proxy_status : ℕ → Ensures
  update_proxy_status now w = elim (a.services.get (key_of proxy.metadata) w.services) [
    | err e ↦ (err e, w)
    | ok service ↦
        let out =
          a.proxy_servers.update_status (record proxy { status = ready_proxy proxy now service })
            w.proxy_servers in
        (out.0, record w { proxy_servers = out.1 })
  ]

-- `now` is metav1.Now.
unfoldable pub reconcile_proxy :
    (a : ClusterApi)
    → Bool
    → (List ℕ → List ℕ)
    → ℕ
    → NamespacedName
    → ClusterState a
    → Ends ApiError × ClusterState a
unfolding ensure_proxy_deployment update_proxy_status
reconcile_proxy a enable_open_shift order now request w =
    elim (a.proxy_servers.get request w.proxy_servers) [
      | ok proxy ↦
          followed_by (ensure_proxy_deployment a enable_open_shift order proxy w)
            (update_proxy_status a enable_open_shift order proxy now)
      | err not_found ↦ (ok tt, w)
      | err e ↦ (err e, w)
    ]
