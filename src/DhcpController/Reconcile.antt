-- ===== src/DhcpController/Reconcile.antt =====
-- DHCPServerReconciler.Reconcile and ensureDHCPDeployment.
use oooi.Prelude.{ℕ, String, Bool, [], ◌∷◌, ok, err}
use oooi.Api.Meta.{NamespacedName}
use oooi.Api.Dhcp.{DhcpServer, DhcpServerStatus}
use oooi.Infra.Cluster.{not_found}
use oooi.Workloads.Kinds.{
  ClusterApi, ClusterState, config_map_parts, claim_parts, service_account_parts, role_parts,
  binding_parts, deployment_parts,
}
use oooi.Workloads.Ensure.{
  Ends, followed_by, only_if, ready, ensure_retrying, ensure_unowned, copy_config, copy_binding,
  copy_role, copy_labelled_binding,
}
use oooi.Retry.Loop.{RetryError, stopped, Backoff}
use oooi.Retry.Single.{report}
use oooi.DhcpController.Config.{new_dhcp_config_map}
use oooi.DhcpController.Objects.{
  new_dhcp_pvc, new_dhcp_service_account, new_kube_virt_cluster_role,
  new_kube_virt_cluster_role_binding, new_scc_role_binding,
}
use oooi.DhcpController.Pod.{new_dhcp_deployment}

-- What other clients do to the objects between the reads and the writes of the tries.
pub record Meanwhile (a : ClusterApi) : Type 0 where
  pub config_maps : ℕ → a.config_maps.Objects → a.config_maps.Objects
  pub claims : ℕ → a.claims.Objects → a.claims.Objects
  pub service_accounts : ℕ → a.service_accounts.Objects → a.service_accounts.Objects
  pub role_bindings : ℕ → a.role_bindings.Objects → a.role_bindings.Objects
  pub cluster_roles : ℕ → a.cluster_roles.Objects → a.cluster_roles.Objects
  pub cluster_role_bindings : ℕ → a.cluster_role_bindings.Objects → a.cluster_role_bindings.Objects
  pub deployments : ℕ → a.deployments.Objects → a.deployments.Objects

abbrev pub ready_dhcp : DhcpServer → ℕ → DhcpServerStatus
ready_dhcp dhcp now = record dhcp.status {
  observed_generation = dhcp.metadata.generation;
  conditions = ready dhcp.metadata.generation now "DHCP server resources created successfully" ∷ [];
}

module _ (a : ClusterApi) (backoff : Backoff) (meanwhile : Meanwhile a) (enable_open_shift : Bool)
    (dhcp : DhcpServer) where
  abbrev Ensures : Type 0
  Ensures = ClusterState a → Ends RetryError × ClusterState a

  unfoldable pub ensure_dhcp_config_map : Ensures
  unfolding ensure_retrying
  ensure_dhcp_config_map w =
      let desired = new_dhcp_config_map dhcp in
      let out =
        ensure_retrying config_map_parts a.set_controller_reference dhcp.metadata a.config_maps
          (copy_config desired) desired backoff meanwhile.config_maps w.config_maps in
      (out.0, record w { config_maps = out.1 })

  unfoldable pub ensure_dhcp_pvc : Ensures
  unfolding ensure_retrying
  ensure_dhcp_pvc w =
      let out =
        ensure_retrying claim_parts a.set_controller_reference dhcp.metadata a.claims
          (λ found. found) (new_dhcp_pvc dhcp) backoff meanwhile.claims w.claims in
      (out.0, record w { claims = out.1 })

  unfoldable pub ensure_dhcp_account : Ensures
  unfolding ensure_retrying
  ensure_dhcp_account w =
      let out =
        ensure_retrying service_account_parts a.set_controller_reference dhcp.metadata
          a.service_accounts (λ found. found) (new_dhcp_service_account dhcp) backoff
          meanwhile.service_accounts w.service_accounts in
      (out.0, record w { service_accounts = out.1 })

  -- `sa.Name`
  unfoldable pub account_name : String
  unfolding new_dhcp_service_account
  account_name = (new_dhcp_service_account dhcp).metadata.name

  unfoldable pub ensure_dhcp_scc : Ensures
  unfolding ensure_retrying only_if account_name
  ensure_dhcp_scc w =
      let desired = new_scc_role_binding dhcp account_name in
      let out =
        only_if enable_open_shift
          (ensure_retrying binding_parts a.set_controller_reference dhcp.metadata a.role_bindings
            (copy_binding desired) desired backoff meanwhile.role_bindings)
          w.role_bindings in
      (out.0, record w { role_bindings = out.1 })

  unfoldable pub ensure_kube_virt_role : Ensures
  unfolding ensure_unowned
  ensure_kube_virt_role w =
      let desired = new_kube_virt_cluster_role dhcp in
      let out =
        ensure_unowned role_parts a.cluster_roles (copy_role desired) desired backoff
          meanwhile.cluster_roles w.cluster_roles in
      (out.0, record w { cluster_roles = out.1 })

  unfoldable pub ensure_kube_virt_binding : Ensures
  unfolding ensure_unowned account_name
  ensure_kube_virt_binding w =
      let desired = new_kube_virt_cluster_role_binding dhcp account_name in
      let out =
        ensure_unowned binding_parts a.cluster_role_bindings (copy_labelled_binding desired) desired
          backoff meanwhile.cluster_role_bindings w.cluster_role_bindings in
      (out.0, record w { cluster_role_bindings = out.1 })

  unfoldable pub ensure_dhcp_pods : Ensures
  unfolding ensure_retrying
  ensure_dhcp_pods w =
      let out =
        ensure_retrying deployment_parts a.set_controller_reference dhcp.metadata a.deployments
          (λ found. found) (new_dhcp_deployment dhcp) backoff meanwhile.deployments w.deployments in
      (out.0, record w { deployments = out.1 })

  unfoldable pub ensure_dhcp_deployment : Ensures
  unfolding ensure_dhcp_config_map ensure_dhcp_pvc ensure_dhcp_account ensure_dhcp_scc
      ensure_kube_virt_role ensure_kube_virt_binding ensure_dhcp_pods
  ensure_dhcp_deployment w = followed_by (ensure_dhcp_config_map w) (λ w1.
      followed_by (ensure_dhcp_pvc w1) (λ w2. followed_by (ensure_dhcp_account w2) (λ w3.
        followed_by (ensure_dhcp_scc w3) (λ w4.
          followed_by (ensure_kube_virt_role w4)
            (λ w5. followed_by (ensure_kube_virt_binding w5) ensure_dhcp_pods)))))

  unfoldable pub update_dhcp_status : ℕ → Ensures
  update_dhcp_status now w =
      let out =
        a.dhcp_servers.update_status (record dhcp { status = ready_dhcp dhcp now })
          w.dhcp_servers in
      (report out.0, record w { dhcp_servers = out.1 })

-- `now` is metav1.Now.
unfoldable pub reconcile_dhcp :
    (a : ClusterApi)
    → Backoff
    → Meanwhile a
    → Bool
    → ℕ
    → NamespacedName
    → ClusterState a
    → Ends RetryError × ClusterState a
unfolding ensure_dhcp_deployment update_dhcp_status
reconcile_dhcp a backoff meanwhile enable_open_shift now request w =
    elim (a.dhcp_servers.get request w.dhcp_servers) [
      | ok dhcp ↦
          followed_by (ensure_dhcp_deployment a backoff meanwhile enable_open_shift dhcp w)
            (update_dhcp_status a backoff meanwhile enable_open_shift dhcp now)
      | err not_found ↦ (ok tt, w)
      | err e ↦ (err (stopped e), w)
    ]
