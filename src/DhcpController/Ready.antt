-- ===== src/DhcpController/Ready.antt =====
-- What holds when the reconciliation of a DHCPServer has succeeded, and what when it has failed.
use oooi.Prelude.{ℕ, Bool, ok, err, ◌≡◌, ◌⊎◌, inr, refl}
use oooi.Api.Meta.{NamespacedName}
use oooi.Api.Dhcp.{DhcpServer}
use oooi.Workloads.Kinds.{ClusterApi, ClusterState}
use oooi.Workloads.Laws.{LawfulCluster}
use oooi.Workloads.Ensure.{followed_by}
use oooi.Workloads.Stored.{followed_by-err, followed_by-keeps, followed_by-over, followed_by-after}
use oooi.Retry.Loop.{RetryError, Backoff}
use oooi.Retry.Laws.{LawfulBackoff}
use oooi.DhcpController.Reconcile.{
  Meanwhile, ensure_dhcp_config_map, ensure_dhcp_pvc, ensure_dhcp_account, ensure_dhcp_scc,
  ensure_kube_virt_role, ensure_kube_virt_binding, ensure_dhcp_pods, ensure_dhcp_deployment,
  update_dhcp_status, reconcile_dhcp,
}
use oooi.DhcpController.Steps.{AllStored, Referenced, deployment-Stored, pods-after}

module _ (a : ClusterApi) (backoff : Backoff) (meanwhile : Meanwhile a) (enable_open_shift : Bool)
    (dhcp : DhcpServer) where
  servers-kept :
      (w : ClusterState a)
      → (ensure_dhcp_deployment a backoff meanwhile enable_open_shift dhcp w).1.dhcp_servers
        ≡ w.dhcp_servers
  unfolding ensure_dhcp_deployment ensure_dhcp_config_map ensure_dhcp_pvc ensure_dhcp_account
      ensure_dhcp_scc ensure_kube_virt_role ensure_kube_virt_binding ensure_dhcp_pods
  servers-kept w =
      let part : ClusterState a → a.dhcp_servers.Objects = λ v. v.dhcp_servers in
      followed_by-keeps part w _ _ refl (λ w1. followed_by-keeps part w1 _ _ refl (λ w2.
        followed_by-keeps part w2 _ _ refl (λ w3. followed_by-keeps part w3 _ _ refl (λ w4.
          followed_by-keeps part w4 _ _ refl
            (λ w5. followed_by-keeps part w5 _ _ refl (λ w6. refl))))))

  reconcile_dhcp-found :
      (now : ℕ) (request : NamespacedName) (w : ClusterState a)
      → a.dhcp_servers.get request w.dhcp_servers ≡ ok dhcp
      → reconcile_dhcp a backoff meanwhile enable_open_shift now request w
        ≡ followed_by
            (ensure_dhcp_deployment a backoff meanwhile enable_open_shift dhcp w)
            (update_dhcp_status a backoff meanwhile enable_open_shift dhcp now)
  unfolding reconcile_dhcp
  reconcile_dhcp-found now request w here = rw (here, reconcile_dhcp) refl

  -- If a step of ensureDHCPDeployment fails for a DHCPServer that is there, then the reconciliation
  -- ends with the same error, and the stored DHCPServers, their status with them, are as before.
  pub reconcile_dhcp-failed :
      (now : ℕ) (request : NamespacedName) (w : ClusterState a) (cause : RetryError)
      → a.dhcp_servers.get request w.dhcp_servers ≡ ok dhcp
      → (ensure_dhcp_deployment a backoff meanwhile enable_open_shift dhcp w).0 ≡ err cause
      → let out = reconcile_dhcp a backoff meanwhile enable_open_shift now request w in
        (out.0 ≡ err cause) × (out.1.dhcp_servers ≡ w.dhcp_servers)
  reconcile_dhcp-failed now request w cause here failed =
      let update = update_dhcp_status a backoff meanwhile enable_open_shift dhcp now in
      let first = ensure_dhcp_deployment a backoff meanwhile enable_open_shift dhcp w in
      rw (reconcile_dhcp-found now request w here, followed_by-err first update cause failed)
        (refl, servers-kept w)

module _ (a : ClusterApi) (laws : LawfulCluster a) (backoff : Backoff)
    (lawful : LawfulBackoff backoff) (meanwhile : Meanwhile a) (enable_open_shift : Bool)
    (dhcp : DhcpServer) where
  -- The reconciliation of a DHCPServer that is there, whether it succeeds or fails, writes in
  -- order: either the Deployments are as before or the ConfigMap, the claim, the service account
  -- and its rights are stored, and either the DHCPServers, their status with them, are as before or
  -- these and the Deployment are stored. The API server and the backoff have to be lawful.
  pub reconcile_dhcp-ordered :
      (now : ℕ) (request : NamespacedName) (w : ClusterState a)
      → a.dhcp_servers.get request w.dhcp_servers ≡ ok dhcp
      → let out = reconcile_dhcp a backoff meanwhile enable_open_shift now request w in
        ((out.1.deployments ≡ w.deployments)
          ⊎ Referenced a laws backoff lawful meanwhile enable_open_shift dhcp out.1)
        × ((out.1.dhcp_servers ≡ w.dhcp_servers)
            ⊎ AllStored a laws backoff lawful meanwhile enable_open_shift dhcp out.1)
  unfolding update_dhcp_status
  reconcile_dhcp-ordered now request w here =
      let first = ensure_dhcp_deployment a backoff meanwhile enable_open_shift dhcp w in
      let rest = update_dhcp_status a backoff meanwhile enable_open_shift dhcp now in
      let all = AllStored a laws backoff lawful meanwhile enable_open_shift dhcp in
      let referenced = Referenced a laws backoff lawful meanwhile enable_open_shift dhcp in
      rw (reconcile_dhcp-found a backoff meanwhile enable_open_shift dhcp now request w here) (
        followed_by-over (λ v. (v.deployments ≡ w.deployments) ⊎ referenced v) first rest
            (pods-after a laws backoff lawful meanwhile enable_open_shift dhcp w)
            (λ v holds. holds),
        followed_by-after (λ v. v.dhcp_servers) all w first rest
            (servers-kept a backoff meanwhile enable_open_shift dhcp w)
            (λ k.
              inr (deployment-Stored a laws backoff lawful meanwhile enable_open_shift dhcp w k)),
      )
