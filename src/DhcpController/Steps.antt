-- ===== src/DhcpController/Steps.antt =====
-- What each step of ensureDHCPDeployment has stored when it succeeds, and all of them.
use oooi.Prelude.{Bool, false, List, ok, ◌≡◌, ◌⊎◌, inr, refl}
use oooi.Api.Meta.{key_of}
use oooi.Api.Dhcp.{DhcpServer}
use oooi.Api.Rbac.{RoleRef, Subject}
use oooi.Workloads.Kinds.{
  ClusterApi, ClusterState, config_map_parts, claim_parts, service_account_parts, role_parts,
  binding_parts, deployment_parts,
}
use oooi.Workloads.Laws.{LawfulCluster, whole-keeps}
use oooi.Workloads.Ensure.{
  copy_config, copy_binding, copy_role, copy_labelled_binding, ensure_retrying,
}
use oooi.Workloads.Stored.{
  Holds, followed_by-elim, followed_by-after, only_if-Holds, ensure_retrying-Holds,
  ensure_unowned-Holds,
}
use oooi.Retry.Loop.{Backoff}
use oooi.Retry.Laws.{LawfulBackoff}
use oooi.DhcpController.Config.{new_dhcp_config_map}
use oooi.DhcpController.Objects.{
  new_dhcp_pvc, new_dhcp_service_account, new_kube_virt_cluster_role,
  new_kube_virt_cluster_role_binding, new_scc_role_binding,
}
use oooi.DhcpController.Pod.{new_dhcp_deployment}
use oooi.DhcpController.Reconcile.{
  Meanwhile, ensure_dhcp_config_map, ensure_dhcp_pvc, ensure_dhcp_account, account_name,
  ensure_dhcp_scc, ensure_kube_virt_role, ensure_kube_virt_binding, ensure_dhcp_pods,
  ensure_dhcp_deployment,
}

module _ (a : ClusterApi) (laws : LawfulCluster a) (backoff : Backoff)
    (lawful : LawfulBackoff backoff) (meanwhile : Meanwhile a) (enable_open_shift : Bool)
    (dhcp : DhcpServer) where
  abbrev pub ConfigStored : ClusterState a → Type 0
  ConfigStored w =
      Holds config_map_parts a.config_maps (λ c. c ≡ (new_dhcp_config_map dhcp).entries)
        (key_of (new_dhcp_config_map dhcp).metadata) w.config_maps

  abbrev pub ClaimStored : ClusterState a → Type 0
  ClaimStored w =
      Holds claim_parts a.claims (λ c. Unit {0}) (key_of (new_dhcp_pvc dhcp).metadata) w.claims

  abbrev pub AccountStored : ClusterState a → Type 0
  AccountStored w =
      Holds service_account_parts a.service_accounts (λ c. Unit {0})
        (key_of (new_dhcp_service_account dhcp).metadata) w.service_accounts

  abbrev pub SccStored : ClusterState a → Type 0
  SccStored w =
      let desired = new_scc_role_binding dhcp (new_dhcp_service_account dhcp).metadata.name in
      (enable_open_shift ≡ false)
      ⊎ Holds binding_parts a.role_bindings (λ c. c ≡ (desired.role_ref, desired.subjects))
          (key_of desired.metadata) w.role_bindings

  abbrev pub ReaderStored : ClusterState a → Type 0
  ReaderStored w =
      let account = (new_dhcp_service_account dhcp).metadata.name in
      let bound = new_kube_virt_cluster_role_binding dhcp account in
      Holds role_parts a.cluster_roles (λ c. c ≡ (new_kube_virt_cluster_role dhcp).rules)
        (key_of (new_kube_virt_cluster_role dhcp).metadata) w.cluster_roles
      × Holds binding_parts a.cluster_role_bindings (λ c. c ≡ (bound.role_ref, bound.subjects))
          (key_of bound.metadata) w.cluster_role_bindings

  abbrev pub PodsStored : ClusterState a → Type 0
  PodsStored w =
      Holds deployment_parts a.deployments (λ c. Unit {0})
        (key_of (new_dhcp_deployment dhcp).metadata) w.deployments

  abbrev pub AllStored : ClusterState a → Type 0
  AllStored w =
      ConfigStored w × ClaimStored w × AccountStored w × SccStored w × ReaderStored w × PodsStored w

  config_map-Stored :
      (w : ClusterState a)
      → (ensure_dhcp_config_map a backoff meanwhile enable_open_shift dhcp w).0 ≡ ok tt
      → ConfigStored (ensure_dhcp_config_map a backoff meanwhile enable_open_shift dhcp w).1
  unfolding ensure_dhcp_config_map
  config_map-Stored w won =
      let desired = new_dhcp_config_map dhcp in
      ensure_retrying-Holds config_map_parts a.config_maps laws.config_maps
        (λ c. c ≡ desired.entries)
        (whole-keeps config_map_parts a.config_maps laws.config_maps laws.config_maps_whole
          desired.entries)
        (copy_config desired) desired refl (λ o. (refl, refl)) a.set_controller_reference laws.keeps
        dhcp.metadata backoff meanwhile.config_maps w.config_maps lawful won

  claim-Stored :
      (w : ClusterState a)
      → (ensure_dhcp_pvc a backoff meanwhile enable_open_shift dhcp w).0 ≡ ok tt
      → ClaimStored (ensure_dhcp_pvc a backoff meanwhile enable_open_shift dhcp w).1
  unfolding ensure_dhcp_pvc
  claim-Stored w won =
      ensure_retrying-Holds claim_parts a.claims laws.claims (λ c. Unit) (λ c h. tt)
        (λ found. found) (new_dhcp_pvc dhcp) tt (λ o. (refl, tt)) a.set_controller_reference
        laws.keeps dhcp.metadata backoff meanwhile.claims w.claims lawful won

  account-Stored :
      (w : ClusterState a)
      → (ensure_dhcp_account a backoff meanwhile enable_open_shift dhcp w).0 ≡ ok tt
      → AccountStored (ensure_dhcp_account a backoff meanwhile enable_open_shift dhcp w).1
  unfolding ensure_dhcp_account
  account-Stored w won =
      ensure_retrying-Holds service_account_parts a.service_accounts laws.service_accounts
        (λ c. Unit) (λ c h. tt) (λ found. found) (new_dhcp_service_account dhcp) tt
        (λ o. (refl, tt)) a.set_controller_reference laws.keeps dhcp.metadata backoff
        meanwhile.service_accounts w.service_accounts lawful won

  scc-Stored :
      (w : ClusterState a)
      → (ensure_dhcp_scc a backoff meanwhile enable_open_shift dhcp w).0 ≡ ok tt
      → SccStored (ensure_dhcp_scc a backoff meanwhile enable_open_shift dhcp w).1
  unfolding ensure_dhcp_scc account_name
  scc-Stored w won =
      let desired = new_scc_role_binding dhcp (new_dhcp_service_account dhcp).metadata.name in
      let wanted : RoleRef × List Subject = (desired.role_ref, desired.subjects) in
      only_if-Holds enable_open_shift
        (ensure_retrying binding_parts a.set_controller_reference dhcp.metadata a.role_bindings
          (copy_binding desired) desired backoff meanwhile.role_bindings)
        w.role_bindings
        (Holds binding_parts a.role_bindings (λ c. c ≡ wanted) (key_of desired.metadata)) won
        (ensure_retrying-Holds binding_parts a.role_bindings laws.role_bindings (λ c. c ≡ wanted)
          (whole-keeps binding_parts a.role_bindings laws.role_bindings laws.role_bindings_whole
            wanted)
          (copy_binding desired) desired refl (λ o. (refl, refl)) a.set_controller_reference
          laws.keeps dhcp.metadata backoff meanwhile.role_bindings w.role_bindings lawful)

  role-Stored :
      (w : ClusterState a)
      → (ensure_kube_virt_role a backoff meanwhile enable_open_shift dhcp w).0 ≡ ok tt
      → Holds role_parts a.cluster_roles
          (λ c. c ≡ (new_kube_virt_cluster_role dhcp).rules)
          (key_of (new_kube_virt_cluster_role dhcp).metadata)
          (ensure_kube_virt_role a backoff meanwhile enable_open_shift dhcp w).1.cluster_roles
  unfolding ensure_kube_virt_role
  role-Stored w won =
      let desired = new_kube_virt_cluster_role dhcp in
      ensure_unowned-Holds role_parts a.cluster_roles laws.cluster_roles (λ c. c ≡ desired.rules)
        (whole-keeps role_parts a.cluster_roles laws.cluster_roles laws.cluster_roles_whole
          desired.rules)
        (copy_role desired) desired refl (λ o. (refl, refl)) backoff meanwhile.cluster_roles
        w.cluster_roles lawful won

  binding-Stored :
      (w : ClusterState a)
      → (ensure_kube_virt_binding a backoff meanwhile enable_open_shift dhcp w).0 ≡ ok tt
      → let account = (new_dhcp_service_account dhcp).metadata.name in
        let bound = new_kube_virt_cluster_role_binding dhcp account in
        Holds binding_parts a.cluster_role_bindings
          (λ c. c ≡ (bound.role_ref, bound.subjects))
          (key_of bound.metadata)
          (ensure_kube_virt_binding a backoff meanwhile enable_open_shift dhcp
            w).1.cluster_role_bindings
  unfolding ensure_kube_virt_binding account_name
  binding-Stored w won =
      let account = (new_dhcp_service_account dhcp).metadata.name in
      let desired = new_kube_virt_cluster_role_binding dhcp account in
      let wanted : RoleRef × List Subject = (desired.role_ref, desired.subjects) in
      ensure_unowned-Holds binding_parts a.cluster_role_bindings laws.cluster_role_bindings
        (λ c. c ≡ wanted)
        (whole-keeps binding_parts a.cluster_role_bindings laws.cluster_role_bindings
          laws.cluster_role_bindings_whole wanted)
        (copy_labelled_binding desired) desired refl (λ o. (refl, refl)) backoff
        meanwhile.cluster_role_bindings w.cluster_role_bindings lawful won

  pods-Stored :
      (w : ClusterState a)
      → (ensure_dhcp_pods a backoff meanwhile enable_open_shift dhcp w).0 ≡ ok tt
      → PodsStored (ensure_dhcp_pods a backoff meanwhile enable_open_shift dhcp w).1
  unfolding ensure_dhcp_pods
  pods-Stored w won =
      ensure_retrying-Holds deployment_parts a.deployments laws.deployments (λ c. Unit) (λ c h. tt)
        (λ found. found) (new_dhcp_deployment dhcp) tt (λ o. (refl, tt)) a.set_controller_reference
        laws.keeps dhcp.metadata backoff meanwhile.deployments w.deployments lawful won

  pub deployment-Stored :
      (w : ClusterState a)
      → (ensure_dhcp_deployment a backoff meanwhile enable_open_shift dhcp w).0 ≡ ok tt
      → AllStored (ensure_dhcp_deployment a backoff meanwhile enable_open_shift dhcp w).1
  unfolding ensure_dhcp_deployment ensure_dhcp_config_map ensure_dhcp_pvc ensure_dhcp_account
      ensure_dhcp_scc ensure_kube_virt_role ensure_kube_virt_binding ensure_dhcp_pods
  deployment-Stored w won =
      let w1 = (ensure_dhcp_config_map a backoff meanwhile enable_open_shift dhcp w).1 in
      let w2 = (ensure_dhcp_pvc a backoff meanwhile enable_open_shift dhcp w1).1 in
      let w3 = (ensure_dhcp_account a backoff meanwhile enable_open_shift dhcp w2).1 in
      let w4 = (ensure_dhcp_scc a backoff meanwhile enable_open_shift dhcp w3).1 in
      let w5 = (ensure_kube_virt_role a backoff meanwhile enable_open_shift dhcp w4).1 in
      let w6 = (ensure_kube_virt_binding a backoff meanwhile enable_open_shift dhcp w5).1 in
      followed_by-elim AllStored _ _ won (λ k1 won1. followed_by-elim AllStored _ _ won1 (λ k2 won2.
        followed_by-elim AllStored _ _ won2 (λ k3 won3.
          followed_by-elim AllStored _ _ won3 (λ k4 won4.
            followed_by-elim AllStored _ _ won4 (λ k5 won5.
              followed_by-elim AllStored _ _ won5 (λ k6 k7. (
                config_map-Stored w k1,
                claim-Stored w1 k2,
                account-Stored w2 k3,
                scc-Stored w3 k4,
                (role-Stored w4 k5, binding-Stored w5 k6),
                pods-Stored w6 k7,
              )))))))

  -- All that the pods refer to.
  abbrev pub Referenced : ClusterState a → Type 0
  Referenced w = ConfigStored w × ClaimStored w × AccountStored w × SccStored w × ReaderStored w

  pub pods-after :
      (w : ClusterState a)
      → let out = ensure_dhcp_deployment a backoff meanwhile enable_open_shift dhcp w in
        (out.1.deployments ≡ w.deployments) ⊎ Referenced out.1
  unfolding ensure_dhcp_deployment ensure_dhcp_config_map ensure_dhcp_pvc ensure_dhcp_account
      ensure_dhcp_scc ensure_kube_virt_role ensure_kube_virt_binding ensure_dhcp_pods
  pods-after w =
      let part : ClusterState a → a.deployments.Objects = λ v. v.deployments in
      let w1 = (ensure_dhcp_config_map a backoff meanwhile enable_open_shift dhcp w).1 in
      let w2 = (ensure_dhcp_pvc a backoff meanwhile enable_open_shift dhcp w1).1 in
      let w3 = (ensure_dhcp_account a backoff meanwhile enable_open_shift dhcp w2).1 in
      let w4 = (ensure_dhcp_scc a backoff meanwhile enable_open_shift dhcp w3).1 in
      let w5 = (ensure_kube_virt_role a backoff meanwhile enable_open_shift dhcp w4).1 in
      followed_by-after part Referenced w _ _ refl (λ k1.
        followed_by-after part Referenced w1 _ _ refl (λ k2.
          followed_by-after part Referenced w2 _ _ refl (λ k3.
            followed_by-after part Referenced w3 _ _ refl (λ k4.
              followed_by-after part Referenced w4 _ _ refl (λ k5.
                followed_by-after part Referenced w5 _ _ refl (λ k6. inr (
                  config_map-Stored w k1,
                  claim-Stored w1 k2,
                  account-Stored w2 k3,
                  scc-Stored w3 k4,
                  (role-Stored w4 k5, binding-Stored w5 k6),
                )))))))
