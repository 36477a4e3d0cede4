-- ===== src/DnsController/Reconcile.antt =====
-- DNSServerReconciler.Reconcile and ensureDNSDeployment.
use oooi.Prelude.{ℕ, Bool, [], ◌∷◌, concat, ok, err}
use oooi.Api.Meta.{NamespacedName, key_of}
use oooi.Api.Dns.{DnsServer, DnsServerStatus}
use oooi.Api.Pods.{Service}
use oooi.Infra.Cluster.{ApiError, not_found}
use oooi.Workloads.Kinds.{
  ClusterApi, ClusterState, config_map_parts, service_account_parts, binding_parts,
  deployment_parts, service_parts,
}
use oooi.Workloads.Ensure.{
  Ends, followed_by, only_if, ready, ensure_object, copy_config, copy_binding,
}
use oooi.DnsController.Corefile.{new_dns_config_map}
use oooi.DnsController.Objects.{new_dns_service_account, new_anyuid_role_binding, new_dns_service}
use oooi.DnsController.Pod.{new_dns_deployment}

abbrev pub ready_dns : DnsServer → ℕ → Service → DnsServerStatus
ready_dns dns now service = record {
  conditions = ready dns.metadata.generation now "DNS server resources created successfully" ∷ [];
  config_map_name = concat (dns.metadata.name ∷ "-dns-config" ∷ []);
  deployment_name = dns.metadata.name;
  service_name = dns.metadata.name;
  service_cluster_ip = service.spec.address;
  observed_generation = dns.metadata.generation;
}

module _ (a : ClusterApi) (enable_open_shift : Bool) (dns : DnsServer) where
  abbrev Ensures : Type 0
  Ensures = ClusterState a → Ends ApiError × ClusterState a

  unfoldable pub ensure_dns_config_map : Ensures
  unfolding ensure_object
  ensure_dns_config_map w =
      let desired = new_dns_config_map dns in
      let out =
        ensure_object config_map_parts a.set_controller_reference dns.metadata a.config_maps
          (copy_config desired) desired w.config_maps in
      (out.0, record w { config_maps = out.1 })

  unfoldable pub ensure_dns_account : Ensures
  unfolding ensure_object
  ensure_dns_account w =
      let out =
        ensure_object service_account_parts a.set_controller_reference dns.metadata
          a.service_accounts (λ found. found) (new_dns_service_account dns) w.service_accounts in
      (out.0, record w { service_accounts = out.1 })

  unfoldable pub ensure_dns_scc : Ensures
  unfolding ensure_object only_if
  ensure_dns_scc w =
      let account = (new_dns_service_account dns).metadata.name in
      let desired = new_anyuid_role_binding dns account in
      let out =
        only_if enable_open_shift
          (ensure_object binding_parts a.set_controller_reference dns.metadata a.role_bindings
            (copy_binding desired) desired)
          w.role_bindings in
      (out.0, record w { role_bindings = out.1 })

  unfoldable pub ensure_dns_pods : Ensures
  unfolding ensure_object
  ensure_dns_pods w =
      let out =
        ensure_object deployment_parts a.set_controller_reference dns.metadata a.deployments
          (λ found. found) (new_dns_deployment dns) w.deployments in
      (out.0, record w { deployments = out.1 })

  unfoldable pub ensure_dns_service : Ensures
  unfolding ensure_object
  ensure_dns_service w =
      let out =
        ensure_object service_parts a.set_controller_reference dns.metadata a.services
          (λ found. found) (new_dns_service dns) w.services in
      (out.0, record w { services = out.1 })

  unfoldable pub ensure_dns_deployment : Ensures
  unfolding ensure_dns_config_map ensure_dns_account ensure_dns_scc ensure_dns_pods
      ensure_dns_service
  ensure_dns_deployment w = followed_by (ensure_dns_config_map w) (λ w1.
      followed_by (ensure_dns_account w1) (λ w2.
        followed_by (ensure_dns_scc w2)
          (λ w3. followed_by (ensure_dns_pods w3) ensure_dns_service)))

  -- The Service is read again for its address.
  unfoldable pub update_dns_status : ℕ → Ensures
  update_dns_status now w = elim (a.services.get (key_of dns.metadata) w.services) [
    | err e ↦ (err e, w)
    | ok service ↦
        let out =
          a.dns_servers.update_status (record dns { status = ready_dns dns now service })
            w.dns_servers in
        (out.0, record w { dns_servers = out.1 })
  ]

-- `now` is metav1.Now.
unfoldable pub reconcile_dns :
    (a : ClusterApi) → Bool → ℕ → NamespacedName → ClusterState a → Ends ApiError × ClusterState a
unfolding ensure_dns_deployment update_dns_status
reconcile_dns a enable_open_shift now request w = elim (a.dns_servers.get request w.dns_servers) [
  | ok dns ↦
      followed_by (ensure_dns_deployment a enable_open_shift dns w)
        (update_dns_status a enable_open_shift dns now)
  | err not_found ↦ (ok tt, w)
  | err e ↦ (err e, w)
]
