-- ===== src/DnsController/Ready.antt =====
-- What holds when the reconciliation of a DNSServer has succeeded, and what when it has failed.
use oooi.Prelude.{ℕ, Bool, false, ok, err, ◌≡◌, ◌⊎◌, refl}
use oooi.Api.Meta.{NamespacedName, key_of}
use oooi.Api.Dns.{DnsServer}
use oooi.Api.Pods.{Service}
use oooi.Infra.Cluster.{ApiError}
use oooi.Workloads.Kinds.{ClusterApi, ClusterState}
use oooi.Workloads.Laws.{LawfulCluster}
use oooi.Workloads.Ensure.{followed_by}
use oooi.Workloads.Stored.{followed_by-err, followed_by-keeps}
use oooi.Workloads.Kept.{ConfigKept, BindingKept, AccountThere, DeploymentThere, ServiceThere}
use oooi.DnsController.Corefile.{new_dns_config_map}
use oooi.DnsController.Objects.{new_dns_service_account, new_anyuid_role_binding, new_dns_service}
use oooi.DnsController.Pod.{new_dns_deployment}
use oooi.DnsController.Reconcile.{
  ready_dns, ensure_dns_config_map, ensure_dns_account, ensure_dns_scc, ensure_dns_pods,
  ensure_dns_service, ensure_dns_deployment, update_dns_status, reconcile_dns,
}

module _ (a : ClusterApi) (enable_open_shift : Bool) (dns : DnsServer) where
  servers-kept :
      (w : ClusterState a)
      → (ensure_dns_deployment a enable_open_shift dns w).1.dns_servers ≡ w.dns_servers
  unfolding ensure_dns_deployment ensure_dns_config_map ensure_dns_account ensure_dns_scc
      ensure_dns_pods ensure_dns_service
  servers-kept w =
      let part : ClusterState a → a.dns_servers.Objects = λ v. v.dns_servers in
      followed_by-keeps part w _ _ refl (λ w1. followed_by-keeps part w1 _ _ refl (λ w2.
        followed_by-keeps part w2 _ _ refl (λ w3. followed_by-keeps part w3 _ _ refl (λ w4. refl))))

  reconcile_dns-found :
      (now : ℕ) (request : NamespacedName) (w : ClusterState a)
      → a.dns_servers.get request w.dns_servers ≡ ok dns
      → reconcile_dns a enable_open_shift now request w
        ≡ followed_by
            (ensure_dns_deployment a enable_open_shift dns w)
            (update_dns_status a enable_open_shift dns now)
  unfolding reconcile_dns
  reconcile_dns-found now request w here = rw (here, reconcile_dns) refl

  pub reconcile_dns-failed :
      (now : ℕ) (request : NamespacedName) (w : ClusterState a) (cause : ApiError)
      → a.dns_servers.get request w.dns_servers ≡ ok dns
      → (ensure_dns_deployment a enable_open_shift dns w).0 ≡ err cause
      → let out = reconcile_dns a enable_open_shift now request w in
        (out.0 ≡ err cause) × (out.1.dns_servers ≡ w.dns_servers)
  reconcile_dns-failed now request w cause here failed =
      let update = update_dns_status a enable_open_shift dns now in
      let first = ensure_dns_deployment a enable_open_shift dns w in
      rw (reconcile_dns-found now request w here, followed_by-err first update cause failed)
        (refl, servers-kept w)

module _ (a : ClusterApi) (laws : LawfulCluster a) (enable_open_shift : Bool)
    (dns : DnsServer) where
  abbrev pub DnsParts : ClusterState a → Type 0
  DnsParts w =
      ConfigKept a (new_dns_config_map dns) w.config_maps
      × AccountThere a (new_dns_service_account dns) w.service_accounts
      × ((enable_open_shift ≡ false)
          ⊎ BindingKept a (new_anyuid_role_binding dns (new_dns_service_account dns).metadata.name)
              w.role_bindings)
      × DeploymentThere a (new_dns_deployment dns) w.deployments
      × ServiceThere a (new_dns_service dns) w.services

  -- The status names the Service that is stored, with its address.
  abbrev pub DnsReady : ℕ → NamespacedName → ClusterState a → Type 0
  DnsReady now request w =
      (service : Service) × (a.services.get (key_of dns.metadata) w.services ≡ ok service)
      × (a.dns_servers.get request w.dns_servers
          ≡ ok (record dns { status = ready_dns dns now service }))
