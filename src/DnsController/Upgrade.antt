-- ===== src/DnsController/Upgrade.antt =====
-- What the reconciliation does with a Deployment that is there already.
use oooi.Prelude.{Bool, ok, ◌≡◌}
use oooi.Api.Meta.{key_of}
use oooi.Api.Dns.{DnsServer}
use oooi.Api.Pods.{Deployment}
use oooi.Workloads.Kinds.{ClusterApi, ClusterState, deployment_parts}
use oooi.Workloads.Laws.{LawfulCluster}
use oooi.Workloads.Stale.{ensure_object-Kept}
use oooi.DnsController.Pod.{new_dns_deployment}
use oooi.DnsController.Reconcile.{ensure_dns_pods}

module _ (a : ClusterApi) (laws : LawfulCluster a) (enable_open_shift : Bool) (dns : DnsServer)
    (w : ClusterState a) where
  -- If a Deployment is stored under the name of a DNSServer and the step that ensures the
  -- Deployment succeeds, then the stored one has the spec that it had, behind the schema's
  -- defaults, whatever the spec of the DNSServer asks for. The API server has to be lawful.
  pub ensure_dns_pods-stale :
      (found : Deployment)
      → a.deployments.get (key_of (new_dns_deployment dns).metadata) w.deployments ≡ ok found
      → let out = ensure_dns_pods a enable_open_shift dns w in
        out.0 ≡ ok tt
        → (o : Deployment) × (a.deployments.get
              (key_of (new_dns_deployment dns).metadata)
              out.1.deployments
            ≡ ok o)
          × (o.spec ≡ laws.deployments.defaulted found.spec)
  unfolding ensure_dns_pods
  ensure_dns_pods-stale found =
      ensure_object-Kept deployment_parts a.deployments laws.deployments a.set_controller_reference
        laws.keeps dns.metadata (new_dns_deployment dns) found w.deployments
