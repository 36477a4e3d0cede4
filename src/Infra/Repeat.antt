-- ===== src/Infra/Repeat.antt =====
-- The status that a run reports, the run after it, and what a run leaves alone.
use oooi.Prelude.{ℕ, ok, ◌≡◌, ◌⊎◌, true, ◌≢◌, refl, ◌∙◌, arith, inl, inr, eq_iff}
use oooi.Api.Meta.{NamespacedName}
use oooi.Api.Infra.{Infra, InfraStatus}
use oooi.Infra.Cluster.{Api, World}
use oooi.Infra.Desired.{
  dhcp_server_for_infra, dns_server_for_infra, proxy_server_for_infra, network_policy_for_infra,
  nad_namespace, client_dns_servers, hosted_cluster_domain, target_namespace,
}
use oooi.Infra.Reconcile.{
  and_then, ensure_owned, reconcile_dhcp_component, reconcile_dns_component,
  reconcile_proxy_component, reconcile_network_policy, ensure_policy, update_infra_status,
  reconcile_infra, reconcile, ready_status,
}
use oooi.Infra.Steps.{LawfulApi, AllSettled, dhcp-again, dns-again}
use oooi.Infra.ProxyStep.{proxy-again}
use oooi.Infra.Runs.{w1, w2, w3, run-cases, found-run, w3-rest}

module _ (a : Api) (laws : LawfulApi a) where
  -- The status plays no part in what the components are.
  same_dhcp :
      (infra : Infra) (s : InfraStatus) (w : World a)
      → reconcile_dhcp_component a (record infra { status = s }) w
        ≡ reconcile_dhcp_component a infra w
  unfolding reconcile_dhcp_component ensure_owned dhcp_server_for_infra nad_namespace
      client_dns_servers
  same_dhcp infra s w = refl

  same_dns :
      (infra : Infra) (s : InfraStatus) (w : World a)
      → reconcile_dns_component a (record infra { status = s }) w
        ≡ reconcile_dns_component a infra w
  unfolding reconcile_dns_component ensure_owned dns_server_for_infra nad_namespace
      hosted_cluster_domain
  same_dns infra s w = refl

  same_proxy :
      (infra : Infra) (s : InfraStatus) (w : World a)
      → reconcile_proxy_component a (record infra { status = s }) w
        ≡ reconcile_proxy_component a infra w
  unfolding reconcile_proxy_component ensure_owned proxy_server_for_infra nad_namespace
      hosted_cluster_domain target_namespace reconcile_network_policy ensure_policy
      network_policy_for_infra
  same_proxy infra s w = refl

  -- After a run that succeeds the stored Infra is the one that was found, with the Ready condition
  -- for its generation and the ready flags of its enabled components set, those set before kept.
  -- The API server has to be lawful.
  pub reconcile-status :
      (now : ℕ) (request : NamespacedName) (infra : Infra) (w : World a)
      → a.infras.get request w.infras ≡ ok infra
      → (reconcile a now request w).0 ≡ ok tt
      → a.infras.get request (reconcile a now request w).1.infras
        ≡ ok (record infra { status = ready_status infra now })
  unfolding update_infra_status
  reconcile-status now request infra w here =
      rw (found-run a laws now request infra w here) (λ good. elim (run-cases a laws now infra w) [
        | inl (e, q) ↦ absurd (ground arith)
        | inr (inl (q, e, r)) ↦ absurd (ground arith)
        | inr (inr (inl (q, r, e, s))) ↦ absurd (ground arith)
        | inr (inr (inr (q, r, s, out))) ↦
            let (_, _, i) = w3-rest a laws infra w in
            rw out (
              laws.status_kept request infra (record infra { status = ready_status infra now })
                (w3 a laws infra w).infras (rw i here) refl (rw out at good))
      ])

  -- A run whose components have nothing to do.
  quiet :
      (later : ℕ) (infra : Infra) (v : World a)
      → reconcile_dhcp_component a infra v ≡ (ok tt, v)
      → reconcile_dns_component a infra v ≡ (ok tt, v)
      → reconcile_proxy_component a infra v ≡ (ok tt, v)
      → reconcile_infra a later infra v ≡ update_infra_status a later infra v
  unfolding reconcile_infra and_then
  quiet later infra v dhcp dns proxy = ground arith

  after-quiet :
      (now : ℕ) (infra : Infra) (w : World a)
      → AllSettled a laws infra
      → (reconcile_infra a now infra w).0 ≡ ok tt
      → let v = (reconcile_infra a now infra w).1 in
        (reconcile_dhcp_component a infra v ≡ (ok tt, v))
        × (reconcile_dns_component a infra v ≡ (ok tt, v))
        × (reconcile_proxy_component a infra v ≡ (ok tt, v))
  unfolding update_infra_status
  after-quiet now infra w settled good =
      let v = (reconcile_infra a now infra w).1 in
      let u = w3 a laws infra w in
      elim (run-cases a laws now infra w) [
        | inl (e, q) ↦ absurd (ground arith)
        | inr (inl (q, e, r)) ↦ absurd (ground arith)
        | inr (inr (inl (q, r, e, s))) ↦ absurd (ground arith)
        | inr (inr (inr (q, r, s, out))) ↦
            let (d, n, _) = w3-rest a laws infra w in
            (
              dhcp-again a laws infra w v settled q (ground arith),
              dns-again a laws infra (w1 a laws infra w) v settled r (ground arith),
              proxy-again a laws infra (w2 a laws infra w) v settled s (ground arith)
                  (ground arith),
            )
      ]

  -- Reconcile is idempotent: the run after one that succeeded only writes the status again, so that
  -- it leaves all DHCPServers, DNSServers, ProxyServers and network policies as they are. The API
  -- server has to be lawful and the desired specs to be left alone by the schema's defaults.
  pub reconcile-again :
      (now later : ℕ) (request : NamespacedName) (infra : Infra) (w : World a)
      → a.infras.get request w.infras ≡ ok infra
      → AllSettled a laws infra
      → (reconcile a now request w).0 ≡ ok tt
      → let v = (reconcile a now request w).1 in
        reconcile a later request v
        ≡ update_infra_status a later (record infra { status = ready_status infra now }) v
  reconcile-again now later request infra w here settled good =
      let s = ready_status infra now in
      let v = (reconcile a now request w).1 in
      let there : a.infras.get request v.infras ≡ ok (record infra { status = s }) =
        reconcile-status now request infra w here good in
      let run = found-run a laws now request infra w here in
      let still : (reconcile_dhcp_component a infra v ≡ (ok tt, v))
          × (reconcile_dns_component a infra v ≡ (ok tt, v))
          × (reconcile_proxy_component a infra v ≡ (ok tt, v)) =
        rw run (after-quiet now infra w settled (rw run at good)) in
      found-run a laws later request (record infra { status = s }) v there
      ∙ quiet later (record infra { status = s }) v (same_dhcp infra s v ∙ still.0)
          (same_dns infra s v ∙ still.1) (same_proxy infra s v ∙ still.2)

  -- Whether a run succeeds or not, it leaves the objects of a component alone that is not enabled,
  -- and the network policies alone if the proxy is not enabled or names no control plane namespace.
  pub reconcile-disabled :
      (now : ℕ) (request : NamespacedName) (infra : Infra) (w : World a)
      → a.infras.get request w.infras ≡ ok infra
      → let v = (reconcile a now request w).1 in
        let parts = infra.spec.infra_components in
        ((parts.dhcp.enabled ≡ true) ⊎ (v.dhcp_servers ≡ w.dhcp_servers))
        × ((parts.dns.enabled ≡ true) ⊎ (v.dns_servers ≡ w.dns_servers))
        × ((parts.proxy.enabled ≡ true)
            ⊎ ((v.proxy_servers ≡ w.proxy_servers) × (v.network_policies ≡ w.network_policies)))
        × ((parts.proxy.control_plane_namespace ≢ "") ⊎ (v.network_policies ≡ w.network_policies))
  unfolding reconcile reconcile_infra and_then reconcile_dhcp_component reconcile_dns_component
      reconcile_proxy_component update_infra_status
  reconcile-disabled now request infra w here =
      ground (arith, eq_iff infra.spec.infra_components.proxy.control_plane_namespace "")
