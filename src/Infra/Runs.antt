-- ===== src/Infra/Runs.antt =====
-- Whole runs of Reconcile.
use oooi.Prelude.{ℕ, ok, err, ◌≡◌, ap, ◌∙◌, arith, inl, inr, ◌⊎◌, Outcome-cases}
use oooi.Api.Meta.{NamespacedName}
use oooi.Api.Infra.{Infra}
use oooi.Infra.Cluster.{ApiError, Api, World}
use oooi.Infra.Reconcile.{
  and_then, reconcile_dhcp_component, reconcile_dns_component, reconcile_proxy_component,
  update_infra_status, reconcile_infra, reconcile,
}
use oooi.Infra.Steps.{
  LawfulApi, DhcpDone, DnsDone, ProxyDone, PolicyDone, AllSettled, dhcp-frame, dns-frame, dhcp-done,
  dns-done,
}
use oooi.Infra.ProxyStep.{proxy-frame, proxy-done}

module _ (a : Api) (laws : LawfulApi a) where
  -- The states that a run goes through, one after each component.
  abbrev pub w1 : Infra → World a → World a
  w1 infra w = (reconcile_dhcp_component a infra w).1

  abbrev pub w2 : Infra → World a → World a
  w2 infra w = (reconcile_dns_component a infra (w1 infra w)).1

  abbrev pub w3 : Infra → World a → World a
  w3 infra w = (reconcile_proxy_component a infra (w2 infra w)).1

  -- Where a run stops.
  pub run-cases :
      (now : ℕ) (infra : Infra) (w : World a)
      → let out = reconcile_infra a now infra w in
        ((e : ApiError) × (out ≡ (err e, w1 infra w)))
        ⊎ (((reconcile_dhcp_component a infra w).0 ≡ ok tt)
            × (e : ApiError) × (out ≡ (err e, w2 infra w)))
        ⊎ (((reconcile_dhcp_component a infra w).0 ≡ ok tt)
            × ((reconcile_dns_component a infra (w1 infra w)).0 ≡ ok tt)
            × (e : ApiError) × (out ≡ (err e, w3 infra w)))
        ⊎ (((reconcile_dhcp_component a infra w).0 ≡ ok tt)
            × ((reconcile_dns_component a infra (w1 infra w)).0 ≡ ok tt)
            × ((reconcile_proxy_component a infra (w2 infra w)).0 ≡ ok tt)
            × (out ≡ update_infra_status a now infra (w3 infra w)))
  unfolding reconcile_infra and_then
  run-cases now infra w = elim (Outcome-cases (reconcile_dhcp_component a infra w).0) [
    | inl (e, q) ↦ inl (e, ground arith)
    | inr (_, q) ↦ elim (Outcome-cases (reconcile_dns_component a infra (w1 infra w)).0) [
      | inl (e, r) ↦ inr (inl (q, e, ground arith))
      | inr (_, r) ↦ elim (Outcome-cases (reconcile_proxy_component a infra (w2 infra w)).0) [
        | inl (e, s) ↦ inr (inr (inl (q, r, e, ground arith)))
        | inr (_, s) ↦ inr (inr (inr (q, r, s, ground arith)))
      ]
    ]
  ]

  pub found-run :
      (now : ℕ) (request : NamespacedName) (infra : Infra) (w : World a)
      → a.infras.get request w.infras ≡ ok infra
      → reconcile a now request w ≡ reconcile_infra a now infra w
  unfolding reconcile
  found-run now request infra w here = ground arith

  pub w1-rest :
      (infra : Infra) (w : World a)
      → ((w1 infra w).dns_servers ≡ w.dns_servers)
        × ((w1 infra w).proxy_servers ≡ w.proxy_servers)
        × ((w1 infra w).network_policies ≡ w.network_policies)
        × ((w1 infra w).infras ≡ w.infras)
  w1-rest infra w =
      let f = dhcp-frame a laws infra w in
      (
        ap (λ (v : World a). v.dns_servers) f,
        ap (λ (v : World a). v.proxy_servers) f,
        ap (λ (v : World a). v.network_policies) f,
        ap (λ (v : World a). v.infras) f,
      )

  pub w2-rest :
      (infra : Infra) (w : World a)
      → ((w2 infra w).dhcp_servers ≡ (w1 infra w).dhcp_servers)
        × ((w2 infra w).proxy_servers ≡ w.proxy_servers)
        × ((w2 infra w).network_policies ≡ w.network_policies)
        × ((w2 infra w).infras ≡ w.infras)
  w2-rest infra w =
      let f = dns-frame a laws infra (w1 infra w) in
      let (_, p, n, i) = w1-rest infra w in
      (
        ap (λ (v : World a). v.dhcp_servers) f,
        ap (λ (v : World a). v.proxy_servers) f ∙ p,
        ap (λ (v : World a). v.network_policies) f ∙ n,
        ap (λ (v : World a). v.infras) f ∙ i,
      )

  pub w3-rest :
      (infra : Infra) (w : World a)
      → ((w3 infra w).dhcp_servers ≡ (w1 infra w).dhcp_servers)
        × ((w3 infra w).dns_servers ≡ (w2 infra w).dns_servers)
        × ((w3 infra w).infras ≡ w.infras)
  w3-rest infra w =
      let f = proxy-frame a laws infra (w2 infra w) in
      let (d, _, _, i) = w2-rest infra w in
      (
        ap (λ (v : World a). v.dhcp_servers) f ∙ d,
        ap (λ (v : World a). v.dns_servers) f,
        ap (λ (v : World a). v.infras) f ∙ i,
      )

  abbrev pub Converged : Infra → World a → Type 0
  Converged infra w =
      DhcpDone a laws infra w
      × DnsDone a laws infra w
      × ProxyDone a laws infra w
      × PolicyDone a laws infra w

  w3-Converged :
      (infra : Infra) (w : World a)
      → AllSettled a laws infra
      → (reconcile_dhcp_component a infra w).0 ≡ ok tt
      → (reconcile_dns_component a infra (w1 infra w)).0 ≡ ok tt
      → (reconcile_proxy_component a infra (w2 infra w)).0 ≡ ok tt
      → Converged infra (w3 infra w)
  w3-Converged infra w settled q r s =
      let dhcp = dhcp-done a laws infra w settled q in
      let dns = dns-done a laws infra (w1 infra w) settled r in
      let (proxy, policy) = proxy-done a laws infra (w2 infra w) settled s in
      let (one, two, _) = w3-rest infra w in ((rw one dhcp), (rw two dns), proxy, policy)

  -- A run of Reconcile that finds the Infra and succeeds leaves, for each component that is
  -- enabled, an object with exactly the spec that the Infra asks for, and the network policy if the
  -- proxy is enabled and has a control plane namespace. The API server has to be lawful and the
  -- schema's defaults to leave the desired specs alone.
  pub reconcile-Converged :
      (now : ℕ) (request : NamespacedName) (infra : Infra) (w : World a)
      → a.infras.get request w.infras ≡ ok infra
      → AllSettled a laws infra
      → (reconcile a now request w).0 ≡ ok tt
      → Converged infra (reconcile a now request w).1
  unfolding update_infra_status
  reconcile-Converged now request infra w here settled =
      rw (found-run now request infra w here) (λ good. elim (run-cases now infra w) [
        | inl (e, q) ↦ absurd (ground arith)
        | inr (inl (q, e, r)) ↦ absurd (ground arith)
        | inr (inr (inl (q, r, e, s))) ↦ absurd (ground arith)
        | inr (inr (inr (q, r, s, out))) ↦ rw out (w3-Converged infra w settled q r s)
      ])

  -- If the Infra is found, then whether a run succeeds or stops at an error, a component is touched
  -- only after those before it are as desired: either the DHCP server is, or nothing behind it has
  -- changed; either both the DHCP and the DNS server are, or neither the proxy, the policies nor
  -- the status have changed; and the status changes only after all of them. The API server has to
  -- be lawful and the desired specs to be left alone by the schema's defaults.
  pub reconcile-ordered :
      (now : ℕ) (request : NamespacedName) (infra : Infra) (w : World a)
      → a.infras.get request w.infras ≡ ok infra
      → AllSettled a laws infra
      → let v = (reconcile a now request w).1 in
        (DhcpDone a laws infra v
          ⊎ ((v.dns_servers ≡ w.dns_servers)
              × (v.proxy_servers ≡ w.proxy_servers)
              × (v.network_policies ≡ w.network_policies)
              × (v.infras ≡ w.infras)))
        × ((DhcpDone a laws infra v × DnsDone a laws infra v)
            ⊎ ((v.proxy_servers ≡ w.proxy_servers)
                × (v.network_policies ≡ w.network_policies)
                × (v.infras ≡ w.infras)))
        × (Converged infra v ⊎ (v.infras ≡ w.infras))
  unfolding update_infra_status
  reconcile-ordered now request infra w here settled =
      rw (found-run now request infra w here) (elim (run-cases now infra w) [
        | inl (e, q) ↦
            let (d, p, n, i) = w1-rest infra w in rw q (inr (d, p, n, i), inr (p, n, i), inr i)
        | inr (inl (q, e, r)) ↦
            let (d, p, n, i) = w2-rest infra w in
            let dhcp = dhcp-done a laws infra w settled q in
            rw r (inl (rw d dhcp), inr (p, n, i), inr i)
        | inr (inr (inl (q, r, e, s))) ↦
            let (d, n, i) = w3-rest infra w in
            let dhcp = dhcp-done a laws infra w settled q in
            let dns = dns-done a laws infra (w1 infra w) settled r in
            rw s (inl (rw d dhcp), inl ((rw d dhcp), (rw n dns)), inr i)
        | inr (inr (inr (q, r, s, out))) ↦ rw out (
            let all = w3-Converged infra w settled q r s in
            (inl all.0, inl (all.0, all.1), inl all))
      ])
