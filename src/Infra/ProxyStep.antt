-- ===== src/Infra/ProxyStep.antt =====
-- The step of the proxy and its network policy.
use oooi.Prelude.{true, false, ok, err, ◌≡◌, ◌≢◌, arith, inl, inr, ◌⊎◌, Outcome-cases, eq_iff}
use oooi.Api.Meta.{key_of}
use oooi.Api.Infra.{Infra}
use oooi.Api.Network.{NetworkPolicy}
use oooi.Infra.Cluster.{ApiError, not_found, already_exists, conflict, refused, Api, World}
use oooi.Infra.Specs.{proxy_shape}
use oooi.Infra.Desired.{proxy_server_for_infra, network_policy_for_infra}
use oooi.Infra.Reconcile.{
  Result, ensure_owned, and_then, ensure_policy, reconcile_network_policy,
  reconcile_proxy_component,
}
use oooi.Infra.Converge.{ensure_owned-Stored, ensure_owned-again}
use oooi.Infra.Steps.{LawfulApi, ProxyDone, PolicyDone, AllSettled}

module _ (a : Api) (laws : LawfulApi a) (infra : Infra) where
  abbrev Found : a.network_policies.Objects → Type 0
  Found os =
      (p : NetworkPolicy) × (a.network_policies.get
          (key_of (network_policy_for_infra infra).metadata) os
        ≡ ok p)

  policy-Found :
      (os : a.network_policies.Objects)
      → (ensure_policy a infra os).0 ≡ ok tt
      → Found (ensure_policy a infra os).1
  unfolding ensure_policy
  policy-Found os good =
      elim (Outcome-cases
        (a.network_policies.get (key_of (network_policy_for_infra infra).metadata) os)) [
          | inr (p, q) ↦ (p, ground arith)
          | inl (not_found, q) ↦
              let (p, e) = laws.policy_created (network_policy_for_infra infra) os (ground arith) in
              (p, ground arith)
          | inl (already_exists, q) ↦ absurd (ground arith)
          | inl (conflict, q) ↦ absurd (ground arith)
          | inl (refused, q) ↦ absurd (ground arith)
        ]

  policy-again :
      (os : a.network_policies.Objects)
      → (ensure_policy a infra os).0 ≡ ok tt
      → ensure_policy a infra (ensure_policy a infra os).1 ≡ (ok tt, (ensure_policy a infra os).1)
  unfolding ensure_policy
  policy-again os good = let (p, q) = policy-Found os good in ground arith

  abbrev stored : World a → Result × a.proxy_servers.Objects
  stored w =
      ensure_owned a proxy_shape a.proxy_servers infra (proxy_server_for_infra infra)
        w.proxy_servers

  -- The four ways that the step goes.
  proxy-cases :
      (w : World a)
      → let out = reconcile_proxy_component a infra w in
        let parts = infra.spec.infra_components in
        let v : World a = record w { proxy_servers = (stored w).1 } in
        ((parts.proxy.enabled ≡ false) × (out ≡ (ok tt, w)))
        ⊎ ((parts.proxy.enabled ≡ true)
            × (e : ApiError) × ((stored w).0 ≡ err e)
            × (out ≡ (err e, v)))
        ⊎ ((parts.proxy.enabled ≡ true)
            × ((stored w).0 ≡ ok tt)
            × (parts.proxy.control_plane_namespace ≡ "")
            × (out ≡ (ok tt, v)))
        ⊎ ((parts.proxy.enabled ≡ true)
            × ((stored w).0 ≡ ok tt)
            × (parts.proxy.control_plane_namespace ≢ "")
            × (out ≡ (
              (ensure_policy a infra w.network_policies).0,
              record v { network_policies = (ensure_policy a infra w.network_policies).1 },
            )))
  unfolding reconcile_proxy_component and_then reconcile_network_policy
  proxy-cases w =
      ground (arith, eq_iff infra.spec.infra_components.proxy.control_plane_namespace "")

  pub proxy-frame :
      (w : World a)
      → let v = (reconcile_proxy_component a infra w).1 in
        v ≡ record w { proxy_servers = v.proxy_servers; network_policies = v.network_policies }
  proxy-frame w = ground (arith, proxy-cases w)

  pub proxy-done :
      (w : World a)
      → AllSettled a laws infra
      → (reconcile_proxy_component a infra w).0 ≡ ok tt
      → ProxyDone a laws infra (reconcile_proxy_component a infra w).1
        × PolicyDone a laws infra (reconcile_proxy_component a infra w).1
  proxy-done w settled good =
      let kept =
        ensure_owned-Stored proxy_shape a.proxy_servers laws.proxy a laws.keeps infra
          (proxy_server_for_infra infra) w.proxy_servers settled.2 in
      elim (proxy-cases w) [
        | inl (off, e) ↦ (inl off, inl off)
        | inr (inl (on, x, bad, e)) ↦ absurd (ground arith)
        | inr (inr (inl (on, fine, unset, e))) ↦ rw e (inr (kept fine), inr (inl unset))
        | inr (inr (inr (on, fine, set, e))) ↦
            rw e (inr (kept fine), inr (inr (policy-Found w.network_policies (rw e at good))))
      ]

  pub proxy-again :
      (w v : World a)
      → AllSettled a laws infra
      → (reconcile_proxy_component a infra w).0 ≡ ok tt
      → v.proxy_servers ≡ (reconcile_proxy_component a infra w).1.proxy_servers
      → v.network_policies ≡ (reconcile_proxy_component a infra w).1.network_policies
      → reconcile_proxy_component a infra v ≡ (ok tt, v)
  proxy-again w v settled good same same' =
      let again =
        ensure_owned-again proxy_shape a.proxy_servers laws.proxy a laws.keeps infra
          (proxy_server_for_infra infra) w.proxy_servers settled.2 in
      ground (arith, proxy-cases w, proxy-cases v, policy-again w.network_policies)
