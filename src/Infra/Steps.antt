-- ===== src/Infra/Steps.antt =====
-- The steps of a reconciliation, each on its own: what a step changes, and what holds after it.
use oooi.Prelude.{true, ok, ◌≡◌, ◌⊎◌, true, false, arith, inl, inr, Bool-cases}
use oooi.Api.Meta.{NamespacedName, ObjectMeta, key_of}
use oooi.Api.Infra.{Infra}
use oooi.Api.Network.{NetworkPolicy}
use oooi.Infra.Cluster.{Api, World, LawfulKind}
use oooi.Infra.Specs.{dhcp_shape, dns_shape, proxy_shape}
use oooi.Infra.Desired.{
  dhcp_server_for_infra, dns_server_for_infra, proxy_server_for_infra, network_policy_for_infra,
}
use oooi.Infra.Reconcile.{ensure_owned, reconcile_dhcp_component, reconcile_dns_component}
use oooi.Infra.Converge.{Stored, Settled, ensure_owned-Stored, ensure_owned-again}

-- The API server of the Infra controller: it keeps what it takes, a controller reference changes
-- neither the name nor the namespace, and a status update leaves the rest of an Infra alone.
pub record LawfulApi (a : Api) : Type 0 where
  pub dhcp : LawfulKind dhcp_shape.meta_of dhcp_shape.spec_of a.dhcp_servers
  pub dns : LawfulKind dns_shape.meta_of dns_shape.spec_of a.dns_servers
  pub proxy : LawfulKind proxy_shape.meta_of proxy_shape.spec_of a.proxy_servers
  pub keeps :
      (owner m m' : ObjectMeta) → a.set_controller_reference owner m ≡ ok m' → key_of m' ≡ key_of m
  pub policy_created :
      (p : NetworkPolicy) (os : a.network_policies.Objects)
      → (a.network_policies.create p os).0 ≡ ok tt
      → (p' : NetworkPolicy) × (a.network_policies.get
            (key_of p.metadata)
            (a.network_policies.create p os).1
          ≡ ok p')
  pub status_kept :
      (request : NamespacedName) (i j : Infra) (os : a.infras.Objects)
      → a.infras.get request os ≡ ok i
      → j.metadata ≡ i.metadata
      → (a.infras.update_status j os).0 ≡ ok tt
      → a.infras.get request (a.infras.update_status j os).1 ≡ ok (record i { status = j.status })

module _ (a : Api) (laws : LawfulApi a) (infra : Infra) where
  abbrev pub DhcpDone : World a → Type 0
  DhcpDone w =
      (infra.spec.infra_components.dhcp.enabled ≡ false)
      ⊎ Stored dhcp_shape a.dhcp_servers laws.dhcp (dhcp_server_for_infra infra) w.dhcp_servers

  abbrev pub DnsDone : World a → Type 0
  DnsDone w =
      (infra.spec.infra_components.dns.enabled ≡ false)
      ⊎ Stored dns_shape a.dns_servers laws.dns (dns_server_for_infra infra) w.dns_servers

  abbrev pub ProxyDone : World a → Type 0
  ProxyDone w =
      (infra.spec.infra_components.proxy.enabled ≡ false)
      ⊎ Stored proxy_shape a.proxy_servers laws.proxy (proxy_server_for_infra infra) w.proxy_servers

  abbrev pub PolicyDone : World a → Type 0
  PolicyDone w =
      (infra.spec.infra_components.proxy.enabled ≡ false)
      ⊎ (infra.spec.infra_components.proxy.control_plane_namespace ≡ "")
      ⊎ ((p : NetworkPolicy) × (a.network_policies.get
              (key_of (network_policy_for_infra infra).metadata) w.network_policies
            ≡ ok p))

  -- The schema's defaults are in the desired specs already.
  abbrev pub AllSettled : Type 0
  AllSettled =
      Settled dhcp_shape a.dhcp_servers laws.dhcp (dhcp_server_for_infra infra)
      × Settled dns_shape a.dns_servers laws.dns (dns_server_for_infra infra)
      × Settled proxy_shape a.proxy_servers laws.proxy (proxy_server_for_infra infra)

  -- What a step leaves alone.
  pub dhcp-frame :
      (w : World a)
      → (reconcile_dhcp_component a infra w).1
        ≡ record w { dhcp_servers = (reconcile_dhcp_component a infra w).1.dhcp_servers }
  unfolding reconcile_dhcp_component
  dhcp-frame w = ground arith

  pub dns-frame :
      (w : World a)
      → (reconcile_dns_component a infra w).1
        ≡ record w { dns_servers = (reconcile_dns_component a infra w).1.dns_servers }
  unfolding reconcile_dns_component
  dns-frame w = ground arith

  dhcp-on :
      (w : World a)
      → infra.spec.infra_components.dhcp.enabled ≡ true
      → let out =
          ensure_owned a dhcp_shape a.dhcp_servers infra
            (dhcp_server_for_infra infra)
            w.dhcp_servers in
        reconcile_dhcp_component a infra w ≡ (out.0, record w { dhcp_servers = out.1 })
  unfolding reconcile_dhcp_component
  dhcp-on w on = ground arith

  dns-on :
      (w : World a)
      → infra.spec.infra_components.dns.enabled ≡ true
      → let out =
          ensure_owned a dns_shape a.dns_servers infra (dns_server_for_infra infra) w.dns_servers in
        reconcile_dns_component a infra w ≡ (out.0, record w { dns_servers = out.1 })
  unfolding reconcile_dns_component
  dns-on w on = ground arith

  pub dhcp-done :
      (w : World a)
      → AllSettled
      → (reconcile_dhcp_component a infra w).0 ≡ ok tt
      → DhcpDone (reconcile_dhcp_component a infra w).1
  dhcp-done w settled good = elim (Bool-cases infra.spec.infra_components.dhcp.enabled) [
    | inr off ↦ inl off
    | inl on ↦ inr (
        rw (dhcp-on w on) (
          ensure_owned-Stored dhcp_shape a.dhcp_servers laws.dhcp a laws.keeps infra
            (dhcp_server_for_infra infra) w.dhcp_servers settled.0 (rw (dhcp-on w on) at good)))
  ]

  pub dns-done :
      (w : World a)
      → AllSettled
      → (reconcile_dns_component a infra w).0 ≡ ok tt
      → DnsDone (reconcile_dns_component a infra w).1
  dns-done w settled good = elim (Bool-cases infra.spec.infra_components.dns.enabled) [
    | inr off ↦ inl off
    | inl on ↦ inr (
        rw (dns-on w on) (
          ensure_owned-Stored dns_shape a.dns_servers laws.dns a laws.keeps infra
            (dns_server_for_infra infra) w.dns_servers settled.1 (rw (dns-on w on) at good)))
  ]

  -- The second run of a step, in any state that has the objects that the first one left.
  pub dhcp-again :
      (w v : World a)
      → AllSettled
      → (reconcile_dhcp_component a infra w).0 ≡ ok tt
      → v.dhcp_servers ≡ (reconcile_dhcp_component a infra w).1.dhcp_servers
      → reconcile_dhcp_component a infra v ≡ (ok tt, v)
  unfolding reconcile_dhcp_component
  dhcp-again w v settled good same = elim (Bool-cases infra.spec.infra_components.dhcp.enabled) [
    | inr off ↦ ground arith
    | inl on ↦
        let again =
          ensure_owned-again dhcp_shape a.dhcp_servers laws.dhcp a laws.keeps infra
            (dhcp_server_for_infra infra) w.dhcp_servers settled.0 in
        ground arith
  ]

  pub dns-again :
      (w v : World a)
      → AllSettled
      → (reconcile_dns_component a infra w).0 ≡ ok tt
      → v.dns_servers ≡ (reconcile_dns_component a infra w).1.dns_servers
      → reconcile_dns_component a infra v ≡ (ok tt, v)
  unfolding reconcile_dns_component
  dns-again w v settled good same = elim (Bool-cases infra.spec.infra_components.dns.enabled) [
    | inr off ↦ ground arith
    | inl on ↦
        let again =
          ensure_owned-again dns_shape a.dns_servers laws.dns a laws.keeps infra
            (dns_server_for_infra infra) w.dns_servers settled.1 in
        ground arith
  ]
