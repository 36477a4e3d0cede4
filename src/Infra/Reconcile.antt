-- ===== src/Infra/Reconcile.antt =====
-- InfraReconciler.Reconcile and the steps that it takes.
use oooi.Prelude.{ℕ, true, [], ◌∷◌, ◌||◌, Outcome, ok, err, ◌===◌, if◌then◌else◌}
use oooi.Api.Meta.{NamespacedName, key_of, Condition}
use oooi.Api.Infra.{Infra, InfraStatus}
use oooi.Infra.Cluster.{ApiError, not_found, Kind, Shape, Api, World}
use oooi.Infra.Specs.{dhcp_shape, dns_shape, proxy_shape}
use oooi.Infra.Desired.{
  dhcp_server_for_infra, dns_server_for_infra, proxy_server_for_infra, network_policy_for_infra,
}

abbrev pub Result : Type 0
Result = Outcome ApiError (Unit {0})

-- The part that the three components share: create the object if it is not there, and update it
-- if its spec is not the one that is asked for.
module _ {O S : Type 0} (sh : Shape O S) (k : Kind O) where
  unfoldable pub ensure_found : O → k.Objects → Outcome ApiError O → Result × k.Objects
  ensure_found desired os (ok found) =
      if sh.same_spec (sh.spec_of found) (sh.spec_of desired)
      then (ok tt, os)
      else k.update (sh.with_spec found (sh.spec_of desired)) os
  ensure_found desired os (err not_found) = k.create desired os
  ensure_found desired os (err e) = (err e, os)

  unfoldable pub ensure : O → k.Objects → Result × k.Objects
  unfolding ensure_found
  ensure desired os = ensure_found desired os (k.get (key_of (sh.meta_of desired)) os)

abbrev pub ready_condition : Infra → ℕ → Condition
ready_condition infra now = record {
  type = "Ready";
  status = true;
  observed_generation = infra.metadata.generation;
  last_transition_time = now;
  reason = "ReconciliationSucceeded";
  message = "Infrastructure components provisioned successfully";
}

-- A ready flag is set for a component that is enabled, and never cleared.
unfoldable pub ready_status : Infra → ℕ → InfraStatus
ready_status infra now =
    let parts = infra.spec.infra_components in
    let before = infra.status.component_status in
    record {
      conditions = ready_condition infra now ∷ [];
      component_status = record {
        dhcp_ready = parts.dhcp.enabled || before.dhcp_ready;
        dns_ready = parts.dns.enabled || before.dns_ready;
        proxy_ready = parts.proxy.enabled || before.proxy_ready;
      };
      observed_generation = infra.metadata.generation;
    }

module _ (a : Api) where
  -- The object with its controller reference, which SetControllerReference may refuse.
  unfoldable pub ensure_owned :
      {O S : Type 0} → Shape O S → (k : Kind O) → Infra → O → k.Objects → Result × k.Objects
  unfolding ensure
  ensure_owned sh k infra desired os =
      elim (a.set_controller_reference infra.metadata (sh.meta_of desired)) [
        | err e ↦ (err e, os)
        | ok owned ↦ ensure sh k (sh.with_meta desired owned) os
      ]

  unfoldable pub reconcile_dhcp_component : Infra → World a → Result × World a
  unfolding ensure_owned dhcp_server_for_infra
  reconcile_dhcp_component infra w =
      let out =
        ensure_owned dhcp_shape a.dhcp_servers infra (dhcp_server_for_infra infra) w.dhcp_servers in
      if infra.spec.infra_components.dhcp.enabled
      then (out.0, record w { dhcp_servers = out.1 })
      else (ok tt, w)

  unfoldable pub reconcile_dns_component : Infra → World a → Result × World a
  unfolding ensure_owned dns_server_for_infra
  reconcile_dns_component infra w =
      let out =
        ensure_owned dns_shape a.dns_servers infra (dns_server_for_infra infra) w.dns_servers in
      if infra.spec.infra_components.dns.enabled
      then (out.0, record w { dns_servers = out.1 })
      else (ok tt, w)

  -- The policy has no owner, and one that exists is left as it is.
  unfoldable pub ensure_policy :
      Infra → a.network_policies.Objects → Result × a.network_policies.Objects
  unfolding network_policy_for_infra
  ensure_policy infra os =
      let policy = network_policy_for_infra infra in
      elim (a.network_policies.get (key_of policy.metadata) os) [
        | ok found ↦ (ok tt, os)
        | err not_found ↦ a.network_policies.create policy os
        | err e ↦ (err e, os)
      ]

  unfoldable pub reconcile_network_policy : Infra → World a → Result × World a
  unfolding ensure_policy
  reconcile_network_policy infra w =
      let out = ensure_policy infra w.network_policies in
      (out.0, record w { network_policies = out.1 })

  -- `if err := step(); err != nil { return err }`, and then the rest.
  unfoldable pub and_then : Result × World a → (World a → Result × World a) → Result × World a
  and_then (err e, w) rest = (err e, w)
  and_then (ok tt, w) rest = rest w

  unfoldable pub reconcile_proxy_component : Infra → World a → Result × World a
  unfolding ensure_owned proxy_server_for_infra reconcile_network_policy and_then
  reconcile_proxy_component infra w =
      let out =
        ensure_owned proxy_shape a.proxy_servers infra (proxy_server_for_infra infra)
          w.proxy_servers in
      if infra.spec.infra_components.proxy.enabled
      then and_then (out.0, record w { proxy_servers = out.1 })
          (λ v.
            if infra.spec.infra_components.proxy.control_plane_namespace === ""
            then (ok tt, v)
            else reconcile_network_policy infra v)
      else (ok tt, w)

  unfoldable pub update_infra_status : ℕ → Infra → World a → Result × World a
  unfolding ready_status
  update_infra_status now infra w =
      let out =
        a.infras.update_status (record infra { status = ready_status infra now }) w.infras in
      (out.0, record w { infras = out.1 })

  unfoldable pub reconcile_infra : ℕ → Infra → World a → Result × World a
  unfolding and_then reconcile_dhcp_component reconcile_dns_component reconcile_proxy_component
      update_infra_status
  reconcile_infra now infra w = and_then (reconcile_dhcp_component infra w) (λ w1.
      and_then (reconcile_dns_component infra w1)
        (λ w2. and_then (reconcile_proxy_component infra w2) (update_infra_status now infra)))

  -- `now` is metav1.Now.
  unfoldable pub reconcile : ℕ → NamespacedName → World a → Result × World a
  unfolding reconcile_infra
  reconcile now request w = elim (a.infras.get request w.infras) [
    | ok infra ↦ reconcile_infra now infra w
    | err not_found ↦ (ok tt, w)
    | err e ↦ (err e, w)
  ]
