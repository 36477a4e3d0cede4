-- ===== src/Manager/Started.antt =====
-- What the manager has when it is started.
use oooi.Prelude.{
  String, false, Option, none, some, List, [], ◌∷◌, ◌++◌, ok, ◌≡◌, refl, inl, inr, arith,
  Outcome-cases,
}
use oooi.Workloads.Stored.{followed_by-elim}
use oooi.Manager.Wiring.{
  Flags, Reconciler, infra, dhcp_server, dns_server, proxy_server, ManagerOptions, Runtime,
  watcher_for, manager_options, add_watcher, set_up_all, start_manager, run_manager,
}

-- A manager that is new has nothing, and keeps what it is given in order.
pub record LawfulRuntime {E : Type 0} (c : Runtime E) : Type 0 where
  pub controllers : c.Manager → List Reconciler
  pub checks : c.Manager → List String
  pub fresh :
      (opts : ManagerOptions c.Watcher) (m : c.Manager)
      → c.new_manager opts ≡ ok m
      → (controllers m ≡ []) × (checks m ≡ [])
  pub set_up_appends :
      (r : Reconciler) (m : c.Manager)
      → (c.set_up r m).0 ≡ ok tt
      → (controllers (c.set_up r m).1 ≡ controllers m ++ r ∷ [])
        × (checks (c.set_up r m).1 ≡ checks m)
  pub add_keeps :
      (w : c.Watcher) (m : c.Manager)
      → (controllers (c.add w m).1 ≡ controllers m) × (checks (c.add w m).1 ≡ checks m)
  pub check_appends :
      (name : String) (m : c.Manager)
      → (c.add_check name m).0 ≡ ok tt
      → (controllers (c.add_check name m).1 ≡ controllers m)
        × (checks (c.add_check name m).1 ≡ checks m ++ name ∷ [])

module _ {E : Type 0} (c : Runtime E) (laws : LawfulRuntime c) (flags : Flags) where
  -- What the command promises.
  abbrev pub Complete : c.Manager → Type 0
  Complete m =
      (laws.controllers m
        ≡ infra
          ∷ dhcp_server flags.enable_open_shift
          ∷ dns_server flags.enable_open_shift
          ∷ proxy_server false
          ∷ [])
      × (laws.checks m ≡ "healthz" ∷ "readyz" ∷ [])

  add_watcher-keeps :
      (w : Option c.Watcher) (m : c.Manager)
      → (laws.controllers (add_watcher c w m).1 ≡ laws.controllers m)
        × (laws.checks (add_watcher c w m).1 ≡ laws.checks m)
  unfolding add_watcher
  add_watcher-keeps none m = (refl, refl)
  add_watcher-keeps (some w) m = laws.add_keeps w m

  set_up_all-Complete :
      (webhook metrics : Option c.Watcher) (m : c.Manager)
      → laws.controllers m ≡ []
      → laws.checks m ≡ []
      → (set_up_all c flags webhook metrics m).0 ≡ ok tt
      → Complete (set_up_all c flags webhook metrics m).1
  unfolding set_up_all
  set_up_all-Complete webhook metrics m none_set no_checks won =
      let m1 = (c.set_up infra m).1 in
      let m2 = (c.set_up (dhcp_server flags.enable_open_shift) m1).1 in
      let m3 = (c.set_up (dns_server flags.enable_open_shift) m2).1 in
      let m4 = (c.set_up (proxy_server false) m3).1 in
      let m5 = (add_watcher c metrics m4).1 in
      let m6 = (add_watcher c webhook m5).1 in
      let m7 = (c.add_check "healthz" m6).1 in
      followed_by-elim Complete _ _ won (λ k1 won1. followed_by-elim Complete _ _ won1 (λ k2 won2.
        followed_by-elim Complete _ _ won2 (λ k3 won3.
          followed_by-elim Complete _ _ won3 (λ k4 won4.
            followed_by-elim Complete _ _ won4 (λ k5 won5.
              followed_by-elim Complete _ _ won5 (λ k6 won6.
                followed_by-elim Complete _ _ won6 (λ k7 k8.
                  let (c1, d1) = laws.set_up_appends infra m k1 in
                  let (c2, d2) = laws.set_up_appends (dhcp_server flags.enable_open_shift) m1 k2 in
                  let (c3, d3) = laws.set_up_appends (dns_server flags.enable_open_shift) m2 k3 in
                  let (c4, d4) = laws.set_up_appends (proxy_server false) m3 k4 in
                  let (c5, d5) = add_watcher-keeps metrics m4 in
                  let (c6, d6) = add_watcher-keeps webhook m5 in
                  let (c7, d7) = laws.check_appends "healthz" m6 k7 in
                  let (c8, d8) = laws.check_appends "readyz" m7 k8 in
                  (
                    rw (c8, c7, c6, c5, c4, c3, c2, c1, none_set) refl,
                    rw (d8, d7, d6, d5, d4, d3, d2, d1, no_checks) refl,
                  ))))))))

  -- If the manager command ends without an error, then it has run a manager with the four
  -- reconcilers in order, the flag for OpenShift given to those of DHCPServer and DNSServer and not
  -- to that of ProxyServer, and with the health check and the readiness check. controller-runtime
  -- has to keep what it is given.
  pub run_manager-Complete :
      run_manager c flags ≡ ok tt → (m : c.Manager) × Complete m × (c.run_until_stopped m ≡ ok tt)
  unfolding run_manager start_manager
  run_manager-Complete won =
      let start =
        watcher_for c flags.webhook_cert_path flags.webhook_cert_name flags.webhook_cert_key in
      let second =
        watcher_for c flags.metrics_cert_path flags.metrics_cert_name flags.metrics_cert_key in
      elim (Outcome-cases start) [
        | inl (e, q) ↦ absurd (ground arith)
        | inr (webhook, q) ↦ elim (Outcome-cases second) [
          | inl (e, r) ↦ absurd (ground arith)
          | inr (metrics, r) ↦
              let opts = manager_options c flags webhook metrics in
              elim (Outcome-cases (c.new_manager opts)) [
                | inl (e, s) ↦ absurd (ground arith)
                | inr (m, s) ↦
                    let (none_set, no_checks) = laws.fresh opts m s in
                    let out = set_up_all c flags webhook metrics m in
                    elim (Outcome-cases out.0) [
                      | inl (e, t) ↦ absurd (ground arith)
                      | inr (done, t) ↦ (
                        out.1,
                        set_up_all-Complete webhook metrics m none_set no_checks t,
                        ground arith,
                      )
                    ]
              ]
        ]
      ]
