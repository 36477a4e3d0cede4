-- ===== src/DhcpServer/Registered.antt =====
-- What is registered when the servers are started.
use oooi.Prelude.{
  String, List, [], ◌∷◌, ◌++◌, ok, ◌≡◌, refl, sym, ap, ◌∙◌, inl, inr, arith, Outcome-cases,
}
use mathlib.Core.List.{append_assoc, append-nil}
use oooi.DhcpServer.Run.{Plugin, plugins, Coredhcp, register_all, serve, run}

-- A plugin that is registered is behind those that were.
pub record LawfulRegistry {E : Type 0} (c : Coredhcp E) : Type 0 where
  pub registered : c.Registry → List Plugin
  pub appends :
      (p : Plugin) (r : c.Registry)
      → (c.register_plugin p r).0 ≡ ok tt
      → registered (c.register_plugin p r).1 ≡ registered r ++ p ∷ []

module _ {E : Type 0} (c : Coredhcp E) (laws : LawfulRegistry c) where
  register_all-registered :
      (ps : List Plugin) (r : c.Registry)
      → (register_all c ps r).0 ≡ ok tt
      → laws.registered (register_all c ps r).1 ≡ laws.registered r ++ ps
  unfolding register_all
  register_all-registered [] r won = sym (append-nil (laws.registered r))
  register_all-registered (p ∷ ps) r won = elim (Outcome-cases (c.register_plugin p r).0) [
    | inl (e, q) ↦ absurd (ground arith)
    | inr (done, q) ↦
        let next = (c.register_plugin p r).1 in
        let rest = register_all-registered ps next (rw (q, register_all) at won) in
        rw (q, register_all)
          (rest
            ∙ ap (λ xs. xs ++ ps) (laws.appends p r q)
            ∙ append_assoc (laws.registered r) (p ∷ []) ps)
  ]

  -- If Run of the DHCP server ends without an error, then the configuration was loaded, all plugins
  -- of its list were registered in order behind those that were there, and the servers were started
  -- with them and waited for. coredhcp has to keep the plugins that it registers.
  pub run-registered :
      (file : String) (r : c.Registry)
      → let out = run c file r in
        out.0 ≡ ok tt
        → (cfg : c.Config) × (servers : c.Servers) × (c.load file ≡ ok cfg)
          × (laws.registered out.1 ≡ laws.registered r ++ plugins)
          × (c.start cfg out.1 ≡ ok servers)
          × (c.wait servers ≡ ok tt)
  unfolding run serve
  run-registered file r won = elim (Outcome-cases (c.load file)) [
    | inl (e, q) ↦ absurd (ground arith)
    | inr (cfg, q) ↦ elim (Outcome-cases (register_all c plugins r).0) [
      | inl (e, t) ↦ absurd (ground arith)
      | inr (done, t) ↦
          let next = (register_all c plugins r).1 in
          let served : serve c cfg next ≡ ok tt = ground arith in
          elim (Outcome-cases (c.start cfg next)) [
            | inl (e, u) ↦ absurd (ground arith)
            | inr (servers, u) ↦
                rw (q, t, run)
                  (
                    cfg,
                    servers,
                    refl,
                    register_all-registered plugins r t,
                    u,
                    rw (u, serve) at served,
                  )
          ]
    ]
  ]
