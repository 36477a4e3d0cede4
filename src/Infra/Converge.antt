-- ===== src/Infra/Converge.antt =====
-- One component: the object that is stored in the end, and the second run.
use oooi.Prelude.{ok, ◌≡◌, refl, sym, ap, ◌∙◌, arith, inl, inr, Outcome-cases, Bool-cases}
use oooi.Api.Meta.{ObjectMeta, key_of}
use oooi.Api.Infra.{Infra}
use oooi.Infra.Cluster.{not_found, already_exists, conflict, refused, Kind, Shape, Api, LawfulKind}
use oooi.Infra.Reconcile.{ensure_found, ensure, ensure_owned}

module _ {O S : Type 0} (sh : Shape O S) (k : Kind O)
    (laws : LawfulKind sh.meta_of sh.spec_of k) where
  -- The object with the desired object's key has the desired spec.
  abbrev pub Stored : O → k.Objects → Type 0
  Stored desired os =
      (o : O) × (k.get (key_of (sh.meta_of desired)) os ≡ ok o)
      × (sh.spec_of o ≡ sh.spec_of desired)

  -- The schema's defaulting leaves the desired spec alone.
  abbrev pub Settled : O → Type 0
  Settled desired = laws.defaulted (sh.spec_of desired) ≡ sh.spec_of desired

  pub ensure-Stored :
      (desired : O) (os : k.Objects)
      → Settled desired
      → (ensure sh k desired os).0 ≡ ok tt
      → Stored desired (ensure sh k desired os).1
  unfolding ensure ensure_found
  ensure-Stored desired os settled = elim (Outcome-cases (k.get (key_of (sh.meta_of desired)) os)) [
    | inl (not_found, q) ↦
        rw q (λ good. let (o, e, s) = laws.created desired os good in (o, e, s ∙ settled))
    | inl (already_exists, q) ↦ rw q (λ good. absurd (ground arith))
    | inl (conflict, q) ↦ rw q (λ good. absurd (ground arith))
    | inl (refused, q) ↦ rw q (λ good. absurd (ground arith))
    | inr (found, q) ↦
        rw q (elim (Bool-cases (sh.same_spec (sh.spec_of found) (sh.spec_of desired))) [
          | inl same ↦ rw same (λ good.
              (found, q, (sh.same_spec_iff (sh.spec_of found) (sh.spec_of desired)).0 same))
          | inr other ↦ rw other (λ good.
              let new = sh.with_spec found (sh.spec_of desired) in
              let (o, e, s) = laws.updated new os good in
              let at : key_of (sh.meta_of new) ≡ key_of (sh.meta_of desired) =
                ap key_of (sh.meta-with_spec found (sh.spec_of desired))
                ∙ laws.found_under _ os found q in
              (
                o,
                rw at at e,
                s ∙ ap laws.defaulted (sh.spec-with_spec found (sh.spec_of desired)) ∙ settled,
              ))
        ])
  ]

  -- What is stored as desired is left alone.
  pub ensure-again :
      (desired : O) (os : k.Objects) → Stored desired os → ensure sh k desired os ≡ (ok tt, os)
  unfolding ensure ensure_found
  ensure-again desired os (o, e, s) =
      rw (e, (sh.same_spec_iff (sh.spec_of o) (sh.spec_of desired)).1 s) refl

  module _ (a : Api)
      (keeps : (owner m m' : ObjectMeta)
        → a.set_controller_reference owner m ≡ ok m'
        → key_of m' ≡ key_of m) where
    -- A run that succeeds got the reference.
    owned :
        (infra : Infra) (desired : O) (os : k.Objects)
        → (ensure_owned a sh k infra desired os).0 ≡ ok tt
        → (m : ObjectMeta) × (key_of m ≡ key_of (sh.meta_of desired))
          × ((os' : k.Objects)
              → ensure_owned a sh k infra desired os' ≡ ensure sh k (sh.with_meta desired m) os')
    unfolding ensure_owned
    owned infra desired os good =
        elim (Outcome-cases (a.set_controller_reference infra.metadata (sh.meta_of desired))) [
          | inl (e, q) ↦ absurd (ground arith)
          | inr (m, q) ↦ (m, keeps infra.metadata (sh.meta_of desired) m q, λ os'. ground arith)
        ]

    owned-Stored :
        (desired : O) (m : ObjectMeta) (os : k.Objects)
        → key_of m ≡ key_of (sh.meta_of desired)
        → Stored (sh.with_meta desired m) os
        → Stored desired os
    owned-Stored desired m os same (o, e, s) = (
      o,
      rw (ap key_of (sh.meta-with_meta desired m) ∙ same) at e,
      s ∙ sh.spec-with_meta desired m,
    )

    made-Stored :
        (desired : O) (m : ObjectMeta) (os : k.Objects)
        → Settled desired
        → (ensure sh k (sh.with_meta desired m) os).0 ≡ ok tt
        → Stored (sh.with_meta desired m) (ensure sh k (sh.with_meta desired m) os).1
    made-Stored desired m os settled good =
        let spec = sh.spec-with_meta desired m in
        ensure-Stored (sh.with_meta desired m) os (ap laws.defaulted spec ∙ settled ∙ sym spec) good

    pub ensure_owned-Stored :
        (infra : Infra) (desired : O) (os : k.Objects)
        → Settled desired
        → (ensure_owned a sh k infra desired os).0 ≡ ok tt
        → Stored desired (ensure_owned a sh k infra desired os).1
    ensure_owned-Stored infra desired os settled good =
        let (m, same, runs) = owned infra desired os good in
        rw (runs os)
          (owned-Stored desired m _ same (made-Stored desired m os settled (rw (runs os) at good)))

    -- The second run after one that succeeded changes nothing.
    pub ensure_owned-again :
        (infra : Infra) (desired : O) (os : k.Objects)
        → Settled desired
        → (ensure_owned a sh k infra desired os).0 ≡ ok tt
        → ensure_owned a sh k infra desired (ensure_owned a sh k infra desired os).1
          ≡ (ok tt, (ensure_owned a sh k infra desired os).1)
    ensure_owned-again infra desired os settled good =
        let (m, same, runs) = owned infra desired os good in
        runs (ensure_owned a sh k infra desired os).1
        ∙ ensure-again (sh.with_meta desired m) _
            (rw (runs os) (made-Stored desired m os settled (rw (runs os) at good)))
