-- ===== src/Workloads/Stale.antt =====
-- The steps whose update function only sets the controller reference: an object that is there
-- keeps its content, whatever the content that is wanted.
use oooi.Prelude.{Outcome, ok, ◌≡◌, sym, ap, ◌∙◌, inl, inr, arith, Outcome-cases}
use oooi.Api.Meta.{ObjectMeta, NamespacedName, key_of}
use oooi.Infra.Cluster.{ApiError, Kind}
use oooi.Workloads.Kinds.{Parts}
use oooi.Workloads.Laws.{Lawful}
use oooi.Workloads.Ensure.{own, refresh, ensure_object}
use oooi.Workloads.Owned.{own-keeps}
use oooi.Retry.Loop.{create_or_update}

module _ {O C : Type 0} (p : Parts O C) (k : Kind O) (laws : Lawful p k)
    (set_reference : ObjectMeta → ObjectMeta → Outcome ApiError ObjectMeta)
    (keeps : (owner m m' : ObjectMeta) → set_reference owner m ≡ ok m' → key_of m' ≡ key_of m)
    (owner : ObjectMeta) where
  -- What is stored under the key, behind the schema's defaults.
  abbrev pub Kept : NamespacedName → O → k.Objects → Type 0
  Kept key found os =
      (o : O) × (k.get key os ≡ ok o) × (p.content_of o ≡ laws.defaulted (p.content_of found))

  create_or_update-Kept :
      (desired found : O) (os : k.Objects)
      → k.get (key_of (p.meta_of desired)) os ≡ ok found
      → let out =
          create_or_update p.meta_of k (refresh p set_reference owner (λ o. o)) desired os in
        out.0 ≡ ok tt → Kept (key_of (p.meta_of desired)) found out.1
  unfolding create_or_update
  create_or_update-Kept desired found os here won =
      let at = key_of (p.meta_of desired) in
      elim (Outcome-cases (own p set_reference owner found)) [
        | inl (e, r) ↦ absurd (ground arith)
        | inr (new, r) ↦
            let (key, content) = own-keeps p set_reference keeps owner found new r in
            let (o, e, s) = laws.updated new os (ground arith) in
            rw (here, r, create_or_update)
              (o, rw (key ∙ laws.found_under at os found here) at e, s ∙ ap laws.defaulted content)
      ]

  pub ensure_object-Kept :
      (desired found : O) (os : k.Objects)
      → k.get (key_of (p.meta_of desired)) os ≡ ok found
      → let out = ensure_object p set_reference owner k (λ o. o) desired os in
        out.0 ≡ ok tt → Kept (key_of (p.meta_of desired)) found out.1
  unfolding ensure_object
  ensure_object-Kept desired found os here won =
      elim (Outcome-cases (own p set_reference owner desired)) [
        | inl (cause, q) ↦ absurd (ground arith)
        | inr (owned, q) ↦
            let (key, content) = own-keeps p set_reference keeps owner desired owned q in
            rw (q, sym key, ensure_object)
              (create_or_update-Kept owned found os (rw key here) (ground arith))
      ]
