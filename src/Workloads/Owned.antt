-- ===== src/Workloads/Owned.antt =====
-- An object with its controller reference set: its key and its content are those of before.
use oooi.Prelude.{Outcome, ok, ◌≡◌, refl, sym, inl, inr, arith, Outcome-cases}
use oooi.Api.Meta.{ObjectMeta, key_of}
use oooi.Infra.Cluster.{ApiError}
use oooi.Workloads.Kinds.{Parts}
use oooi.Workloads.Ensure.{own}

module _ {O C : Type 0} (p : Parts O C)
    (set_reference : ObjectMeta → ObjectMeta → Outcome ApiError ObjectMeta)
    (keeps : (owner m m' : ObjectMeta) → set_reference owner m ≡ ok m' → key_of m' ≡ key_of m)
    (owner : ObjectMeta) where
  pub own-keeps :
      (o o' : O)
      → own p set_reference owner o ≡ ok o'
      → (key_of (p.meta_of o') ≡ key_of (p.meta_of o)) × (p.content_of o' ≡ p.content_of o)
  unfolding own
  own-keeps o o' e = elim (Outcome-cases (set_reference owner (p.meta_of o))) [
    | inl (cause, q) ↦ absurd (ground arith)
    | inr (m, q) ↦
        let same : p.with_meta o m ≡ o' = ground arith in
        rw (sym same, p.meta-with_meta o m, p.content-with_meta o m)
          (keeps owner (p.meta_of o) m q, refl)
  ]
