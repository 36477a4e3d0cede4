-- ===== src/Workloads/Apart.antt =====
-- A step leaves the objects under other keys alone.
use oooi.Prelude.{Bool, true, false, Outcome, ok, ◌≡◌, ◌≢◌, refl, ◌∙◌, inl, inr, Outcome-cases}
use oooi.Api.Meta.{ObjectMeta, NamespacedName, key_of}
use oooi.Infra.Cluster.{ApiError, not_found, already_exists, conflict, refused, Kind}
use oooi.Workloads.Kinds.{Parts}
use oooi.Workloads.Laws.{Lawful, Apart}
use oooi.Workloads.Ensure.{Ends, only_if, own, refresh, ensure_object}
use oooi.Workloads.Owned.{own-keeps}
use oooi.Retry.Loop.{create_or_update}

pub only_if-same :
    {E Os X : Type 0} (enabled : Bool) (step : Os → Ends E × Os) (os : Os) (look : Os → X)
    → look (step os).1 ≡ look os
    → look (only_if enabled step os).1 ≡ look os
unfolding only_if
only_if-same true step os look same = same
only_if-same false step os look same = refl

module _ {O C : Type 0} (p : Parts O C) (k : Kind O) (laws : Lawful p k) (apart : Apart p k)
    (key : NamespacedName) where
  create_or_update-apart :
      (update : O → Outcome ApiError O) (desired : O) (os : k.Objects)
      → key ≢ key_of (p.meta_of desired)
      → ((o o' : O) → update o ≡ ok o' → key_of (p.meta_of o') ≡ key_of (p.meta_of o))
      → k.get key (create_or_update p.meta_of k update desired os).1 ≡ k.get key os
  unfolding create_or_update
  create_or_update-apart update desired os away keeps =
      let at = key_of (p.meta_of desired) in
      elim (Outcome-cases (k.get at os)) [
        | inl (not_found, q) ↦ rw (q, create_or_update) (apart.create_apart key desired os away)
        | inl (already_exists, q) ↦ rw (q, create_or_update) refl
        | inl (conflict, q) ↦ rw (q, create_or_update) refl
        | inl (refused, q) ↦ rw (q, create_or_update) refl
        | inr (found, q) ↦ elim (Outcome-cases (update found)) [
          | inl (e, r) ↦ rw (q, r, create_or_update) refl
          | inr (new, r) ↦
              let same = keeps found new r ∙ laws.found_under at os found q in
              rw (q, r, create_or_update) (apart.update_apart key new os (λ e. away (e ∙ same)))
        ]
      ]

  module _ (set_reference : ObjectMeta → ObjectMeta → Outcome ApiError ObjectMeta)
      (keeps : (owner m m' : ObjectMeta) → set_reference owner m ≡ ok m' → key_of m' ≡ key_of m)
      (owner : ObjectMeta) where
    pub ensure_object-apart :
        (change : O → O) (desired : O) (os : k.Objects)
        → key ≢ key_of (p.meta_of desired)
        → ((o : O) → key_of (p.meta_of (change o)) ≡ key_of (p.meta_of o))
        → k.get key (ensure_object p set_reference owner k change desired os).1 ≡ k.get key os
    unfolding ensure_object
    ensure_object-apart change desired os away fits =
        elim (Outcome-cases (own p set_reference owner desired)) [
          | inl (cause, q) ↦ rw (q, ensure_object) refl
          | inr (owned, q) ↦
              let at = (own-keeps p set_reference keeps owner desired owned q).0 in
              rw (q, ensure_object)
                (create_or_update-apart (refresh p set_reference owner change) owned os
                  (λ e. away (e ∙ at))
                  (λ o o' e. (own-keeps p set_reference keeps owner (change o) o' e).0 ∙ fits o))
        ]
