-- ===== src/Workloads/Stored.antt =====
-- What a step that succeeds has stored, and what a sequence of steps passes on.
use oooi.Prelude.{
  ℕ, Bool, true, false, Outcome, ok, err, ◌≡◌, ◌⊎◌, refl, ◌∙◌, sym, inl, inr, arith, Outcome-cases,
}
use mathlib.Core.Path.{subst}
use oooi.Api.Meta.{ObjectMeta, NamespacedName, key_of}
use oooi.Infra.Cluster.{ApiError, not_found, already_exists, conflict, refused, Kind, LawfulKind}
use oooi.Workloads.Kinds.{Parts}
use oooi.Workloads.Ensure.{
  Ends, followed_by, only_if, own, refresh, ensure_object, ensure_retrying, ensure_unowned,
}
use oooi.Workloads.Owned.{own-keeps}
use oooi.Retry.Loop.{Backoff, create_or_update}
use oooi.Retry.Laws.{LawfulBackoff, retries-Kept}

-- If a sequence succeeds, then its first step does, and the sequence is what follows it.
pub followed_by-ok :
    {E W : Type 0} (s : Ends E × W) (rest : W → Ends E × W)
    → (followed_by s rest).0 ≡ ok tt
    → (s.0 ≡ ok tt) × (followed_by s rest ≡ rest s.1)
unfolding followed_by
followed_by-ok (ok tt, w) rest e = (refl, refl)
followed_by-ok (err cause, w) rest e = absurd (ground arith)

pub followed_by-err :
    {E W : Type 0} (s : Ends E × W) (rest : W → Ends E × W) (cause : E)
    → s.0 ≡ err cause
    → followed_by s rest ≡ (err cause, s.1)
unfolding followed_by
followed_by-err (ok tt, w) rest cause e = absurd (ground arith)
followed_by-err (err other, w) rest cause e = ground arith

-- Under the key an object is stored whose content has the property.
abbrev pub Holds :
    {O C : Type 0} → Parts O C → (k : Kind O) → (C → Type 0) → NamespacedName → k.Objects → Type 0
Holds {O = O} p k P key os = (o : O) × (k.get key os ≡ ok o) × P (p.content_of o)

module _ {O C : Type 0} (p : Parts O C) (k : Kind O) (laws : LawfulKind p.meta_of p.content_of k)
    (P : C → Type 0) (defaults : (c : C) → P c → P (laws.defaulted c)) where
  written :
      (key : NamespacedName) (o : O)
      → key_of (p.meta_of o) ≡ key
      → P (p.content_of o)
      → (out : Ends ApiError × k.Objects)
      → ((o' : O) × (k.get (key_of (p.meta_of o)) out.1 ≡ ok o')
          × (p.content_of o' ≡ laws.defaulted (p.content_of o)))
      → Holds p k P key out.1
  written key o at holds out (o', e, s) =
      (o', rw at at e, subst P (sym s) (defaults (p.content_of o) holds))

  create_or_update-Holds :
      (update : O → Outcome ApiError O) (desired : O) (os : k.Objects)
      → P (p.content_of desired)
      → ((o o' : O)
          → update o ≡ ok o'
          → (key_of (p.meta_of o') ≡ key_of (p.meta_of o)) × P (p.content_of o'))
      → (create_or_update p.meta_of k update desired os).0 ≡ ok tt
      → Holds p k P (key_of (p.meta_of desired)) (create_or_update p.meta_of k update desired os).1
  unfolding create_or_update
  create_or_update-Holds update desired os holds changes won =
      let key = key_of (p.meta_of desired) in
      elim (Outcome-cases (k.get key os)) [
        | inl (not_found, q) ↦
            rw (q, create_or_update)
              (written key desired refl holds (k.create desired os)
                (laws.created desired os (ground arith)))
        | inl (already_exists, q) ↦ absurd (ground arith)
        | inl (conflict, q) ↦ absurd (ground arith)
        | inl (refused, q) ↦ absurd (ground arith)
        | inr (found, q) ↦ elim (Outcome-cases (update found)) [
          | inl (e, r) ↦ absurd (ground arith)
          | inr (new, r) ↦
              let (same, fine) = changes found new r in
              rw (q, r, create_or_update)
                (written key new (same ∙ laws.found_under key os found q) fine (k.update new os)
                  (laws.updated new os (ground arith)))
        ]
      ]

  module _ (change : O → O) (desired : O) (wanted : P (p.content_of desired))
      (fits : (o : O)
        → (key_of (p.meta_of (change o)) ≡ key_of (p.meta_of o))
          × P (p.content_of (change o))) where
    module _ (set_reference : ObjectMeta → ObjectMeta → Outcome ApiError ObjectMeta)
        (keeps : (owner m m' : ObjectMeta) → set_reference owner m ≡ ok m' → key_of m' ≡ key_of m)
        (owner : ObjectMeta) where
      refresh-fits :
          (o o' : O)
          → refresh p set_reference owner change o ≡ ok o'
          → (key_of (p.meta_of o') ≡ key_of (p.meta_of o)) × P (p.content_of o')
      refresh-fits o o' e =
          let (key, content) = own-keeps p set_reference keeps owner (change o) o' e in
          (key ∙ (fits o).0, subst P (sym content) (fits o).1)

      pub ensure_object-Holds :
          (os : k.Objects)
          → (ensure_object p set_reference owner k change desired os).0 ≡ ok tt
          → Holds p k P
              (key_of (p.meta_of desired))
              (ensure_object p set_reference owner k change desired os).1
      unfolding ensure_object
      ensure_object-Holds os won = elim (Outcome-cases (own p set_reference owner desired)) [
        | inl (cause, q) ↦ absurd (ground arith)
        | inr (owned, q) ↦
            let (key, content) = own-keeps p set_reference keeps owner desired owned q in
            rw (q, sym key, ensure_object)
              (create_or_update-Holds (refresh p set_reference owner change) owned os
                (subst P (sym content) wanted) refresh-fits (ground arith))
      ]

      pub ensure_retrying-Holds :
          (backoff : Backoff) (others : ℕ → k.Objects → k.Objects) (os : k.Objects)
          → LawfulBackoff backoff
          → (ensure_retrying p set_reference owner k change desired backoff others os).0 ≡ ok tt
          → Holds p k P
              (key_of (p.meta_of desired))
              (ensure_retrying p set_reference owner k change desired backoff others os).1
      unfolding ensure_retrying
      ensure_retrying-Holds backoff others os lawful won =
          elim (Outcome-cases (own p set_reference owner desired)) [
            | inl (cause, q) ↦ absurd (ground arith)
            | inr (owned, q) ↦
                let (key, content) = own-keeps p set_reference keeps owner desired owned q in
                rw (q, sym key, ensure_retrying)
                  (retries-Kept p.meta_of p.content_of k (refresh p set_reference owner change) laws
                    others P defaults refresh-fits backoff lawful owned os
                    (subst P (sym content) wanted) (ground arith))
          ]

    pub ensure_unowned-Holds :
        (backoff : Backoff) (others : ℕ → k.Objects → k.Objects) (os : k.Objects)
        → LawfulBackoff backoff
        → (ensure_unowned p k change desired backoff others os).0 ≡ ok tt
        → Holds p k P
            (key_of (p.meta_of desired))
            (ensure_unowned p k change desired backoff others os).1
    unfolding ensure_unowned
    ensure_unowned-Holds backoff others os lawful won =
        retries-Kept p.meta_of p.content_of k (λ found. ok (change found)) laws others P defaults
          (λ o o' e. let same : change o ≡ o' = ground arith in rw (sym same) (fits o)) backoff
          lawful desired os wanted won

-- A sequence whose steps leave a part of the state alone leaves it alone.
pub followed_by-keeps :
    {E W X : Type 0} (part : W → X) (w : W) (s : Ends E × W) (rest : W → Ends E × W)
    → part s.1 ≡ part w
    → ((v : W) → part (rest v).1 ≡ part v)
    → part (followed_by s rest).1 ≡ part w
unfolding followed_by
followed_by-keeps part w (ok tt, v) rest first later = later v ∙ first
followed_by-keeps part w (err cause, v) rest first later = first

pub only_if-Holds :
    {E Os : Type 0} (enabled : Bool) (step : Os → Ends E × Os) (os : Os) (Q : Os → Type 0)
    → (only_if enabled step os).0 ≡ ok tt
    → ((step os).0 ≡ ok tt → Q (step os).1)
    → (enabled ≡ false) ⊎ Q (only_if enabled step os).1
unfolding only_if
only_if-Holds true step os Q won stores = inr (stores won)
only_if-Holds false step os Q won stores = inl refl

-- What holds after a sequence that succeeds, from what holds after its parts.
pub followed_by-elim :
    {E W : Type 0} (Q : W → Type 0) (s : Ends E × W) (rest : W → Ends E × W)
    → (followed_by s rest).0 ≡ ok tt
    → (s.0 ≡ ok tt → (rest s.1).0 ≡ ok tt → Q (rest s.1).1)
    → Q (followed_by s rest).1
unfolding followed_by
followed_by-elim Q (ok tt, w) rest won after = after refl won
followed_by-elim Q (err cause, w) rest won after = absurd (ground arith)

-- Either a sequence leaves a part of the state alone, or what is wanted before that part is written
-- holds afterwards.
pub followed_by-after :
    {E W X : Type 0} (part : W → X) (Q : W → Type 0) (w : W) (s : Ends E × W)
    (rest : W → Ends E × W)
    → part s.1 ≡ part w
    → (s.0 ≡ ok tt → (part (rest s.1).1 ≡ part s.1) ⊎ Q (rest s.1).1)
    → (part (followed_by s rest).1 ≡ part w) ⊎ Q (followed_by s rest).1
unfolding followed_by
followed_by-after part Q w (ok tt, v) rest first later = elim (later refl) [
  | inl same ↦ inl (same ∙ first)
  | inr holds ↦ inr holds
]
followed_by-after part Q w (err cause, v) rest first later = inl first

-- What holds after the first step and is kept by the rest holds after the sequence.
pub followed_by-over :
    {E W : Type 0} (Q : W → Type 0) (s : Ends E × W) (rest : W → Ends E × W)
    → Q s.1
    → ((v : W) → Q v → Q (rest v).1)
    → Q (followed_by s rest).1
unfolding followed_by
followed_by-over Q (ok tt, w) rest holds keeps = keeps w holds
followed_by-over Q (err cause, w) rest holds keeps = holds
