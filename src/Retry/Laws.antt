-- ===== src/Retry/Laws.antt =====
-- What a create-or-update that succeeds has stored, and the two versions of it against each other.
use oooi.Prelude.{
  ℕ, suc, zero, Outcome, ok, err, ◌≡◌, ◌⊎◌, inl, inr, refl, sym, ◌∙◌, arith, Outcome-cases,
}
use mathlib.Core.Path.{subst}
use oooi.Api.Meta.{ObjectMeta, key_of}
use oooi.Infra.Cluster.{ApiError, not_found, already_exists, conflict, refused, Kind, LawfulKind}
use oooi.Retry.Loop.{
  Try, done, again, failed, stopped, timed_out, cancelled, Backoff, LoopState, write_back, try_once,
  create_or_update_with_retries,
}

-- The documented behaviour of the backoff under a context that is not cancelled before the first
-- call: it calls the condition until that is done or fails, or the steps are used up, or the context
-- is cancelled while it waits.
pub record LawfulBackoff (b : Backoff) : Type 1 where
  pub no_steps : {St : Type 0} (c : St → Try × St) (s : St) → b.run 0 c s ≡ (err timed_out, s)
  pub on_done :
      {St : Type 0} (n : ℕ) (c : St → Try × St) (s : St)
      → (c s).0 ≡ done
      → b.run (suc n) c s ≡ (ok tt, (c s).1)
  pub on_failed :
      {St : Type 0} (n : ℕ) (c : St → Try × St) (s : St) (e : ApiError)
      → (c s).0 ≡ failed e
      → b.run (suc n) c s ≡ (err (stopped e), (c s).1)
  pub on_again :
      {St : Type 0} (n : ℕ) (c : St → Try × St) (s : St)
      → (c s).0 ≡ again
      → (b.run (suc n) c s ≡ b.run n c (c s).1) ⊎ (b.run (suc n) c s ≡ (err cancelled, (c s).1))

pub Try-cases : (t : Try) → (t ≡ done) ⊎ (t ≡ again) ⊎ ((e : ApiError) × (t ≡ failed e))
Try-cases done = inl refl
Try-cases again = inr (inl refl)
Try-cases (failed e) = inr (inr (e, refl))

module _ {O S : Type 0} (meta_of : O → ObjectMeta) (spec_of : O → S) (k : Kind O)
    (update : O → Outcome ApiError O) (laws : LawfulKind meta_of spec_of k)
    (others : ℕ → k.Objects → k.Objects) (P : S → Type 0)
    (defaults : (s : S) → P s → P (laws.defaulted s))
    (changes : (o o' : O)
      → update o ≡ ok o'
      → (key_of (meta_of o') ≡ key_of (meta_of o)) × P (spec_of o')) where
  abbrev Good : O → LoopState meta_of k update → Type 0
  Good obj st = (key_of (meta_of st.object) ≡ key_of (meta_of obj)) × P (spec_of st.object)

  abbrev Kept : O → LoopState meta_of k update → Type 0
  Kept obj st = (o : O) × (k.get (key_of (meta_of obj)) st.objects ≡ ok o) × P (spec_of o)

  made :
      (obj o : O) (os : k.Objects)
      → key_of (meta_of o) ≡ key_of (meta_of obj)
      → P (spec_of o)
      → (out : Outcome ApiError (Unit {0}) × k.Objects)
      → ((o' : O) × (k.get (key_of (meta_of o)) out.1 ≡ ok o')
          × (spec_of o' ≡ laws.defaulted (spec_of o)))
      → (o' : O) × (k.get (key_of (meta_of obj)) out.1 ≡ ok o') × P (spec_of o')
  made obj o os same holds out (o', e, s) =
      (o', rw same at e, subst P (sym s) (defaults (spec_of o) holds))

  try_once-Kept :
      (obj : O) (st : LoopState meta_of k update)
      → Good obj st
      → (try_once meta_of k update others st).0 ≡ done
      → Kept obj (try_once meta_of k update others st).1
  unfolding try_once write_back
  try_once-Kept obj st (same, holds) won =
      let os = others st.tries st.objects in
      elim (Outcome-cases (k.get (key_of (meta_of st.object)) st.objects)) [
        | inl (not_found, q) ↦
            rw (q, try_once)
              (made obj st.object os same holds (k.create st.object os)
                (laws.created st.object os (ground arith)))
        | inl (already_exists, q) ↦ absurd (ground arith)
        | inl (conflict, q) ↦ absurd (ground arith)
        | inl (refused, q) ↦ absurd (ground arith)
        | inr (found, q) ↦ elim (Outcome-cases (update found)) [
          | inl (e, r) ↦ absurd (ground arith)
          | inr (new, r) ↦
              let (key, fine) = changes found new r in
              let at = key ∙ laws.found_under _ st.objects found q ∙ same in
              rw (q, r, try_once)
                (made obj new os at fine (k.update new os) (laws.updated new os (ground arith)))
        ]
      ]

  try_once-Good :
      (obj : O) (st : LoopState meta_of k update)
      → Good obj st
      → (try_once meta_of k update others st).0 ≡ again
      → Good obj (try_once meta_of k update others st).1
  unfolding try_once write_back
  try_once-Good obj st (same, holds) more =
      elim (Outcome-cases (k.get (key_of (meta_of st.object)) st.objects)) [
        | inl (not_found, q) ↦ rw (q, try_once) (same, holds)
        | inl (already_exists, q) ↦ absurd (ground arith)
        | inl (conflict, q) ↦ absurd (ground arith)
        | inl (refused, q) ↦ absurd (ground arith)
        | inr (found, q) ↦ elim (Outcome-cases (update found)) [
          | inl (e, r) ↦ absurd (ground arith)
          | inr (new, r) ↦
              let (key, fine) = changes found new r in
              rw (q, r, try_once) (key ∙ laws.found_under _ st.objects found q ∙ same, fine)
        ]
      ]

  module _ (backoff : Backoff) (lawful : LawfulBackoff backoff) where
    run-Kept :
        (n : ℕ) (obj : O) (st : LoopState meta_of k update)
        → Good obj st
        → (backoff.run n (try_once meta_of k update others) st).0 ≡ ok tt
        → Kept obj (backoff.run n (try_once meta_of k update others) st).1
    run-Kept zero obj st good won =
        absurd (ground (arith, lawful.no_steps (try_once meta_of k update others) st))
    run-Kept (suc n) obj st good won =
        let c = try_once meta_of k update others in
        elim (Try-cases (c st).0) [
          | inl q ↦ rw (lawful.on_done n c st q) (try_once-Kept obj st good q)
          | inr (inr (e, q)) ↦ absurd (ground (arith, lawful.on_failed n c st e q))
          | inr (inl q) ↦ elim (lawful.on_again n c st q) [
            | inl r ↦ rw r (run-Kept n obj (c st).1 (try_once-Good obj st good q) (rw r at won))
            | inr r ↦ absurd (ground arith)
          ]
        ]

    -- If createOrUpdateWithRetries succeeds, then whatever other clients did between its reads and
    -- writes, an object is stored under the key that has the property that the caller wants: one
    -- that the new object has, that the caller's update establishes while it keeps the key, and
    -- that the schema's defaulting keeps. The API server and the backoff have to be lawful.
    pub retries-Kept :
        (obj : O) (os : k.Objects)
        → P (spec_of obj)
        → (create_or_update_with_retries meta_of k update backoff others obj os).0 ≡ ok tt
        → Kept obj (create_or_update_with_retries meta_of k update backoff others obj os).1
    unfolding create_or_update_with_retries
    retries-Kept obj os holds won =
        run-Kept backoff.steps obj (record { tries = 0; object = obj; objects = os }) (refl, holds)
          won
