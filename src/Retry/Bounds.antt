-- ===== src/Retry/Bounds.antt =====
-- How often createOrUpdateWithRetries writes.
use oooi.Prelude.{ℕ, suc, zero, ◌+◌, ◌≤◌, Outcome, inl, inr, arith, Outcome-cases}
use oooi.Api.Meta.{ObjectMeta, key_of}
use oooi.Infra.Cluster.{ApiError, not_found, already_exists, conflict, refused, Kind}
use oooi.Retry.Loop.{Backoff, LoopState, write_back, try_once, create_or_update_with_retries}
use oooi.Retry.Laws.{LawfulBackoff, Try-cases}

-- A call of the API server that writes, counted whether it succeeds or not.
abbrev pub count :
    {O : Type 0} (k : Kind O)
    → (O → k.Objects → Outcome ApiError (Unit {0}) × k.Objects)
    → O
    → ℕ × k.Objects
    → Outcome ApiError (Unit {0}) × (ℕ × k.Objects)
count k call o s = let out = call o s.1 in (out.0, (s.0 + 1, out.1))

-- An API server that counts the writing calls that it gets.
abbrev pub counted : {O : Type 0} → Kind O → Kind O
counted k = record {
  Objects = ℕ × k.Objects;
  get = λ key s. k.get key s.1;
  create = λ o s. count k k.create o s;
  update = λ o s. count k k.update o s;
  update_status = λ o s. count k k.update_status o s;
}

module _ {O : Type 0} (meta_of : O → ObjectMeta) (k : Kind O) (update : O → Outcome ApiError O)
    (others : ℕ → k.Objects → k.Objects) where
  -- What other clients do is not counted.
  abbrev pub beside : ℕ → ℕ × k.Objects → ℕ × k.Objects
  beside i s = (s.0, others i s.1)

  -- One try makes at most one writing call.
  try_once-writes :
      (st : LoopState meta_of (counted k) update)
      → (try_once meta_of (counted k) update beside st).1.objects.0 ≤ st.objects.0 + 1
  unfolding try_once write_back
  try_once-writes st = elim (Outcome-cases (k.get (key_of (meta_of st.object)) st.objects.1)) [
    | inl (not_found, q) ↦ ground arith
    | inl (already_exists, q) ↦ ground arith
    | inl (conflict, q) ↦ ground arith
    | inl (refused, q) ↦ ground arith
    | inr (found, q) ↦ elim (Outcome-cases (update found)) [
      | inl (e, r) ↦ ground arith
      | inr (new, r) ↦ ground arith
    ]
  ]

  module _ (backoff : Backoff) (lawful : LawfulBackoff backoff) where
    run-writes :
        (n : ℕ) (st : LoopState meta_of (counted k) update)
        → (backoff.run n (try_once meta_of (counted k) update beside) st).1.objects.0
          ≤ st.objects.0 + n
    run-writes zero st =
        let c = try_once meta_of (counted k) update beside in
        rw (lawful.no_steps c st) (omega arith)
    run-writes (suc n) st =
        let c = try_once meta_of (counted k) update beside in
        let one = try_once-writes st in
        elim (Try-cases (c st).0) [
          | inl q ↦ rw (lawful.on_done n c st q) (omega arith)
          | inr (inr (e, q)) ↦ rw (lawful.on_failed n c st e q) (omega arith)
          | inr (inl q) ↦ elim (lawful.on_again n c st q) [
            | inl r ↦ let rest = run-writes n (c st).1 in rw r (omega arith)
            | inr r ↦ rw r (omega arith)
          ]
        ]

    -- Against an API server that counts the creations and updates that it is asked for,
    -- createOrUpdateWithRetries of the DHCPServer controller makes at most as many of them as its
    -- backoff has steps, whatever the API server answers, the caller's function does and other
    -- clients do in between. The backoff has to be lawful.
    pub retries-writes :
        (obj : O) (os : k.Objects)
        → (create_or_update_with_retries meta_of
            (counted k)
            update
            backoff
            beside
            obj
            (0, os)).1.objects.0
          ≤ backoff.steps
    unfolding create_or_update_with_retries
    retries-writes obj os =
        let all =
          run-writes backoff.steps (record { tries = 0; object = obj; objects = (0, os) }) in
        omega arith
