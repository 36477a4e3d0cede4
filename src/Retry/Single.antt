-- ===== src/Retry/Single.antt =====
-- The retry loop against the single try.
use oooi.Prelude.{ℕ, suc, Outcome, ok, err, ◌≡◌, ◌≢◌, ◌⊎◌, inl, inr, refl, arith, Outcome-cases}
use oooi.Api.Meta.{ObjectMeta, key_of}
use oooi.Infra.Cluster.{ApiError, not_found, already_exists, conflict, refused, Kind}
use oooi.Retry.Loop.{
  done, failed, RetryError, stopped, Backoff, LoopState, write_back, try_once,
  create_or_update_with_retries, create_or_update, after_create, after_update,
}
use oooi.Retry.Laws.{LawfulBackoff}

-- The result of the single try, as the loop reports it.
abbrev pub report : Outcome ApiError (Unit {0}) → Outcome RetryError (Unit {0})
report (ok tt) = ok tt
report (err e) = err (stopped e)

after_create-cases :
    (r : Outcome ApiError (Unit {0}))
    → r ≢ err already_exists
    → ((r ≡ ok tt) × (after_create r ≡ done))
      ⊎ ((e : ApiError) × (r ≡ err e) × (after_create r ≡ failed e))
unfolding after_create
after_create-cases (ok tt) fine = inl (refl, refl)
after_create-cases (err not_found) fine = inr (not_found, refl, refl)
after_create-cases (err already_exists) fine = absurd (fine refl)
after_create-cases (err conflict) fine = inr (conflict, refl, refl)
after_create-cases (err refused) fine = inr (refused, refl, refl)

after_update-cases :
    (r : Outcome ApiError (Unit {0}))
    → r ≢ err conflict
    → ((r ≡ ok tt) × (after_update r ≡ done))
      ⊎ ((e : ApiError) × (r ≡ err e) × (after_update r ≡ failed e))
unfolding after_update
after_update-cases (ok tt) fine = inl (refl, refl)
after_update-cases (err not_found) fine = inr (not_found, refl, refl)
after_update-cases (err already_exists) fine = inr (already_exists, refl, refl)
after_update-cases (err conflict) fine = absurd (fine refl)
after_update-cases (err refused) fine = inr (refused, refl, refl)

module _ {O : Type 0} (meta_of : O → ObjectMeta) (k : Kind O) (update : O → Outcome ApiError O)
    (others : ℕ → k.Objects → k.Objects) (obj : O) (os : k.Objects) (quiet : others 0 os ≡ os)
    (no_race : (create_or_update meta_of k update obj os).0 ≢ err already_exists)
    (no_conflict : (create_or_update meta_of k update obj os).0 ≢ err conflict) where
  abbrev start_state : LoopState meta_of k update
  start_state = record { tries = 0; object = obj; objects = os }

  -- The first try ends the loop with what the single try does.
  first_try :
      let one = create_or_update meta_of k update obj os in
      let try = try_once meta_of k update others start_state in
      (try.1.objects ≡ one.1)
      × (((one.0 ≡ ok tt) × (try.0 ≡ done))
          ⊎ ((e : ApiError) × (one.0 ≡ err e) × (try.0 ≡ failed e)))
  unfolding try_once write_back create_or_update
  first_try = elim (Outcome-cases (k.get (key_of (meta_of obj)) os)) [
    | inl (not_found, q) ↦ (ground arith, ground (arith, after_create-cases (k.create obj os).0))
    | inl (already_exists, q) ↦ absurd (no_race (ground arith))
    | inl (conflict, q) ↦ absurd (no_conflict (ground arith))
    | inl (refused, q) ↦ (ground arith, inr (refused, ground arith, ground arith))
    | inr (found, q) ↦ elim (Outcome-cases (update found)) [
      | inl (e, r) ↦ (ground arith, inr (e, ground arith, ground arith))
      | inr (new, r) ↦ (ground arith, ground (arith, after_update-cases (k.update new os).0))
    ]
  ]

  -- If the single try of the DNSServer and ProxyServer controllers neither meets a conflict nor an
  -- object that exists already, and nothing else happens meanwhile, then the loop of the DHCPServer
  -- controller, with at least one step, gives the same result and the same stored objects. The
  -- backoff has to be lawful, which includes that its context is not cancelled before the first
  -- try.
  pub retries-eq-single :
      (backoff : Backoff) (n : ℕ)
      → LawfulBackoff backoff
      → backoff.steps ≡ suc n
      → let one = create_or_update meta_of k update obj os in
        let out = create_or_update_with_retries meta_of k update backoff others obj os in
        (out.0 ≡ report one.0) × (out.1.objects ≡ one.1)
  unfolding create_or_update_with_retries
  retries-eq-single backoff n lawful steps =
      let c = try_once meta_of k update others in
      let (kept, how) = first_try in
      rw steps (elim how [
        | inl (good, q) ↦ rw (lawful.on_done n c start_state q, good) (refl, kept)
        | inr (e, bad, q) ↦ rw (lawful.on_failed n c start_state e q, bad) (refl, kept)
      ])
