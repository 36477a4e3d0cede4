-- ===== src/Retry/Loop.antt =====
-- The create-or-update calls. `update` is the caller's function that changes the object in place,
-- and `others` is what other clients do to the objects between the reads and writes of a try.
use oooi.Prelude.{ℕ, ◌+◌, Outcome, ok, err}
use oooi.Api.Meta.{ObjectMeta, key_of}
use oooi.Infra.Cluster.{ApiError, not_found, already_exists, conflict, Kind}

-- What the condition function tells the backoff: true, false, or an error.
pub data Try : Type 0 where
  done again : Try
  failed : ApiError → Try

pub data RetryError : Type 0 where
  stopped : ApiError → RetryError
  timed_out cancelled : RetryError

-- wait.ExponentialBackoffWithContext, and the number of steps of retry.DefaultBackoff.
pub record Backoff : Type 1 where
  pub steps : ℕ
  pub run : {St : Type 0} → ℕ → (St → Try × St) → St → Outcome RetryError (Unit {0}) × St

unfoldable pub after_create : Outcome ApiError (Unit {0}) → Try
after_create (ok tt) = done
after_create (err already_exists) = again
after_create (err e) = failed e

unfoldable pub after_update : Outcome ApiError (Unit {0}) → Try
after_update (ok tt) = done
after_update (err conflict) = again
after_update (err e) = failed e

module _ {O : Type 0} (meta_of : O → ObjectMeta) (k : Kind O)
    (update : O → Outcome ApiError O) where
  -- What the tries share: the object in the caller's hands and the stored objects. `tries` is not of
  -- the source: it tells `others` how many writes there were before.
  pub record LoopState : Type 0 where
    pub tries : ℕ
    pub object : O
    pub objects : k.Objects

  -- The object is there: it is changed and written back.
  unfoldable pub write_back :
      (ℕ → k.Objects → k.Objects) → O → Outcome ApiError O → LoopState → Try × LoopState
  unfolding after_update
  write_back others found (err e) st = (failed e, record st { object = found })
  write_back others found (ok new) st =
      let out = k.update new (others st.tries st.objects) in
      (after_update out.0, record { tries = st.tries + 1; object = new; objects = out.1 })

  -- One call of the condition function.
  unfoldable pub try_once : (ℕ → k.Objects → k.Objects) → LoopState → Try × LoopState
  unfolding write_back after_create
  try_once others st = elim (k.get (key_of (meta_of st.object)) st.objects) [
    | ok found ↦ write_back others found (update found) st
    | err not_found ↦
        let out = k.create st.object (others st.tries st.objects) in
        (after_create out.0, record st { tries = st.tries + 1; objects = out.1 })
    | err e ↦ (failed e, st)
  ]

  unfoldable pub create_or_update_with_retries :
      Backoff
      → (ℕ → k.Objects → k.Objects)
      → O
      → k.Objects
      → Outcome RetryError (Unit {0}) × LoopState
  unfolding try_once
  create_or_update_with_retries backoff others obj os =
      backoff.run backoff.steps (try_once others) (record { tries = 0; object = obj; objects = os })

  -- The function of the same name in the other two controllers: it tries once.
  unfoldable pub create_or_update : O → k.Objects → Outcome ApiError (Unit {0}) × k.Objects
  create_or_update obj os = elim (k.get (key_of (meta_of obj)) os) [
    | err not_found ↦ k.create obj os
    | err e ↦ (err e, os)
    | ok found ↦ elim (update found) [ err e ↦ (err e, os) | ok new ↦ k.update new os ]
  ]
