-- ===== src/Retry/Sample.antt =====
-- A backoff of four steps that never waits.
use oooi.Prelude.{ℕ, suc, zero, Outcome, ok, err, arith, inl, refl}
use oooi.Retry.Loop.{Try, done, again, failed, RetryError, stopped, timed_out, Backoff}
use oooi.Retry.Laws.{LawfulBackoff}

unfoldable pub run_steps :
    {St : Type 0} → ℕ → (St → Try × St) → St → Outcome RetryError (Unit {0}) × St
run_steps zero c s = (err timed_out, s)
run_steps (suc n) c s = elim (c s).0 [
  | done ↦ (ok tt, (c s).1)
  | again ↦ run_steps n c (c s).1
  | failed e ↦ (err (stopped e), (c s).1)
]

abbrev pub four : Backoff
four = record { steps = 4; run = run_steps }

pub four_laws : LawfulBackoff four
unfolding run_steps
four_laws = record {
  no_steps = λ c s. refl;
  on_done = λ n c s e. ground arith;
  on_failed = λ n c s e f. ground arith;
  on_again = λ n c s e. inl (ground arith);
}
