-- ===== src/Commands/DnsRuns.antt =====
-- How the command of the DNS server ends.
use oooi.Prelude.{
  Bool, true, false, none, some, ok, ◌≡◌, ◌≢◌, ◌⊎◌, ◌≤◌, inl, inr, refl, arith, Outcome-cases,
}
use oooi.Dns.Server.{
  Ended, failed_start, cancelled, finished, returned, new_server, cancels, Steps, none_yet,
  then_step,
}
use oooi.Dns.Shutdown.{runs_return}
use oooi.Commands.Dns.{
  DnsCommand, result_of, begin, CommandStep, serves, signal, cancel, returns, CommandSteps, not_yet,
  and_step,
}

-- The command ended at a signal, with its server stopped, or the server ended by itself.
abbrev pub EndedWell : DnsCommand → Type 0
EndedWell d = ((d.signalled ≡ true) × (d.server.stopped ≡ true)) ⊎ (d.server.alive ≡ false)

pub record IsRun (exists : Bool) (d : DnsCommand) : Type 0 where
  pub server_run : Steps new_server d.server
  pub found : (d.result ≢ none) ⊎ (exists ≡ true)
  pub asked : (d.result ≢ none) ⊎ ((d.server.context_done ≡ false) ⊎ (d.signalled ≡ true))
  pub ended : (d.result ≢ some (ok tt)) ⊎ ((exists ≡ true) × EndedWell d)

pub begin-IsRun : (exists : Bool) → IsRun exists (begin exists)
unfolding begin new_server
begin-IsRun exists = record {
  server_run = none_yet new_server;
  found = ground arith;
  asked = inr (inl refl);
  ended = inl (λ e. ground arith);
}

returned-EndedWell :
    (exists : Bool) (d : DnsCommand) (e : Ended)
    → IsRun exists d
    → d.result ≡ none
    → d.server.phase ≡ returned e
    → result_of e ≡ ok tt
    → EndedWell d
unfolding result_of
returned-EndedWell exists d failed_start v running at good = absurd (ground arith)
returned-EndedWell exists d cancelled v running at good =
    let (_, _, on_cancel, _) = runs_return d.server v.server_run in
    ground (arith, on_cancel, v.asked)
returned-EndedWell exists d finished v running at good =
    let (_, _, _, on_finish) = runs_return d.server v.server_run in inr (ground (arith, on_finish))

CommandStep-IsRun :
    (exists : Bool) {d e : DnsCommand} → CommandStep d e → IsRun exists d → IsRun exists e
CommandStep-IsRun exists (serves d t running step same) v = record {
  server_run = then_step v.server_run step;
  found = v.found;
  asked = ground (arith, v.asked);
  ended = inl (λ e. ground arith);
}
CommandStep-IsRun exists (signal d running) v = record {
  server_run = v.server_run;
  found = v.found;
  asked = inr (inr refl);
  ended = inl (λ e. ground arith);
}
CommandStep-IsRun exists (cancel d running came) v = record {
  server_run = then_step v.server_run (cancels d.server);
  found = v.found;
  asked = inr (inr came);
  ended = inl (λ e. ground arith);
}
CommandStep-IsRun exists (returns d e running at) v = record {
  server_run = then_step v.server_run (cancels d.server);
  found = inl (λ q. ground arith);
  asked = inl (λ q. ground arith);
  ended = elim (Outcome-cases (result_of e)) [
    | inl (why, q) ↦ inl (λ w. ground arith)
    | inr (done, q) ↦ inr (ground (arith, v.found), returned-EndedWell exists d e v running at q)
  ];
}

pub CommandSteps-IsRun :
    (exists : Bool) {d e : DnsCommand} → CommandSteps d e → IsRun exists d → IsRun exists e
CommandSteps-IsRun exists (not_yet d) v = v
CommandSteps-IsRun exists (and_step before last) v =
    CommandStep-IsRun exists last (CommandSteps-IsRun exists before v)

-- If the command of the DNS server returns without an error, whatever the interleaving, then its
-- Corefile was there when it began, the instance was stopped at most once, and either a signal came
-- and the server was marked as stopped, or the instance no longer runs.
pub command_ends :
    (exists : Bool) (d : DnsCommand)
    → CommandSteps (begin exists) d
    → d.result ≡ some (ok tt)
    → (exists ≡ true) × (d.server.stops ≤ 1) × EndedWell d
command_ends exists d run good =
    let v = CommandSteps-IsRun exists run (begin-IsRun exists) in
    let (at_most, _, _, _) = runs_return d.server v.server_run in
    elim v.ended [ inl other ↦ absurd (other good) | inr (there, ended) ↦ (there, at_most, ended) ]
