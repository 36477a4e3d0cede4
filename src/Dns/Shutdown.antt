-- ===== src/Dns/Shutdown.antt =====
-- What holds in every run of the DNS server.
use oooi.Prelude.{◌≤◌, true, false, ◌≡◌, ◌≢◌, ◌⊎◌, inl, inr, refl, ◌∙◌, arith, Bool-cases}
use oooi.Dns.Server.{
  cancelled, finished, idle, serving, returned, ServerState, new_server, start, shut_down, stop,
  Step, starts, cancels, shuts_down, stops_by_call, dies, returns_cancelled, returns_finished,
  Steps, none_yet, then_step,
}

pub record IsValid (s : ServerState) : Type 0 where
  pub once : (s.stopped ≡ true) ⊎ (s.stops ≡ 0)
  pub at_most : s.stops ≤ 1
  pub waiting : (s.phase ≢ idle) ⊎ (s.started ≡ false)
  pub serves : (s.phase ≢ serving) ⊎ (s.started ≡ true)
  pub complete : (s.shutdown_complete ≡ false) ⊎ ((s.context_done ≡ true) × (s.stopped ≡ true))
  pub on_cancel : (s.phase ≢ returned cancelled) ⊎ ((s.context_done ≡ true) × (s.stopped ≡ true))
  pub on_finish : (s.phase ≢ returned finished) ⊎ (s.alive ≡ false)

pub new_server-IsValid : IsValid new_server
unfolding new_server
new_server-IsValid = record {
  once = inr refl;
  at_most = omega arith;
  waiting = inr refl;
  serves = inl (λ e. ground arith);
  complete = inl refl;
  on_cancel = inl (λ e. ground arith);
  on_finish = inl (λ e. ground arith);
}

Step-IsValid : {s t : ServerState} → Step s t → IsValid s → IsValid t
unfolding start shut_down stop
Step-IsValid (starts s loads runs at) v = record {
  once = ground (arith, v.once);
  at_most = ground (arith, v.at_most);
  waiting = ground (arith, v.waiting);
  serves = ground (arith, v.serves);
  complete = ground (arith, v.complete);
  on_cancel = ground (arith, v.on_cancel);
  on_finish = ground (arith, v.on_finish);
}
Step-IsValid (cancels s) v = record {
  once = v.once;
  at_most = v.at_most;
  waiting = v.waiting;
  serves = v.serves;
  complete = ground (arith, v.complete);
  on_cancel = ground (arith, v.on_cancel);
  on_finish = v.on_finish;
}
Step-IsValid (shuts_down s works up done open_) v = record {
  once = ground (arith, v.once);
  at_most = ground (arith, v.at_most, v.once);
  waiting = ground (arith, v.waiting);
  serves = ground (arith, v.serves);
  complete = ground arith;
  on_cancel = ground (arith, v.on_cancel);
  on_finish = ground (arith, v.on_finish);
}
Step-IsValid (stops_by_call s callbacks works) v = record {
  once = ground (arith, v.once);
  at_most = ground (arith, v.at_most, v.once);
  waiting = ground (arith, v.waiting);
  serves = ground (arith, v.serves);
  complete = ground (arith, v.complete);
  on_cancel = ground (arith, v.on_cancel);
  on_finish = ground (arith, v.on_finish);
}
Step-IsValid (dies s) v = record {
  once = v.once;
  at_most = v.at_most;
  waiting = v.waiting;
  serves = v.serves;
  complete = v.complete;
  on_cancel = v.on_cancel;
  on_finish = inr refl;
}
Step-IsValid (returns_cancelled s at done) v = record {
  once = v.once;
  at_most = v.at_most;
  waiting = inl (λ e. ground arith);
  serves = inl (λ e. ground arith);
  complete = v.complete;
  on_cancel = ground (arith, v.complete);
  on_finish = inl (λ e. ground arith);
}
Step-IsValid (returns_finished s at dead) v = record {
  once = v.once;
  at_most = v.at_most;
  waiting = inl (λ e. ground arith);
  serves = inl (λ e. ground arith);
  complete = v.complete;
  on_cancel = inl (λ e. ground arith);
  on_finish = inr dead;
}

pub Steps-IsValid : {s t : ServerState} → Steps s t → IsValid s → IsValid t
Steps-IsValid (none_yet s) v = v
Steps-IsValid (then_step before last) v = Step-IsValid last (Steps-IsValid before v)

-- In every run of the DNS server, whatever the interleaving of Start, its shutdown handler and
-- calls of Stop: the instance is stopped at most once, and only by a server that is then marked as
-- stopped; Start returns the error of its context only when that is done and the server is marked
-- as stopped; and it returns nil only when the instance no longer runs.
pub runs_return :
    (s : ServerState)
    → Steps new_server s
    → (s.stops ≤ 1)
      × ((s.stopped ≡ true) ⊎ (s.stops ≡ 0))
      × ((s.phase ≢ returned cancelled) ⊎ ((s.context_done ≡ true) × (s.stopped ≡ true)))
      × ((s.phase ≢ returned finished) ⊎ (s.alive ≡ false))
runs_return s run =
    let v = Steps-IsValid run new_server-IsValid in (v.at_most, v.once, v.on_cancel, v.on_finish)

shut_down-completes :
    (s : ServerState)
    → ((shut_down true s).shutdown_complete ≡ true) × ((shut_down true s).phase ≡ s.phase)
unfolding shut_down
shut_down-completes s = (ground arith, ground arith)

-- In every run of the DNS server, once Start waits and its context is done, steps of the server
-- alone lead to a state in which Start has returned the error of the context.
pub cancel_returns :
    (s : ServerState)
    → Steps new_server s
    → s.phase ≡ serving
    → s.context_done ≡ true
    → (t : ServerState) × Steps s t × (t.phase ≡ returned cancelled)
cancel_returns s run at done =
    let v = Steps-IsValid run new_server-IsValid in
    let up : s.started ≡ true = ground (arith, v.serves) in
    elim (Bool-cases s.shutdown_complete) [
      | inl closed ↦ (_, then_step (none_yet s) (returns_cancelled s at closed), refl)
      | inr open_ ↦
          let u = shut_down true s in
          let (closed, still) = shut_down-completes s in
          (
            _,
            then_step (then_step (none_yet s) (shuts_down s true up done open_))
                (returns_cancelled u (still ∙ at) closed),
            refl,
          )
    ]
