-- ===== src/Dns/Examples.antt =====
-- A server that is started, is asked to end by its context, and shuts down.
use oooi.Prelude.{◌≤◌, true, false, ◌≡◌, ◌≢◌, ◌⊎◌, refl}
use oooi.Dns.Server.{
  cancelled, finished, serving, returned, ServerState, new_server, start, shut_down, stop, starts,
  cancels, shuts_down, stops_by_call, returns_cancelled, Steps, none_yet, then_step,
}
use oooi.Dns.Shutdown.{runs_return}

abbrev running : ServerState
running = start true true new_server

-- The context is done while the server runs.
abbrev asked : ServerState
asked = record running { context_done = true }

-- A failed call of Stop, then the handler.
abbrev closed : ServerState
closed = shut_down true (stop true false asked).1

abbrev ended : ServerState
ended = record closed { phase = returned cancelled }

asked-run : Steps new_server asked
unfolding new_server
asked-run =
    then_step (then_step (none_yet new_server) (starts new_server true true refl)) (cancels running)

ended-run : Steps new_server ended
unfolding stop start new_server shut_down
ended-run =
    then_step
      (then_step (then_step asked-run (stops_by_call asked true false))
        (shuts_down (stop true false asked).1 true refl refl refl))
      (returns_cancelled closed refl refl)

runs_return_example :
    (ended.stops ≤ 1)
    × ((ended.stopped ≡ true) ⊎ (ended.stops ≡ 0))
    × ((ended.phase ≢ returned cancelled) ⊎ ((ended.context_done ≡ true) × (ended.stopped ≡ true)))
    × ((ended.phase ≢ returned finished) ⊎ (ended.alive ≡ false))
runs_return_example = runs_return ended ended-run

asked-serving : asked.phase ≡ serving
unfolding start
asked-serving = refl
