-- ===== src/Dns/Server.antt =====
-- server.go as a state machine. Start runs in one goroutine and its shutdown handler in another,
-- and Stop may be called from anywhere; the handler and Stop hold the mutex, so that each is one
-- step. Whether the calls of Caddy succeed is up to it.
use oooi.Prelude.{ℕ, ◌+◌, Bool, true, false, not, ◌&&◌, ◌≡◌, if◌then◌else◌}

-- How Start ended.
pub data Ended : Type 0 where
  failed_start cancelled finished : Ended

pub data Phase : Type 0 where
  idle serving : Phase
  returned : Ended → Phase

-- `started` is `instance != nil`. The others than `stopped` are the context, the channel
-- shutdownComplete, whether the instance runs, and the number of its stops that succeeded.
pub record ServerState : Type 0 where
  pub phase : Phase
  pub started : Bool
  pub stopped : Bool
  pub context_done : Bool
  pub shutdown_complete : Bool
  pub alive : Bool
  pub stops : ℕ

unfoldable pub new_server : ServerState
new_server = record {
  phase = idle;
  started = false;
  stopped = false;
  context_done = false;
  shutdown_complete = false;
  alive = false;
  stops = 0;
}

-- Start up to its select: `loads` tells whether the Corefile is read, and `runs` whether
-- caddy.Start succeeds.
unfoldable pub start : Bool → Bool → ServerState → ServerState
start loads runs s =
    if loads && runs
    then record s { phase = serving; started = true; alive = true }
    else record s { phase = returned failed_start }

-- The handler after the context is done. The result of the callbacks is not looked at.
unfoldable pub shut_down : Bool → ServerState → ServerState
shut_down stop_works s =
    if s.started && not s.stopped
    then record s {
      stopped = true;
      shutdown_complete = true;
      alive = if stop_works then false else s.alive;
      stops = if stop_works then s.stops + 1 else s.stops;
    }
    else record s { shutdown_complete = true }

-- Stop; the first part is whether it returns nil.
unfoldable pub stop : Bool → Bool → ServerState → Bool × ServerState
stop callbacks_work stop_works s =
    if s.stopped
    then (true, s)
    else if s.started
    then if callbacks_work && stop_works
      then (true, record s { stopped = true; alive = false; stops = s.stops + 1 })
      else (false, s)
    else (true, s)

-- One step of the server and its surroundings.
pub data Step : ServerState → ServerState → Type 0 where
  starts : (s : ServerState) (loads runs : Bool) → s.phase ≡ idle → Step s (start loads runs s)
  cancels : (s : ServerState) → Step s (record s { context_done = true })
  shuts_down :
      (s : ServerState) (stop_works : Bool)
      → s.started ≡ true
      → s.context_done ≡ true
      → s.shutdown_complete ≡ false
      → Step s (shut_down stop_works s)
  stops_by_call :
      (s : ServerState) (callbacks_work stop_works : Bool)
      → Step s (stop callbacks_work stop_works s).1
  dies : (s : ServerState) → Step s (record s { alive = false })
  returns_cancelled :
      (s : ServerState)
      → s.phase ≡ serving
      → s.shutdown_complete ≡ true
      → Step s (record s { phase = returned cancelled })
  returns_finished :
      (s : ServerState)
      → s.phase ≡ serving
      → s.alive ≡ false
      → Step s (record s { phase = returned finished })

-- Any number of steps.
pub data Steps : ServerState → ServerState → Type 0 where
  none_yet : (s : ServerState) → Steps s s
  then_step : {s t u : ServerState} → Steps s t → Step t u → Steps s u
