-- ===== src/Commands/DnsSignal.antt =====
-- What the command of the DNS server does after a signal.
use oooi.Prelude.{Bool, true, false, none, some, ◌≡◌}
use oooi.Dns.Server.{Ended, cancelled, serving, returned, shut_down}
use oooi.Commands.Dns.{DnsCommand, result_of}

-- The steps that the command takes by itself: its goroutine cancels the context at the signal, the
-- shutdown handler runs, Start returns the error of its context, and the command returns.
pub data OwnStep : DnsCommand → DnsCommand → Type 0 where
  cancels_at_signal :
      (d : DnsCommand)
      → d.result ≡ none
      → d.signalled ≡ true
      → OwnStep d (record d { server = record d.server { context_done = true } })
  handler_shuts_down :
      (d : DnsCommand) (stop_works : Bool)
      → d.result ≡ none
      → d.server.started ≡ true
      → d.server.context_done ≡ true
      → d.server.shutdown_complete ≡ false
      → OwnStep d (record d { server = shut_down stop_works d.server })
  start_returns :
      (d : DnsCommand)
      → d.result ≡ none
      → d.server.phase ≡ serving
      → d.server.shutdown_complete ≡ true
      → OwnStep d (record d { server = record d.server { phase = returned cancelled } })
  command_returns :
      (d : DnsCommand) (e : Ended)
      → d.result ≡ none
      → d.server.phase ≡ returned e
      → OwnStep d (record d {
        server = record d.server { context_done = true };
        result = some (result_of e);
      })

pub data OwnSteps : DnsCommand → DnsCommand → Type 0 where
  no_more : (d : DnsCommand) → OwnSteps d d
  first_step : {d e f : DnsCommand} → OwnStep d e → OwnSteps e f → OwnSteps d f
