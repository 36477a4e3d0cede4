-- ===== src/Commands/Dns.antt =====
-- runDNS of cmd/dns.go: the server of internal/dns, a goroutine that cancels its context at a
-- signal, and the return of the command, with which the process ends.
use oooi.Prelude.{Bool, true, false, Option, none, some, Outcome, ok, err, ◌≡◌, if◌then◌else◌}
use oooi.Dns.Server.{
  Ended, failed_start, cancelled, finished, returned, ServerState, new_server, Step,
}

pub data DnsError : Type 0 where
  no_corefile start_failed : DnsError

-- The server, whether a signal came, and what the command returned, if it did.
pub record DnsCommand : Type 0 where
  pub server : ServerState
  pub signalled : Bool
  pub result : Option (Outcome DnsError (Unit {0}))

-- `err != context.Canceled`: a start that was cancelled is not an error.
unfoldable pub result_of : Ended → Outcome DnsError (Unit {0})
result_of failed_start = err start_failed
result_of cancelled = ok tt
result_of finished = ok tt

-- dns.NewServer fails if there is no Corefile.
unfoldable pub begin : Bool → DnsCommand
begin exists = record {
  server = new_server;
  signalled = false;
  result = if exists then none else some (err no_corefile);
}

-- `returns` includes the deferred cancel.
pub data CommandStep : DnsCommand → DnsCommand → Type 0 where
  serves :
      (d : DnsCommand) (t : ServerState)
      → d.result ≡ none
      → Step d.server t
      → t.context_done ≡ d.server.context_done
      → CommandStep d (record d { server = t })
  signal : (d : DnsCommand) → d.result ≡ none → CommandStep d (record d { signalled = true })
  cancel :
      (d : DnsCommand)
      → d.result ≡ none
      → d.signalled ≡ true
      → CommandStep d (record d { server = record d.server { context_done = true } })
  returns :
      (d : DnsCommand) (e : Ended)
      → d.result ≡ none
      → d.server.phase ≡ returned e
      → CommandStep d (record d {
        server = record d.server { context_done = true };
        result = some (result_of e);
      })

pub data CommandSteps : DnsCommand → DnsCommand → Type 0 where
  not_yet : (d : DnsCommand) → CommandSteps d d
  and_step : {d e f : DnsCommand} → CommandSteps d e → CommandStep e f → CommandSteps d f
