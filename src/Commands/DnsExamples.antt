-- ===== src/Commands/DnsExamples.antt =====
-- A DNS server that runs until a signal comes.
use oooi.Prelude.{true, some, ok, ◌≡◌, ◌≤◌, refl}
use oooi.Dns.Server.{
  cancelled, returned, new_server, start, shut_down, starts, shuts_down, returns_cancelled,
}
use oooi.Commands.Dns.{
  DnsCommand, begin, CommandStep, serves, signal, cancel, returns, CommandSteps, not_yet, and_step,
}
use oooi.Commands.DnsRuns.{EndedWell, command_ends}

abbrev begun : DnsCommand
begun = begin true

abbrev running : DnsCommand
running = record begun { server = start true true new_server }

abbrev signalled : DnsCommand
signalled = record running { signalled = true }

abbrev asked : DnsCommand
asked = record signalled { server = record signalled.server { context_done = true } }

abbrev closed : DnsCommand
closed = record asked { server = shut_down true asked.server }

abbrev over : DnsCommand
over = record closed { server = record closed.server { phase = returned cancelled } }

abbrev left : DnsCommand
left = record over { server = record over.server { context_done = true }; result = some (ok tt) }

to_signal : CommandSteps begun signalled
unfolding begin new_server start
to_signal =
    and_step
      (and_step (not_yet begun)
        (serves begun running.server refl (starts new_server true true refl) refl))
      (signal running refl)

to_end : CommandSteps begun left
unfolding begin new_server start shut_down oooi.Commands.Dns.result_of
to_end =
    and_step
      (and_step
        (and_step (and_step to_signal (cancel signalled refl refl))
          (serves asked closed.server refl (shuts_down asked.server true refl refl refl) refl))
        (serves closed over.server refl (returns_cancelled closed.server refl refl) refl))
      (returns over cancelled refl refl)

command_ends_example : (true ≡ true) × (left.server.stops ≤ 1) × EndedWell left
command_ends_example = command_ends true left to_end refl
