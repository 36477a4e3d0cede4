-- ===== src/Leases/Examples.antt =====
-- Runs of the lease plugin on the sample host: two clients and an unreadable third one.
use oooi.Prelude.{
  ℕ, String, Bool, true, false, List, [], ◌∷◌, Option, none, some, ok, ◌≡◌, ◌≢◌, ◌↔◌, ◌⊎◌, refl,
  inl, inr, ◌≤◌, ◌<◌, ◌+◌, ◌*◌, arith, Has, All,
}
use oooi.Prelude.Assoc.{Assoc, lookup}
use oooi.Time.{pos, second, half_second, add}
use oooi.Packet.{Response}
use oooi.Leases.Host.{HealthyDatabase}
use oooi.Leases.State.{Record, PluginState}
use oooi.Leases.Setup.{setup_range, reallocate}
use oooi.Leases.Storage.{load_records, load_rows, register_backing_db}
use oooi.Leases.Handler.{handler4}
use oooi.Leases.Addresses.{Event, after, reply, client, serve, IsValid, serve-IsValid}
use oooi.Leases.Clients.{granted, granted_again, granted_apart}
use oooi.Leases.Expiry.{ends_after}
use oooi.Leases.SetupLaws.{setup_range-IsValid}
use oooi.Leases.Persistence.{Agrees, Readable, serve-Agrees}
use oooi.Leases.Recovery.{load_records-serve}
use oooi.Leases.Unreadable.{load_records-unreadable}
use oooi.Leases.Sample.{Pool, host, allocate_from, allocator_laws, net_laws, database_laws}

abbrev request : List ℕ → Event
request hw = record {
  request = record { hardware_addr = hw };
  now = 5_000_000_000_000;
  later = 5_000_000_000_100;
  response = record { your_ip_addr = none; lease_time = none; host_name = some "guest" };
}

abbrev from_a : Event
from_a = request (2 ∷ 0 ∷ 0 ∷ 0 ∷ 0 ∷ 1 ∷ [])

abbrev from_b : Event
from_b = request (2 ∷ 0 ∷ 0 ∷ 0 ∷ 0 ∷ 2 ∷ [])

abbrev from_odd : Event
from_odd = request (7 ∷ 7 ∷ [])

-- The state after a setup on an empty table.
abbrev started : PluginState host
started = record {
  records_v4 = [];
  lease_time = pos 3_600_000_000_000;
  leasedb = [];
  allocator = record { first = 10; last = 12; taken = [] };
}

started-setup : setup_range host ("leases.db" ∷ "10" ∷ "12" ∷ "1h" ∷ []) ≡ ok started
unfolding setup_range oooi.Prelude.value register_backing_db load_records load_rows
    oooi.Leases.Sample.keyed reallocate
started-setup = refl

-- The setup
started-IsValid : IsValid host allocator_laws started
started-IsValid =
    setup_range-IsValid host net_laws allocator_laws ("leases.db" ∷ "10" ∷ "12" ∷ "1h" ∷ []) started
      started-setup

granted-first : granted (reply host started from_a) ≡ some 10
unfolding handler4 allocate_from lookup oooi.Prelude.any_of
granted-first = refl

granted-second :
    granted (reply host (serve host (after host started from_a) (from_b ∷ [])) from_a) ≡ some 10
unfolding handler4 serve allocate_from lookup oooi.Prelude.any_of oooi.Prelude.Assoc.insert
    oooi.Prelude.join oooi.Prelude.show_ℕ add
granted-second = refl

-- Two requests of one client
granted_apart_example : client host from_a ≡ client host from_a
granted_apart_example =
    granted_apart host allocator_laws started from_a from_a (from_b ∷ []) 10 started-IsValid
      granted-first granted-second

granted_again_example :
    granted (reply host (serve host (after host started from_a) (from_b ∷ [])) from_a) ≡ some 10
granted_again_example = granted_again host started from_a from_a (from_b ∷ []) 10 refl granted-first

setup_range-IsValid_example : IsValid host allocator_laws started
setup_range-IsValid_example =
    setup_range-IsValid host net_laws allocator_laws ("leases.db" ∷ "10" ∷ "12" ∷ "1h" ∷ []) started
      started-setup

serve-IsValid_example :
    IsValid host allocator_laws (serve host started (from_a ∷ from_b ∷ from_a ∷ []))
serve-IsValid_example =
    serve-IsValid host allocator_laws started (from_a ∷ from_b ∷ from_a ∷ []) started-IsValid

record_a :
    lookup (client host from_a) (after host started from_a).records_v4
    ≡ some (record { ip = 10; expires = 8600 })
unfolding lookup handler4 allocate_from oooi.Prelude.any_of oooi.Prelude.Assoc.insert
    oooi.Prelude.join oooi.Prelude.show_ℕ add
record_a = refl

abbrev reply_a : Response
reply_a = record {
  your_ip_addr = some 10;
  lease_time = some (pos 3_600_000_000_000);
  host_name = some "guest";
}

replied_a : reply host started from_a ≡ (some reply_a, false)
unfolding handler4 allocate_from lookup oooi.Prelude.any_of oooi.Time.round_duration
replied_a = refl

ends_after_example : add from_a.now (pos 3_600_000_000_000) < 8600 * second + second + half_second
ends_after_example =
    ends_after host started from_a (record { ip = 10; expires = 8600 }) reply_a
      (pos 3_600_000_000_000) (omega arith) replied_a refl record_a

parses_a : Readable host (client host from_a)
unfolding oooi.Prelude.join oooi.Prelude.show_ℕ
parses_a = (2 ∷ 0 ∷ 0 ∷ 0 ∷ 0 ∷ 1 ∷ [], refl, refl)

parses_b : Readable host (client host from_b)
unfolding oooi.Prelude.join oooi.Prelude.show_ℕ
parses_b = (2 ∷ 0 ∷ 0 ∷ 0 ∷ 0 ∷ 2 ∷ [], refl, refl)

-- Both clients, in turn.
abbrev events : List Event
events = from_a ∷ from_b ∷ []

parses_all : (e : Event) → Has e events → Readable host (client host e)
parses_all e (inl same) = rw (← same) parses_a
parses_all e (inr (inl same)) = rw (← same) parses_b
parses_all e (inr (inr neither)) = absurd neither

started-Agrees : Agrees host database_laws started.records_v4 started.leasedb
unfolding lookup oooi.Leases.Host.expiry_of oooi.Leases.Sample.keyed
started-Agrees = record {
  recorded = λ mac ip expiry found. absurd (ground arith);
  stored = λ mac r found. absurd (ground arith);
  readable = λ mac r found. absurd (ground arith);
}

serve-Agrees_example :
    Agrees host database_laws
      (serve host started events).records_v4
      (serve host started events).leasedb
serve-Agrees_example = serve-Agrees host database_laws started events parses_all started-Agrees

load_records-serve_example :
    (m : Assoc Record) × (load_records host (serve host started events).leasedb ≡ ok m)
    × ((mac : String) → lookup mac m ≡ lookup mac (serve host started events).records_v4)
load_records-serve_example =
    load_records-serve host net_laws database_laws started events parses_all started-Agrees

odd_unreadable : host.parse_mac (client host from_odd) ≡ none
unfolding oooi.Prelude.join oooi.Prelude.show_ℕ
odd_unreadable = refl

granted-odd : granted (reply host started from_odd) ≡ some 10
unfolding handler4 lookup allocate_from oooi.Prelude.any_of
granted-odd = refl

load_records-unreadable_example : load_records host (after host started from_odd).leasedb ≢ ok []
unfolding lookup
load_records-unreadable_example =
    load_records-unreadable host database_laws started from_odd [] 10 odd_unreadable refl
      granted-odd
