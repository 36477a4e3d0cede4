-- ===== src/Leases/Handler.antt =====
-- Handler4 of plugin.go. `now` and `later` are the readings of time.Now(), in their order.
use oooi.Prelude.{ℕ, String, Bool, true, false, Option, none, some, ◌*◌, ltb, if◌then◌else◌}
use oooi.Prelude.Assoc.{lookup, insert}
use oooi.Time.{Duration, second, add, unix, round, round_duration}
use oooi.Packet.{Request, Response}
use oooi.Leases.Host.{Host}
use oooi.Leases.State.{Record, PluginState}
use oooi.Leases.Storage.{save_ip_address}

-- The answer, `none` for nil, and whether the chain of handlers stops.
abbrev pub Reply : Type 0
Reply = Option Response × Bool

-- What is written into the response on every path that succeeds.
unfoldable pub answer : Duration → Record → Response → Response
answer lease_time r resp = record resp {
  your_ip_addr = some r.ip;
  lease_time = some (round_duration lease_time);
}

-- The record of a new lease of `ip`.
abbrev pub new_record : Duration → ℕ → ℕ → Record
new_record lease_time now ip = record { ip = ip; expires = unix (add now lease_time) }

-- The record `r` with its lease extended.
abbrev pub extend : Duration → ℕ → Record → Record
extend lease_time later r = record r { expires = unix (round (add later lease_time)) }

module _ (h : Host) where
  -- After the allocator's result, for a hardware address that has no record. A failure to save is
  -- only logged.
  unfoldable pub lease_new :
      PluginState h → String → ℕ → Response → Option ℕ × h.Pool → PluginState h × Reply
  unfolding answer
  lease_new s mac now resp (none, pool) = (record s { allocator = pool }, (none, true))
  lease_new s mac now resp (some ip, pool) =
      let r = new_record s.lease_time now ip in
      (
        record s {
          records_v4 = insert mac r s.records_v4;
          leasedb = (save_ip_address h mac r s.leasedb).1;
          allocator = pool;
        },
        (some (answer s.lease_time r resp), false),
      )

  -- For a hardware address with the record `r`.
  unfoldable pub renew : PluginState h → String → ℕ → ℕ → Response → Record → PluginState h × Reply
  unfolding answer
  renew s mac now later resp r =
      let extended = extend s.lease_time later r in
      if ltb (r.expires * second) (add now s.lease_time)
      then (
        record s {
          records_v4 = insert mac extended s.records_v4;
          leasedb = (save_ip_address h mac extended s.leasedb).1;
        },
        (some (answer s.lease_time extended resp), false),
      )
      else (s, (some (answer s.lease_time r resp), false))

  unfoldable pub handler4 : PluginState h → Request → ℕ → ℕ → Response → PluginState h × Reply
  unfolding lease_new renew
  handler4 s req now later resp =
      let mac = h.mac_string req.hardware_addr in
      elim (lookup mac s.records_v4) [
        | none ↦ lease_new s mac now resp (h.allocate none s.allocator)
        | some r ↦ renew s mac now later resp r
      ]
