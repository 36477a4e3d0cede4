-- ===== src/Leases/State.antt =====
-- The lease records and the state of the plugin: plugin.go, lines 32 to 47.
use oooi.Prelude.{ℕ}
use oooi.Prelude.Assoc.{Assoc}
use oooi.Time.{Duration}
use oooi.Leases.Host.{Host}

-- An IPv4 address as a 32-bit number, and the second at which its lease ends.
pub record Record : Type 0 where
  pub ip : ℕ
  pub expires : ℕ

-- The mutex is taken for the whole of each call, so that calls follow one another. A plugin that
-- runs has its database.
pub record PluginState (h : Host) : Type 0 where
  pub records_v4 : Assoc Record
  pub lease_time : Duration
  pub leasedb : h.Db
  pub allocator : h.Pool
