-- ===== src/Time.antt =====
-- Instants and durations of the package time, as far as internal/dhcp/plugins/leasedb/plugin.go
-- uses them. An instant is the number of nanoseconds since the epoch; int64 overflow, which takes
-- 292 years, and instants before the epoch are not modelled.
use oooi.Prelude.{ℕ, suc, ◌+◌, ◌-◌, ◌*◌, ◌/◌}

-- Nanoseconds; `negsuc n` is -(n + 1).
pub data Duration : Type 0 where
  pos : ℕ → Duration
  negsuc : ℕ → Duration

abbrev pub second : ℕ
second = 1_000_000_000

abbrev pub half_second : ℕ
half_second = 500_000_000

-- t.Add(d)
unfoldable pub add : ℕ → Duration → ℕ
add t (pos d) = t + d
add t (negsuc d) = t - suc d

-- t.Unix()
abbrev pub unix : ℕ → ℕ
unix t = t / second

-- t.Round(time.Second) of an instant: a half goes up.
abbrev pub round : ℕ → ℕ
round t = (t + half_second) / second * second

-- d.Round(time.Second) of a duration: a half goes away from zero.
unfoldable pub round_duration : Duration → Duration
round_duration (pos d) = pos (round d)
round_duration (negsuc d) = minus (round (suc d))
  where
    minus : ℕ → Duration
    minus n = elim n [ ℕ.zero ↦ pos 0 | ℕ.suc k ↦ negsuc k ]
