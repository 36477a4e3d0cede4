-- ===== src/DhcpServer/Range.antt =====
-- The plugin range, which is leasedb, when it starts from the configuration that the DHCPServer
-- controller writes.
use oooi.Prelude.{
  ℕ, String, some, List, [], ◌∷◌, ◌≡◌, ◌<◌, sym, ap, ◌∙◌, arith, or_default, ok, leb, inl, inr,
  Option-cases, Bool-cases,
}
use oooi.Api.Dhcp.{DhcpServer}
use oooi.Leases.Host.{Host, LawfulNet, LawfulAllocator}
use oooi.Leases.State.{PluginState}
use oooi.Leases.Setup.{setup_range, setup_args, setup_with, reallocate}
use oooi.Leases.SetupLaws.{setup_range-IsValid}
use oooi.Leases.Addresses.{IsValid}
use oooi.DhcpController.Config.{dhcp_config}
use oooi.DhcpServer.Configured.{Plain, args_of, rows, config-args}

-- The allocator covers the addresses from the first to the last before the loaded ones are taken,
-- and the time of a lease is the one that is written.
abbrev pub Covers : (h : Host) → String → String → String → PluginState h → Type 0
Covers h first last lease s =
    (start : ℕ) × (end : ℕ) × (pool : h.Pool) × (h.parse_ip4 first ≡ some start)
    × (h.parse_ip4 last ≡ some end)
    × (start < end)
    × (h.create start end ≡ some pool)
    × (reallocate h s.records_v4 pool ≡ ok s.allocator)
    × (h.parse_duration lease ≡ some s.lease_time)

module _ (h : Host) where
  setup_with-pool :
      (file : String) (start end : ℕ) (lease : String) (s : PluginState h)
      → setup_with h file start end lease ≡ ok s
      → (pool : h.Pool) × (h.create start end ≡ some pool)
        × (reallocate h s.records_v4 pool ≡ ok s.allocator)
        × (h.parse_duration lease ≡ some s.lease_time)
  unfolding setup_with
  setup_with-pool file start end lease s e = elim (Option-cases (h.create start end)) [
    | inl q ↦ absurd (ground arith)
    | inr (pool, q) ↦ (pool, q, ground arith, ground arith)
  ]

  setup_range-Covers :
      (file first last lease : String) (s : PluginState h)
      → setup_range h (file ∷ first ∷ last ∷ lease ∷ []) ≡ ok s
      → Covers h first last lease s
  unfolding setup_range setup_args
  setup_range-Covers file first last lease s e = elim (Option-cases (h.parse_ip4 first)) [
    | inl q ↦ absurd (ground arith)
    | inr (start, q) ↦ elim (Option-cases (h.parse_ip4 last)) [
      | inl r ↦ absurd (ground arith)
      | inr (end, r) ↦ elim (Bool-cases (leb end start)) [
        | inl bad ↦ absurd (ground arith)
        | inr good ↦
            let (pool, created, took, lasts) =
              setup_with-pool file start end lease s (ground arith) in
            (start, end, pool, q, r, ground arith, created, took, lasts)
      ]
    ]
  ]

  -- Take the configuration that the controller writes for a DHCPServer, none of whose addresses has
  -- a line end and whose lease settings are words. If the plugin range starts with the words behind
  -- its name in it, then both ends of the spec's range are addresses in ascending order, the
  -- allocator is the one for this range after the loaded leases are taken, a lease lasts as long as
  -- the spec says, 60s if it says nothing, and the state is valid. The allocator has to be lawful
  -- and addresses to be read back.
  pub config-Covers :
      (net : LawfulNet h.net) (laws : LawfulAllocator h.allocator) (dhcp : DhcpServer)
      (args : List String) (s : PluginState h)
      → Plain dhcp
      → args_of "range:" (rows (dhcp_config dhcp)) ≡ some args
      → setup_range h args ≡ ok s
      → let lease = dhcp.spec.lease_config in
        Covers h lease.range_start lease.range_end (or_default lease.lease_time "60s") s
        × IsValid h laws s
  config-Covers net laws dhcp args s plain read made =
      let lease = dhcp.spec.lease_config in
      let same : args
          ≡ "/var/lib/dhcp/leases.txt"
            ∷ lease.range_start
            ∷ lease.range_end
            ∷ or_default lease.lease_time "60s"
            ∷ [] =
        ground (arith, config-args dhcp plain) in
      (
        setup_range-Covers "/var/lib/dhcp/leases.txt" lease.range_start lease.range_end
            (or_default lease.lease_time "60s") s (ap (setup_range h) (sym same) ∙ made),
        setup_range-IsValid h net laws args s made,
      )
