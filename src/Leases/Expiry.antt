-- ===== src/Leases/Expiry.antt =====
-- How long a recorded lease lasts, against what the client is told.
use oooi.Prelude.{
  ℕ, suc, String, true, false, ◌+◌, ◌*◌, ◌≤◌, ◌<◌, Option, none, some, ◌≡◌, ◌↔◌, ◌⊎◌, inl, inr,
  refl, arith, eq_iff, ltb, if◌then◌else◌,
}
use oooi.Prelude.Assoc.{lookup, lookup-insert, lookup-insert_self}
use oooi.Time.{Duration, pos, negsuc, second, half_second, add, round, round_duration}
use oooi.Packet.{Response}
use oooi.Leases.Host.{Host}
use oooi.Leases.State.{Record, PluginState}
use oooi.Leases.Handler.{answer, new_record, extend, lease_new, renew}
use oooi.Leases.Addresses.{Event, after, reply, client, handler4_cases}

add_mono : (t t' : ℕ) (d : Duration) → t ≤ t' → add t d ≤ add t' d
unfolding add
add_mono t t' (pos d) le = omega arith
add_mono t t' (negsuc d) le = omega arith

-- The end of the lease in a record; 0 if there is none.
abbrev pub ends : Option Record → ℕ
ends none = 0
ends (some r) = r.expires

new_record-covers :
    (d : Duration) (now ip : ℕ) → add now d < (new_record d now ip).expires * second + second
new_record-covers d now ip = omega arith

extend-covers :
    (d : Duration) (now later : ℕ) (r : Record)
    → now ≤ later
    → add now d < (extend d later r).expires * second + half_second
extend-covers d now later r le = omega (arith, add_mono now later d le)

extend-grows :
    (d : Duration) (now later : ℕ) (r : Record)
    → now ≤ later
    → r.expires * second < add now d
    → r.expires ≤ (extend d later r).expires
extend-grows d now later r le short = omega (arith, add_mono now later d le)

ℕ-cases : (n : ℕ) → (n ≡ 0) ⊎ ((k : ℕ) × (n ≡ suc k))
ℕ-cases ℕ.zero = inl refl
ℕ-cases (ℕ.suc k) = inr (k, refl)

module _ (h : Host) where
  ends_after_given :
      (s : PluginState h) (e : Event) (r : Record)
      → e.now ≤ e.later
      → lookup (client h e) (after h s e).records_v4 ≡ some r
      → add e.now s.lease_time < r.expires * second + second
  unfolding lease_new renew
  ends_after_given s e r le found =
      handler4_cases h
        (λ o.
          lookup (client h e) o.0.records_v4 ≡ some r
          → add e.now s.lease_time < r.expires * second + second)
        s e (λ missing full found. cc)
        (λ x missing got found. ground (
          arith,
          new_record-covers s.lease_time e.now x,
          lookup-insert_self (client h e) (new_record s.lease_time e.now x) s.records_v4,
        ))
        (λ q old found. ground (
          arith,
          extend-covers s.lease_time e.now e.later q le,
          lookup-insert_self (client h e) (extend s.lease_time e.later q) s.records_v4,
        ))
        found

  -- No request makes a recorded lease end earlier, neither its own client's nor another's, if the
  -- clock does not run backwards.
  pub ends-le-after :
      (s : PluginState h) (e : Event) (mac : String)
      → e.now ≤ e.later
      → ends (lookup mac s.records_v4) ≤ ends (lookup mac (after h s e).records_v4)
  unfolding lease_new renew
  ends-le-after s e mac le =
      handler4_cases h (λ o. ends (lookup mac s.records_v4) ≤ ends (lookup mac o.0.records_v4)) s e
        (λ missing full. omega arith)
        (λ x missing got. ground (
          arith,
          eq_iff (client h e) mac,
          lookup-insert (client h e) mac (new_record s.lease_time e.now x) s.records_v4,
        ))
        (λ q old. ground (
          arith,
          eq_iff (client h e) mac,
          extend-grows s.lease_time e.now e.later q le,
          lookup-insert (client h e) mac (extend s.lease_time e.later q) s.records_v4,
        ))

  -- A request is dropped, and the chain of handlers stopped, exactly when its client has no record
  -- and the allocator gives no address.
  pub dropped_iff :
      (s : PluginState h) (e : Event)
      → (reply h s e ≡ (none, true))
        ↔ ((lookup (client h e) s.records_v4 ≡ none) × ((h.allocate none s.allocator).0 ≡ none))
  unfolding lease_new renew
  dropped_iff s e =
      handler4_cases h
        (λ o.
          (o.1 ≡ (none, true))
          ↔ ((lookup (client h e) s.records_v4 ≡ none) × ((h.allocate none s.allocator).0 ≡ none)))
        s e (λ missing full. ((λ _. (missing, full)), (λ _. refl)))
        (λ x missing got. (λ q. ground arith, λ q. ground arith))
        (λ r found. (λ q. ground arith, λ q. ground arith))

  renew_cases :
      (s : PluginState h) (mac : String) (now later : ℕ) (resp : Response) (r : Record)
      → (q : Record) × ((renew h s mac now later resp r).1
          ≡ (some (answer s.lease_time q resp), false))
  unfolding renew
  renew_cases s mac now later resp r = (
    if ltb (r.expires * second) (add now s.lease_time) then extend s.lease_time later r else r,
    ground arith,
  )

  -- A request is either dropped, with all records left as they were, or answered with the lease
  -- time of the plugin rounded to seconds, the host name left as it was, and the chain of handlers
  -- going on.
  pub reply_cases :
      (s : PluginState h) (e : Event)
      → ((reply h s e ≡ (none, true)) × ((after h s e).records_v4 ≡ s.records_v4))
        ⊎ ((resp : Response) × (reply h s e ≡ (some resp, false))
            × (resp.lease_time ≡ some (round_duration s.lease_time))
            × (resp.host_name ≡ e.response.host_name))
  unfolding lease_new renew answer
  reply_cases s e =
      handler4_cases h
        (λ o.
          ((o.1 ≡ (none, true)) × (o.0.records_v4 ≡ s.records_v4))
          ⊎ ((resp : Response) × (o.1 ≡ (some resp, false))
              × (resp.lease_time ≡ some (round_duration s.lease_time))
              × (resp.host_name ≡ e.response.host_name)))
        s e (λ missing full. inl (refl, refl))
        (λ x missing got.
          inr (answer s.lease_time (new_record s.lease_time e.now x) e.response, refl, refl, refl))
        (λ r found.
          let (q, same) = renew_cases s (client h e) e.now e.later e.response r in
          inr (answer s.lease_time q e.response, same, refl, refl))

  ends_after_rounded : (t : ℕ) (d : Duration) → add t (round_duration d) ≤ add t d + half_second
  unfolding add round_duration
  ends_after_rounded t (pos d) = omega arith
  ends_after_rounded t (negsuc d) = elim (ℕ-cases (round (suc d))) [
    | inl none_left ↦ rw none_left (omega arith)
    | inr (k, some_left) ↦ rw some_left (omega arith)
  ]

  -- When a request is answered, the recorded lease ends less than one and a half seconds before the
  -- end of the lease that is written into the response, counted from the first reading of the
  -- clock, if the clock does not run backwards.
  pub ends_after :
      (s : PluginState h) (e : Event) (r : Record) (resp : Response) (d : Duration)
      → e.now ≤ e.later
      → reply h s e ≡ (some resp, false)
      → resp.lease_time ≡ some d
      → lookup (client h e) (after h s e).records_v4 ≡ some r
      → add e.now d < r.expires * second + second + half_second
  ends_after s e r resp d le replied given found = elim (reply_cases s e) [
    | inl (dropped, same) ↦ absurd (ground arith)
    | inr (resp', replied', time, name) ↦
        let same : d ≡ round_duration s.lease_time = ground arith in
        rw same
          (omega (arith, ends_after_given s e r le found, ends_after_rounded e.now s.lease_time))
  ]
