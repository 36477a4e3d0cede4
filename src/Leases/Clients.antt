-- ===== src/Leases/Clients.antt =====
-- What the clients of the lease plugin see over a history of requests.
use oooi.Prelude.{ℕ, String, List, [], ◌∷◌, Option, none, some, ◌≡◌, refl, arith, eq_iff, ◌∙◌, sym}
use oooi.Prelude.Assoc.{lookup, lookup-insert, lookup-insert_self}
use oooi.Leases.Host.{Host, LawfulAllocator}
use oooi.Leases.State.{Record, PluginState}
use oooi.Leases.Handler.{Reply, answer, new_record, extend, lease_new, renew}
use oooi.Leases.Addresses.{
  Event, after, reply, client, serve, handler4_cases, IsValid, handler4-IsValid, serve-IsValid,
}

-- The address in a record.
abbrev pub ip_of : Option Record → Option ℕ
ip_of none = none
ip_of (some r) = some r.ip

-- The address that a reply gives.
abbrev pub granted : Reply → Option ℕ
granted (none, stop) = none
granted (some resp, stop) = resp.your_ip_addr

module _ (h : Host) where
  -- The address that the client `mac` holds.
  abbrev pub holds : PluginState h → String → Option ℕ
  holds s mac = ip_of (lookup mac s.records_v4)

  -- A held address is held after any request.
  pub after-holds :
      (s : PluginState h) (e : Event) (mac : String) (ip : ℕ)
      → holds s mac ≡ some ip
      → holds (after h s e) mac ≡ some ip
  unfolding lease_new renew
  after-holds s e mac ip held =
      handler4_cases h (λ o. holds o.0 mac ≡ some ip) s e (λ missing full. held)
        (λ x missing got. ground (
          arith,
          eq_iff (client h e) mac,
          lookup-insert (client h e) mac (new_record s.lease_time e.now x) s.records_v4,
        ))
        (λ r found. ground (
          arith,
          eq_iff (client h e) mac,
          lookup-insert (client h e) mac (extend s.lease_time e.later r) s.records_v4,
        ))

  pub serve-holds :
      (s : PluginState h) (es : List Event) (mac : String) (ip : ℕ)
      → holds s mac ≡ some ip
      → holds (serve h s es) mac ≡ some ip
  unfolding serve
  serve-holds s [] mac ip held = held
  serve-holds s (e ∷ es) mac ip held =
      serve-holds (after h s e) es mac ip (after-holds s e mac ip held)

  -- What a reply grants is exactly the address that the records hold for its client afterwards; a
  -- reply without an address leaves its client without a record.
  pub granted-eq-holds :
      (s : PluginState h) (e : Event) → granted (reply h s e) ≡ holds (after h s e) (client h e)
  unfolding lease_new renew answer
  granted-eq-holds s e =
      handler4_cases h (λ o. granted o.1 ≡ holds o.0 (client h e)) s e
        (λ missing full. ground arith)
        (λ x missing got.
          ground
            (arith, lookup-insert_self (client h e) (new_record s.lease_time e.now x) s.records_v4))
        (λ r found.
          ground
            (arith, lookup-insert_self (client h e) (extend s.lease_time e.later r) s.records_v4))

  -- Once a request of a client has been granted an address, each later request of that client is
  -- granted the same address, whatever requests come in between.
  pub granted_again :
      (s : PluginState h) (e e' : Event) (es : List Event) (ip : ℕ)
      → client h e ≡ client h e'
      → granted (reply h s e) ≡ some ip
      → granted (reply h (serve h (after h s e) es) e') ≡ some ip
  granted_again s e e' es ip same given =
      let held = sym (granted-eq-holds s e) ∙ given in
      let kept = serve-holds (after h s e) es (client h e) ip held in
      let again = after-holds (serve h (after h s e) es) e' (client h e) ip kept in
      granted-eq-holds (serve h (after h s e) es) e' ∙ rw (← same) again

  module _ (laws : LawfulAllocator h.allocator) where
    IsValid-apart :
        (s : PluginState h) (mac mac' : String) (ip : ℕ)
        → IsValid h laws s
        → holds s mac ≡ some ip
        → holds s mac' ≡ some ip
        → mac ≡ mac'
    IsValid-apart s mac mac' ip v held held' =
        go (lookup mac s.records_v4) refl (lookup mac' s.records_v4) refl
      where
        go :
            (o : Option Record)
            → lookup mac s.records_v4 ≡ o
            → (o' : Option Record) → lookup mac' s.records_v4 ≡ o'
            → mac ≡ mac'
        go (some r) q (some r') q' = v.apart mac mac' r r' q q' (ground arith)
        go none q o' q' = cc
        go (some r) q none q' = cc

    -- Two clients with different hardware addresses are never granted the same address: if a
    -- request is granted an address and, after any requests in between, another request is granted
    -- the same one, then both come from the same client. The first state has to be valid and the
    -- allocator lawful.
    pub granted_apart :
        (s : PluginState h) (e e' : Event) (es : List Event) (ip : ℕ)
        → IsValid h laws s
        → granted (reply h s e) ≡ some ip
        → granted (reply h (serve h (after h s e) es) e') ≡ some ip
        → client h e ≡ client h e'
    granted_apart s e e' es ip v given given' =
        let u = serve h (after h s e) es in
        let held =
          serve-holds (after h s e) es (client h e) ip (sym (granted-eq-holds s e) ∙ given) in
        IsValid-apart (after h u e') (client h e) (client h e') ip
          (handler4-IsValid h laws u e'
            (serve-IsValid h laws (after h s e) es (handler4-IsValid h laws s e v)))
          (after-holds u e' (client h e) ip held) (sym (granted-eq-holds u e') ∙ given')
