-- ===== src/Leases/Addresses.antt =====
-- No two clients share an address, and a client keeps its address: Handler4 over any history.
use oooi.Prelude.{
  ℕ, String, true, List, [], ◌∷◌, Option, none, some, ◌≡◌, refl, inl, inr, arith, Option-cases,
  eq_iff,
}
use oooi.Prelude.Assoc.{lookup, lookup-insert}
use oooi.Packet.{Request, Response}
use oooi.Leases.Host.{Host, LawfulAllocator}
use oooi.Leases.State.{Record, PluginState}
use oooi.Leases.Handler.{Reply, new_record, extend, lease_new, renew, handler4}

-- A request as the server hands it to the plugin: the clock at its two readings, and the response
-- so far.
pub record Event : Type 0 where
  pub request : Request
  pub now : ℕ
  pub later : ℕ
  pub response : Response

module _ (h : Host) where
  abbrev pub after : PluginState h → Event → PluginState h
  after s e = (handler4 h s e.request e.now e.later e.response).0

  abbrev pub reply : PluginState h → Event → Reply
  reply s e = (handler4 h s e.request e.now e.later e.response).1

  abbrev pub client : Event → String
  client e = h.mac_string e.request.hardware_addr

  unfoldable pub serve : PluginState h → List Event → PluginState h
  serve s [] = s
  serve s (e ∷ rest) = serve (after s e) rest

  -- Split on what the handler does: nothing is allocated, an address is new, or a record is there.
  pub handler4_cases {ℓ} :
      (P : PluginState h × Reply → Type ℓ) (s : PluginState h) (e : Event)
      → (lookup (client e) s.records_v4 ≡ none
          → (h.allocate none s.allocator).0 ≡ none
          → P (record s { allocator = (h.allocate none s.allocator).1 }, (none, true)))
      → ((ip : ℕ)
          → lookup (client e) s.records_v4 ≡ none
          → (h.allocate none s.allocator).0 ≡ some ip
          → P (
              lease_new h s (client e) e.now e.response (some ip, (h.allocate none s.allocator).1)))
      → ((r : Record)
          → lookup (client e) s.records_v4 ≡ some r
          → P (renew h s (client e) e.now e.later e.response r))
      → P (handler4 h s e.request e.now e.later e.response)
  unfolding handler4 lease_new
  handler4_cases P s e full new old = elim (Option-cases (lookup (client e) s.records_v4)) [
    | inr (r, found) ↦ rw (found, handler4) (old r found)
    | inl missing ↦ rw (missing, handler4) (go missing (h.allocate none s.allocator).0 refl)
  ]
    where
      go :
          lookup (client e) s.records_v4 ≡ none
          → (o : Option ℕ) → (h.allocate none s.allocator).0 ≡ o
          → P (lease_new h s (client e) e.now e.response (h.allocate none s.allocator))
      go missing none q = rw (q, lease_new) (full missing q)
      go missing (some ip) q = rw (q, lease_new) (new ip missing q)

  module _ (laws : LawfulAllocator h.allocator) where
    -- Each recorded address is in use, and no address is recorded twice.
    pub record IsValid (s : PluginState h) : Type 0 where
      pub leased :
          (mac : String) (r : Record)
          → lookup mac s.records_v4 ≡ some r
          → laws.used s.allocator r.ip ≡ true
      pub apart :
          (mac mac' : String) (r r' : Record)
          → lookup mac s.records_v4 ≡ some r
          → lookup mac' s.records_v4 ≡ some r'
          → r.ip ≡ r'.ip
          → mac ≡ mac'

    lease_new-IsValid :
        (s : PluginState h) (mac : String) (now ip : ℕ) (resp : Response)
        → IsValid s
        → (h.allocate none s.allocator).0 ≡ some ip
        → IsValid (lease_new h s mac now resp (some ip, (h.allocate none s.allocator).1)).0
    unfolding lease_new
    lease_new-IsValid s mac now ip resp v got =
        let r = new_record s.lease_time now ip in
        record {
          leased = λ m q found. ground (
            arith,
            lookup-insert mac m r s.records_v4,
            v.leased m q,
            laws.marks none s.allocator ip got q.ip,
          );
          apart = λ m m' q q' found found' same. ground (
            arith,
            lookup-insert mac m r s.records_v4,
            lookup-insert mac m' r s.records_v4,
            eq_iff mac m,
            eq_iff mac m',
            v.apart m m' q q',
            v.leased m q,
            v.leased m' q',
            laws.fresh none s.allocator ip got,
          );
        }

    renew-IsValid :
        (s : PluginState h) (mac : String) (now later : ℕ) (resp : Response) (r : Record)
        → IsValid s
        → lookup mac s.records_v4 ≡ some r
        → IsValid (renew h s mac now later resp r).0
    unfolding renew
    renew-IsValid s mac now later resp r v old =
        let x = extend s.lease_time later r in
        record {
          leased = λ m q found.
              ground (arith, lookup-insert mac m x s.records_v4, v.leased m q, v.leased mac r);
          apart = λ m m' q q' found found' same. ground (
            arith,
            lookup-insert mac m x s.records_v4,
            lookup-insert mac m' x s.records_v4,
            eq_iff mac m,
            eq_iff mac m',
            v.apart m m' q q',
            v.apart mac m' r q',
            v.apart m mac q r,
          );
        }

    -- Every request keeps the recorded addresses in use and apart.
    pub handler4-IsValid : (s : PluginState h) (e : Event) → IsValid s → IsValid (after s e)
    handler4-IsValid s e v =
        handler4_cases (λ o. IsValid o.0) s e
          (λ missing full. record {
            leased =
                λ m r found. ground (arith, v.leased m r, laws.failure none s.allocator full r.ip);
            apart = v.apart;
          })
          (λ ip missing got. lease_new-IsValid s _ e.now ip e.response v got)
          (λ r found. renew-IsValid s _ e.now e.later e.response r v found)

    -- Any requests, one after the other, keep the state valid: every recorded address is in use in
    -- the allocator, and none is recorded for two clients. The allocator has to be lawful.
    pub serve-IsValid : (s : PluginState h) (es : List Event) → IsValid s → IsValid (serve s es)
    unfolding serve
    serve-IsValid s [] v = v
    serve-IsValid s (e ∷ rest) v = serve-IsValid (after s e) rest (handler4-IsValid s e v)
