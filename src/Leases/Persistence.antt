-- ===== src/Leases/Persistence.antt =====
-- The lease table against the records, while the database works.
use oooi.Prelude.{
  ℕ, ◌*◌, ltb, String, List, [], ◌∷◌, some, ◌≡◌, inl, inr, refl, arith, eq_iff, Has, Bool-cases,
  ◌&&◌, ◌===◌, if◌then◌else◌,
}
use oooi.Prelude.Assoc.{Assoc, lookup, insert, lookup-insert}
use oooi.Packet.{Response}
use oooi.Time.{second, add}
use oooi.Leases.Host.{Host, Row, expiry_of, HealthyDatabase}
use oooi.Leases.State.{Record, PluginState}
use oooi.Leases.Storage.{save_ip_address}
use oooi.Leases.Handler.{new_record, extend, lease_new, renew}
use oooi.Leases.Addresses.{Event, after, client, serve, handler4_cases}

-- A hardware address whose text net.ParseMAC reads back.
abbrev pub Readable : Host → String → Type 0
Readable h mac = (hw : List ℕ) × (h.parse_mac mac ≡ some hw) × (h.mac_string hw ≡ mac)

module _ (h : Host) (db : HealthyDatabase h.database) where
  -- The table and the records say the same: each row is of a record, and each record has its row.
  pub record Agrees (records : Assoc Record) (rows : h.Db) : Type 0 where
    pub recorded :
        (mac ip : String) (expiry : ℕ)
        → expiry_of mac ip (db.table rows) ≡ some expiry
        → (r : Record) × (lookup mac records ≡ some r)
          × (h.ip_string r.ip ≡ ip)
          × (r.expires ≡ expiry)
    pub stored :
        (mac : String) (r : Record)
        → lookup mac records ≡ some r
        → expiry_of mac (h.ip_string r.ip) (db.table rows) ≡ some r.expires
    pub readable : (mac : String) (r : Record) → lookup mac records ≡ some r → Readable h mac

  -- Saving writes one row and leaves the others.
  pub expiry_of-save :
      (mac m ip : String) (r : Record) (rows : h.Db)
      → expiry_of m ip (db.table (save_ip_address h mac r rows).1) ≡ (
          if mac === m && h.ip_string r.ip === ip
          then some r.expires
          else expiry_of m ip (db.table rows))
  unfolding save_ip_address
  expiry_of-save mac m ip r rows =
      let row : Row = record { mac = mac; ip = h.ip_string r.ip; expiry = r.expires } in
      ground (arith, db.prepares rows, db.inserts row rows, db.upsert row rows m ip)

  -- Storing `r` for a client that had no record, or one with the same address, keeps agreement.
  save-Agrees :
      (records : Assoc Record) (rows : h.Db) (mac : String) (r : Record)
      → Agrees records rows
      → Readable h mac
      → ((q : Record) → lookup mac records ≡ some q → q.ip ≡ r.ip)
      → Agrees (insert mac r records) (save_ip_address h mac r rows).1
  save-Agrees records rows mac r v ok same = record {
    recorded = λ m ip e found. go m ip e found;
    stored = λ m q found. ground (
      arith,
      lookup-insert mac m r records,
      expiry_of-save mac m (h.ip_string q.ip) r rows,
      eq_iff mac m,
      eq_iff (h.ip_string r.ip) (h.ip_string q.ip),
      v.stored m q,
    );
    readable = λ m q found. elim (Bool-cases (mac === m)) [
      | inl hit ↦ rw (← (eq_iff mac m).0 hit) ok
      | inr miss ↦ v.readable m q (ground (arith, lookup-insert mac m r records))
    ];
  }
    where
      go :
          (m ip : String) (e : ℕ)
          → expiry_of m ip (db.table (save_ip_address h mac r rows).1) ≡ some e
          → (q : Record) × (lookup m (insert mac r records) ≡ some q)
            × (h.ip_string q.ip ≡ ip)
            × (q.expires ≡ e)
      go m ip e found = elim (Bool-cases (mac === m && h.ip_string r.ip === ip)) [
        | inl hit ↦ (
          r,
          ground (arith, lookup-insert mac m r records),
          ground (arith, eq_iff (h.ip_string r.ip) ip),
          ground (arith, expiry_of-save mac m ip r rows),
        )
        | inr miss ↦
            let (q, held, at, ends) =
              v.recorded m ip e (ground (arith, expiry_of-save mac m ip r rows)) in
            (
              q,
              ground (
                arith,
                lookup-insert mac m r records,
                eq_iff mac m,
                same q,
                eq_iff (h.ip_string r.ip) ip,
              ),
              at,
              ends,
            )
      ]

  renew-Agrees :
      (s : PluginState h) (mac : String) (now later : ℕ) (resp : Response) (r : Record)
      → Agrees s.records_v4 s.leasedb
      → lookup mac s.records_v4 ≡ some r
      → Agrees
          (renew h s mac now later resp r).0.records_v4
          (renew h s mac now later resp r).0.leasedb
  unfolding renew
  renew-Agrees s mac now later resp r v found =
      elim (Bool-cases (ltb (r.expires * second) (add now s.lease_time))) [
        | inl short ↦
            rw (short, renew)
              (save-Agrees s.records_v4 s.leasedb mac (extend s.lease_time later r) v
                (v.readable mac r found) (λ q held. ground arith))
        | inr long ↦ rw (long, renew) v
      ]

  -- Every request of a client with a readable hardware address keeps the table and the records
  -- in agreement.
  pub after-Agrees :
      (s : PluginState h) (e : Event)
      → Readable h (client h e)
      → Agrees s.records_v4 s.leasedb
      → Agrees (after h s e).records_v4 (after h s e).leasedb
  unfolding lease_new renew
  after-Agrees s e ok v =
      handler4_cases h (λ o. Agrees o.0.records_v4 o.0.leasedb) s e (λ missing full. v)
        (λ ip missing got.
          save-Agrees s.records_v4 s.leasedb (client h e) (new_record s.lease_time e.now ip) v ok
            (λ q found. cc))
        (λ r found. renew-Agrees s (client h e) e.now e.later e.response r v found)

  -- Any requests of clients whose hardware addresses net.ParseMAC reads back keep the lease table
  -- and the records in agreement: each row is that of a record with its address and expiry, and
  -- each record has its row. The database has to work.
  pub serve-Agrees :
      (s : PluginState h) (es : List Event)
      → ((e : Event) → Has e es → Readable h (client h e))
      → Agrees s.records_v4 s.leasedb
      → Agrees (serve h s es).records_v4 (serve h s es).leasedb
  unfolding serve
  serve-Agrees s [] ok v = v
  serve-Agrees s (e ∷ es) ok v =
      serve-Agrees (after h s e) es (λ x here. ok x (inr here))
        (after-Agrees s e (ok e (inl refl)) v)
