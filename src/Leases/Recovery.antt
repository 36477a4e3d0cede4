-- ===== src/Leases/Recovery.antt =====
-- A restart: loadRecords on the table that the handler wrote.
use oooi.Prelude.{
  ℕ, String, List, [], ◌∷◌, Option, none, some, ok, ◌≡◌, ◌⊎◌, inl, inr, refl, sym, ap, ◌∙◌, arith,
  eq_iff, map, Has, Bool-cases, ◌&&◌, ◌===◌,
}
use oooi.Prelude.Assoc.{Assoc, lookup, insert, lookup-insert, lookup-insert_self}
use oooi.Leases.Host.{Host, Row, expiry_of, HealthyDatabase, LawfulNet}
use oooi.Leases.State.{Record, PluginState}
use oooi.Leases.Storage.{load_row, load_rows, load_records}
use oooi.Leases.Addresses.{Event, client, serve}
use oooi.Leases.Persistence.{Agrees, Readable, serve-Agrees}

pub expiry_of-Has :
    (mac ip : String) (rows : List Row) (e : ℕ)
    → expiry_of mac ip rows ≡ some e
    → (row : Row) × Has row rows × (row.mac ≡ mac)
unfolding expiry_of
expiry_of-Has mac ip [] e found = absurd (ground arith)
expiry_of-Has mac ip (x ∷ rows) e found = elim (Bool-cases (x.mac === mac && x.ip === ip)) [
  | inl hit ↦ (x, inl refl, ground (arith, eq_iff x.mac mac))
  | inr miss ↦
      let (row, here, same) = expiry_of-Has mac ip rows e (ground arith) in (row, inr here, same)
]

module _ (h : Host) (net : LawfulNet h.net) (db : HealthyDatabase h.database) where
  -- A row whose texts are read back.
  abbrev Legible : Row → Type 0
  Legible row =
      (hw : List ℕ) × (h.parse_mac row.mac ≡ some hw)
      × (h.mac_string hw ≡ row.mac)
      × (a : ℕ) × (h.parse_ip4 row.ip ≡ some a)
      × (h.ip_string a ≡ row.ip)

  -- The record that a row stands for.
  abbrev Stands : Row → String → Record → Type 0
  Stands row mac r = (row.mac ≡ mac) × (h.ip_string r.ip ≡ row.ip) × (r.expires ≡ row.expiry)

  -- What the loop over the rows gives, from the records that it starts with.
  record Loaded (acc : Assoc Record) (rows : List Row) (m : Assoc Record) : Type 0 where
    origin :
        (mac : String) (r : Record)
        → lookup mac m ≡ some r
        → (lookup mac acc ≡ some r) ⊎ ((row : Row) × Has row rows × Stands row mac r)
    present : (row : Row) → Has row rows → (r : Record) × (lookup row.mac m ≡ some r)
    kept :
        (mac : String) (r : Record)
        → lookup mac acc ≡ some r
        → (r' : Record) × (lookup mac m ≡ some r')

  load_row-Legible :
      (acc : Assoc Record) (row : Row) (hw : List ℕ) (a : ℕ)
      → h.parse_mac row.mac ≡ some hw
      → h.mac_string hw ≡ row.mac
      → h.parse_ip4 row.ip ≡ some a
      → load_row h acc (some row)
        ≡ ok (insert row.mac (record { ip = a; expires = row.expiry }) acc)
  unfolding load_row
  load_row-Legible acc row hw a p q e = ground arith

  Loaded-cons :
      (acc : Assoc Record) (row : Row) (r : Record) (rows : List Row) (m : Assoc Record)
      → Stands row row.mac r
      → Loaded (insert row.mac r acc) rows m
      → Loaded acc (row ∷ rows) m
  Loaded-cons acc row r rows m stands v = record {
    origin = λ mac q found. elim (v.origin mac q found) [
      | inr (x, here, is) ↦ inr (x, inr here, is)
      | inl old ↦ elim (Bool-cases (row.mac === mac)) [
        | inl hit ↦ inr (
          row,
          inl refl,
          (
            (eq_iff row.mac mac).0 hit,
            ground (arith, stands, lookup-insert row.mac mac r acc),
            ground (arith, stands, lookup-insert row.mac mac r acc),
          ),
        )
        | inr miss ↦ inl (ground (arith, lookup-insert row.mac mac r acc))
      ]
    ];
    present = λ x here. elim here [
      | inl same ↦ let (q, found) = v.kept row.mac r (lookup-insert_self row.mac r acc) in (q, cc)
      | inr there ↦ v.present x there
    ];
    kept = λ mac q found. elim (Bool-cases (row.mac === mac)) [
      | inl hit ↦ v.kept mac r (ground (arith, lookup-insert row.mac mac r acc))
      | inr miss ↦ v.kept mac q (ground (arith, lookup-insert row.mac mac r acc))
    ];
  }

  load_rows-Loaded :
      (acc : Assoc Record) (rows : List Row)
      → ((row : Row) → Has row rows → Legible row)
      → (m : Assoc Record) × (load_rows h acc (map some rows) ≡ ok m) × Loaded acc rows m
  unfolding load_rows
  load_rows-Loaded acc [] legible = (
    acc,
    refl,
    record {
      origin = λ mac r found. inl found;
      present = λ row none_here. absurd none_here;
      kept = λ mac r found. (r, found);
    },
  )
  load_rows-Loaded acc (row ∷ rows) legible =
      let (hw, p, q, a, i, j) = legible row (inl refl) in
      let r : Record = record { ip = a; expires = row.expiry } in
      let (m, e, v) =
        load_rows-Loaded (insert row.mac r acc) rows (λ x here. legible x (inr here)) in
      (
        m,
        rw (load_row-Legible acc row hw a p q i) e,
        Loaded-cons acc row r rows m (refl, j, refl) v,
      )

  Agrees-Legible :
      (records : Assoc Record) (rows : h.Db)
      → Agrees h db records rows
      → (row : Row) → Has row (db.table rows)
      → Legible row
  Agrees-Legible records rows v row here =
      let (r, found, at, _) = v.recorded row.mac row.ip row.expiry (db.primary_key rows row here) in
      let (hw, p, q) = v.readable row.mac r found in
      (hw, p, q, r.ip, ap h.parse_ip4 (sym at) ∙ net.parse_ip4-ip_string r.ip, at)

  Loaded-lookup :
      (records : Assoc Record) (rows : h.Db) (m : Assoc Record)
      → Agrees h db records rows
      → Loaded [] (db.table rows) m
      → (mac : String) (o o' : Option Record) → lookup mac m ≡ o
      → lookup mac records ≡ o'
      → lookup mac m ≡ lookup mac records
  unfolding lookup
  Loaded-lookup records rows m v loaded mac none none q q' = q ∙ sym q'
  Loaded-lookup records rows m v loaded mac none (some r) q q' =
      let (row, here, same) =
        expiry_of-Has mac (h.ip_string r.ip) (db.table rows) r.expires (v.stored mac r q') in
      let (x, found) = loaded.present row here in absurd (cc)
  Loaded-lookup records rows m v loaded mac (some r) o' q q' = elim (loaded.origin mac r q) [
    | inl old ↦ absurd (cc)
    | inr (row, here, (same, at, ends)) ↦
        let (x, found, at', ends') =
          v.recorded row.mac row.ip row.expiry (db.primary_key rows row here) in
        ground (
          arith,
          net.parse_ip4-ip_string r.ip,
          net.parse_ip4-ip_string x.ip,
          ap h.parse_ip4 (at ∙ sym at'),
        )
  ]

  -- Loading a table that agrees with the records gives back the records.
  pub load_records-Agrees :
      (records : Assoc Record) (rows : h.Db)
      → Agrees h db records rows
      → (m : Assoc Record) × (load_records h rows ≡ ok m)
        × ((mac : String) → lookup mac m ≡ lookup mac records)
  unfolding load_records
  load_records-Agrees records rows v =
      let (m, e, loaded) = load_rows-Loaded [] (db.table rows) (Agrees-Legible records rows v) in
      (
        m,
        ground (arith, db.query_lem rows),
        λ mac.
            Loaded-lookup records rows m v loaded mac (lookup mac m) (lookup mac records) refl refl,
      )

  -- A restart keeps every lease: after any requests of clients whose hardware addresses
  -- net.ParseMAC reads back, loadRecords succeeds on the lease table and gives each client the
  -- record that the plugin held. The table and the records have to agree at first, the database to
  -- work and addresses to be read back.
  pub load_records-serve :
      (s : PluginState h) (es : List Event)
      → ((e : Event) → Has e es → Readable h (client h e))
      → Agrees h db s.records_v4 s.leasedb
      → (m : Assoc Record) × (load_records h (serve h s es).leasedb ≡ ok m)
        × ((mac : String) → lookup mac m ≡ lookup mac (serve h s es).records_v4)
  load_records-serve s es readable v =
      load_records-Agrees (serve h s es).records_v4 (serve h s es).leasedb
        (serve-Agrees h db s es readable v)
