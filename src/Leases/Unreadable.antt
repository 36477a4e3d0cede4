-- ===== src/Leases/Unreadable.antt =====
-- A lease of a client whose hardware address net.ParseMAC does not accept: Handler4 saves it, and
-- loadRecords then refuses the whole table.
use oooi.Prelude.{
  ℕ, String, List, [], ◌∷◌, none, some, ok, ◌≡◌, ◌≢◌, inl, inr, arith, map, Has, eq_refl,
  Outcome-cases,
}
use oooi.Prelude.Assoc.{Assoc, lookup}
use oooi.Leases.Host.{Host, Row, HealthyDatabase}
use oooi.Leases.State.{Record, PluginState}
use oooi.Leases.Storage.{load_row, load_rows, load_records, save_ip_address}
use oooi.Leases.Handler.{new_record, lease_new}
use oooi.Leases.Addresses.{Event, after, reply, client, handler4_cases}
use oooi.Leases.Clients.{granted}
use oooi.Leases.Persistence.{expiry_of-save}
use oooi.Leases.Recovery.{expiry_of-Has}

module _ (h : Host) where
  load_rows-unreadable :
      (acc m : Assoc Record) (rows : List Row) (row : Row)
      → Has row rows
      → h.parse_mac row.mac ≡ none
      → load_rows h acc (map some rows) ≢ ok m
  unfolding load_rows load_row
  load_rows-unreadable acc m [] row here bad e = absurd here
  load_rows-unreadable acc m (x ∷ rows) row (inl same) bad e = ground arith
  load_rows-unreadable acc m (x ∷ rows) row (inr there) bad e =
      elim (Outcome-cases (load_row h acc (some x))) [
        | inl (f, q) ↦ ground arith
        | inr (acc', q) ↦ load_rows-unreadable acc' m rows row there bad (ground arith)
      ]

  module _ (db : HealthyDatabase h.database) where
    load_records-save :
        (mac : String) (r : Record) (rows : h.Db) (m : Assoc Record)
        → h.parse_mac mac ≡ none
        → load_records h (save_ip_address h mac r rows).1 ≢ ok m
    unfolding load_records
    load_records-save mac r rows m bad loads =
        let ip = h.ip_string r.ip in
        let saved = (save_ip_address h mac r rows).1 in
        let (row, here, same) =
          expiry_of-Has mac ip (db.table saved) r.expires
            (ground (arith, eq_refl mac, eq_refl ip, expiry_of-save h db mac mac ip r rows)) in
        let stuck = load_rows-unreadable [] m (db.table saved) row here (rw same bad) in
        elim (Outcome-cases (load_rows h [] (map some (db.table saved)))) [
          | inl (f, q) ↦ ground (arith, db.query_lem saved)
          | inr (m', q) ↦ stuck (ground (arith, db.query_lem saved))
        ]

    -- If a client that had no record is granted a lease and net.ParseMAC does not accept the text
    -- of its hardware address, the next loadRecords fails, so that the plugin does not start on
    -- that table. The database has to work.
    pub load_records-unreadable :
        (s : PluginState h) (e : Event) (m : Assoc Record) (ip : ℕ)
        → h.parse_mac (client h e) ≡ none
        → lookup (client h e) s.records_v4 ≡ none
        → granted (reply h s e) ≡ some ip
        → load_records h (after h s e).leasedb ≢ ok m
    unfolding lease_new
    load_records-unreadable s e m ip bad new given =
        handler4_cases h (λ o. granted o.1 ≡ some ip → load_records h o.0.leasedb ≢ ok m) s e
          (λ missing full given. absurd (cc))
          (λ x missing got given.
            load_records-save (client h e) (new_record s.lease_time e.now x) s.leasedb m bad)
          (λ r found. cc) given
