-- ===== src/Leases/Storage.antt =====
-- storage.go: the lease table.
use oooi.Prelude.{
  String, Bool, true, false, List, [], ◌∷◌, Option, none, some, Outcome, ok, err, ◌>>=◌,
  if◌then◌else◌,
}
use oooi.Prelude.Assoc.{Assoc, insert}
use oooi.Leases.Host.{Host, Row}
use oooi.Leases.State.{Record}

pub data StorageError : Type 0 where
  open_failed table_creation_failed preparation_failed insert_failed running : StorageError

pub data LoadError : Type 0 where
  query_failed scan_failed row_scanning : LoadError
  malformed_hardware_address not_ipv4 : String → LoadError

module _ (h : Host) where
  created : Bool × h.Db → Outcome StorageError h.Db
  created (true, db) = ok db
  created (false, db) = err table_creation_failed

  load_db : String → Outcome StorageError h.Db
  unfolding created
  load_db path = elim (h.open_db path) [
    | none ↦ err open_failed
    | some db ↦ created (h.create_table db)
  ]

  -- One round of the loop over the rows.
  unfoldable pub load_row : Assoc Record → Option Row → Outcome LoadError (Assoc Record)
  load_row records none = err scan_failed
  load_row records (some row) = elim (h.parse_mac row.mac) [
    | none ↦ err (malformed_hardware_address row.mac)
    | some hwaddr ↦ elim (h.parse_ip4 row.ip) [
      | none ↦ err (not_ipv4 row.ip)
      | some ipaddr ↦
          ok (insert (h.mac_string hwaddr) (record { ip = ipaddr; expires = row.expiry }) records)
    ]
  ]

  unfoldable pub load_rows : Assoc Record → List (Option Row) → Outcome LoadError (Assoc Record)
  load_rows records [] = ok records
  load_rows records (scan ∷ rest) = do records' ← load_row records scan; load_rows records' rest

  finish : Bool → Assoc Record → Outcome LoadError (Assoc Record)
  finish failed records = if failed then err row_scanning else ok records

  -- The error of rows.Close() is assigned after the result is fixed, and is lost.
  unfoldable pub load_records : h.Db → Outcome LoadError (Assoc Record)
  unfolding finish
  load_records db = elim (h.query db) [
    | none ↦ err query_failed
    | some rows ↦ load_rows [] rows.scans >>= finish rows.failed
  ]

  inserted : Bool × h.Db → Outcome StorageError (Unit {0}) × h.Db
  inserted (true, db) = (ok tt, db)
  inserted (false, db) = (err insert_failed, db)

  unfoldable pub save_ip_address : String → Record → h.Db → Outcome StorageError (Unit {0}) × h.Db
  unfolding inserted
  save_ip_address mac r db =
      if h.prepare_insert db
      then inserted
          (h.exec_insert (record { mac = mac; ip = h.ip_string r.ip; expiry = r.expires }) db)
      else (err preparation_failed, db)

  -- `none` stands for the nil of a plugin that has no database yet.
  unfoldable pub register_backing_db : Option h.Db → String → Outcome StorageError h.Db
  unfolding load_db
  register_backing_db (some db) filename = err running
  register_backing_db none filename = load_db filename
