-- ===== src/Leases/Host.antt =====
-- What the lease plugin uses and does not implement: the package net, the bitmap allocator of
-- coredhcp, and the database behind database/sql. Each is an interface with its documented laws.
use oooi.Prelude.{
  ℕ, String, Bool, true, false, map, Has, List, Option, none, some, ◌≡◌, ◌==◌, ◌||◌, ◌&&◌, ◌===◌,
  [], ◌∷◌, if◌then◌else◌,
}
use oooi.Time.{Duration}

-- net and time: printing and parsing. `parse_ip4 s` is `net.ParseIP(s).To4()` as a number.
pub record Net : Type 0 where
  pub mac_string : List ℕ → String
  pub parse_mac : String → Option (List ℕ)
  pub ip_string : ℕ → String
  pub parse_ip4 : String → Option ℕ
  pub parse_duration : String → Option Duration

-- An address is read back from its text. Numbers of more than 32 bits, which stand for no address,
-- are told apart in the same way.
pub record LawfulNet (n : Net) : Type 0 where
  pub parse_ip4-ip_string : (a : ℕ) → n.parse_ip4 (n.ip_string a) ≡ some a

-- coredhcp/plugins/allocators: `create` is bitmap.NewIPv4Allocator, and `allocate` takes the hint
-- of `net.IPNet{IP: hint}`; no address comes back if the allocator returns an error.
pub record Allocator : Type 1 where
  pub Pool : Type 0
  pub create : ℕ → ℕ → Option Pool
  pub allocate : Option ℕ → Pool → Option ℕ × Pool

-- An address that is handed out was free, and is then in use; a failure changes nothing.
pub record LawfulAllocator (a : Allocator) : Type 0 where
  pub used : a.Pool → ℕ → Bool
  pub fresh :
      (hint : Option ℕ) (p : a.Pool) (x : ℕ) → (a.allocate hint p).0 ≡ some x → used p x ≡ false
  pub marks :
      (hint : Option ℕ) (p : a.Pool) (x : ℕ)
      → (a.allocate hint p).0 ≡ some x
      → (y : ℕ) → used (a.allocate hint p).1 y ≡ (x == y || used p y)
  pub failure :
      (hint : Option ℕ) (p : a.Pool)
      → (a.allocate hint p).0 ≡ none
      → (y : ℕ) → used (a.allocate hint p).1 y ≡ used p y

-- A row of the table leases4.
pub record Row : Type 0 where
  pub mac : String
  pub ip : String
  pub expiry : ℕ

-- What a query gives: the rows in turn, `none` where Scan fails, and whether rows.Err() is set.
pub record Rows : Type 0 where
  pub scans : List (Option Row)
  pub failed : Bool

-- The database behind database/sql, with the statements of storage.go: `exec_insert` is
-- INSERT … ON CONFLICT DO REPLACE, and `query` is SELECT mac, ip, expiry FROM leases4.
pub record Database : Type 1 where
  pub Db : Type 0
  pub open_db : String → Option Db
  pub create_table : Db → Bool × Db
  pub prepare_insert : Db → Bool
  pub exec_insert : Row → Db → Bool × Db
  pub query : Db → Option Rows

-- The expiry in the row of a table with a given primary key (mac, ip).
unfoldable pub expiry_of : String → String → List Row → Option ℕ
expiry_of mac ip [] = none
expiry_of mac ip (r ∷ rows) =
    if r.mac === mac && r.ip === ip then some r.expiry else expiry_of mac ip rows

-- A database that works: a query gives the rows of the table, the primary key is one, and the
-- insertion replaces the row of its key and no other.
pub record HealthyDatabase (d : Database) : Type 0 where
  pub table : d.Db → List Row
  pub query_lem :
      (db : d.Db) → d.query db ≡ some (record { scans = map some (table db); failed = false })
  pub primary_key :
      (db : d.Db) (row : Row)
      → Has row (table db)
      → expiry_of row.mac row.ip (table db) ≡ some row.expiry
  pub prepares : (db : d.Db) → d.prepare_insert db ≡ true
  pub inserts : (row : Row) (db : d.Db) → (d.exec_insert row db).0 ≡ true
  pub upsert :
      (row : Row) (db : d.Db) (mac ip : String)
      → expiry_of mac ip (table (d.exec_insert row db).1) ≡ (
          if row.mac === mac && row.ip === ip then some row.expiry else expiry_of mac ip (table db))

pub record Host : Type 1 where
  pub net : Net
  pub open net use *
  pub allocator : Allocator
  pub open allocator use *
  pub database : Database
  pub open database use *
