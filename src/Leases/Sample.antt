-- ===== src/Leases/Sample.antt =====
-- A host on which the lease plugin can be run: an allocator that keeps the list of its addresses, a
-- table in memory, newest row first, and addresses that are printed as numbers.
use oooi.Prelude.{
  ℕ, String, Bool, true, false, List, [], ◌∷◌, Option, none, some, ◌≡◌, refl, ap, ◌||◌, arith, inl,
  inr, map, ◌+◌, ◌≤◌, leb, Has, any_of, ◌==◌, ◌===◌, ◌&&◌, if◌then◌else◌, eq_iff, show_ℕ, value,
  value-show_ℕ, join, Bool-cases,
}
use oooi.Time.{pos}
use oooi.Leases.Host.{
  Net, LawfulNet, Allocator, LawfulAllocator, Row, Database, expiry_of, HealthyDatabase, Host,
}

-- The allocator gives the address after the greatest that it gave before.
pub record Pool : Type 0 where
  pub first : ℕ
  pub last : ℕ
  pub taken : List ℕ

abbrev pub in_use : Pool → ℕ → Bool
in_use p x = any_of (λ y. y == x) p.taken

unfoldable above : List ℕ → ℕ → ℕ
above [] n = n
above (x ∷ xs) n = let m = above xs n in if leb m x then x + 1 else m

above-unused : (xs : List ℕ) (n t : ℕ) → above xs n ≤ t → any_of (λ y. y == t) xs ≡ false
unfolding above any_of
above-unused [] n t le = refl
above-unused (x ∷ xs) n t le = ground (arith, above-unused xs n t)

unfoldable take_from : ℕ → Pool → Option ℕ × Pool
take_from x p =
    if in_use p x
    then (none, p)
    else if leb x p.last
    then (some x, record p { taken = x ∷ p.taken })
    else (none, p)

unfoldable pub allocate_from : Option ℕ → Pool → Option ℕ × Pool
unfolding take_from above
allocate_from (some x) p = take_from x p
allocate_from none p = take_from (above p.taken p.first) p

abbrev allocator : Allocator
allocator = record {
  Pool = Pool;
  create = λ first last. some (record { first = first; last = last; taken = [] });
  allocate = allocate_from;
}

pub fresh_from :
    (hint : Option ℕ) (p : Pool) (x : ℕ) → (allocate_from hint p).0 ≡ some x → in_use p x ≡ false
unfolding allocate_from take_from
fresh_from none p x e = ground arith
fresh_from (some y) p x e = ground arith

pub marks_from :
    (hint : Option ℕ) (p : Pool) (x : ℕ)
    → (allocate_from hint p).0 ≡ some x
    → (y : ℕ) → in_use (allocate_from hint p).1 y ≡ (x == y || in_use p y)
unfolding allocate_from take_from any_of
marks_from none p x e y = ground arith
marks_from (some z) p x e y = ground arith

pub failure_from :
    (hint : Option ℕ) (p : Pool)
    → (allocate_from hint p).0 ≡ none
    → (y : ℕ) → in_use (allocate_from hint p).1 y ≡ in_use p y
unfolding allocate_from take_from
failure_from none p e y = ground arith
failure_from (some z) p e y = ground arith

abbrev pub allocator_laws : LawfulAllocator allocator
allocator_laws = record {
  used = in_use;
  fresh = fresh_from;
  marks = marks_from;
  failure = failure_from;
}

-- The rows of other keys.
unfoldable drop_key : Row → List Row → List Row
drop_key r [] = []
drop_key r (x ∷ rows) =
    let rest = drop_key r rows in if r.mac === x.mac && r.ip === x.ip then rest else x ∷ rest

unfoldable pub keyed : List Row → List Row
unfolding drop_key
keyed [] = []
keyed (r ∷ rows) = r ∷ drop_key r (keyed rows)

expiry_of-drop_key :
    (r : Row) (rows : List Row) (mac ip : String)
    → (r.mac === mac && r.ip === ip) ≡ false
    → expiry_of mac ip (drop_key r rows) ≡ expiry_of mac ip rows
unfolding expiry_of drop_key
expiry_of-drop_key r [] mac ip apart = refl
expiry_of-drop_key r (x ∷ rows) mac ip apart = ground (
  arith,
  expiry_of-drop_key r rows mac ip apart,
  eq_iff r.mac x.mac,
  eq_iff r.ip x.ip,
  eq_iff x.mac mac,
  eq_iff x.ip ip,
  eq_iff r.mac mac,
  eq_iff r.ip ip,
)

Has-drop_key :
    (r row : Row) (rows : List Row)
    → Has row (drop_key r rows)
    → Has row rows × ((r.mac === row.mac && r.ip === row.ip) ≡ false)
unfolding drop_key
Has-drop_key r row [] = λ here. absurd here
Has-drop_key r row (x ∷ rows) = elim (Bool-cases (r.mac === x.mac && r.ip === x.ip)) [
  | inl same ↦ rw same (λ here. let (h, a) = Has-drop_key r row rows here in (inr h, a))
  | inr other ↦ rw other (λ here. elim here [
    | inl e ↦ (inl e, rw (← e) other)
    | inr there ↦ let (h, a) = Has-drop_key r row rows there in (inr h, a)
  ])
]

pub keyed-primary_key :
    (rows : List Row) (row : Row)
    → Has row (keyed rows)
    → expiry_of row.mac row.ip (keyed rows) ≡ some row.expiry
unfolding keyed expiry_of
keyed-primary_key [] row here = absurd here
keyed-primary_key (r ∷ rows) row (inl e) = ground (arith, eq_iff r.mac row.mac, eq_iff r.ip row.ip)
keyed-primary_key (r ∷ rows) row (inr there) =
    let (here, apart) = Has-drop_key r row (keyed rows) there in
    ground (
      arith,
      expiry_of-drop_key r (keyed rows) row.mac row.ip apart,
      keyed-primary_key rows row here,
    )

pub keyed-upsert :
    (row : Row) (rows : List Row) (mac ip : String)
    → expiry_of mac ip (keyed (row ∷ rows)) ≡ (
        if row.mac === mac && row.ip === ip then some row.expiry else expiry_of mac ip (keyed rows))
unfolding keyed expiry_of
keyed-upsert row rows mac ip = ground (arith, expiry_of-drop_key row (keyed rows) mac ip)

abbrev database : Database
database = record {
  Db = List Row;
  open_db = λ path. some [];
  create_table = λ db. (true, db);
  prepare_insert = λ db. true;
  exec_insert = λ row db. (true, row ∷ db);
  query = λ db. some (record { scans = map some (keyed db); failed = false });
}

abbrev pub database_laws : HealthyDatabase database
database_laws = record {
  table = keyed;
  query_lem = λ db. refl;
  primary_key = keyed-primary_key;
  prepares = λ db. refl;
  inserts = λ row db. refl;
  upsert = λ row db mac ip. keyed-upsert row db mac ip;
}

-- The hardware addresses of six bytes on this network.
abbrev pub parse_mac : String → Option (List ℕ)
parse_mac s =
    if s === "2:0:0:0:0:1"
    then some (2 ∷ 0 ∷ 0 ∷ 0 ∷ 0 ∷ 1 ∷ [])
    else if s === "2:0:0:0:0:2"
    then some (2 ∷ 0 ∷ 0 ∷ 0 ∷ 0 ∷ 2 ∷ [])
    else none

abbrev net : Net
net = record {
  mac_string = λ hw. join (map show_ℕ hw) ":";
  parse_mac = parse_mac;
  ip_string = show_ℕ;
  parse_ip4 = λ s. some (value 0 s);
  parse_duration = λ s. if s === "1h" then some (pos 3_600_000_000_000) else none;
}

abbrev pub net_laws : LawfulNet net
net_laws = record { parse_ip4-ip_string = λ a. ap some (value-show_ℕ a) }

abbrev pub host : Host
host = record { net = net; allocator = allocator; database = database }
