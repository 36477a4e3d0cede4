-- ===== src/Leases/SetupLaws.antt =====
-- A setup that succeeds starts from a valid state: the loaded addresses are in use and apart.
use oooi.Prelude.{
  ℕ, String, true, false, List, [], ◌∷◌, Option, none, some, ok, ◌≡◌, ap, arith, eq_iff,
  Outcome-cases, Option-cases, inl, inr, some,
}
use oooi.Prelude.Assoc.{Assoc, lookup}
use oooi.Leases.Host.{Host, LawfulNet, LawfulAllocator}
use oooi.Leases.State.{Record, PluginState}
use oooi.Leases.Setup.{check_same, reallocate, setup_with, setup_args, setup_range}
use oooi.Leases.Addresses.{IsValid}

module _ (h : Host) (net : LawfulNet h.net) (laws : LawfulAllocator h.allocator) where
  ip_string_injective : (a b : ℕ) → h.ip_string a ≡ h.ip_string b → a ≡ b
  ip_string_injective a b e =
      ground (arith, net.parse_ip4-ip_string a, net.parse_ip4-ip_string b, ap h.parse_ip4 e)

  -- The check passes only for the address that was wanted.
  check_same-gives :
      (want : ℕ) (o : Option ℕ × h.Pool) (pool : h.Pool)
      → check_same h want o ≡ ok pool
      → (o.0 ≡ some want) × (o.1 ≡ pool)
  unfolding check_same
  check_same-gives want (none, p) pool e = cc
  check_same-gives want (some got, p) pool e =
      ground (arith, eq_iff (h.ip_string got) (h.ip_string want), ip_string_injective got want)

  -- One round of the loop took the wanted address.
  reallocate-cons :
      (mac : String) (r : Record) (rest : Assoc Record) (pool pool' : h.Pool)
      → reallocate h ((mac, r) ∷ rest) pool ≡ ok pool'
      → ((h.allocate (some r.ip) pool).0 ≡ some r.ip)
        × (reallocate h rest (h.allocate (some r.ip) pool).1 ≡ ok pool')
  unfolding reallocate
  reallocate-cons mac r rest pool pool' e =
      elim (Outcome-cases (check_same h r.ip (h.allocate (some r.ip) pool))) [
        | inl (x, q) ↦ cc
        | inr (p, q) ↦
            let took = check_same-gives r.ip (h.allocate (some r.ip) pool) p q in
            (took.0, ground arith)
      ]

  -- What is in use stays in use.
  reallocate-used :
      (records : Assoc Record) (pool pool' : h.Pool) (x : ℕ)
      → reallocate h records pool ≡ ok pool'
      → laws.used pool x ≡ true
      → laws.used pool' x ≡ true
  unfolding reallocate
  reallocate-used [] pool pool' x e u = ground arith
  reallocate-used ((mac, r) ∷ rest) pool pool' x e u =
      let (took, go) = reallocate-cons mac r rest pool pool' e in
      reallocate-used rest (h.allocate (some r.ip) pool).1 pool' x go
        (ground (arith, laws.marks (some r.ip) pool r.ip took x))

  -- Each loaded address was free before the loop and is in use after it.
  reallocate-takes :
      (records : Assoc Record) (pool pool' : h.Pool) (mac : String) (r : Record)
      → reallocate h records pool ≡ ok pool'
      → lookup mac records ≡ some r
      → (laws.used pool r.ip ≡ false) × (laws.used pool' r.ip ≡ true)
  unfolding lookup
  reallocate-takes [] pool pool' mac r e found = cc
  reallocate-takes ((m, q) ∷ rest) pool pool' mac r e found =
      let (took, go) = reallocate-cons m q rest pool pool' e in
      let next = (h.allocate (some q.ip) pool).1 in
      ground (
        arith,
        laws.fresh (some q.ip) pool q.ip took,
        laws.marks (some q.ip) pool q.ip took r.ip,
        reallocate-takes rest next pool' mac r go,
        reallocate-used rest next pool' q.ip go,
        laws.marks (some q.ip) pool q.ip took q.ip,
      )

  reallocate-apart :
      (records : Assoc Record) (pool pool' : h.Pool) (mac mac' : String) (r r' : Record)
      → reallocate h records pool ≡ ok pool'
      → lookup mac records ≡ some r
      → lookup mac' records ≡ some r'
      → r.ip ≡ r'.ip
      → mac ≡ mac'
  unfolding lookup
  reallocate-apart [] pool pool' mac mac' r r' e found found' same = cc
  reallocate-apart ((m, q) ∷ rest) pool pool' mac mac' r r' e found found' same =
      let (took, go) = reallocate-cons m q rest pool pool' e in
      let next = (h.allocate (some q.ip) pool).1 in
      ground (
        arith,
        laws.marks (some q.ip) pool q.ip took q.ip,
        eq_iff m mac,
        eq_iff m mac',
        reallocate-takes rest next pool' mac r go,
        reallocate-takes rest next pool' mac' r' go,
        reallocate-apart rest next pool' mac mac' r r' go,
      )

  setup_with-reallocates :
      (filename : String) (start end : ℕ) (lease : String) (s : PluginState h)
      → setup_with h filename start end lease ≡ ok s
      → (pool : h.Pool) × (reallocate h s.records_v4 pool ≡ ok s.allocator)
  unfolding setup_with
  setup_with-reallocates filename start end lease s e = elim (Option-cases (h.create start end)) [
    | inl q ↦ absurd (ground arith)
    | inr (pool, q) ↦ (pool, ground arith)
  ]

  setup_range-reallocates :
      (args : List String) (s : PluginState h)
      → setup_range h args ≡ ok s
      → (pool : h.Pool) × (reallocate h s.records_v4 pool ≡ ok s.allocator)
  unfolding setup_range setup_args
  setup_range-reallocates [] s e = cc
  setup_range-reallocates (a ∷ []) s e = cc
  setup_range-reallocates (a ∷ b ∷ []) s e = cc
  setup_range-reallocates (a ∷ b ∷ c ∷ []) s e = cc
  setup_range-reallocates (a ∷ b ∷ c ∷ d ∷ more) s e = elim (Option-cases (h.parse_ip4 b)) [
    | inl q ↦ absurd (ground arith)
    | inr (start, q) ↦ elim (Option-cases (h.parse_ip4 c)) [
      | inl q' ↦ absurd (ground arith)
      | inr (end, q') ↦ setup_with-reallocates a start end d s (ground arith)
    ]
  ]

  -- A setup that succeeds gives a valid state: every loaded address is in use in the allocator, and
  -- no two clients have the same address. The allocator has to be lawful and addresses to be read
  -- back.
  pub setup_range-IsValid :
      (args : List String) (s : PluginState h) → setup_range h args ≡ ok s → IsValid h laws s
  setup_range-IsValid args s e =
      let (pool, took) = setup_range-reallocates args s e in
      record {
        leased = λ mac r found. (reallocate-takes s.records_v4 pool s.allocator mac r took found).1;
        apart = λ mac mac' r r'. reallocate-apart s.records_v4 pool s.allocator mac mac' r r' took;
      }
