-- ===== src/Xds/Grouping.antt =====
-- The grouping of the backends by their port.
use oooi.Prelude.{
  ℕ, ◌+◌, ◌≤◌, ◌&&◌, Bool-cases, inl, inr, List, [], ◌∷◌, ◌++◌, ◌≡◌, sym, arith, select, ◌==◌,
  if◌then◌else◌,
}
use mathlib.Core.List.{append-nil, append_assoc, Perm, perm_middle}
use mathlib.Core.List.Perm
use oooi.Api.Proxy.{ProxyBackend}
use oooi.Xds.Build.{Groups, append_to, group_from, group_by_port}

-- The backends of a port: portBackends[port].
unfoldable pub backends_of : ℕ → Groups → List ProxyBackend
backends_of port [] = []
backends_of port ((p, bs) ∷ rest) = if p == port then bs else backends_of port rest

backends_of-append_to :
    (p port : ℕ) (b : ProxyBackend) (gs : Groups)
    → backends_of port (append_to p b gs)
      ≡ (if p == port then backends_of port gs ++ b ∷ [] else backends_of port gs)
unfolding backends_of append_to
backends_of-append_to p port b [] = ground arith
backends_of-append_to p port b ((q, bs) ∷ gs) = ground (arith, backends_of-append_to p port b gs)

backends_of-group_from :
    (port : ℕ) (gs : Groups) (bs : List ProxyBackend)
    → backends_of port (group_from gs bs) ≡ backends_of port gs ++ select (λ b. b.port == port) bs
unfolding group_from select
backends_of-group_from port gs [] = sym (append-nil (backends_of port gs))
backends_of-group_from port gs (b ∷ bs) = ground (
  arith,
  backends_of-group_from port (append_to b.port b gs) bs,
  backends_of-append_to b.port port b gs,
  append_assoc (backends_of port gs) (b ∷ []) (select (λ x. x.port == port) bs),
)

-- The group of a port has the backends of that port, all of them and no other, in the order of the
-- specification.
pub backends_of-group_by_port :
    (port : ℕ) (bs : List ProxyBackend)
    → backends_of port (group_by_port bs) ≡ select (λ b. b.port == port) bs
unfolding group_by_port backends_of
backends_of-group_by_port port bs = backends_of-group_from port [] bs

-- How many groups are of a port.
unfoldable pub count_port : ℕ → Groups → ℕ
count_port port [] = 0
count_port port ((p, bs) ∷ rest) =
    if p == port then 1 + count_port port rest else count_port port rest

pub count_port-append_to :
    (p port : ℕ) (b : ProxyBackend) (gs : Groups)
    → count_port port (append_to p b gs)
      ≡ (if p == port && count_port port gs == 0 then 1 else count_port port gs)
unfolding count_port append_to
count_port-append_to p port b [] = ground arith
count_port-append_to p port b ((q, bs) ∷ gs) = ground (arith, count_port-append_to p port b gs)

-- No port has two groups.
pub count_port-group_from :
    (gs : Groups) (bs : List ProxyBackend) (port : ℕ)
    → count_port port gs ≤ 1
    → count_port port (group_from gs bs) ≤ 1
unfolding group_from
count_port-group_from gs [] port one = one
count_port-group_from gs (b ∷ bs) port one =
    count_port-group_from (append_to b.port b gs) bs port
      (ground (arith, count_port-append_to b.port port b gs))

-- All backends of the groups.
abbrev pub members : Groups → List ProxyBackend
members [] = []
members ((p, bs) ∷ rest) = bs ++ members rest

append_to-perm :
    (p : ℕ) (b : ProxyBackend) (gs : Groups) → Perm (members (append_to p b gs)) (b ∷ members gs)
unfolding append_to
append_to-perm p b [] = Perm.refl (b ∷ [])
append_to-perm p b ((q, bs) ∷ gs) = elim (Bool-cases (q == p)) [
  | inl hit ↦ rw (hit, append_assoc bs (b ∷ []) (members gs)) (perm_middle bs (members gs))
  | inr miss ↦ rw miss (
      Perm.trans (Perm.append (Perm.refl bs) (append_to-perm p b gs)) (perm_middle bs (members gs)))
]

group_from-perm :
    (gs : Groups) (bs : List ProxyBackend) → Perm (members (group_from gs bs)) (bs ++ members gs)
unfolding group_from
group_from-perm gs [] = Perm.refl (members gs)
group_from-perm gs (b ∷ bs) = Perm.trans (group_from-perm (append_to b.port b gs) bs) (
    Perm.trans (Perm.append (Perm.refl bs) (append_to-perm b.port b gs))
      (perm_middle bs (members gs)))

-- The grouping loses no backend and makes none up: the members of all groups are the backends, in
-- another order.
pub group_by_port-perm : (bs : List ProxyBackend) → Perm (members (group_by_port bs)) bs
unfolding group_by_port
group_by_port-perm bs = rw append-nil at (group_from-perm [] bs)
