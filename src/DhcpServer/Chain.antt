-- ===== src/DhcpServer/Chain.antt =====
-- A request through the plugins in the order of the configuration that the DHCPServer controller
-- writes: kubevirt first, range, which is leasedb, last. coredhcp hands the response from one plugin
-- to the next until one stops the chain; the plugins in between, server_id, dns, router and netmask,
-- are a parameter.
use oooi.Prelude.{
  ℕ, String, Bool, true, false, Option, none, some, List, [], ◌∷◌, ◌≡◌, ◌⊎◌, refl, sym, inl, inr,
  arith, Has, All, Option-cases, Bool-cases, ◌===◌, eq_iff, ltb, ◌*◌,
}
use oooi.Prelude.Assoc.{lookup, insert, lookup-insert}
use oooi.Packet.{Request, Response}
use oooi.Leases.Host.{Host}
use oooi.Leases.State.{Record, PluginState}
use oooi.Time.{second, add}
use oooi.Leases.Handler.{lease_new, renew, new_record, extend, handler4 as lease_handler4}
use oooi.Kubevirt.Plugin.{KubevirtInstance, KubevirtState, handler4, refresh_instances}
use oooi.Kubevirt.Instances.{Distinct}
use oooi.Kubevirt.Naming.{Owns, reply, reply_owner}

pub data Passed : Type 0 where
  goes : Response → Passed
  stops : Option Response → Passed

-- A request, what the cluster lists meanwhile, and the two readings of the clock.
pub record Exchange : Type 0 where
  pub request : Request
  pub response : Response
  pub machines : Option (List KubevirtInstance)
  pub now : ℕ
  pub later : ℕ

-- No two machines of a listing that succeeds have one name and namespace.
abbrev pub DistinctIn : Option (List KubevirtInstance) → Type 0
DistinctIn none = Unit {0}
DistinctIn (some items) = Distinct items

module _ (h : Host) (between : Request → Response → Passed) where
  abbrev pub States : Type 0
  States = KubevirtState × PluginState h

  unfoldable pub lease_after : PluginState h → Exchange → Passed → PluginState h × Option Response
  lease_after s x (stops reply) = (s, reply)
  lease_after s x (goes resp) =
      let out = lease_handler4 h s x.request x.now x.later resp in (out.0, out.1.0)

  unfoldable pub after_kubevirt :
      PluginState h → Exchange → Option Response × Bool → PluginState h × Option Response
  unfolding lease_after
  after_kubevirt s x (none, stop) = (s, none)
  after_kubevirt s x (some resp, true) = (s, some resp)
  after_kubevirt s x (some resp, false) = lease_after s x (between x.request resp)

  unfoldable pub exchange : States → Exchange → States × Option Response
  unfolding after_kubevirt
  exchange (k, s) x =
      let first = handler4 h.mac_string x.machines k x.request x.response in
      let out = after_kubevirt s x (first.1, first.2) in ((first.0, out.0), out.1)

  -- The address has a record.
  abbrev pub Leased : String → PluginState h → Type 0
  Leased mac s = (r : Record) × (lookup mac s.records_v4 ≡ some r)

  insert-Leased :
      (mac new : String) (val : Record) (s : PluginState h) (r : Record)
      → lookup mac (insert new val s.records_v4) ≡ some r
      → Leased mac s ⊎ (mac ≡ new)
  insert-Leased mac new val s r e = elim (Bool-cases (new === mac)) [
    | inl q ↦ inr (sym ((eq_iff new mac).0 q))
    | inr q ↦ inl (r, ground (arith, lookup-insert new mac val s.records_v4))
  ]

  lease_new-Leased :
      (mac client : String) (s : PluginState h) (now : ℕ) (resp : Response)
      (given : Option ℕ × h.Pool)
      → Leased mac (lease_new h s client now resp given).0
      → Leased mac s ⊎ (mac ≡ client)
  unfolding lease_new
  lease_new-Leased mac client s now resp (none, pool) (r, e) = inl (r, e)
  lease_new-Leased mac client s now resp (some ip, pool) (r, e) =
      insert-Leased mac client (new_record s.lease_time now ip) s r e

  renew-Leased :
      (mac client : String) (s : PluginState h) (now later : ℕ) (resp : Response) (old : Record)
      → Leased mac (renew h s client now later resp old).0
      → Leased mac s ⊎ (mac ≡ client)
  unfolding renew
  renew-Leased mac client s now later resp old =
      elim (Bool-cases (ltb (old.expires * second) (add now s.lease_time))) [
        | inl q ↦
            rw q (λ leased.
              insert-Leased mac client (extend s.lease_time later old) s leased.0 leased.1)
        | inr q ↦ rw q (λ leased. inl leased)
      ]

  -- The lease plugin makes a record for the client only.
  handler4-Leased :
      (mac : String) (s : PluginState h) (req : Request) (now later : ℕ) (resp : Response)
      → Leased mac (lease_handler4 h s req now later resp).0
      → Leased mac s ⊎ (mac ≡ h.mac_string req.hardware_addr)
  unfolding lease_handler4
  handler4-Leased mac s req now later resp =
      let client = h.mac_string req.hardware_addr in
      elim (Option-cases (lookup client s.records_v4)) [
        | inl q ↦
            rw (q, lease_handler4)
              (lease_new-Leased mac client s now resp (h.allocate none s.allocator))
        | inr (old, q) ↦ rw (q, lease_handler4) (renew-Leased mac client s now later resp old)
      ]

  lease_after-Leased :
      (mac : String) (s : PluginState h) (x : Exchange) (p : Passed)
      → Leased mac (lease_after s x p).0
      → Leased mac s ⊎ (mac ≡ h.mac_string x.request.hardware_addr)
  unfolding lease_after
  lease_after-Leased mac s x (stops reply) leased = inl leased
  lease_after-Leased mac s x (goes resp) leased =
      handler4-Leased mac s x.request x.now x.later resp leased

  -- The client of the request is a machine that the cluster lists.
  abbrev pub FromMachine : Exchange → String → Type 0
  FromMachine x mac =
      (items : List KubevirtInstance) × (i : KubevirtInstance) × (x.machines ≡ some items)
      × Has i items
      × Owns mac i
      × (mac ≡ h.mac_string x.request.hardware_addr)

  -- Each listing that succeeds has no two machines of one name and namespace.
  abbrev pub Listed : Exchange → Type 0
  Listed x = DistinctIn x.machines

  after_kubevirt-Leased :
      (mac : String) (s : PluginState h) (x : Exchange) (first : Option Response × Bool)
      → Leased mac (after_kubevirt s x first).0
      → Leased mac s
        ⊎ ((out : Response) × (first ≡ (some out, false))
            × (mac ≡ h.mac_string x.request.hardware_addr))
  unfolding after_kubevirt
  after_kubevirt-Leased mac s x (none, stop) leased = inl leased
  after_kubevirt-Leased mac s x (some resp, true) leased = inl leased
  after_kubevirt-Leased mac s x (some resp, false) leased =
      elim (lease_after-Leased mac s x (between x.request resp) leased) [
        | inl before ↦ inl before
        | inr client ↦ inr (resp, refl, client)
      ]

  machine_of :
      (mac : String) (k : KubevirtState) (x : Exchange) (out : Response)
      (list : Option (List KubevirtInstance))
      → x.machines ≡ list
      → DistinctIn list
      → reply h.mac_string k x.request x.response list ≡ (some out, false)
      → mac ≡ h.mac_string x.request.hardware_addr
      → FromMachine x mac
  unfolding handler4 refresh_instances
  machine_of mac k x out none at listed e client = absurd (ground arith)
  machine_of mac k x out (some items) at listed e client =
      let (i, here, owns, same) =
        reply_owner h.mac_string k x.request x.response items out listed e in
      (items, i, at, here, rw client owns, client)

  exchange-Leased :
      (mac : String) (k : KubevirtState) (s : PluginState h) (x : Exchange)
      → Listed x
      → Leased mac (exchange (k, s) x).0.1
      → Leased mac s ⊎ FromMachine x mac
  unfolding exchange
  exchange-Leased mac k s x listed leased =
      let first = reply h.mac_string k x.request x.response x.machines in
      elim (after_kubevirt-Leased mac s x first leased) [
        | inl before ↦ inl before
        | inr (out, e, client) ↦ inr (machine_of mac k x out x.machines refl listed e client)
      ]

  -- The exchanges one after another.
  unfoldable pub exchanges : States → List Exchange → States
  unfolding exchange
  exchanges st [] = st
  exchanges st (x ∷ xs) = exchanges (exchange st x).0 xs

  -- Only virtual machines get leases: if after any requests, through the kubevirt plugin, whatever
  -- plugins stand in between, and the lease plugin, a hardware address has a lease record that it
  -- had not before, then one of the requests was from that address while the cluster listed a
  -- virtual machine with an interface of that address. No listing has two machines of one name and
  -- namespace.
  pub exchanges-Leased :
      (mac : String) (k : KubevirtState) (s : PluginState h) (xs : List Exchange)
      → All Listed xs
      → Leased mac (exchanges (k, s) xs).1
      → Leased mac s ⊎ ((x : Exchange) × Has x xs × FromMachine x mac)
  unfolding exchanges
  exchanges-Leased mac k s [] listed leased = inl leased
  exchanges-Leased mac k s (x ∷ xs) (first, listed) leased =
      let next = (exchange (k, s) x).0 in
      elim (exchanges-Leased mac next.0 next.1 xs listed leased) [
        | inr (y, here, from) ↦ inr (y, inr here, from)
        | inl before ↦ elim (exchange-Leased mac k s x first before) [
          | inl old ↦ inl old
          | inr from ↦ inr (x, inl refl, from)
        ]
      ]
