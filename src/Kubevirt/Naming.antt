-- ===== src/Kubevirt/Naming.antt =====
-- Which requests the plugin answers, and with which host name.
use oooi.Prelude.{
  ℕ, String, Bool, true, false, List, [], ◌∷◌, Option, none, some, ◌≡◌, ◌≢◌, ◌↔◌, refl, arith,
  eq_iff, ◌===◌, Has, inl, inr, Bool-cases, Option-cases,
}
use oooi.Packet.{Request, Response}
use oooi.Kubevirt.Plugin.{
  Interface, KubevirtInstance, KubevirtState, has_mac, find_instance, get_instance_for_mac,
  handler4, refresh_instances,
}
use oooi.Kubevirt.Instances.{Distinct, refresh-items}

-- The instance has an interface with the hardware address.
abbrev pub Owns : String → KubevirtInstance → Type 0
Owns mac i = (j : Interface) × Has j i.interfaces × (j.mac ≡ mac)

has_mac_sound :
    (mac : String) (js : List Interface)
    → has_mac mac js ≡ true
    → (j : Interface) × Has j js × (j.mac ≡ mac)
unfolding has_mac
has_mac_sound mac [] e = absurd (ground arith)
has_mac_sound mac (j ∷ js) e = elim (Bool-cases (j.mac === mac)) [
  | inl hit ↦ (j, inl refl, (eq_iff j.mac mac).0 hit)
  | inr miss ↦ let (x, here, same) = has_mac_sound mac js (ground arith) in (x, inr here, same)
]

has_mac_complete :
    (mac : String) (js : List Interface) (j : Interface)
    → Has j js
    → j.mac ≡ mac
    → has_mac mac js ≡ true
unfolding has_mac
has_mac_complete mac [] j here same = absurd here
has_mac_complete mac (x ∷ js) j (inl e) same = ground (arith, eq_iff x.mac mac)
has_mac_complete mac (x ∷ js) j (inr there) same =
    ground (arith, has_mac_complete mac js j there same)

find_instance_sound :
    (mac : String) (is : List KubevirtInstance) (i : KubevirtInstance)
    → find_instance mac is ≡ some i
    → Has i is × Owns mac i
unfolding find_instance
find_instance_sound mac [] i e = absurd (ground arith)
find_instance_sound mac (x ∷ is) i e = elim (Bool-cases (has_mac mac x.interfaces)) [
  | inl hit ↦
      let same : x ≡ i = ground arith in
      (inl same, rw (← same) (has_mac_sound mac x.interfaces hit))
  | inr miss ↦ let (here, owns) = find_instance_sound mac is i (ground arith) in (inr here, owns)
]

find_instance_complete :
    (mac : String) (is : List KubevirtInstance) (i : KubevirtInstance)
    → Has i is
    → Owns mac i
    → find_instance mac is ≢ none
unfolding find_instance
find_instance_complete mac [] i here owns e = absurd here
find_instance_complete mac (x ∷ is) i (inl same) (j, at, eq) e =
    ground (arith, has_mac_complete mac i.interfaces j at eq)
find_instance_complete mac (x ∷ is) i (inr there) owns e =
    find_instance_complete mac is i there owns (ground arith)

module _ (mac_string : List ℕ → String) (k : KubevirtState) (req : Request) (resp : Response) where
  -- The reply to the request, when the cluster lists `items`.
  abbrev pub reply : Option (List KubevirtInstance) → Option Response × Bool
  reply list = let out = handler4 mac_string list k req resp in (out.1, out.2)

  abbrev pub client : String
  client = mac_string req.hardware_addr

  -- The reply by the instance that was found.
  abbrev named : Option KubevirtInstance → Option Response × Bool
  named none = (none, true)
  named (some i) = (some (record resp { host_name = some i.name }), false)

  reply-named :
      (items : List KubevirtInstance)
      → Distinct items
      → reply (some items) ≡ named (find_instance client items)
  unfolding handler4 refresh_instances get_instance_for_mac
  reply-named items d = ground (arith, refresh-items items k d)

  -- An answer names the client by a listed virtual machine that has an interface with the client's
  -- hardware address, and leaves the rest of the response as it was, for a listing without repeated
  -- names.
  pub reply_owner :
      (items : List KubevirtInstance) (out : Response)
      → Distinct items
      → reply (some items) ≡ (some out, false)
      → (i : KubevirtInstance) × Has i items
        × Owns client i
        × (out ≡ record resp { host_name = some i.name })
  reply_owner items out d e = elim (Option-cases (find_instance client items)) [
    | inl q ↦ absurd (ground (arith, reply-named items d))
    | inr (i, q) ↦
        let (here, owns) = find_instance_sound client items i q in
        (i, here, owns, ground (arith, reply-named items d))
  ]

  -- A request is dropped, and the chain of handlers stopped, exactly when no listed virtual machine
  -- has an interface with the hardware address of the client, for a listing without repeated names.
  pub reply_dropped :
      (items : List KubevirtInstance)
      → Distinct items
      → (reply (some items) ≡ (none, true))
        ↔ ((i : KubevirtInstance) → Has i items → Owns client i → ⊥)
  reply_dropped items d = (
    (λ e i here owns.
        find_instance_complete client items i here owns (ground (arith, reply-named items d))),
    (λ none_owns. elim (Option-cases (find_instance client items)) [
      | inl q ↦ ground (arith, reply-named items d)
      | inr (i, q) ↦
          let (here, owns) = find_instance_sound client items i q in absurd (none_owns i here owns)
    ]),
  )
