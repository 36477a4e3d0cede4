-- ===== src/Kubevirt/Plugin.antt =====
-- plugin.go. The Kubernetes client is the parameter `list`: the virtual machine instances of all
-- namespaces, or `none` if the call fails. The mutex is taken for the whole of each call.
use oooi.Prelude.{
  ℕ, String, Bool, true, false, List, [], ◌∷◌, Option, none, some, ◌===◌, ◌&&◌, ◌||◌, if◌then◌else◌,
}
use oooi.Packet.{Request, Response}

-- The network interface of a virtual machine instance, as far as the plugin reads it.
pub record Interface : Type 0 where
  pub mac : String

pub record KubevirtInstance : Type 0 where
  pub name : String
  pub namespace : String
  pub interfaces : List Interface

-- `Instances` is the whole state: it is read only after a refresh.
pub record KubevirtState : Type 0 where
  pub instances : List KubevirtInstance

-- The inner loop: whether an interface of the instance has the address.
unfoldable pub has_mac : String → List Interface → Bool
has_mac mac [] = false
has_mac mac (j ∷ rest) = j.mac === mac || has_mac mac rest

unfoldable pub find_instance : String → List KubevirtInstance → Option KubevirtInstance
find_instance mac [] = none
find_instance mac (i ∷ rest) = if has_mac mac i.interfaces then some i else find_instance mac rest

unfoldable pub get_instance_for_mac : KubevirtState → String → Option KubevirtInstance
get_instance_for_mac k mac = find_instance mac k.instances

abbrev pub same_instance : KubevirtInstance → KubevirtInstance → Bool
same_instance j i = j.name === i.name && j.namespace === i.namespace

-- The loop of addKubevirtInstance: the first instance of the same name and namespace is
-- overwritten, and else the instance is appended.
unfoldable pub add_to : KubevirtInstance → List KubevirtInstance → List KubevirtInstance
add_to i [] = i ∷ []
add_to i (j ∷ rest) = if same_instance j i then i ∷ rest else j ∷ add_to i rest

unfoldable pub add_instance : KubevirtState → KubevirtInstance → KubevirtState
add_instance k i = record k { instances = add_to i k.instances }

unfoldable pub add_all : KubevirtState → List KubevirtInstance → KubevirtState
add_all k [] = k
add_all k (v ∷ rest) = add_all (add_instance k v) rest

-- The second part is whether the refresh succeeded.
unfoldable pub refresh_instances :
    Option (List KubevirtInstance) → KubevirtState → KubevirtState × Bool
refresh_instances none k = (k, false)
refresh_instances (some items) k = (add_all (record k { instances = [] }) items, true)

-- After the refresh.
answer : KubevirtState × Bool → String → Response → KubevirtState × Option Response × Bool
answer (k, false) mac resp = (k, none, true)
answer (k, true) mac resp = elim (get_instance_for_mac k mac) [
  | none ↦ (k, none, true)
  | some i ↦ (k, some (record resp { host_name = some i.name }), false)
]

-- `mac_string` prints a hardware address: `req.ClientHWAddr.String()`.
unfoldable pub handler4 :
    (List ℕ → String)
    → Option (List KubevirtInstance)
    → KubevirtState
    → Request
    → Response
    → KubevirtState × Option Response × Bool
unfolding answer
handler4 mac_string list k req resp =
    answer (refresh_instances list k) (mac_string req.hardware_addr) resp
