-- ===== src/Kubevirt/Examples.antt =====
-- A cluster with two virtual machines, and the requests of one of them and of a stranger.
use oooi.Prelude.{
  ℕ, String, true, false, List, [], ◌∷◌, none, some, ◌≡◌, ◌↔◌, refl, map, show_ℕ, join, Has,
}
use oooi.Packet.{Request, Response}
use oooi.Kubevirt.Plugin.{Interface, KubevirtInstance, KubevirtState, handler4, refresh_instances}
use oooi.Kubevirt.Instances.{find_named, Distinct}
use oooi.Kubevirt.Naming.{Owns, reply, reply_dropped}

abbrev mac_string : List ℕ → String
mac_string hw = join (map show_ℕ hw) ":"

abbrev vm : String → String → KubevirtInstance
vm name mac = record { name = name; namespace = "guests"; interfaces = record { mac = mac } ∷ [] }

abbrev machines : List KubevirtInstance
machines = vm "worker-0" "2:1" ∷ vm "worker-1" "2:2" ∷ []

abbrev stale : KubevirtState
stale = record { instances = vm "gone" "2:2" ∷ [] }

abbrev request : List ℕ → Request
request hw = record { hardware_addr = hw }

abbrev response : Response
response = record { your_ip_addr = some 10; lease_time = none; host_name = none }

machines-Distinct : Distinct machines
unfolding find_named
machines-Distinct = (refl, (refl, tt))

answered :
    reply mac_string stale (request (2 ∷ 2 ∷ [])) response (some machines)
    ≡ (some (record response { host_name = some "worker-1" }), false)
unfolding handler4 refresh_instances oooi.Kubevirt.Plugin.get_instance_for_mac
    oooi.Kubevirt.Plugin.find_instance oooi.Kubevirt.Plugin.add_all
    oooi.Kubevirt.Plugin.add_instance oooi.Kubevirt.Plugin.add_to oooi.Kubevirt.Plugin.has_mac join
    show_ℕ
answered = refl

reply_dropped_example :
    (reply mac_string stale (request (9 ∷ [])) response (some machines) ≡ (none, true))
    ↔ ((i : KubevirtInstance) → Has i machines → Owns "9" i → ⊥)
unfolding join show_ℕ
reply_dropped_example =
    reply_dropped mac_string stale (request (9 ∷ [])) response machines machines-Distinct
