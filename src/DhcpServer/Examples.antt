-- ===== src/DhcpServer/Examples.antt =====
-- A start of the server, and a client that is a virtual machine beside one that is not.
use oooi.Prelude.{
  ℕ, String, List, [], ◌∷◌, ◌++◌, Option, none, some, Outcome, ok, err, ◌≡◌, ◌⊎◌, refl, inl, inr,
  Has, All,
}
use oooi.Prelude.Assoc.{lookup}
use oooi.Packet.{Request, Response}
use oooi.Time.{pos}
use oooi.Leases.State.{PluginState}
use oooi.Leases.Sample.{host}
use oooi.Kubevirt.Plugin.{KubevirtInstance, KubevirtState}
use oooi.DhcpServer.Run.{Plugin, Coredhcp, run}
use oooi.DhcpServer.Registered.{LawfulRegistry}
use oooi.DhcpServer.Chain.{
  Passed, goes, Exchange, exchanges, Leased, FromMachine, exchanges-Leased, Listed,
}

-- A coredhcp that keeps the plugins in a list.
abbrev listing : Coredhcp String
listing = record {
  Config = String;
  Registry = List Plugin;
  Servers = String;
  load = λ file. ok file;
  register_plugin = λ p r. (ok tt, r ++ p ∷ []);
  start = λ cfg r. ok cfg;
  wait = λ servers. ok tt;
}

abbrev listing_laws : LawfulRegistry listing
listing_laws = record { registered = λ r. r; appends = λ p r e. refl }

runs : (run listing "hyperdhcp.yaml" []).0 ≡ ok tt
unfolding run
runs = refl

abbrev response : Response
response = record { your_ip_addr = none; lease_time = none; host_name = none }

abbrev machine : KubevirtInstance
machine = record {
  name = "worker-0";
  namespace = "guests";
  interfaces = record { mac = host.mac_string (2 ∷ 1 ∷ []) } ∷ [];
}

abbrev from_machine : Exchange
from_machine = record {
  request = record { hardware_addr = 2 ∷ 1 ∷ [] };
  response = response;
  machines = some (machine ∷ []);
  now = 5_000_000_000_000;
  later = 5_000_000_000_100;
}

abbrev from_stranger : Exchange
from_stranger = record from_machine { request = record { hardware_addr = 9 ∷ [] } }

abbrev empty : PluginState host
empty = record {
  records_v4 = [];
  lease_time = pos 3_600_000_000_000;
  leasedb = [];
  allocator = record { first = 10; last = 12; taken = [] };
}

abbrev both : List Exchange
both = from_machine ∷ from_stranger ∷ []

abbrev pass : Request → Response → Passed
pass req resp = goes resp

listed : All (Listed host pass) both
unfolding oooi.Kubevirt.Instances.find_named
listed = ((refl, tt), ((refl, tt), tt))

leased :
    Leased host pass
      (host.mac_string (2 ∷ 1 ∷ []))
      (exchanges host pass (record { instances = [] }, empty) both).1
unfolding exchanges lookup oooi.Kubevirt.Plugin.handler4 oooi.Kubevirt.Plugin.refresh_instances
    oooi.Kubevirt.Plugin.get_instance_for_mac oooi.Kubevirt.Plugin.find_instance
    oooi.Kubevirt.Plugin.add_all oooi.Kubevirt.Plugin.add_instance oooi.Kubevirt.Plugin.add_to
    oooi.Kubevirt.Plugin.has_mac oooi.Prelude.join oooi.Prelude.show_ℕ oooi.Leases.Handler.handler4
    oooi.Leases.Sample.allocate_from oooi.Prelude.any_of oooi.Prelude.Assoc.insert
leased = (_, refl)

exchanges-Leased_example :
    Leased host pass (host.mac_string (2 ∷ 1 ∷ [])) empty
    ⊎ ((x : Exchange) × Has x both × FromMachine host pass x (host.mac_string (2 ∷ 1 ∷ [])))
exchanges-Leased_example =
    exchanges-Leased host pass (host.mac_string (2 ∷ 1 ∷ [])) (record { instances = [] }) empty both
      listed leased
