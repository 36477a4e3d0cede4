-- ===== src/Commands/Examples.antt =====
-- The pod of a proxy on the port 18000, and a cluster that lists another proxy before it.
use oooi.Prelude.{
  String, true, List, [], ◌∷◌, some, none, Option, ok, ◌≡◌, refl, show_ℕ, value, value-show_ℕ,
}
use oooi.Xds.Server.{XdsServer, update_proxy_config, update_all}
use oooi.Xds.Versions.{served}
use oooi.Xds.Sample.{proxy, proxy_named, control, cache_laws, update-good, fresh}
use oooi.ProxyController.Bootstrap.{bootstrap}
use oooi.ProxyController.PodLaws.{ServedAt}
use oooi.Commands.Proxy.{ProxyFlags, ProxyHost, run_proxy, stopped}
use oooi.Commands.ProxyRuns.{Reads, run_proxy-served}

-- Flags in the order in which the controller writes them.
read_flags : List String → Option ProxyFlags
read_flags (a ∷ port ∷ b ∷ namespace ∷ c ∷ name ∷ []) = some (record {
  xds_port = value 0 port;
  namespace = namespace;
  proxy_name = name;
  log_level = "info";
  metrics_port = 8080;
})
read_flags args = none

read_flags-Reads : Reads read_flags
unfolding read_flags
read_flags-Reads = λ port namespace name. (_, refl, value-show_ℕ port, refl, refl)

abbrev host : ProxyHost
host = record {
  Config = String;
  Client = String;
  get_config = some "in-cluster";
  new_client = λ cfg. some cfg;
  list_in = λ client namespace. some (proxy_named "other" ∷ proxy ∷ proxy_named "third" ∷ []);
  listens = λ port. true;
}

abbrev flags : ProxyFlags
flags = record {
  xds_port = 18000;
  namespace = "infra";
  proxy_name = "edge";
  log_level = "info";
  metrics_port = 8080;
}

abbrev after : XdsServer control
after = update_all control fresh (proxy_named "other" ∷ proxy ∷ proxy_named "third" ∷ [])

read :
    read_flags ("--xds-port" ∷ "18000" ∷ "--namespace" ∷ "infra" ∷ "--proxy-name" ∷ "edge" ∷ [])
    ≡ some flags
unfolding read_flags value
read = refl

ends : run_proxy control host [] flags ≡ stopped after (ok tt)
unfolding run_proxy oooi.Commands.Proxy.with_client oooi.Commands.Proxy.after_watch
    oooi.Xds.Server.new_xds_server oooi.Xds.Server.watch_proxy_servers
ends = refl

run_proxy-served_example :
    (s : String) × ServedAt (bootstrap proxy) "edge" 18000
    × (true ≡ true)
    × (served control cache_laws after "edge" ≡ some s)
    × (s ≡ show_ℕ 2)
unfolding oooi.ProxyController.Pod.manager_container show_ℕ
run_proxy-served_example =
    run_proxy-served control cache_laws host [] read_flags proxy (proxy_named "other" ∷ [])
      (proxy_named "third" ∷ []) _ flags after read_flags-Reads refl read ends (λ client. refl)
      (update-good _) (refl, tt)
