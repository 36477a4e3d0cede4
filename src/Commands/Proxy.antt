-- ===== src/Commands/Proxy.antt =====
-- runProxy of cmd/proxy.go. The clients of Kubernetes and net.Listen are parameters, and so is the
-- signal that the command waits for: a run is described at its end.
use oooi.Prelude.{ℕ, String, Bool, true, false, List, Option, none, some, Outcome, ok, err}
use oooi.Api.Proxy.{ProxyServer}
use oooi.Xds.Server.{Control, XdsServer, new_xds_server, watch_proxy_servers}

-- The flags of the command. Only the first two are read.
pub record ProxyFlags : Type 0 where
  pub xds_port : ℕ
  pub namespace : String
  pub proxy_name : String
  pub log_level : String
  pub metrics_port : ℕ

pub data ProxyError : Type 0 where
  no_config no_client no_server not_listed : ProxyError

-- ctrl.GetConfig, client.New, the listing of the ProxyServers in a namespace, and net.Listen.
pub record ProxyHost : Type 1 where
  pub Config : Type 0
  pub Client : Type 0
  pub get_config : Option Config
  pub new_client : Config → Option Client
  pub list_in : Client → String → Option (List ProxyServer)
  pub listens : ℕ → Bool

-- The command ends before there is a server, or by the deferred Stop of the server that it made.
pub data Exit (c : Control) : Type 0 where
  without_server : ProxyError → Exit c
  stopped : XdsServer c → Outcome ProxyError (Unit {0}) → Exit c

module _ (c : Control) (k : ProxyHost) where
  -- After WatchProxyServers: the wait for a signal, or the return of the error.
  unfoldable pub after_watch : XdsServer c × Bool → Exit c
  after_watch (xs, true) = stopped xs (ok tt)
  after_watch (xs, false) = stopped xs (err not_listed)

  unfoldable pub with_client : c.Cache → ProxyFlags → k.Client → Exit c
  unfolding after_watch
  with_client empty flags client = elim (new_xds_server c empty (k.listens flags.xds_port)) [
    | none ↦ without_server no_server
    | some xs ↦ after_watch (watch_proxy_servers c xs (k.list_in client flags.namespace))
  ]

  unfoldable pub run_proxy : c.Cache → ProxyFlags → Exit c
  unfolding with_client
  run_proxy empty flags = elim k.get_config [
    | none ↦ without_server no_config
    | some cfg ↦ elim (k.new_client cfg) [
      | none ↦ without_server no_client
      | some client ↦ with_client empty flags client
    ]
  ]
