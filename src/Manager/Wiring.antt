-- ===== src/Manager/Wiring.antt =====
-- runManager of cmd/manager.go. Each error ends the process with os.Exit(1); controller-runtime is a
-- parameter.
use oooi.Prelude.{
  String, Bool, false, not, Option, none, some, Outcome, ok, err, ◌===◌, if◌then◌else◌,
}
use oooi.Workloads.Ensure.{Ends, followed_by}

-- The flags of the command.
pub record Flags : Type 0 where
  pub metrics_addr : String
  pub metrics_cert_path : String
  pub metrics_cert_name : String
  pub metrics_cert_key : String
  pub webhook_cert_path : String
  pub webhook_cert_name : String
  pub webhook_cert_key : String
  pub enable_leader_election : Bool
  pub probe_addr : String
  pub secure_metrics : Bool
  pub enable_http2 : Bool
  pub enable_open_shift : Bool

-- The reconcilers, with their field EnableOpenShift.
pub data Reconciler : Type 0 where
  infra : Reconciler
  dhcp_server dns_server proxy_server : Bool → Reconciler

-- The TLS options of one server: whether HTTP/2 is disabled, and where its certificate is from.
pub record TlsOptions (Watcher : Type 0) : Type 0 where
  pub http1_only : Bool
  pub certificate : Option Watcher

pub record MetricsOptions (Watcher : Type 0) : Type 0 where
  pub bind_address : String
  pub secure_serving : Bool
  pub filtered : Bool
  pub tls : TlsOptions Watcher

pub record ManagerOptions (Watcher : Type 0) : Type 0 where
  pub metrics : MetricsOptions Watcher
  pub webhook : TlsOptions Watcher
  pub health_probe_bind_address : String
  pub leader_election : Bool
  pub leader_election_id : String

pub record Runtime (E : Type 0) : Type 1 where
  pub Watcher : Type 0
  pub Manager : Type 0
  -- filepath.Join
  pub join_path : String → String → String
  pub new_watcher : String → String → Outcome E Watcher
  pub new_manager : ManagerOptions Watcher → Outcome E Manager
  pub set_up : Reconciler → Manager → Ends E × Manager
  pub add : Watcher → Manager → Ends E × Manager
  pub add_check : String → Manager → Ends E × Manager
  pub run_until_stopped : Manager → Ends E

module _ {E : Type 0} (c : Runtime E) where
  unfoldable pub watcher_for : String → String → String → Outcome E (Option c.Watcher)
  watcher_for path name key =
      if path === ""
      then ok none
      else elim (c.new_watcher (c.join_path path name) (c.join_path path key)) [
        | err e ↦ err e
        | ok watcher ↦ ok (some watcher)
      ]

  unfoldable pub manager_options :
      Flags → Option c.Watcher → Option c.Watcher → ManagerOptions c.Watcher
  manager_options flags webhook metrics = record {
    metrics = record {
      bind_address = flags.metrics_addr;
      secure_serving = flags.secure_metrics;
      filtered = flags.secure_metrics;
      tls = record { http1_only = not flags.enable_http2; certificate = metrics };
    };
    webhook = record { http1_only = not flags.enable_http2; certificate = webhook };
    health_probe_bind_address = flags.probe_addr;
    leader_election = flags.enable_leader_election;
    leader_election_id = "8d60c2c3.densityops.com";
  }

  unfoldable pub add_watcher : Option c.Watcher → c.Manager → Ends E × c.Manager
  add_watcher none m = (ok tt, m)
  add_watcher (some watcher) m = c.add watcher m

  -- The reconcilers, the watchers and the two checks. ProxyServerReconciler is not given the flag.
  unfoldable pub set_up_all :
      Flags → Option c.Watcher → Option c.Watcher → c.Manager → Ends E × c.Manager
  unfolding add_watcher
  set_up_all flags webhook metrics m = followed_by (c.set_up infra m) (λ m1.
      followed_by (c.set_up (dhcp_server flags.enable_open_shift) m1) (λ m2.
        followed_by (c.set_up (dns_server flags.enable_open_shift) m2) (λ m3.
          followed_by (c.set_up (proxy_server false) m3) (λ m4.
            followed_by (add_watcher metrics m4) (λ m5.
              followed_by (add_watcher webhook m5)
                (λ m6. followed_by (c.add_check "healthz" m6) (c.add_check "readyz")))))))

  unfoldable pub start_manager :
      Flags → Option c.Watcher → Option c.Watcher → Outcome E c.Manager → Ends E
  unfolding set_up_all
  start_manager flags webhook metrics (err e) = err e
  start_manager flags webhook metrics (ok m) =
      let out = set_up_all flags webhook metrics m in
      elim out.0 [ err e ↦ err e | ok done ↦ c.run_until_stopped out.1 ]

  unfoldable pub run_manager : Flags → Ends E
  unfolding watcher_for manager_options start_manager
  run_manager flags =
      elim (watcher_for flags.webhook_cert_path flags.webhook_cert_name flags.webhook_cert_key) [
        | err e ↦ err e
        | ok webhook ↦
            elim (watcher_for flags.metrics_cert_path flags.metrics_cert_name
              flags.metrics_cert_key) [
                | err e ↦ err e
                | ok metrics ↦
                    start_manager flags webhook metrics
                      (c.new_manager (manager_options flags webhook metrics))
              ]
      ]
