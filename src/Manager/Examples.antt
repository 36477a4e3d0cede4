-- ===== src/Manager/Examples.antt =====
-- A manager in memory.
use oooi.Prelude.{String, true, false, List, [], ◌∷◌, ◌++◌, concat, ok, ◌≡◌, refl, arith}
use oooi.Workloads.Ensure.{followed_by}
use oooi.Manager.Wiring.{Flags, ManagerOptions, Reconciler, Runtime, run_manager}
use oooi.Manager.Started.{LawfulRuntime, Complete, run_manager-Complete}

pub record Sample : Type 0 where
  pub controllers : List Reconciler
  pub checks : List String

abbrev memory : Runtime String
memory = record {
  Watcher = String;
  Manager = Sample;
  join_path = λ a b. concat (a ∷ "/" ∷ b ∷ []);
  new_watcher = λ cert key. ok cert;
  new_manager = λ opts. ok (record { controllers = []; checks = [] });
  set_up = λ r m. (ok tt, record m { controllers = m.controllers ++ r ∷ [] });
  add = λ w m. (ok tt, m);
  add_check = λ name m. (ok tt, record m { checks = m.checks ++ name ∷ [] });
  run_until_stopped = λ m. ok tt;
}

fresh_memory :
    (opts : ManagerOptions String) (m : Sample)
    → memory.new_manager opts ≡ ok m
    → (m.controllers ≡ []) × (m.checks ≡ [])
fresh_memory opts m e = (ground arith, ground arith)

abbrev memory_laws : LawfulRuntime memory
memory_laws = record {
  controllers = λ m. m.controllers;
  checks = λ m. m.checks;
  fresh = λ opts m e. fresh_memory opts m e;
  set_up_appends = λ r m e. (refl, refl);
  add_keeps = λ w m. (refl, refl);
  check_appends = λ name m e. (refl, refl);
}

abbrev flags : Flags
flags = record {
  metrics_addr = "0";
  metrics_cert_path = "";
  metrics_cert_name = "tls.crt";
  metrics_cert_key = "tls.key";
  webhook_cert_path = "/certs";
  webhook_cert_name = "tls.crt";
  webhook_cert_key = "tls.key";
  enable_leader_election = false;
  probe_addr = ":8081";
  secure_metrics = true;
  enable_http2 = false;
  enable_open_shift = true;
}

started : run_manager memory flags ≡ ok tt
unfolding run_manager followed_by
started = refl

run_manager-Complete_example :
    (m : Sample) × Complete memory memory_laws flags m × (memory.run_until_stopped m ≡ ok tt)
run_manager-Complete_example = run_manager-Complete memory memory_laws flags started
