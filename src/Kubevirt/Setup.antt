-- ===== src/Kubevirt/Setup.antt =====
-- setupKubevirt: the client that the handler of the plugin is given. clientcmd and the generated
-- clientset are parameters.
use oooi.Prelude.{String, List, [], ◌∷◌, Outcome, ok, err}

module _ {E Config Client : Type 0} (build_config : String → Outcome E Config)
    (new_for_config : Config → Outcome E Client) where
  -- The path of the kubeconfig is the first argument, if there is one.
  unfoldable pub config_path : List String → String
  config_path [] = ""
  config_path (path ∷ rest) = path

  unfoldable pub setup_kubevirt : List String → Outcome E Client
  unfolding config_path
  setup_kubevirt args = elim (build_config (config_path args)) [
    | err e ↦ err e
    | ok cfg ↦ new_for_config cfg
  ]
