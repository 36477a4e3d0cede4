-- ===== src/Api/Pods.antt =====
-- The Deployments of apps/v1 and the Services of core/v1: the fields that the code sets or reads.
use oooi.Prelude.{ℕ, String, Bool, Option, List}
use oooi.Prelude.Assoc.{Assoc}
use oooi.Api.Meta.{ObjectMeta}

pub record ContainerPort : Type 0 where
  pub name : String
  pub container_port : ℕ
  pub protocol : String

pub record VolumeMount : Type 0 where
  pub name : String
  pub mount_path : String
  pub read_only : Bool

-- A probe by HTTP.
pub record Probe : Type 0 where
  pub path : String
  pub port : ℕ
  pub initial_delay_seconds : ℕ
  pub period_seconds : ℕ
  pub timeout_seconds : ℕ
  pub failure_threshold : ℕ

pub record Amounts : Type 0 where
  pub cpu_millis : ℕ
  pub memory_bytes : ℕ

pub record Resources : Type 0 where
  pub requests : Amounts
  pub limits : Amounts

pub record Container : Type 0 where
  pub name : String
  pub image : String
  pub command : List String
  pub args : List String
  pub ports : List ContainerPort
  pub allow_privilege_escalation : Option Bool
  pub added_capabilities : List String
  pub volume_mounts : List VolumeMount
  pub liveness_probe : Option Probe
  pub readiness_probe : Option Probe
  pub resources : Option Resources

-- The items of a ConfigMap are pairs of a key and a path; without items, each key is a file.
pub data VolumeSource : Type 0 where
  config_map : String → List (String × String) → VolumeSource
  persistent_volume_claim : String → VolumeSource
  empty_dir : VolumeSource

pub record Volume : Type 0 where
  pub name : String
  pub source : VolumeSource

pub record PodSpec : Type 0 where
  pub service_account_name : String
  pub run_as_non_root : Bool
  pub run_as_user : ℕ
  pub containers : List Container
  pub volumes : List Volume

pub record DeploymentSpec : Type 0 where
  pub replicas : ℕ
  pub match_labels : Assoc String
  pub template_labels : Assoc String
  pub template_annotations : Assoc String
  pub pod : PodSpec

pub record Deployment : Type 0 where
  pub metadata : ObjectMeta
  pub spec : DeploymentSpec

pub record ServicePort : Type 0 where
  pub name : String
  pub port : ℕ
  pub target_port : ℕ
  pub protocol : String

pub data ServiceType : Type 0 where
  cluster_ip node_port load_balancer : ServiceType

-- `address` is the field ClusterIP, which the API server fills in.
pub record ServiceSpec : Type 0 where
  pub type : ServiceType
  pub selector : Assoc String
  pub ports : List ServicePort
  pub address : String

pub record Service : Type 0 where
  pub metadata : ObjectMeta
  pub spec : ServiceSpec
