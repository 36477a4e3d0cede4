-- ===== src/Api/Network.antt =====
-- The fields of networking/v1's NetworkPolicy that the code sets.
use oooi.Prelude.{String, List}
use oooi.Prelude.Assoc.{Assoc}
use oooi.Api.Meta.{ObjectMeta}

pub data PolicyType : Type 0 where
  ingress egress : PolicyType

-- The pods of the namespaces with these labels.
pub record NetworkPolicyPeer : Type 0 where
  pub namespace_selector : Assoc String

pub record NetworkPolicyIngressRule : Type 0 where
  pub peers : List NetworkPolicyPeer

-- An empty selector matches every pod.
pub record NetworkPolicySpec : Type 0 where
  pub pod_selector : Assoc String
  pub ingress : List NetworkPolicyIngressRule
  pub policy_types : List PolicyType

pub record NetworkPolicy : Type 0 where
  pub metadata : ObjectMeta
  pub spec : NetworkPolicySpec
