-- ===== src/Api/Meta.antt =====
-- The fields of metav1.ObjectMeta, metav1.OwnerReference and metav1.Condition that the code sets
-- or reads, and types.NamespacedName.
use oooi.Prelude.{ℕ, String, Bool, Option, none, [], ◌&&◌, ◌===◌}
use oooi.Prelude.Assoc.{Assoc}

-- Whose deletion deletes the object: the controller reference.
pub record OwnerReference : Type 0 where
  pub kind : String
  pub name : String

pub record ObjectMeta : Type 0 where
  pub name : String
  pub namespace : String
  pub labels : Assoc String
  pub generation : ℕ
  pub owner : Option OwnerReference

-- The metadata of an object that the code builds: a name and a namespace.
abbrev pub named : String → String → ObjectMeta
named name namespace = record {
  name = name;
  namespace = namespace;
  labels = [];
  generation = 0;
  owner = none;
}

-- types.NamespacedName
pub record NamespacedName : Type 0 where
  pub namespace : String
  pub name : String

abbrev pub key_of : ObjectMeta → NamespacedName
key_of m = record { namespace = m.namespace; name = m.name }

abbrev pub same_key : NamespacedName → NamespacedName → Bool
same_key a b = a.namespace === b.namespace && a.name === b.name

pub record Condition : Type 0 where
  pub type : String
  pub status : Bool
  pub observed_generation : ℕ
  pub last_transition_time : ℕ
  pub reason : String
  pub message : String
