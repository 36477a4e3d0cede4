-- ===== src/Api/Rbac.antt =====
-- Objects of core/v1 and rbac/v1 that the controllers build: the fields that the code sets.
use oooi.Prelude.{String, List}
use oooi.Prelude.Assoc.{Assoc}
use oooi.Api.Meta.{ObjectMeta}

-- `entries` is the field Data.
pub record ConfigMap : Type 0 where
  pub metadata : ObjectMeta
  pub entries : Assoc String

-- `storage` is the request of the claim, as resource.MustParse takes it.
pub record PersistentVolumeClaim : Type 0 where
  pub metadata : ObjectMeta
  pub access_modes : List String
  pub storage : String

pub record ServiceAccount : Type 0 where
  pub metadata : ObjectMeta

pub record PolicyRule : Type 0 where
  pub api_groups : List String
  pub resources : List String
  pub verbs : List String

pub record RoleRef : Type 0 where
  pub api_group : String
  pub kind : String
  pub name : String

pub record Subject : Type 0 where
  pub kind : String
  pub name : String
  pub namespace : String

-- A Role, and a ClusterRole, whose namespace is empty.
pub record Role : Type 0 where
  pub metadata : ObjectMeta
  pub rules : List PolicyRule

-- A RoleBinding, and a ClusterRoleBinding, whose namespace is empty.
pub record RoleBinding : Type 0 where
  pub metadata : ObjectMeta
  pub role_ref : RoleRef
  pub subjects : List Subject
