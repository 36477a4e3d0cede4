-- ===== src/Workloads/Kept.antt =====
-- The steps with a single try, kind by kind: what each has stored when it succeeds.
use oooi.Prelude.{Bool, false, List, ok, ◌≡◌, ◌⊎◌, refl}
use oooi.Api.Meta.{ObjectMeta, key_of}
use oooi.Api.Rbac.{ConfigMap, ServiceAccount, Role, RoleBinding, RoleRef, Subject}
use oooi.Api.Pods.{Deployment, Service}
use oooi.Workloads.Kinds.{
  ClusterApi, config_map_parts, service_account_parts, role_parts, binding_parts, deployment_parts,
  service_parts,
}
use oooi.Workloads.Laws.{LawfulCluster, whole-keeps}
use oooi.Workloads.Ensure.{only_if, ensure_object, copy_config}
use oooi.Workloads.Stored.{Holds, only_if-Holds, ensure_object-Holds}

-- The objects that a controller stores with the content that it wants.
abbrev pub ConfigKept : (a : ClusterApi) → ConfigMap → a.config_maps.Objects → Type 0
ConfigKept a o = Holds config_map_parts a.config_maps (λ c. c ≡ o.entries) (key_of o.metadata)

abbrev pub RoleKept : (a : ClusterApi) → Role → a.roles.Objects → Type 0
RoleKept a o = Holds role_parts a.roles (λ c. c ≡ o.rules) (key_of o.metadata)

abbrev pub BindingKept : (a : ClusterApi) → RoleBinding → a.role_bindings.Objects → Type 0
BindingKept a o =
    Holds binding_parts a.role_bindings (λ c. c ≡ (o.role_ref, o.subjects)) (key_of o.metadata)

-- The objects that are only there.
abbrev pub AccountThere : (a : ClusterApi) → ServiceAccount → a.service_accounts.Objects → Type 0
AccountThere a o =
    Holds service_account_parts a.service_accounts (λ c. Unit {0}) (key_of o.metadata)

abbrev pub DeploymentThere : (a : ClusterApi) → Deployment → a.deployments.Objects → Type 0
DeploymentThere a o = Holds deployment_parts a.deployments (λ c. Unit {0}) (key_of o.metadata)

abbrev pub ServiceThere : (a : ClusterApi) → Service → a.services.Objects → Type 0
ServiceThere a o = Holds service_parts a.services (λ c. Unit {0}) (key_of o.metadata)

module _ (a : ClusterApi) (laws : LawfulCluster a) (owner : ObjectMeta) where
  pub ensure_object-ConfigKept :
      (desired : ConfigMap) (os : a.config_maps.Objects)
      → let out =
          ensure_object config_map_parts a.set_controller_reference owner a.config_maps
            (copy_config desired)
            desired
            os in
        out.0 ≡ ok tt → ConfigKept a desired out.1
  ensure_object-ConfigKept desired os =
      ensure_object-Holds config_map_parts a.config_maps laws.config_maps (λ c. c ≡ desired.entries)
        (whole-keeps config_map_parts a.config_maps laws.config_maps laws.config_maps_whole
          desired.entries)
        (copy_config desired) desired refl (λ o. (refl, refl)) a.set_controller_reference laws.keeps
        owner os

  pub ensure_object-AccountThere :
      (desired : ServiceAccount) (os : a.service_accounts.Objects)
      → let out =
          ensure_object service_account_parts a.set_controller_reference owner a.service_accounts
            (λ found. found)
            desired
            os in
        out.0 ≡ ok tt → AccountThere a desired out.1
  ensure_object-AccountThere desired os =
      ensure_object-Holds service_account_parts a.service_accounts laws.service_accounts (λ c. Unit)
        (λ c h. tt) (λ found. found) desired tt (λ o. (refl, tt)) a.set_controller_reference
        laws.keeps owner os

  pub ensure_object-DeploymentThere :
      (desired : Deployment) (os : a.deployments.Objects)
      → let out =
          ensure_object deployment_parts a.set_controller_reference owner a.deployments
            (λ found. found)
            desired
            os in
        out.0 ≡ ok tt → DeploymentThere a desired out.1
  ensure_object-DeploymentThere desired os =
      ensure_object-Holds deployment_parts a.deployments laws.deployments (λ c. Unit) (λ c h. tt)
        (λ found. found) desired tt (λ o. (refl, tt)) a.set_controller_reference laws.keeps owner os

  pub ensure_object-ServiceThere :
      (desired : Service) (os : a.services.Objects)
      → let out =
          ensure_object service_parts a.set_controller_reference owner a.services
            (λ found. found)
            desired
            os in
        out.0 ≡ ok tt → ServiceThere a desired out.1
  ensure_object-ServiceThere desired os =
      ensure_object-Holds service_parts a.services laws.services (λ c. Unit) (λ c h. tt)
        (λ found. found) desired tt (λ o. (refl, tt)) a.set_controller_reference laws.keeps owner os

  pub ensure_object-RoleKept :
      (change : Role → Role) (desired : Role) (os : a.roles.Objects)
      → ((o : Role)
          → (key_of (change o).metadata ≡ key_of o.metadata) × ((change o).rules ≡ desired.rules))
      → let out =
          ensure_object role_parts a.set_controller_reference owner a.roles change desired os in
        out.0 ≡ ok tt → RoleKept a desired out.1
  ensure_object-RoleKept change desired os fits =
      ensure_object-Holds role_parts a.roles laws.roles (λ c. c ≡ desired.rules)
        (whole-keeps role_parts a.roles laws.roles laws.roles_whole desired.rules) change desired
        refl fits a.set_controller_reference laws.keeps owner os

  -- For both ways in which the controllers refresh a binding, with its labels and without them.
  pub ensure_object-BindingKept :
      (change : RoleBinding → RoleBinding) (desired : RoleBinding) (os : a.role_bindings.Objects)
      → ((o : RoleBinding)
          → (key_of (change o).metadata ≡ key_of o.metadata)
            × (binding_parts.content_of (change o) ≡ (desired.role_ref, desired.subjects)))
      → let out =
          ensure_object binding_parts a.set_controller_reference owner a.role_bindings change
            desired os in
        out.0 ≡ ok tt → BindingKept a desired out.1
  ensure_object-BindingKept change desired os fits =
      let wanted : RoleRef × List Subject = (desired.role_ref, desired.subjects) in
      ensure_object-Holds binding_parts a.role_bindings laws.role_bindings (λ c. c ≡ wanted)
        (whole-keeps binding_parts a.role_bindings laws.role_bindings laws.role_bindings_whole
          wanted)
        change desired refl fits a.set_controller_reference laws.keeps owner os

  pub optional-BindingKept :
      (enabled : Bool) (change : RoleBinding → RoleBinding) (desired : RoleBinding)
      (os : a.role_bindings.Objects)
      → ((o : RoleBinding)
          → (key_of (change o).metadata ≡ key_of o.metadata)
            × (binding_parts.content_of (change o) ≡ (desired.role_ref, desired.subjects)))
      → let step =
          ensure_object binding_parts a.set_controller_reference owner a.role_bindings change
            desired in
        (only_if enabled step os).0 ≡ ok tt
        → (enabled ≡ false) ⊎ BindingKept a desired (only_if enabled step os).1
  optional-BindingKept enabled change desired os fits won =
      only_if-Holds enabled
        (ensure_object binding_parts a.set_controller_reference owner a.role_bindings change
          desired)
        os (BindingKept a desired) won (ensure_object-BindingKept change desired os fits)
