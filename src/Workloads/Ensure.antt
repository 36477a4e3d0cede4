-- ===== src/Workloads/Ensure.antt =====
-- The steps of ensureDHCPDeployment, ensureDNSDeployment and ensureProxyDeployment: each sets the
-- controller reference on the object that it wants, and creates or updates that.
use oooi.Prelude.{ℕ, String, Bool, true, Outcome, ok, err, if◌then◌else◌}
use oooi.Api.Meta.{ObjectMeta, Condition}
use oooi.Api.Rbac.{ConfigMap, Role, RoleBinding}
use oooi.Infra.Cluster.{ApiError, Kind}
use oooi.Workloads.Kinds.{Parts}
use oooi.Retry.Loop.{RetryError, stopped, Backoff, create_or_update, create_or_update_with_retries}

-- What ends a step: nothing, or an error that ends the reconciliation.
abbrev pub Ends : Type 0 → Type 0
Ends E = Outcome E (Unit {0})

-- `if err := step(); err != nil { return err }`, and then the rest.
unfoldable pub followed_by : {E W : Type 0} → Ends E × W → (W → Ends E × W) → Ends E × W
followed_by (err e, w) rest = (err e, w)
followed_by (ok tt, w) rest = rest w

-- `if enabled { step }`
unfoldable pub only_if : {E Os : Type 0} → Bool → (Os → Ends E × Os) → Os → Ends E × Os
only_if enabled step os = let out = step os in if enabled then out else (ok tt, os)

-- metav1.Condition as the three controllers set it; `now` is metav1.Now.
abbrev pub ready : ℕ → ℕ → String → Condition
ready generation now message = record {
  type = "Ready";
  status = true;
  observed_generation = generation;
  last_transition_time = now;
  reason = "ReconciliationSucceeded";
  message = message;
}

-- What the update functions copy into the objects that are there.
abbrev pub copy_config : ConfigMap → ConfigMap → ConfigMap
copy_config desired found = record found {
  entries = desired.entries;
  metadata = record found.metadata { labels = desired.metadata.labels };
}

abbrev pub copy_binding : RoleBinding → RoleBinding → RoleBinding
copy_binding desired found = record found {
  role_ref = desired.role_ref;
  subjects = desired.subjects;
}

abbrev pub copy_role : Role → Role → Role
copy_role desired found = record found {
  rules = desired.rules;
  metadata = record found.metadata { labels = desired.metadata.labels };
}

abbrev pub copy_labelled_binding : RoleBinding → RoleBinding → RoleBinding
copy_labelled_binding desired found = record (copy_binding desired found) {
  metadata = record found.metadata { labels = desired.metadata.labels };
}

module _ {O C : Type 0} (p : Parts O C)
    (set_reference : ObjectMeta → ObjectMeta → Outcome ApiError ObjectMeta)
    (owner : ObjectMeta) where
  -- The object with the controller reference.
  unfoldable pub own : O → Outcome ApiError O
  own o = elim (set_reference owner (p.meta_of o)) [ err e ↦ err e | ok m ↦ ok (p.with_meta o m) ]

  -- The function that changes an object that is there: `change` copies what is wanted into it, and
  -- the reference is set again.
  abbrev pub refresh : (O → O) → O → Outcome ApiError O
  refresh change found = own (change found)

  module _ (k : Kind O) (change : O → O) (desired : O) where
    -- With the single try of the DNSServer and ProxyServer controllers.
    unfoldable pub ensure_object : k.Objects → Ends ApiError × k.Objects
    unfolding own
    ensure_object os = elim (own desired) [
      | err e ↦ (err e, os)
      | ok owned ↦ create_or_update p.meta_of k (refresh change) owned os
    ]

    -- With the loop of the DHCPServer controller.
    unfoldable pub ensure_retrying :
        Backoff → (ℕ → k.Objects → k.Objects) → k.Objects → Ends RetryError × k.Objects
    unfolding own
    ensure_retrying backoff others os = elim (own desired) [
      | err e ↦ (err (stopped e), os)
      | ok owned ↦
          let out =
            create_or_update_with_retries p.meta_of k (refresh change) backoff others owned os in
          (out.0, out.1.objects)
    ]

-- A cluster-scoped object has no owner: it is created or updated as it is.
module _ {O C : Type 0} (p : Parts O C) (k : Kind O) (change : O → O) (desired : O) where
  unfoldable pub ensure_unowned :
      Backoff → (ℕ → k.Objects → k.Objects) → k.Objects → Ends RetryError × k.Objects
  ensure_unowned backoff others os =
      let out =
        create_or_update_with_retries p.meta_of k (λ found. ok (change found)) backoff others
          desired os in
      (out.0, out.1.objects)
