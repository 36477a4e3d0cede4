-- ===== src/Infra/Sample.antt =====
-- An API server in memory: the objects of each kind in a list, the newest version first.
use oooi.Prelude.{
  true, List, [], ◌∷◌, some, Outcome, ok, err, ◌≡◌, refl, arith, eq_iff, eq_refl, if◌then◌else◌,
  Outcome-cases, inl, inr,
}
use oooi.Api.Meta.{ObjectMeta, NamespacedName, key_of, same_key}
use oooi.Api.Infra.{Infra}
use oooi.Infra.Cluster.{ApiError, not_found, already_exists, Kind, Api, LawfulKind}
use oooi.Infra.Specs.{dhcp_shape, dns_shape, proxy_shape}
use oooi.Infra.Steps.{LawfulApi}

same_key_refl : (a : NamespacedName) → same_key a a ≡ true
same_key_refl a = ground (arith, eq_refl a.name, eq_refl a.namespace)

pub same_key_eq : (a b : NamespacedName) → same_key a b ≡ true → a ≡ b
same_key_eq a b e = ground (arith, eq_iff a.name b.name, eq_iff a.namespace b.namespace)

module _ {O : Type 0} (meta_of : O → ObjectMeta) where
  unfoldable pub find : NamespacedName → List O → Outcome ApiError O
  find key [] = err not_found
  find key (o ∷ os) = if same_key (key_of (meta_of o)) key then ok o else find key os

  pub find-found :
      (key : NamespacedName) (os : List O) (o : O) → find key os ≡ ok o → key_of (meta_of o) ≡ key
  unfolding find
  find-found key [] o e = absurd (ground arith)
  find-found key (x ∷ os) o e =
      ground (arith, same_key_eq (key_of (meta_of x)) key, find-found key os o)

  pub find-newest : (o : O) (os : List O) → find (key_of (meta_of o)) (o ∷ os) ≡ ok o
  unfolding find
  find-newest o os = ground (arith, same_key_refl (key_of (meta_of o)))

  -- An object that is there is not created, and one that is not there is not updated.
  unfoldable pub create_in : O → List O → Outcome ApiError (Unit {0}) × List O
  create_in o os = elim (find (key_of (meta_of o)) os) [
    | ok found ↦ (err already_exists, os)
    | err e ↦ (ok tt, o ∷ os)
  ]

  unfoldable pub update_in : O → List O → Outcome ApiError (Unit {0}) × List O
  update_in o os = elim (find (key_of (meta_of o)) os) [
    | ok found ↦ (ok tt, o ∷ os)
    | err e ↦ (err not_found, os)
  ]

  -- `merge` puts the status of an object into the stored one.
  unfoldable pub update_status_in : (O → O → O) → O → List O → Outcome ApiError (Unit {0}) × List O
  update_status_in merge o os = elim (find (key_of (meta_of o)) os) [
    | ok found ↦ (ok tt, merge found o ∷ os)
    | err e ↦ (err not_found, os)
  ]

  abbrev pub memory : (O → O → O) → Kind O
  memory merge = record {
    Objects = List O;
    get = find;
    create = create_in;
    update = update_in;
    update_status = update_status_in merge;
  }

  pub created_in :
      (o : O) (os : List O)
      → (create_in o os).0 ≡ ok tt
      → find (key_of (meta_of o)) (create_in o os).1 ≡ ok o
  unfolding create_in
  created_in o os good = elim (Outcome-cases (find (key_of (meta_of o)) os)) [
    | inl (e, q) ↦ ground (arith, find-newest o os)
    | inr (x, q) ↦ absurd (ground arith)
  ]

  pub updated_in :
      (o : O) (os : List O)
      → (update_in o os).0 ≡ ok tt
      → find (key_of (meta_of o)) (update_in o os).1 ≡ ok o
  unfolding update_in
  updated_in o os good = elim (Outcome-cases (find (key_of (meta_of o)) os)) [
    | inl (e, q) ↦ absurd (ground arith)
    | inr (x, q) ↦ ground (arith, find-newest o os)
  ]

-- The laws of a kind that is kept in memory, without defaults in its schema.
abbrev pub memory_laws :
    {O S : Type 0} (meta_of : O → ObjectMeta) (spec_of : O → S) (merge : O → O → O)
    → LawfulKind meta_of spec_of (memory meta_of merge)
memory_laws meta_of spec_of merge = record {
  defaulted = λ s. s;
  found_under = λ key os o e. find-found meta_of key os o e;
  created = λ o os good. (o, created_in meta_of o os good, refl);
  updated = λ o os good. (o, updated_in meta_of o os good, refl);
}

abbrev pub merge_infra : Infra → Infra → Infra
merge_infra found new = record found { status = new.status }

abbrev pub owned_by : ObjectMeta → ObjectMeta → Outcome ApiError ObjectMeta
owned_by owner m = ok (record m { owner = some (record { kind = "Infra"; name = owner.name }) })

abbrev pub api : Api
api = record {
  infras = memory (λ i. i.metadata) merge_infra;
  dhcp_servers = memory dhcp_shape.meta_of (λ found new. new);
  dns_servers = memory dns_shape.meta_of (λ found new. new);
  proxy_servers = memory proxy_shape.meta_of (λ found new. new);
  network_policies = memory (λ p. p.metadata) (λ found new. new);
  set_controller_reference = owned_by;
}

pub status_kept_in :
    (request : NamespacedName) (i j : Infra) (os : List Infra)
    → find (λ x. x.metadata) request os ≡ ok i
    → j.metadata ≡ i.metadata
    → (update_status_in (λ x. x.metadata) merge_infra j os).0 ≡ ok tt
    → find (λ x. x.metadata) request (update_status_in (λ x. x.metadata) merge_infra j os).1
      ≡ ok (record i { status = j.status })
unfolding update_status_in
status_kept_in request i j os here same good =
    let at : key_of i.metadata ≡ request = find-found (λ x. x.metadata) request os i here in
    let newest : find (λ x. x.metadata) (key_of i.metadata) (record i { status = j.status } ∷ os)
        ≡ ok (record i { status = j.status }) =
      find-newest (λ x. x.metadata) (record i { status = j.status }) os in
    ground arith

pub kept : (owner m m' : ObjectMeta) → owned_by owner m ≡ ok m' → key_of m' ≡ key_of m
kept owner m m' e = ground arith

abbrev pub api_laws : LawfulApi api
api_laws = record {
  dhcp = memory_laws dhcp_shape.meta_of dhcp_shape.spec_of (λ found new. new);
  dns = memory_laws dns_shape.meta_of dns_shape.spec_of (λ found new. new);
  proxy = memory_laws proxy_shape.meta_of proxy_shape.spec_of (λ found new. new);
  keeps = kept;
  policy_created = λ p os good. (p, created_in (λ x. x.metadata) p os good);
  status_kept = status_kept_in;
}
