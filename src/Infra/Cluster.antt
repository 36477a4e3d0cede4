-- ===== src/Infra/Cluster.antt =====
-- The Kubernetes API as the controllers use it: controller-runtime's client for each kind of
-- object, and controllerutil.SetControllerReference.
use oooi.Prelude.{Bool, true, Outcome, ok, ◌≡◌, ◌↔◌}
use oooi.Api.Meta.{ObjectMeta, NamespacedName, key_of}
use oooi.Api.Infra.{Infra}
use oooi.Api.Dhcp.{DhcpServer}
use oooi.Api.Dns.{DnsServer}
use oooi.Api.Proxy.{ProxyServer}
use oooi.Api.Network.{NetworkPolicy}

pub data ApiError : Type 0 where
  not_found already_exists conflict refused : ApiError

-- The objects of one kind, as the API server stores them, and the calls on them.
pub record Kind (O : Type 0) : Type 1 where
  pub Objects : Type 0
  pub get : NamespacedName → Objects → Outcome ApiError O
  pub create : O → Objects → Outcome ApiError (Unit {0}) × Objects
  pub update : O → Objects → Outcome ApiError (Unit {0}) × Objects
  pub update_status : O → Objects → Outcome ApiError (Unit {0}) × Objects

-- What the code does with the objects of a kind: their metadata and their spec, and
-- reflect.DeepEqual of two specs, which tells lists apart by their contents alone.
pub record Shape (O S : Type 0) : Type 0 where
  pub meta_of : O → ObjectMeta
  pub with_meta : O → ObjectMeta → O
  pub spec_of : O → S
  pub with_spec : O → S → O
  pub same_spec : S → S → Bool
  pub same_spec_iff : (s t : S) → (same_spec s t ≡ true) ↔ (s ≡ t)
  pub meta-with_spec : (o : O) (s : S) → meta_of (with_spec o s) ≡ meta_of o
  pub spec-with_spec : (o : O) (s : S) → spec_of (with_spec o s) ≡ s
  pub meta-with_meta : (o : O) (m : ObjectMeta) → meta_of (with_meta o m) ≡ m
  pub spec-with_meta : (o : O) (m : ObjectMeta) → spec_of (with_meta o m) ≡ spec_of o

pub record Api : Type 1 where
  pub infras : Kind Infra
  pub dhcp_servers : Kind DhcpServer
  pub dns_servers : Kind DnsServer
  pub proxy_servers : Kind ProxyServer
  pub network_policies : Kind NetworkPolicy
  -- The metadata of the owned object with the owner's reference added.
  pub set_controller_reference : ObjectMeta → ObjectMeta → Outcome ApiError ObjectMeta

pub record World (a : Api) : Type 0 where
  pub infras : a.infras.Objects
  pub dhcp_servers : a.dhcp_servers.Objects
  pub dns_servers : a.dns_servers.Objects
  pub proxy_servers : a.proxy_servers.Objects
  pub network_policies : a.network_policies.Objects

-- An API server that keeps what it takes: `defaulted` is the schema's defaulting, which leaves
-- alone what it has filled in.
pub record LawfulKind {O S : Type 0} (meta_of : O → ObjectMeta) (spec_of : O → S) (k : Kind O)
    : Type 0 where
  pub defaulted : S → S
  pub found_under :
      (key : NamespacedName) (os : k.Objects) (o : O)
      → k.get key os ≡ ok o
      → key_of (meta_of o) ≡ key
  pub created :
      (o : O) (os : k.Objects)
      → (k.create o os).0 ≡ ok tt
      → (o' : O) × (k.get (key_of (meta_of o)) (k.create o os).1 ≡ ok o')
        × (spec_of o' ≡ defaulted (spec_of o))
  pub updated :
      (o : O) (os : k.Objects)
      → (k.update o os).0 ≡ ok tt
      → (o' : O) × (k.get (key_of (meta_of o)) (k.update o os).1 ≡ ok o')
        × (spec_of o' ≡ defaulted (spec_of o))
