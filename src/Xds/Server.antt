-- ===== src/Xds/Server.antt =====
-- The server's state and its operations. The gRPC server and the mutex, which is taken for the
-- whole of each operation, are not modelled.
use oooi.Prelude.{
  ℕ, String, Bool, true, false, List, [], ◌∷◌, ◌+◌, Option, none, some, Outcome, ok, err, show_ℕ,
  if◌then◌else◌,
}
use oooi.Prelude.Assoc.{Assoc, insert, delete}
use oooi.Api.Proxy.{ProxyServer}
use oooi.Xds.Envoy.{Message, Listener, Cluster}
use oooi.Xds.Build.{BuildError, Groups, build_envoy_resources}

-- go-control-plane's snapshots and their cache: `new_snapshot` is cache.NewSnapshot of a version,
-- and `set_snapshot` tells whether the cache took the snapshot of a node.
pub record SnapshotCache : Type 1 where
  pub Snapshot : Type 0
  pub Cache : Type 0
  pub new_snapshot : String → List Cluster → List Listener → Option Snapshot
  pub set_snapshot : String → Snapshot → Cache → Bool × Cache

pub data UpdateError : Type 0 where
  build : BuildError → UpdateError
  no_snapshot not_set : UpdateError

-- What the server takes from outside: whether a message packs, the order of a range over a map,
-- and the cache.
pub record Control : Type 1 where
  pub packs : Message → Bool
  pub order : Groups → Groups
  pub cache : SnapshotCache
  pub open cache use *

pub record XdsServer (c : Control) : Type 0 where
  pub store : c.Cache
  pub proxies : Assoc ProxyServer
  pub snap_version : ℕ

module _ (c : Control) where
  -- NewXDSServer with an empty cache; `listens` tells whether net.Listen succeeds on the port.
  unfoldable pub new_xds_server : c.Cache → Bool → Option (XdsServer c)
  new_xds_server empty listens =
      if listens then some (record { store = empty; proxies = []; snap_version = 0 }) else none

  -- After cache.SetSnapshot.
  unfoldable pub set_result :
      XdsServer c → Bool × c.Cache → XdsServer c × Outcome UpdateError (Unit {0})
  set_result xs (taken, store) = (record xs { store = store }, if taken then ok tt else err not_set)

  unfoldable pub publish :
      XdsServer c
      → ProxyServer
      → Outcome BuildError (List Listener × List Cluster)
      → XdsServer c × Outcome UpdateError (Unit {0})
  unfolding set_result
  publish xs proxy (err e) = (xs, err (build e))
  publish xs proxy (ok (listeners, clusters)) =
      elim (c.new_snapshot (show_ℕ xs.snap_version) clusters listeners) [
        | none ↦ (xs, err no_snapshot)
        | some snapshot ↦ set_result xs (c.set_snapshot proxy.metadata.name snapshot xs.store)
      ]

  unfoldable pub update_proxy_config :
      XdsServer c → ProxyServer → XdsServer c × Outcome UpdateError (Unit {0})
  unfolding publish
  update_proxy_config xs proxy =
      publish
        (record xs {
          proxies = insert proxy.metadata.name proxy xs.proxies;
          snap_version = xs.snap_version + 1;
        })
        proxy (build_envoy_resources c.packs c.order proxy)

  unfoldable pub remove_proxy_config : XdsServer c → String → XdsServer c
  remove_proxy_config xs name = record xs { proxies = delete name xs.proxies }

  -- The loop of WatchProxyServers: an update that fails is logged, and the loop goes on.
  unfoldable pub update_all : XdsServer c → List ProxyServer → XdsServer c
  update_all xs [] = xs
  update_all xs (proxy ∷ rest) = update_all (update_proxy_config xs proxy).0 rest

  -- `listing` is what the Kubernetes client lists in the namespace, or `none` if it fails. The
  -- second part is whether the call succeeded.
  unfoldable pub watch_proxy_servers : XdsServer c → Option (List ProxyServer) → XdsServer c × Bool
  watch_proxy_servers xs none = (xs, false)
  watch_proxy_servers xs (some items) = (update_all xs items, true)
