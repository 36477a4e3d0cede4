-- ===== src/Xds/Versions.antt =====
-- The snapshots that the server publishes, and their versions.
use oooi.Prelude.{
  String, true, false, List, ◌+◌, Option, some, Outcome, ok, err, ◌≡◌, refl, arith, show_ℕ, ◌===◌,
  inl, inr, Outcome-cases, Option-cases, Bool-cases, if◌then◌else◌, ◌⊎◌, ◌≢◌, eq_iff,
}
use oooi.Prelude.Assoc.{lookup, insert, lookup-insert_self}
use oooi.Api.Proxy.{ProxyServer}
use oooi.Xds.Envoy.{Listener, Cluster}
use oooi.Xds.Build.{build_envoy_resources}
use oooi.Xds.Server.{
  SnapshotCache, Control, XdsServer, UpdateError, build, no_snapshot, not_set, publish, set_result,
  update_proxy_config,
}

-- A snapshot cache that works: it gives back the snapshot that it took for a node, and a snapshot
-- has the version that it was made with. SetSnapshot leaves the other nodes alone; if it fails, which
-- it may do while it answers the watches, its own node may have the new snapshot already.
pub record LawfulCache (c : SnapshotCache) : Type 0 where
  pub get_snapshot : String → c.Cache → Option c.Snapshot
  pub version_of : c.Snapshot → String
  pub version_new :
      (v : String) (cs : List Cluster) (ls : List Listener) (s : c.Snapshot)
      → c.new_snapshot v cs ls ≡ some s
      → version_of s ≡ v
  pub taken :
      (node : String) (s : c.Snapshot) (store : c.Cache)
      → (c.set_snapshot node s store).0 ≡ true
      → get_snapshot node (c.set_snapshot node s store).1 ≡ some s
  pub apart :
      (node other : String) (s : c.Snapshot) (store : c.Cache)
      → (node === other) ≡ false
      → get_snapshot other (c.set_snapshot node s store).1 ≡ get_snapshot other store
  pub failed :
      (node : String) (s : c.Snapshot) (store : c.Cache)
      → (c.set_snapshot node s store).0 ≡ false
      → (get_snapshot node (c.set_snapshot node s store).1 ≡ get_snapshot node store)
        ⊎ (get_snapshot node (c.set_snapshot node s store).1 ≡ some s)

module _ (c : Control) (laws : LawfulCache c.cache) where
  -- The snapshot that Envoy is served for a node.
  abbrev pub served : XdsServer c → String → Option c.Snapshot
  served xs node = laws.get_snapshot node xs.store

  -- Every update registers the proxy and takes a new version, whether it succeeds or not.
  pub update_registers :
      (xs : XdsServer c) (proxy : ProxyServer)
      → ((update_proxy_config c xs proxy).0.snap_version ≡ xs.snap_version + 1)
        × (lookup proxy.metadata.name (update_proxy_config c xs proxy).0.proxies ≡ some proxy)
  unfolding update_proxy_config
  update_registers xs proxy =
      (ground arith, ground (arith, lookup-insert_self proxy.metadata.name proxy xs.proxies))

  -- What an update makes of a proxy: its resources, and the snapshot of them under the next version.
  abbrev pub Made : XdsServer c → ProxyServer → c.Snapshot → Type 0
  Made xs proxy snap =
      (ls : List Listener) × (cs : List Cluster) × (build_envoy_resources c.packs c.order proxy
        ≡ ok (ls, cs))
      × (c.new_snapshot (show_ℕ (xs.snap_version + 1)) cs ls ≡ some snap)

  -- An update publishes a snapshot, or it fails before it reaches the cache, or the cache fails.
  abbrev pub Published :
      XdsServer c → ProxyServer → XdsServer c × Outcome UpdateError (Unit {0}) → Type 0
  Published xs proxy out =
      (snap : c.Snapshot) × Made xs proxy snap
      × (out.1 ≡ ok tt)
      × ((node : String)
          → served out.0 node
            ≡ (if proxy.metadata.name === node then some snap else served xs node))

  abbrev pub Unmade :
      XdsServer c → ProxyServer → XdsServer c × Outcome UpdateError (Unit {0}) → Type 0
  Unmade xs proxy out =
      (e : UpdateError) × (out.1 ≡ err e)
      × (e ≢ not_set)
      × ((node : String) → served out.0 node ≡ served xs node)

  abbrev pub NotSet :
      XdsServer c → ProxyServer → XdsServer c × Outcome UpdateError (Unit {0}) → Type 0
  NotSet xs proxy out =
      (snap : c.Snapshot) × Made xs proxy snap
      × (out.1 ≡ err not_set)
      × ((node : String)
          → (served out.0 node ≡ served xs node)
            ⊎ ((proxy.metadata.name ≡ node) × (served out.0 node ≡ some snap)))

  set_cases :
      (xs ys : XdsServer c) (proxy : ProxyServer) (snap : c.Snapshot)
      → ys.store ≡ xs.store
      → let out = set_result c ys (c.set_snapshot proxy.metadata.name snap ys.store) in
        ((out.1 ≡ ok tt)
          × ((node : String)
              → served out.0 node
                ≡ (if proxy.metadata.name === node then some snap else served xs node)))
        ⊎ ((out.1 ≡ err not_set)
            × ((node : String)
                → (served out.0 node ≡ served xs node)
                  ⊎ ((proxy.metadata.name ≡ node) × (served out.0 node ≡ some snap))))
  unfolding set_result
  set_cases xs ys proxy snap same =
      let name = proxy.metadata.name in
      elim (Bool-cases (c.set_snapshot name snap ys.store).0) [
        | inl good ↦ inl (
          ground arith,
          λ node. ground (
            arith,
            eq_iff name node,
            laws.taken name snap ys.store good,
            laws.apart name node snap ys.store,
          ),
        )
        | inr bad ↦ inr (
          ground arith,
          λ node. ground (
            arith,
            eq_iff name node,
            laws.failed name snap ys.store bad,
            laws.apart name node snap ys.store,
          ),
        )
      ]

  -- An update has one of three ends. It reports success, and then its proxy's node is served a
  -- snapshot of what was built under the next version and every other node what it was served
  -- before. Or it fails before it reaches the cache, and every node is served what it was served
  -- before. Or it reports that the cache failed to set the snapshot of what was built, and then
  -- every node is served what it was served before, but for the proxy's own node, which may be
  -- served the new snapshot already. The cache has to be lawful.
  pub update_cases :
      (xs : XdsServer c) (proxy : ProxyServer)
      → let out = update_proxy_config c xs proxy in
        Published xs proxy out ⊎ Unmade xs proxy out ⊎ NotSet xs proxy out
  unfolding update_proxy_config
  update_cases xs proxy = elim (Outcome-cases (build_envoy_resources c.packs c.order proxy)) [
    | inl (e, q) ↦ rw (q, publish) (inr (inl (build e, refl, λ f. ground arith, λ node. refl)))
    | inr ((ls, cs), q) ↦
        elim (Option-cases (c.new_snapshot (show_ℕ (xs.snap_version + 1)) cs ls)) [
          | inl r ↦
              rw (q, publish, r) (inr (inl (no_snapshot, refl, λ f. ground arith, λ node. refl)))
          | inr (snap, r) ↦
              rw (q, publish, r)
                (elim (set_cases xs
                  (record xs {
                    proxies = insert proxy.metadata.name proxy xs.proxies;
                    snap_version = xs.snap_version + 1;
                  })
                  proxy snap refl) [
                    | inl (a, b) ↦ inl (snap, (ls, cs, refl, r), a, b)
                    | inr (a, b) ↦ inr (inr (snap, (ls, cs, refl, r), a, b))
                  ])
        ]
  ]
