-- ===== src/Xds/History.antt =====
-- Histories of the server: the versions that it has served, and the loop of WatchProxyServers.
use oooi.Prelude.{
  ℕ, String, false, List, [], ◌∷◌, ◌++◌, All, ◌+◌, ◌≤◌, some, ok, ◌≡◌, ◌≢◌, refl, sym, ap, ◌∙◌,
  arith, eq_refl, eq_iff, show_ℕ, show_ℕ-injective, length, ◌===◌, inl, inr, Bool-cases,
}
use oooi.Api.Proxy.{ProxyServer}
use oooi.Xds.Server.{Control, XdsServer, update_proxy_config, update_all, watch_proxy_servers}
use oooi.Xds.Versions.{LawfulCache, served, Made, update_cases, update_registers}

module _ (c : Control) (laws : LawfulCache c.cache) where
  -- Every snapshot that is served was published under a version that the counter has reached.
  abbrev pub IsBounded : XdsServer c → Type 0
  IsBounded xs =
      (node : String) (s : c.Snapshot)
      → served c laws xs node ≡ some s
      → (v : ℕ) × (v ≤ xs.snap_version) × (laws.version_of s ≡ show_ℕ v)

  kept :
      (xs : XdsServer c) (proxy : ProxyServer) (node : String) (s : c.Snapshot)
      → IsBounded xs
      → served c laws xs node ≡ some s
      → (v : ℕ) × (v ≤ (update_proxy_config c xs proxy).0.snap_version)
        × (laws.version_of s ≡ show_ℕ v)
  kept xs proxy node s h t =
      let (v, le, e) = h node s t in (v, omega (arith, (update_registers c laws xs proxy).0), e)

  -- The snapshot that an update made has the next version.
  made :
      (xs : XdsServer c) (proxy : ProxyServer) (s snap : c.Snapshot)
      → Made c laws xs proxy snap
      → some snap ≡ some s
      → (v : ℕ) × (v ≤ (update_proxy_config c xs proxy).0.snap_version)
        × (laws.version_of s ≡ show_ℕ v)
  made xs proxy s snap (ls, cs, b, n) same = (
    xs.snap_version + 1,
    omega (arith, (update_registers c laws xs proxy).0),
    ground (arith, laws.version_new (show_ℕ (xs.snap_version + 1)) cs ls snap n),
  )

  -- An update, successful or not, keeps the versions of all served snapshots within the count of
  -- the server. The cache has to be lawful.
  pub update-IsBounded :
      (xs : XdsServer c) (proxy : ProxyServer)
      → IsBounded xs
      → IsBounded (update_proxy_config c xs proxy).0
  update-IsBounded xs proxy h node s t = elim (update_cases c laws xs proxy) [
    | inl (snap, new, o, serve) ↦ elim (Bool-cases (proxy.metadata.name === node)) [
      | inl here ↦ made xs proxy s snap new (ground (arith, serve node))
      | inr there ↦ kept xs proxy node s h (ground (arith, serve node))
    ]
    | inr (inl (e, o, other, serve)) ↦ kept xs proxy node s h (ground (arith, serve node))
    | inr (inr (snap, new, o, serve)) ↦ elim (serve node) [
      | inl same ↦ kept xs proxy node s h (sym same ∙ t)
      | inr (here, fresh) ↦ made xs proxy s snap new (sym fresh ∙ t)
    ]
  ]

  -- What a successful update serves for its proxy.
  pub update-version :
      (xs : XdsServer c) (proxy : ProxyServer)
      → (update_proxy_config c xs proxy).1 ≡ ok tt
      → (s : c.Snapshot) × (served c laws (update_proxy_config c xs proxy).0 proxy.metadata.name
          ≡ some s)
        × (laws.version_of s ≡ show_ℕ (xs.snap_version + 1))
  update-version xs proxy good = elim (update_cases c laws xs proxy) [
    | inl (snap, (ls, cs, b, n), o, serve) ↦ (
      snap,
      ground (arith, serve proxy.metadata.name, eq_refl proxy.metadata.name),
      laws.version_new (show_ℕ (xs.snap_version + 1)) cs ls snap n,
    )
    | inr (inl (e, o, other, serve)) ↦ absurd (ground arith)
    | inr (inr (snap, new, o, serve)) ↦ absurd (ground arith)
  ]

  -- The version of a snapshot that a successful update publishes differs from the version of every
  -- snapshot that any node was served before the update, if the versions served were within the
  -- count. The cache has to be lawful.
  pub update-fresh :
      (xs : XdsServer c) (proxy : ProxyServer) (other : String) (old new : c.Snapshot)
      → IsBounded xs
      → (update_proxy_config c xs proxy).1 ≡ ok tt
      → served c laws (update_proxy_config c xs proxy).0 proxy.metadata.name ≡ some new
      → served c laws xs other ≡ some old
      → laws.version_of new ≢ laws.version_of old
  update-fresh xs proxy other old new h good there here = λ same.
      let (s, e, w) = update-version xs proxy good in
      let (v, le, q) = h other old here in
      let agree : new ≡ s = ground arith in
      omega (
        arith,
        show_ℕ-injective (xs.snap_version + 1) v
            (sym w ∙ ap laws.version_of (sym agree) ∙ same ∙ q),
      )

  -- An update of one proxy does not change what another node is served.
  update-apart :
      (xs : XdsServer c) (proxy : ProxyServer) (node : String)
      → (proxy.metadata.name === node) ≡ false
      → served c laws (update_proxy_config c xs proxy).0 node ≡ served c laws xs node
  update-apart xs proxy node apart = elim (update_cases c laws xs proxy) [
    | inl (snap, new, o, serve) ↦ ground (arith, serve node)
    | inr (inl (e, o, other, serve)) ↦ serve node
    | inr (inr (snap, new, o, serve)) ↦ elim (serve node) [
      | inl same ↦ same
      | inr (here, fresh) ↦ absurd (ground (arith, eq_iff proxy.metadata.name node))
    ]
  ]

  update_all-apart :
      (xs : XdsServer c) (items : List ProxyServer) (node : String)
      → All (λ p. (p.metadata.name === node) ≡ false) items
      → served c laws (update_all c xs items) node ≡ served c laws xs node
  unfolding update_all
  update_all-apart xs [] node apart = refl
  update_all-apart xs (p ∷ items) node (a, apart) =
      update_all-apart (update_proxy_config c xs p).0 items node apart ∙ update-apart xs p node a

  update_all-append :
      (xs : XdsServer c) (before rest : List ProxyServer)
      → update_all c xs (before ++ rest) ≡ update_all c (update_all c xs before) rest
  unfolding update_all
  update_all-append xs [] rest = refl
  update_all-append xs (p ∷ before) rest =
      update_all-append (update_proxy_config c xs p).0 before rest

  update_all-snap_version :
      (xs : XdsServer c) (items : List ProxyServer)
      → (update_all c xs items).snap_version ≡ xs.snap_version + length items
  unfolding update_all
  update_all-snap_version xs [] = omega arith
  update_all-snap_version xs (p ∷ items) = omega (
    arith,
    update_all-snap_version (update_proxy_config c xs p).0 items,
    (update_registers c laws xs p).0,
  )

  pub update_all-IsBounded :
      (xs : XdsServer c) (items : List ProxyServer)
      → IsBounded xs
      → IsBounded (update_all c xs items)
  unfolding update_all
  update_all-IsBounded xs [] h = h
  update_all-IsBounded xs (p ∷ items) h =
      update_all-IsBounded (update_proxy_config c xs p).0 items (update-IsBounded xs p h)

  split :
      (ys : XdsServer c) (behind : List ProxyServer) (proxy : ProxyServer)
      → All (λ p. (p.metadata.name === proxy.metadata.name) ≡ false) behind
      → served c laws (update_all c ys (proxy ∷ behind)) proxy.metadata.name
        ≡ served c laws (update_proxy_config c ys proxy).0 proxy.metadata.name
  unfolding update_all
  split ys behind proxy apart =
      update_all-apart (update_proxy_config c ys proxy).0 behind proxy.metadata.name apart

  -- Failures do not spread in WatchProxyServers: a listed proxy whose own update succeeds, and
  -- whose name is not listed again behind it, is served in the end, under the version of its place
  -- in the list, whatever becomes of the other updates.
  pub watch-served :
      (xs : XdsServer c) (before behind : List ProxyServer) (proxy : ProxyServer)
      → (update_proxy_config c (update_all c xs before) proxy).1 ≡ ok tt
      → All (λ p. (p.metadata.name === proxy.metadata.name) ≡ false) behind
      → (s : c.Snapshot) × (served c laws
            (watch_proxy_servers c xs (some (before ++ proxy ∷ behind))).0
            proxy.metadata.name
          ≡ some s)
        × (laws.version_of s ≡ show_ℕ (xs.snap_version + length before + 1))
  unfolding watch_proxy_servers
  watch-served xs before behind proxy good apart =
      let ys = update_all c xs before in
      let (s, e, w) = update-version ys proxy good in
      (
        s,
        ap (λ z. served c laws z proxy.metadata.name) (update_all-append xs before (proxy ∷ behind))
            ∙ split ys behind proxy apart
            ∙ e,
        w ∙ ap (λ n. show_ℕ (n + 1)) (update_all-snap_version xs before),
      )
