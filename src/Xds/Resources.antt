-- ===== src/Xds/Resources.antt =====
-- All listeners and clusters of a proxy.
use mathlib.Core.List.{append_assoc, append-nil, map-append}
use oooi.Prelude.{
  ℕ, String, Bool, true, false, List, [], ◌∷◌, ◌++◌, map, Option, none, some, ok, ◌≡◌, refl, sym,
  ap, arith, eq_refl, ◌==◌, ◌===◌, Bool-cases, inl, inr, if◌then◌else◌,
}
use mathlib.Core.Path.{subst}
use oooi.Api.Proxy.{ProxyServer, ProxyBackend}
use oooi.Xds.Envoy.{
  Message, tcp_proxy, file_access_log, tls_inspector, FilterChain, Cluster, Listener,
}
use oooi.Xds.Build.{
  BuildError, Groups, cluster_resource, access_log_format, access_log_error, tls_inspector_error,
  tcp_proxy_error, plain_tcp_error, fallback_error, PortState, pack, round, add_backend,
  add_backends, add_catch_all, inspectors, listener, finish_port, start_port, build_ports,
  build_envoy_resources, group_by_port,
}
use oooi.Xds.Grouping.{members}
use oooi.Xds.Packing.{Gives, Gives-pack, Gives-bind, Gives-unique, Gives-total}
use oooi.Xds.Ports.{
  name_of, rounds, packed_filter, clusters-rounds, chains-rounds, plain-rounds, fallback-rounds,
  last_konnectivity-ne-empty, cluster_name-ne-empty, first_cluster, last_konnectivity, catch_all,
  expected_chains, expected_inspectors, expected_listener, sni_chain, expected_listeners,
  expected_resources,
}

module _ (packs : Message → Bool) (proxy : ProxyServer) where
  add_backends-Gives :
      (port : ℕ) (st : PortState) (bs : List ProxyBackend)
      → Gives packs (add_backends packs proxy port st bs) (rounds proxy port st bs)
  unfolding add_backends add_backend rounds
  add_backends-Gives port st [] = inl refl
  add_backends-Gives port st (b ∷ bs) =
      Gives-bind packs (add_backend packs proxy port st b)
        (round proxy port st b (packed_filter proxy b)) _ _
        (Gives-bind packs (pack packs tcp_proxy_error (packed_filter proxy b))
          (packed_filter proxy b) _ _ (Gives-pack packs tcp_proxy_error (packed_filter proxy b))
          (inl refl))
        (add_backends-Gives port (round proxy port st b (packed_filter proxy b)) bs)

  -- The name is empty only where there is no cluster.
  abbrev IsNamed : Option String → Type 0
  IsNamed none = Unit {0}
  IsNamed (some name) = (name === "") ≡ false

  add_catch_all-Gives :
      (e : BuildError) (prefix : String) (o : Option String) (chains : List FilterChain)
      → IsNamed o
      → Gives packs
          (add_catch_all packs e prefix (name_of o) chains)
          (chains ++ catch_all proxy prefix o)
  unfolding add_catch_all
  add_catch_all-Gives e prefix none chains named = inl (ap ok (sym (append-nil chains)))
  add_catch_all-Gives e prefix (some name) chains named =
      rw (named, add_catch_all)
        (Gives-bind packs (pack packs e (tcp_proxy prefix name)) (tcp_proxy prefix name) _ _
          (Gives-pack packs e (tcp_proxy prefix name)) (inl refl))

  inspectors-Gives :
      (port : ℕ) → Gives packs (inspectors packs port) (expected_inspectors proxy port)
  unfolding inspectors
  inspectors-Gives port = elim (Bool-cases (port == 6443)) [
    | inl plain ↦ rw plain (inl refl)
    | inr other ↦ rw other (
        Gives-bind packs (pack packs tls_inspector_error tls_inspector) tls_inspector _ _
          (Gives-pack packs tls_inspector_error tls_inspector) (inl refl))
  ]

  abbrev plain_choice : ℕ → List ProxyBackend → Option String
  plain_choice port bs = if port == 6443 then first_cluster proxy bs else none

  abbrev fallback_choice : ℕ → List ProxyBackend → Option String
  fallback_choice port bs = if port == 443 then last_konnectivity proxy bs else none

  first_cluster-IsNamed : (bs : List ProxyBackend) → IsNamed (first_cluster proxy bs)
  first_cluster-IsNamed [] = tt
  first_cluster-IsNamed (b ∷ bs) = cluster_name-ne-empty proxy b

  plain_choice-IsNamed : (port : ℕ) (bs : List ProxyBackend) → IsNamed (plain_choice port bs)
  plain_choice-IsNamed port bs = elim (Bool-cases (port == 6443)) [
    | inl q ↦ rw q (first_cluster-IsNamed bs)
    | inr q ↦ rw q tt
  ]

  last_konnectivity-IsNamed :
      (bs : List ProxyBackend) (o : Option String) → last_konnectivity proxy bs ≡ o → IsNamed o
  last_konnectivity-IsNamed bs none e = tt
  last_konnectivity-IsNamed bs (some name) e = last_konnectivity-ne-empty proxy bs name e

  fallback_choice-IsNamed : (port : ℕ) (bs : List ProxyBackend) → IsNamed (fallback_choice port bs)
  fallback_choice-IsNamed port bs = elim (Bool-cases (port == 443)) [
    | inl q ↦ rw q (last_konnectivity-IsNamed bs (last_konnectivity proxy bs) refl)
    | inr q ↦ rw q tt
  ]

  plain-choice :
      (port : ℕ) (cs : List Cluster) (bs : List ProxyBackend)
      → (rounds proxy port (start_port cs) bs).plain_tcp_cluster ≡ name_of (plain_choice port bs)
  plain-choice port cs bs = ground (arith, plain-rounds proxy port (start_port cs) bs, eq_refl "")

  fallback-choice :
      (port : ℕ) (cs : List Cluster) (bs : List ProxyBackend)
      → (rounds proxy port (start_port cs) bs).fallback_cluster_name
        ≡ name_of (fallback_choice port bs)
  fallback-choice port cs bs = ground (arith, fallback-rounds proxy port (start_port cs) bs)

  chains-choice :
      (port : ℕ) (cs : List Cluster) (bs : List ProxyBackend)
      → ((rounds proxy port (start_port cs) bs).filter_chains
            ++ catch_all proxy "plain-tcp" (plain_choice port bs))
          ++ catch_all proxy "fallback" (fallback_choice port bs)
        ≡ expected_chains proxy port bs
  chains-choice port cs bs =
      ground
        (arith, chains-rounds proxy port (start_port cs) bs, append-nil (map (sni_chain proxy) bs))

  finish_port-Gives :
      (port : ℕ) (cs : List Cluster) (bs : List ProxyBackend)
      → Gives packs
          (finish_port packs proxy port (rounds proxy port (start_port cs) bs))
          (expected_listener proxy port bs)
  unfolding finish_port
  finish_port-Gives port cs bs =
      let st = rounds proxy port (start_port cs) bs in
      let chains = st.filter_chains ++ catch_all proxy "plain-tcp" (plain_choice port bs) in
      let log = file_access_log "/dev/stdout" access_log_format in
      rw (plain-choice port cs bs, fallback-choice port cs bs)
        (Gives-bind packs
          (add_catch_all packs plain_tcp_error "plain-tcp" (name_of (plain_choice port bs))
            st.filter_chains)
          chains _ _
          (add_catch_all-Gives plain_tcp_error "plain-tcp" (plain_choice port bs) st.filter_chains
            (plain_choice-IsNamed port bs))
          (Gives-bind packs
            (add_catch_all packs fallback_error "fallback" (name_of (fallback_choice port bs))
              chains)
            (chains ++ catch_all proxy "fallback" (fallback_choice port bs)) _ _
            (add_catch_all-Gives fallback_error "fallback" (fallback_choice port bs) chains
              (fallback_choice-IsNamed port bs))
            (Gives-bind packs (pack packs access_log_error log) log _ _
              (Gives-pack packs access_log_error log)
              (Gives-bind packs (inspectors packs port) (expected_inspectors proxy port) _ _
                (inspectors-Gives port)
                (inl (
                  ap (λ c. ok (listener proxy port c (expected_inspectors proxy port) log))
                    (chains-choice port cs bs)))))))

  -- One more port in front of the others.
  expected-cons :
      (port : ℕ) (bs : List ProxyBackend) (rest : Groups) (ls : List Listener) (cs : List Cluster)
      → ◌≡◌ {A = List Listener × List Cluster}
          (
            (ls ++ expected_listener proxy port bs ∷ []) ++ expected_listeners proxy rest,
            (rounds proxy port (start_port cs) bs).clusters
                ++ map (cluster_resource proxy) (members rest),
          )
          (
            ls ++ expected_listeners proxy ((port, bs) ∷ rest),
            cs ++ map (cluster_resource proxy) (members ((port, bs) ∷ rest)),
          )
  expected-cons port bs rest ls cs = rw (
    clusters-rounds proxy port (start_port cs) bs,
    map-append (cluster_resource proxy) bs (members rest),
    append_assoc ls (expected_listener proxy port bs ∷ []) (expected_listeners proxy rest),
    append_assoc cs (map (cluster_resource proxy) bs) (map (cluster_resource proxy) (members rest)),
  )

  build_ports-Gives :
      (gs : Groups) (ls : List Listener) (cs : List Cluster)
      → Gives packs
          (build_ports packs proxy gs ls cs)
          (ls ++ expected_listeners proxy gs, cs ++ map (cluster_resource proxy) (members gs))
  unfolding build_ports
  build_ports-Gives [] ls cs = inl (ground (arith, append-nil ls, append-nil cs))
  build_ports-Gives ((port, bs) ∷ rest) ls cs =
      let st = rounds proxy port (start_port cs) bs in
      let l = expected_listener proxy port bs in
      let parts = build_ports-Gives rest (ls ++ l ∷ []) st.clusters in
      Gives-bind packs (add_backends packs proxy port (start_port cs) bs) st _ _
        (add_backends-Gives port (start_port cs) bs)
        (Gives-bind packs (finish_port packs proxy port st) l _ _ (finish_port-Gives port cs bs) (
          subst (Gives packs (build_ports packs proxy rest (ls ++ l ∷ []) st.clusters))
            (expected-cons port bs rest ls cs) parts))

  module _ (order : Groups → Groups) where
    build-Gives :
        Gives packs
          (build_envoy_resources packs order proxy)
          (expected_resources proxy (order (group_by_port proxy.spec.backends)))
    unfolding build_envoy_resources
    build-Gives = build_ports-Gives (order (group_by_port proxy.spec.backends)) [] []

    -- If the build succeeds, the listeners and clusters are exactly those of the description that
    -- does not follow the loops: one listener for each port, plain TCP to the first backend on
    -- 6443, else one chain for each backend by server name with the last konnectivity server as the
    -- catch-all of port 443, and one cluster for each backend.
    pub build_exact :
        (out : List Listener × List Cluster)
        → build_envoy_resources packs order proxy ≡ ok out
        → out ≡ expected_resources proxy (order (group_by_port proxy.spec.backends))
    build_exact out e = Gives-unique packs _ _ out build-Gives e

    -- If every message packs, the build succeeds for every proxy, and gives the described listeners
    -- and clusters.
    pub build_total :
        ((m : Message) → packs m ≡ true)
        → build_envoy_resources packs order proxy
          ≡ ok (expected_resources proxy (order (group_by_port proxy.spec.backends)))
    build_total good = Gives-total packs _ _ build-Gives good
