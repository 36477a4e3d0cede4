-- ===== src/Xds/Ports.antt =====
-- The listener of one port, against a description that does not follow the loop.
use mathlib.Core.List.{append_assoc, append-nil}
use text.Mathlib.TextLemmas.{append-eq-nil_iff}
use oooi.Prelude.{
  ℕ, String, false, List, [], ◌∷◌, ◌++◌, map, concat, show_ℕ, Option, none, some, ◌≡◌, sym, arith,
  eq_iff, ◌==◌, ◌===◌, ◌&&◌, Bool-cases, inl, inr, if◌then◌else◌,
}
use oooi.Api.Proxy.{ProxyServer, ProxyBackend}
use oooi.Xds.Envoy.{
  Message, tcp_proxy, file_access_log, tls_inspector, WellKnown, Protocol, Filter, FilterChain,
  Listener,
}
use oooi.Xds.Envoy.{Cluster}
use oooi.Xds.Grouping.{members}
use oooi.Xds.Build.{Groups, cluster_name, cluster_resource, access_log_format, PortState, round}

-- A cluster's name is not empty, so that an empty name stands for no cluster.
pub cluster_name-ne-empty :
    (proxy : ProxyServer) (b : ProxyBackend) → (cluster_name proxy b === "") ≡ false
unfolding cluster_name
cluster_name-ne-empty proxy b = elim (Bool-cases (cluster_name proxy b === "")) [
  | inr other ↦ other
  | inl empty ↦
      let nil = (eq_iff (cluster_name proxy b) "").0 empty in
      let dash = (append-eq-nil_iff.0 (append-eq-nil_iff.0 nil).1).0 in
      absurd (ground (arith, eq_iff "-" ""))
]

module _ (proxy : ProxyServer) where
  -- The chain of a backend on a port with TLS inspection: its host names lead to its cluster.
  abbrev pub sni_chain : ProxyBackend → FilterChain
  sni_chain b = record {
    filter_chain_match =
        some (record {
          server_names = b.hostname ∷ b.alternate_hostnames;
          transport_protocol = "tls";
        });
    filters =
        record {
          name = WellKnown.tcp_proxy_filter;
          typed_config = tcp_proxy b.name (cluster_name proxy b);
        }
        ∷ [];
  }

  -- The cluster of the first backend.
  abbrev pub first_cluster : List ProxyBackend → Option String
  first_cluster [] = none
  first_cluster (b ∷ bs) = some (cluster_name proxy b)

  -- The cluster of the last backend that is a konnectivity server.
  unfoldable pub last_konnectivity : List ProxyBackend → Option String
  last_konnectivity [] = none
  last_konnectivity (b ∷ bs) = elim (last_konnectivity bs) [
    | some name ↦ some name
    | none ↦
        if b.target_service === "konnectivity-server" then some (cluster_name proxy b) else none
  ]

  abbrev pub catch_all : String → Option String → List FilterChain
  catch_all prefix none = []
  catch_all prefix (some name) =
      record {
        filter_chain_match = none;
        filters =
            record { name = WellKnown.tcp_proxy_filter; typed_config = tcp_proxy prefix name } ∷ [];
      }
      ∷ []

  -- What the listener of a port has to be. Port 6443 proxies plain TCP to its first backend; any
  -- other port routes by server name, and port 443 sends the rest to its last konnectivity server.
  abbrev pub expected_chains : ℕ → List ProxyBackend → List FilterChain
  expected_chains port bs =
      if port == 6443
      then catch_all "plain-tcp" (first_cluster bs)
      else map sni_chain bs
        ++ catch_all "fallback" (if port == 443 then last_konnectivity bs else none)

  abbrev pub expected_inspectors : ℕ → List Filter
  expected_inspectors port =
      if port == 6443
      then []
      else record { name = WellKnown.tls_inspector_filter; typed_config = tls_inspector } ∷ []

  abbrev pub expected_listener : ℕ → List ProxyBackend → Listener
  expected_listener port bs = record {
    name = concat (proxy.metadata.name ∷ "-listener-" ∷ show_ℕ port ∷ []);
    address = record { protocol = Protocol.tcp; address = "0.0.0.0"; port_value = port };
    filter_chains = expected_chains port bs;
    listener_filters = expected_inspectors port;
    access_log =
        record {
          name = WellKnown.file_access_log_filter;
          typed_config = file_access_log "/dev/stdout" access_log_format;
        }
        ∷ [];
  }

-- A cluster that was chosen, as the loop keeps it: empty for none.
abbrev pub name_of : Option String → String
name_of none = ""
name_of (some name) = name

module _ (proxy : ProxyServer) where
  abbrev pub packed_filter : ProxyBackend → Message
  packed_filter b = tcp_proxy b.name (cluster_name proxy b)

  -- The loop with every filter packed.
  unfoldable pub rounds : ℕ → PortState → List ProxyBackend → PortState
  rounds port st [] = st
  rounds port st (b ∷ bs) = rounds port (round proxy port st b (packed_filter b)) bs

  pub clusters-rounds :
      (port : ℕ) (st : PortState) (bs : List ProxyBackend)
      → (rounds port st bs).clusters ≡ st.clusters ++ map (cluster_resource proxy) bs
  unfolding rounds round
  clusters-rounds port st [] = sym (append-nil st.clusters)
  clusters-rounds port st (b ∷ bs) = ground (
    arith,
    clusters-rounds port (round proxy port st b (packed_filter b)) bs,
    append_assoc st.clusters (cluster_resource proxy b ∷ []) (map (cluster_resource proxy) bs),
  )

  pub chains-rounds :
      (port : ℕ) (st : PortState) (bs : List ProxyBackend)
      → (rounds port st bs).filter_chains
        ≡ st.filter_chains ++ (if port == 6443 then [] else map (sni_chain proxy) bs)
  unfolding rounds round
  chains-rounds port st [] = ground (arith, append-nil st.filter_chains)
  chains-rounds port st (b ∷ bs) = ground (
    arith,
    chains-rounds port (round proxy port st b (packed_filter b)) bs,
    append_assoc st.filter_chains (sni_chain proxy b ∷ []) (map (sni_chain proxy) bs),
  )

  pub plain-rounds :
      (port : ℕ) (st : PortState) (bs : List ProxyBackend)
      → (rounds port st bs).plain_tcp_cluster ≡ (
          if port == 6443 && st.plain_tcp_cluster === ""
          then name_of (first_cluster proxy bs)
          else st.plain_tcp_cluster)
  unfolding rounds round
  plain-rounds port st [] = ground (arith, eq_iff st.plain_tcp_cluster "")
  plain-rounds port st (b ∷ bs) = ground (
    arith,
    plain-rounds port (round proxy port st b (packed_filter b)) bs,
    cluster_name-ne-empty proxy b,
  )

  -- The last name wins; the loop starts from the empty one.
  abbrev pub or_name : Option String → String → String
  or_name none name = name
  or_name (some x) name = x

  pub fallback-rounds :
      (port : ℕ) (st : PortState) (bs : List ProxyBackend)
      → (rounds port st bs).fallback_cluster_name ≡ (
          if port == 443
          then or_name (last_konnectivity proxy bs) st.fallback_cluster_name
          else st.fallback_cluster_name)
  unfolding rounds round last_konnectivity
  fallback-rounds port st [] = ground arith
  fallback-rounds port st (b ∷ bs) =
      ground (arith, fallback-rounds port (round proxy port st b (packed_filter b)) bs)

  pub last_konnectivity-ne-empty :
      (bs : List ProxyBackend) (name : String)
      → last_konnectivity proxy bs ≡ some name
      → (name === "") ≡ false
  unfolding last_konnectivity
  last_konnectivity-ne-empty [] name e = absurd (ground arith)
  last_konnectivity-ne-empty (b ∷ bs) name e =
      ground (arith, last_konnectivity-ne-empty bs name, cluster_name-ne-empty proxy b)

  -- The listeners of the groups, and the clusters of their backends.
  abbrev pub expected_listeners : Groups → List Listener
  expected_listeners [] = []
  expected_listeners ((port, bs) ∷ rest) = expected_listener proxy port bs ∷ expected_listeners rest

  abbrev pub expected_resources : Groups → List Listener × List Cluster
  expected_resources gs = (expected_listeners gs, map (cluster_resource proxy) (members gs))
