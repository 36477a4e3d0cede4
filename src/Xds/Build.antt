-- ===== src/Xds/Build.antt =====
-- buildEnvoyResources. The ports and the timeout are positive int32 values, so that the conversion
-- to uint32 changes nothing.
use oooi.Prelude.{
  ℕ, String, Bool, List, [], ◌∷◌, ◌++◌, Option, none, some, Outcome, ok, err, ◌>>=◌, concat, show_ℕ,
  ◌==◌, ◌===◌, ◌&&◌, if◌then◌else◌,
}
use oooi.Api.Proxy.{ProxyServer, ProxyBackend}
use oooi.Xds.Envoy.{
  Message, tcp_proxy, file_access_log, tls_inspector, WellKnown, Filter, FilterChain,
  FilterChainMatch, Protocol, DiscoveryType, LbPolicy, DnsLookupFamily, Cluster, Listener,
}

-- A message that could not be packed.
pub data BuildError : Type 0 where
  tcp_proxy_error plain_tcp_error fallback_error access_log_error tls_inspector_error : BuildError

abbrev pub Groups : Type 0
Groups = List (ℕ × List ProxyBackend)

-- portBackends[port] = append(portBackends[port], backend)
unfoldable pub append_to : ℕ → ProxyBackend → Groups → Groups
append_to port b [] = (port, b ∷ []) ∷ []
append_to port b ((p, bs) ∷ rest) =
    if p == port then (p, bs ++ b ∷ []) ∷ rest else (p, bs) ∷ append_to port b rest

unfoldable pub group_from : Groups → List ProxyBackend → Groups
group_from groups [] = groups
group_from groups (b ∷ bs) = group_from (append_to b.port b groups) bs

unfoldable pub group_by_port : List ProxyBackend → Groups
unfolding group_from append_to
group_by_port bs = group_from [] bs

unfoldable pub cluster_name : ProxyServer → ProxyBackend → String
cluster_name proxy b = concat (proxy.metadata.name ∷ "-" ∷ b.name ∷ [])

unfoldable pub target_addr : ProxyBackend → String
target_addr b = concat (b.target_service ∷ "." ∷ b.target_namespace ∷ ".svc.cluster.local" ∷ [])

unfoldable pub cluster_resource : ProxyServer → ProxyBackend → Cluster
unfolding cluster_name target_addr
cluster_resource proxy b = record {
  name = cluster_name proxy b;
  connect_timeout = b.timeout_seconds;
  discovery_type = DiscoveryType.logical_dns;
  lb_policy = LbPolicy.round_robin;
  load_assignment = record {
    cluster_name = cluster_name proxy b;
    endpoints =
        (record { protocol = Protocol.tcp; address = target_addr b; port_value = b.target_port }
          ∷ [])
        ∷ [];
  };
  dns_lookup_family = DnsLookupFamily.v4_only;
}

-- A chain with the one filter that proxies TCP to a cluster.
abbrev pub chain : Option FilterChainMatch → Message → FilterChain
chain match_ packed = record {
  filter_chain_match = match_;
  filters = record { name = WellKnown.tcp_proxy_filter; typed_config = packed } ∷ [];
}

abbrev pub sni_match : ProxyBackend → FilterChainMatch
sni_match b = record {
  server_names = b.hostname ∷ b.alternate_hostnames;
  transport_protocol = "tls";
}

abbrev pub access_log_format : String
access_log_format =
    "[%START_TIME%] %DOWNSTREAM_REMOTE_ADDRESS% → %UPSTREAM_CLUSTER% | SNI: %REQUESTED_SERVER_NAME% | TLS: %DOWNSTREAM_TLS_VERSION% %DOWNSTREAM_TLS_CIPHER% | Protocol: %PROTOCOL% | Flags: %RESPONSE_FLAGS% | Bytes: %BYTES_SENT%/%BYTES_RECEIVED% | ConnID: %CONNECTION_ID%\n"

-- What the loop over the backends of one port keeps.
pub record PortState : Type 0 where
  pub clusters : List Cluster
  pub filter_chains : List FilterChain
  pub fallback_cluster_name : String
  pub plain_tcp_cluster : String

abbrev pub listener : ProxyServer → ℕ → List FilterChain → List Filter → Message → Listener
listener proxy port chains filters log = record {
  name = concat (proxy.metadata.name ∷ "-listener-" ∷ show_ℕ port ∷ []);
  address = record { protocol = Protocol.tcp; address = "0.0.0.0"; port_value = port };
  filter_chains = chains;
  listener_filters = filters;
  access_log = record { name = WellKnown.file_access_log_filter; typed_config = log } ∷ [];
}

abbrev pub start_port : List Cluster → PortState
start_port clusters = record {
  clusters = clusters;
  filter_chains = [];
  fallback_cluster_name = "";
  plain_tcp_cluster = "";
}

-- What a round of the loop does with its packed proxy filter, on a plain TCP port and elsewhere.
unfoldable pub keep_first : String → PortState → PortState
keep_first name st =
    if st.plain_tcp_cluster === "" then record st { plain_tcp_cluster = name } else st

unfoldable pub route_sni : ℕ → ProxyBackend → String → Message → PortState → PortState
route_sni port b name packed st = record st {
  filter_chains = st.filter_chains ++ chain (some (sni_match b)) packed ∷ [];
  fallback_cluster_name =
      if port == 443 && b.target_service === "konnectivity-server"
      then name
      else st.fallback_cluster_name;
}

-- One round of the loop over the backends, after the backend's proxy filter is packed.
unfoldable pub round : ProxyServer → ℕ → PortState → ProxyBackend → Message → PortState
unfolding keep_first route_sni
round proxy port st b packed =
    let st' : PortState = record st { clusters = st.clusters ++ cluster_resource proxy b ∷ [] } in
    if port == 6443
    then keep_first (cluster_name proxy b) st'
    else route_sni port b (cluster_name proxy b) packed st'

-- `packs m` tells whether anypb.New succeeds on the message.
module _ (packs : Message → Bool) where
  abbrev pub pack : BuildError → Message → Outcome BuildError Message
  pack e m = if packs m then ok m else err e

  unfoldable pub add_backend :
      ProxyServer → ℕ → PortState → ProxyBackend → Outcome BuildError PortState
  unfolding round
  add_backend proxy port st b = do
    packed ← pack tcp_proxy_error (tcp_proxy b.name (cluster_name proxy b))
    ok (round proxy port st b packed)

  unfoldable pub add_backends :
      ProxyServer → ℕ → PortState → List ProxyBackend → Outcome BuildError PortState
  add_backends proxy port st [] = ok st
  add_backends proxy port st (b ∷ bs) = do
    st' ← add_backend proxy port st b
    add_backends proxy port st' bs

  -- A catch-all chain to a cluster, if one is named.
  unfoldable pub add_catch_all :
      BuildError → String → String → List FilterChain → Outcome BuildError (List FilterChain)
  add_catch_all e prefix name chains =
      if name === ""
      then ok chains
      else do packed ← pack e (tcp_proxy prefix name); ok (chains ++ chain none packed ∷ [])

  unfoldable pub inspectors : ℕ → Outcome BuildError (List Filter)
  inspectors port = if port == 6443 then ok [] else do
    packed ← pack tls_inspector_error tls_inspector
    ok (record { name = WellKnown.tls_inspector_filter; typed_config = packed } ∷ [])

  -- After the loop over the backends: the catch-all chains last, then the listener.
  unfoldable pub finish_port : ProxyServer → ℕ → PortState → Outcome BuildError Listener
  unfolding add_catch_all inspectors
  finish_port proxy port st = do
    chains ← add_catch_all plain_tcp_error "plain-tcp" st.plain_tcp_cluster st.filter_chains
    chains' ← add_catch_all fallback_error "fallback" st.fallback_cluster_name chains
    log ← pack access_log_error (file_access_log "/dev/stdout" access_log_format)
    filters ← inspectors port
    ok (listener proxy port chains' filters log)

  -- The loop over the ports. The result's parts are the listeners and the clusters.
  unfoldable pub build_ports :
      ProxyServer
      → Groups
      → List Listener
      → List Cluster
      → Outcome BuildError (List Listener × List Cluster)
  build_ports proxy [] listeners clusters = ok (listeners, clusters)
  build_ports proxy ((port, bs) ∷ rest) listeners clusters = do
    st ← add_backends proxy port (start_port clusters) bs
    l ← finish_port proxy port st
    build_ports proxy rest (listeners ++ l ∷ []) st.clusters

  -- `order` is the order in which Go happens to go over the map of ports.
  unfoldable pub build_envoy_resources :
      (Groups → Groups) → ProxyServer → Outcome BuildError (List Listener × List Cluster)
  build_envoy_resources order proxy =
      build_ports proxy (order (group_by_port proxy.spec.backends)) [] []
