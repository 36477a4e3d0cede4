-- ===== src/Xds/Envoy.antt =====
-- The fields of Envoy's protobuf messages that server.go sets.
use oooi.Prelude.{ℕ, String, List, Option}

-- The well-known filter names of go-control-plane's package wellknown.
pub data WellKnown : Type 0 where
  tcp_proxy_filter tls_inspector_filter file_access_log_filter : WellKnown

-- The messages that are packed into an Any by anypb.New.
pub data Message : Type 0 where
  tcp_proxy : String → String → Message
  file_access_log : String → String → Message
  tls_inspector : Message

-- listener.Filter, listener.ListenerFilter and accesslog.AccessLog: a name and a packed message.
pub record Filter : Type 0 where
  pub name : WellKnown
  pub typed_config : Message

pub record FilterChainMatch : Type 0 where
  pub server_names : List String
  pub transport_protocol : String

-- Without a match the chain takes every connection that no other chain matches.
pub record FilterChain : Type 0 where
  pub filter_chain_match : Option FilterChainMatch
  pub filters : List Filter

pub data Protocol : Type 0 where
  tcp udp : Protocol

pub record SocketAddress : Type 0 where
  pub protocol : Protocol
  pub address : String
  pub port_value : ℕ

pub data DiscoveryType : Type 0 where
  static strict_dns logical_dns : DiscoveryType

pub data LbPolicy : Type 0 where
  round_robin least_request : LbPolicy

pub data DnsLookupFamily : Type 0 where
  auto v4_only v6_only : DnsLookupFamily

-- The endpoints of each locality.
pub record ClusterLoadAssignment : Type 0 where
  pub cluster_name : String
  pub endpoints : List (List SocketAddress)

-- `connect_timeout` is in seconds.
pub record Cluster : Type 0 where
  pub name : String
  pub connect_timeout : ℕ
  pub discovery_type : DiscoveryType
  pub lb_policy : LbPolicy
  pub load_assignment : ClusterLoadAssignment
  pub dns_lookup_family : DnsLookupFamily

pub record Listener : Type 0 where
  pub name : String
  pub address : SocketAddress
  pub filter_chains : List FilterChain
  pub listener_filters : List Filter
  pub access_log : List Filter
