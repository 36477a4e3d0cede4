-- ===== src/Xds.antt =====
-- The xDS control plane, internal/proxy/server.go: from the backends of a ProxyServer to Envoy's
-- listeners and clusters, and the snapshots that Envoy is served. The proofs are in the modules
-- below.
pub mod Envoy
pub mod Build
pub mod Server
pub mod Grouping
pub mod Ports
pub mod Packing
pub mod Resources
pub mod Backends
pub mod Exact
pub mod Targets
pub mod Versions
pub mod History
pub mod Sample
pub mod Examples
