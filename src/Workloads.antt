-- ===== src/Workloads.antt =====
-- What the DHCPServer, DNSServer and ProxyServer controllers under internal/controller share: the
-- API server as they use it, and the steps that ensure one object each.
pub mod Kinds
pub mod Laws
pub mod Builders
pub mod Ensure
pub mod Owned
pub mod Stored
pub mod Apart
pub mod Stale
pub mod Kept
pub mod Mounts
pub mod Sample
