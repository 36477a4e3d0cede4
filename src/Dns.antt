-- ===== src/Dns.antt =====
-- The start and the stop of the DNS server, internal/dns/server.go.
pub mod Server
pub mod Shutdown
pub mod Examples
