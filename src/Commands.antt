-- ===== src/Commands.antt =====
-- The commands that run in the pods of a proxy and of a DNS server: cmd/proxy.go and cmd/dns.go.
pub mod Proxy
pub mod ProxyRuns
pub mod Dns
pub mod DnsRuns
pub mod DnsSignal
pub mod Examples
pub mod DnsExamples
