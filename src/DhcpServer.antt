-- ===== src/DhcpServer.antt =====
-- The DHCP server: internal/dhcp/server.go, and the two plugins of this repository one behind the
-- other.
pub mod Run
pub mod Registered
pub mod Chain
pub mod Configured
pub mod Range
pub mod Examples
pub mod RangeExamples
