-- ===== src/Leases.antt =====
-- The lease plugin, internal/dhcp/plugins/leasedb: its state, handler, storage and setup. The
-- proofs are in the modules below.
pub mod Host
pub mod State
pub mod Handler
pub mod Storage
pub mod Setup
pub mod Addresses
pub mod Clients
pub mod Expiry
pub mod Persistence
pub mod Recovery
pub mod Unreadable
pub mod SetupLaws
pub mod Sample
pub mod Examples
