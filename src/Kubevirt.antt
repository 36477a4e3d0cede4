-- ===== src/Kubevirt.antt =====
-- The kubevirt plugin, internal/dhcp/plugins/kubevirt/plugin.go: it names a client by the virtual
-- machine that has its hardware address. The proofs are in the modules below.
pub mod Plugin
pub mod Instances
pub mod Naming
pub mod Setup
pub mod Examples
