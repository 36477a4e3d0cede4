-- ===== src/DhcpController.antt =====
-- The DHCPServer controller, internal/controller/dhcpserver_controller.go.
pub mod Config
pub mod Objects
pub mod Pod
pub mod Reconcile
pub mod Steps
pub mod Ready
pub mod PodLaws
pub mod Examples
