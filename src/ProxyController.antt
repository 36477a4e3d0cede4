-- ===== src/ProxyController.antt =====
-- The ProxyServer controller, internal/controller/proxy_server_controller.go, and the bootstrap
-- documents of internal/proxy/envoy/config.go.
pub mod Service
pub mod Ports
pub mod Bootstrap
pub mod Objects
pub mod Pod
pub mod Reconcile
pub mod Ready
pub mod PodLaws
pub mod Examples
pub mod Runs
