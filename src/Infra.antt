-- ===== src/Infra.antt =====
-- The Infra controller, internal/controller/infra_controller.go.
pub mod Cluster
pub mod Specs
pub mod Desired
pub mod Reconcile
pub mod Converge
pub mod Steps
pub mod ProxyStep
pub mod Runs
pub mod Repeat
pub mod Endpoints
pub mod Sample
pub mod Examples
