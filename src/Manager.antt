-- ===== src/Manager.antt =====
-- The command that runs the controllers, cmd/manager.go.
pub mod Wiring
pub mod Started
pub mod Examples
