-- ===== src/DnsController.antt =====
-- The DNSServer controller, internal/controller/dnsserver_controller.go.
pub mod Corefile
pub mod Hosts
pub mod Views
pub mod Refines
pub mod Objects
pub mod Pod
pub mod Reconcile
pub mod Ready
pub mod PodLaws
pub mod Upgrade
pub mod EndToEnd
pub mod Sample
pub mod Examples
pub mod InfraExamples
