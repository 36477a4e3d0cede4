-- ===== src/Api.antt =====
-- The custom resources of api/v1alpha1, and the parts of Kubernetes' metadata that the code reads.
pub mod Meta
pub mod Infra
pub mod Dhcp
pub mod Dns
pub mod Proxy
pub mod Network
pub mod Rbac
pub mod Pods
