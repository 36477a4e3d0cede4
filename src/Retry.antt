-- ===== src/Retry.antt =====
-- createOrUpdateWithRetries of the three controllers under internal/controller: the loop of
-- utils.go, and the single try of the DNSServer and ProxyServer controllers.
pub mod Loop
pub mod Laws
pub mod Bounds
pub mod Single
pub mod Sample
pub mod Examples
