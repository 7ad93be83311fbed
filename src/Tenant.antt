-- ===== src/Tenant.antt =====
-- internal/tenant: detection of tenants and their quotas.
pub mod Metrics
pub mod Detector
pub mod Quotas
pub mod Pipeline
