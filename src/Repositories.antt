-- ===== src/Repositories.antt =====
-- infrastructure/repositories and infrastructure/services.
pub mod Payments
pub mod PartnerConfigurations
pub mod Secrets
