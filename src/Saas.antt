-- ===== src/Saas.antt =====
-- The multi-tenant service under src/saas.
pub mod RateLimit
pub mod Entitlements
pub mod Features
pub mod Worker
mod Tests
