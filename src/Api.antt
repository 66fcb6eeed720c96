-- ===== src/Api.antt =====
-- crates/api: the boundary service, with its authentication, limits and audit log.
pub mod Error
pub mod Config
pub mod Auth
pub mod RateLimit
pub mod Request
pub mod Audit
pub mod Service
mod Examples
