-- ===== src/Cmp.antt =====
-- crates/cmp: the audit chain and the guard of writes.
pub mod Audit
pub mod Guard
mod Examples
