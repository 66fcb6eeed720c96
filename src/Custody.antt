-- ===== src/Custody.antt =====
-- crates/custody: the lifecycle of a key.
pub mod Lifecycle
mod Examples
