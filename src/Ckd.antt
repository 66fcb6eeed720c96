-- ===== src/Ckd.antt =====
-- crates/ckd: child key derivation and the seeds.
pub mod Group
pub mod Key
pub mod Seeds
pub mod Public
pub mod Sample
mod Examples
