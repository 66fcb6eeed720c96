-- ===== src/Broadcast.antt =====
-- crates/broadcast: the key graph of a broadcast and its rekeying.
pub mod Graph
pub mod Rekey
pub mod Update
pub mod Build
pub mod Keyed
pub mod Items
pub mod Reach
pub mod Rotation
pub mod Assembly
pub mod Draws
pub mod Messages
pub mod Eviction
pub mod Runs
mod Examples
