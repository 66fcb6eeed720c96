-- ===== src/Res.antt =====
-- crates/res: backoff, the circuit breaker, quorum, recovery, resubmission, shutdown.
pub mod Backoff
pub mod Breaker
pub mod Quorum
pub mod Recovery
pub mod Resubmit
pub mod Shutdown
mod Examples
