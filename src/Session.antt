-- ===== src/Session.antt =====
-- crates/session: the subscription of a member, the transaction of a session and the channel.
pub mod Subscription
pub mod Signing
pub mod Builder
pub mod Channel
pub mod Unlock
pub mod Signatures
mod Examples
