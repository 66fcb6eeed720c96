-- ===== src/Bsv.antt =====
-- crates/bsv: the byte cursor, scripts, transactions, headers, the header chain and merkle proofs.
pub mod Error
pub mod Cursor
pub mod Hash
pub mod Script
pub mod Transaction
pub mod DataCarrier
pub mod Header
pub mod HeaderChain
pub mod Merkle
pub mod Sighash
mod Examples
