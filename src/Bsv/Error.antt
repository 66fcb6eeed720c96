-- ===== src/Bsv/Error.antt =====
-- crates/bsv/src/error.rs
use overlay_broadcast.Base.{ℕ, Result}

pub data BsvError : Type 0 where
  hex : BsvError
  wrong_length : ℕ → ℕ → BsvError
  truncated : BsvError
  chain_not_linked : BsvError
  chain_bad_pow : BsvError
  chain_non_monotonic : BsvError
  merkle_mismatch : BsvError
  out_of_range : BsvError
  malformed_tx : BsvError
  malformed_script : BsvError
  sighash_single_index : BsvError

abbrev pub BsvResult : Type 0 → Type 0
BsvResult A = Result BsvError A
