-- ===== src/Bsv/DataCarrier.antt =====
-- crates/bsv/src/datacarrier.rs: OP_FALSE OP_RETURN outputs.
pub mod RoundTrip
use overlay_broadcast.Base
use overlay_broadcast.Base.{ℕ, ◌&&◌, List, [], ◌∷◌, ◌==◌, if◌then◌else◌, ok, err}
use overlay_broadcast.Bsv.Error.{BsvResult, malformed_script}
use overlay_broadcast.Bsv.Script.{ScriptOp, op, push, op_false, op_return, push_data, parse_script}
use overlay_broadcast.Bsv.Transaction.{TxOut}

unfoldable pub build_data_carrier : List ℕ → TxOut
build_data_carrier payload = record {
  value = 0;
  locking_script = push_data (op_false ∷ op_return ∷ []) payload;
}

-- The `match` on the parsed operations.
unfoldable pub carried : List ScriptOp → BsvResult (List ℕ)
carried (op a ∷ op b ∷ push payload ∷ []) =
    if a == op_false && b == op_return then ok payload else err malformed_script
carried (op a ∷ op b ∷ op c ∷ []) =
    if a == op_false && b == op_return && c == op_false then ok [] else err malformed_script
carried (op a ∷ op b ∷ []) = if a == op_false && b == op_return then ok [] else err malformed_script
carried _ = err malformed_script

unfoldable pub parse_data_carrier : List ℕ → BsvResult (List ℕ)
unfolding carried
parse_data_carrier script = Base.◌>>=◌ (parse_script script) carried
