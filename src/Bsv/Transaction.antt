-- ===== src/Bsv/Transaction.antt =====
-- crates/bsv/src/transaction.rs: the transaction model, its parser and its serializer.
-- A `Txid` is the 32 bytes of its hash, and an `i32` its 32-bit pattern.
pub mod Wire
pub mod RoundTrip
use overlay_broadcast.Base
use overlay_broadcast.Base.{ℕ, zero, suc, List, [], ◌∷◌, ◌++◌, length, ltb, if◌then◌else◌, ok, err}
use overlay_broadcast.Base.LittleEndian.{to_le_bytes}
use overlay_broadcast.Bsv.Error.{BsvResult, out_of_range, malformed_tx}
use overlay_broadcast.Bsv.Cursor
use overlay_broadcast.Bsv.Cursor.{
  Cursor, Parser, ◌>>=◌, pure, lift, hash256, u32_le, i32_le, u64_le, varint, varint_bytes,
  is_empty, write_varint, u64_size,
}

abbrev pub max_io : ℕ
max_io = 10_000_000

pub record OutPoint : Type 0 where
  pub txid : List ℕ
  pub vout : ℕ

pub record TxIn : Type 0 where
  pub outpoint : OutPoint
  pub unlocking_script : List ℕ
  pub sequence : ℕ

pub record TxOut : Type 0 where
  pub value : ℕ
  pub locking_script : List ℕ

pub record Transaction : Type 0 where
  pub version : ℕ
  pub inputs : List TxIn
  pub outputs : List TxOut
  pub locktime : ℕ

-- The `while` loop of `parse_vec`, by the rounds that are left. Its counter stays below `max_io`.
unfoldable pub parse_items : {A : Type 0} → Parser A → ℕ → List A → Parser (List A)
parse_items parse_one zero out = pure out
parse_items parse_one (suc n) out = do
  item ← parse_one
  parse_items parse_one n (out ++ (item ∷ []))

unfoldable pub parse_vec : {A : Type 0} → Parser A → Parser (List A)
parse_vec parse_one = do
  n ← varint
  if ltb max_io n then lift (err malformed_tx) else parse_items parse_one n []

unfoldable pub parse_input : Parser TxIn
parse_input = do
  txid ← hash256
  vout ← u32_le
  script ← varint_bytes
  sequence ← u32_le
  pure (record {
    outpoint = record { txid = txid; vout = vout };
    unlocking_script = script;
    sequence = sequence;
  })

unfoldable pub parse_output : Parser TxOut
parse_output = do
  value ← u64_le
  script ← varint_bytes
  pure (record { value = value; locking_script = script })

-- The check for trailing bytes.
unfoldable pub ended : Transaction → Parser Transaction
ended tx cur = if is_empty cur then ok (tx, cur) else err malformed_tx

unfoldable pub parse_body : Parser Transaction
parse_body = do
  version ← i32_le
  inputs ← parse_vec parse_input
  outputs ← parse_vec parse_output
  locktime ← u32_le
  ended (record { version = version; inputs = inputs; outputs = outputs; locktime = locktime })

unfoldable pub parse : List ℕ → BsvResult Transaction
unfolding parse_body
parse raw = Base.◌>>=◌ (parse_body (Cursor.new raw)) λ (tx, cur). ok tx

-- `u64::try_from` of a length
unfoldable pub count : ℕ → BsvResult ℕ
count len = if ltb len u64_size then ok len else err out_of_range

unfoldable pub serialize_input : List ℕ → TxIn → BsvResult (List ℕ)
serialize_input out input = Base.◌>>=◌ (count (length input.unlocking_script)) λ n.
    let out = (out ++ input.outpoint.txid) ++ to_le_bytes 4 input.outpoint.vout in
    ok ((write_varint out n ++ input.unlocking_script) ++ to_le_bytes 4 input.sequence)

unfoldable pub serialize_output : List ℕ → TxOut → BsvResult (List ℕ)
serialize_output out output =
    Base.◌>>=◌ (count (length output.locking_script))
      λ n. ok (write_varint (out ++ to_le_bytes 8 output.value) n ++ output.locking_script)

-- A `for` loop that appends each item.
unfoldable pub serialize_all :
    {A : Type 0} → (List ℕ → A → BsvResult (List ℕ)) → List ℕ → List A → BsvResult (List ℕ)
serialize_all one out [] = ok out
serialize_all one out (x ∷ xs) = Base.◌>>=◌ (one out x) λ out'. serialize_all one out' xs

unfoldable pub serialize : Transaction → BsvResult (List ℕ)
serialize tx =
    let out = to_le_bytes 4 tx.version in
    Base.◌>>=◌ (count (length tx.inputs)) λ n.
      Base.◌>>=◌ (serialize_all serialize_input (write_varint out n) tx.inputs) λ out.
        Base.◌>>=◌ (count (length tx.outputs)) λ m.
          Base.◌>>=◌ (serialize_all serialize_output (write_varint out m) tx.outputs)
            λ out. ok (out ++ to_le_bytes 4 tx.locktime)
