-- ===== src/Bsv/Transaction/RoundTrip.antt =====
-- `serialize` and `parse` of crates/bsv/src/transaction.rs together.
use overlay_broadcast.Base.{
  ℕ, ◌^◌, ◌<◌, ◌≡◌, ap, ◌∙◌, List, [], ◌∷◌, ◌++◌, arith, length, append-nil, append_assoc, ok, err,
  All,
}
use overlay_broadcast.Base.LittleEndian.{to_le_bytes}
use overlay_broadcast.Bsv.Error.{BsvResult, malformed_tx}
use overlay_broadcast.Bsv.Cursor.Varint.{compact, write_varint-append}
use overlay_broadcast.Bsv.Transaction.{
  TxIn, TxOut, Transaction, parse, count, serialize_input, serialize_output, serialize_all,
  serialize,
}
use overlay_broadcast.Bsv.Transaction.Wire.{
  IsTxIn, IsTxOut, IsTransaction, input_bytes, output_bytes, concat_with, transaction_bytes,
  parse-bytes,
}

pub count_lem : (n : ℕ) → n < 2 ^ 64 → count n ≡ ok n
unfolding count
count_lem n h = ground arith

serialize_input_lem :
    (out : List ℕ) (i : TxIn) → IsTxIn i → serialize_input out i ≡ ok (out ++ input_bytes i)
unfolding serialize_input
serialize_input_lem out i v =
    rw (count_lem _ v.script) (rw write_varint-append (simp (append_assoc, append-nil)))

pub serialize_output_lem :
    (out : List ℕ) (o : TxOut) → IsTxOut o → serialize_output out o ≡ ok (out ++ output_bytes o)
unfolding serialize_output
serialize_output_lem out o v =
    rw (count_lem _ v.script) (rw write_varint-append (simp (append_assoc, append-nil)))

module _ {A : Type 0} {one : List ℕ → A → BsvResult (List ℕ)} {enc : A → List ℕ} {P : A → Type 0}
    (step : (out : List ℕ) (x : A) → P x → one out x ≡ ok (out ++ enc x)) where
  pub serialize_all_lem :
      (out : List ℕ) (xs : List A)
      → All P xs
      → serialize_all one out xs ≡ ok (out ++ concat_with enc xs)
  unfolding serialize_all
  serialize_all_lem out [] h = rw append-nil
  serialize_all_lem out (x ∷ xs) h =
      rw (step out x h.0) (serialize_all_lem (out ++ enc x) xs h.1 ∙ rw append_assoc)

regroup :
    (a b c d e f : List ℕ)
    → ((((a ++ b) ++ c) ++ d) ++ e) ++ f ≡ a ++ ((b ++ c) ++ ((d ++ e) ++ (f ++ [])))
regroup a b c d e f = simp (append_assoc, append-nil)

pub serialize_lem : (tx : Transaction) → IsTransaction tx → serialize tx ≡ ok (transaction_bytes tx)
unfolding serialize
serialize_lem tx v = rw (count_lem (length tx.inputs) (omega (arith, v.input_count))) (
    rw (write_varint-append (to_le_bytes 4 tx.version) (length tx.inputs)) (
      rw (serialize_all_lem serialize_input_lem _ tx.inputs v.inputs) (
        rw (count_lem (length tx.outputs) (omega (arith, v.output_count))) (
          rw (write_varint-append _ (length tx.outputs)) (
            rw (serialize_all_lem serialize_output_lem _ tx.outputs v.outputs) (
              ap ok (
                regroup (to_le_bytes 4 tx.version) (compact (length tx.inputs))
                  (concat_with input_bytes tx.inputs) (compact (length tx.outputs))
                  (concat_with output_bytes tx.outputs) (to_le_bytes 4 tx.locktime))))))))

-- A transaction in the ranges of its types, with at most `max_io` inputs and outputs, is
-- serialized, and the parser returns it from those bytes, if they are fewer than 2^64.
pub parse-serialize :
    (tx : Transaction)
    → IsTransaction tx
    → length (transaction_bytes tx) < 2 ^ 64
    → (raw : List ℕ) × (serialize tx ≡ ok raw) × (parse raw ≡ ok tx)
parse-serialize tx v fits = (
  transaction_bytes tx,
  serialize_lem tx v,
  rw (append-nil (transaction_bytes tx)) at
      (parse-bytes tx [] v (rw (append-nil (transaction_bytes tx)) fits)),
)

-- One byte or more behind the bytes of a serialized transaction that is in the ranges of its
-- types make the parser refuse them as malformed, if all together are fewer than 2^64.
pub parse_trailing :
    (tx : Transaction) (raw : List ℕ) (b : ℕ) (extra : List ℕ)
    → IsTransaction tx
    → serialize tx ≡ ok raw
    → length (raw ++ (b ∷ extra)) < 2 ^ 64
    → parse (raw ++ (b ∷ extra)) ≡ err malformed_tx
parse_trailing tx raw b extra v e fits =
    let same : raw ≡ transaction_bytes tx = cc (serialize_lem tx v) in
    rw same (parse-bytes tx (b ∷ extra) v (rw (← same) fits) ∙ ground arith)
