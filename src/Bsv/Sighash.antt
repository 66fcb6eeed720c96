-- ===== src/Bsv/Sighash.antt =====
-- crates/bsv/src/sighash.rs: the FORKID signature hash. `digest` is `Sha256::digest`.
pub mod Binding
use overlay_broadcast.Base
use overlay_broadcast.Base.{
  ℕ, Bool, true, false, not, ◌&&◌, ◌||◌, Option, none, some, List, [], ◌∷◌, ◌++◌, bit_and, length,
  get_elem?, leb, ◌==◌, replicate, if◌then◌else◌, ok, err, ok_or, ◌>>=◌,
}
use overlay_broadcast.Base.LittleEndian.{to_le_bytes}
use overlay_broadcast.Bsv.Cursor.{write_varint}
use overlay_broadcast.Bsv.Error.{BsvResult, malformed_tx, sighash_single_index}
use overlay_broadcast.Bsv.Hash.{double_sha256}
use overlay_broadcast.Bsv.Transaction.{Transaction, TxIn, TxOut, OutPoint, count, serialize_all}

abbrev pub sighash_all : ℕ
sighash_all = 0x01

abbrev pub sighash_none : ℕ
sighash_none = 0x02

abbrev pub sighash_single : ℕ
sighash_single = 0x03

abbrev pub sighash_anyonecanpay : ℕ
sighash_anyonecanpay = 0x80

abbrev pub sighash_forkid : ℕ
sighash_forkid = 0x40

abbrev zero_hash : List ℕ
zero_hash = replicate 32 0

unfoldable pub prevouts : List TxIn → List ℕ
prevouts [] = []
prevouts (i ∷ is) = i.outpoint.txid ++ to_le_bytes 4 i.outpoint.vout ++ prevouts is

unfoldable pub sequences : List TxIn → List ℕ
sequences [] = []
sequences (i ∷ is) = to_le_bytes 4 i.sequence ++ sequences is

-- The output at the index of the input, for SIGHASH_SINGLE.
unfoldable pub output_at : List TxOut → ℕ → BsvResult TxOut
output_at outputs input_index = ok_or (get_elem? outputs input_index) sighash_single_index

-- `sighash.rs` has its own `serialize_output`, with the same body as that of `transaction.rs`.
unfoldable pub serialize_output : List ℕ → TxOut → BsvResult (List ℕ)
serialize_output out output =
    Base.◌>>=◌ (count (length output.locking_script))
      λ n. ok (write_varint (out ++ to_le_bytes 8 output.value) n ++ output.locking_script)

unfoldable pub is_anyone : ℕ → Bool
is_anyone sighash_type = not (bit_and sighash_type sighash_anyonecanpay == 0)

module _ (digest : List ℕ → List ℕ) where
  unfoldable pub outputs_hash : Transaction → ℕ → ℕ → BsvResult (List ℕ)
  unfolding output_at
  outputs_hash tx base input_index =
      if not (base == sighash_single) && not (base == sighash_none)
      then (Base.◌>>=◌ (serialize_all serialize_output [] tx.outputs)
          λ out. ok (double_sha256 digest out))
      else if base == sighash_single
      then (Base.◌>>=◌ (output_at tx.outputs input_index)
          λ output. Base.◌>>=◌ (serialize_output [] output) λ out. ok (double_sha256 digest out))
      else ok zero_hash

  unfoldable pub hash_prevouts : Transaction → Bool → List ℕ
  hash_prevouts tx anyone = if anyone then zero_hash else double_sha256 digest (prevouts tx.inputs)

  unfoldable pub hash_sequence : Transaction → ℕ → Bool → List ℕ
  hash_sequence tx base anyone =
      if anyone || base == sighash_single || base == sighash_none
      then zero_hash
      else double_sha256 digest (sequences tx.inputs)

  -- The bytes that are hashed, for an input, the hash of the outputs and a script of length `n`.
  unfoldable pub preimage : Transaction → ℕ → Bool → TxIn → List ℕ → List ℕ → ℕ → ℕ → ℕ → List ℕ
  unfolding hash_prevouts hash_sequence
  preimage tx base anyone input hash_outputs script_code n value sighash_type =
      write_varint
        (to_le_bytes 4 tx.version
          ++ hash_prevouts tx anyone
          ++ hash_sequence tx base anyone
          ++ input.outpoint.txid
          ++ to_le_bytes 4 input.outpoint.vout)
        n
      ++ script_code
      ++ to_le_bytes 8 value
      ++ to_le_bytes 4 input.sequence
      ++ hash_outputs
      ++ to_le_bytes 4 tx.locktime
      ++ to_le_bytes 4 sighash_type

  -- `sighash` once its input is found.
  unfoldable pub sighash_of : Transaction → TxIn → ℕ → List ℕ → ℕ → ℕ → BsvResult (List ℕ)
  unfolding outputs_hash preimage is_anyone
  sighash_of tx input input_index script_code value sighash_type =
      let base = bit_and sighash_type 0x1f in
      if base == sighash_single && leb (length tx.outputs) input_index
      then err sighash_single_index
      else (Base.◌>>=◌ (outputs_hash tx base input_index) λ hash_outputs.
          Base.◌>>=◌ (count (length script_code)) λ n. ok (
            double_sha256 digest (
              preimage tx base (is_anyone sighash_type) input hash_outputs script_code n value
                sighash_type)))

  unfoldable pub sighash : Transaction → ℕ → List ℕ → ℕ → ℕ → BsvResult (List ℕ)
  unfolding sighash_of
  sighash tx input_index script_code value sighash_type =
      Base.◌>>=◌ (ok_or (get_elem? tx.inputs input_index) malformed_tx)
        λ input. sighash_of tx input input_index script_code value sighash_type
