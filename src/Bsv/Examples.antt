-- ===== src/Bsv/Examples.antt =====
-- Runs of the model of crates/bsv at concrete inputs, and the theorems at such inputs.
use overlay_broadcast.Base
use overlay_broadcast.Base.{
  ℕ, ◌+◌, ◌*◌, ◌^◌, ◌≤◌, ◌<◌, ◌≡◌, ◌≢◌, refl, List, [], ◌∷◌, ◌++◌, arith, length, ok, err, some,
  none, All, replicate,
}
use overlay_broadcast.Base.LittleEndian.{to_le_bytes}
use overlay_broadcast.Base.Dict
use overlay_broadcast.Bsv.Error.{BsvResult, malformed_tx, truncated}
use overlay_broadcast.Bsv.Cursor
use overlay_broadcast.Bsv.Cursor.{Cursor, varint, write_varint, remaining, or_bytes}
use overlay_broadcast.Bsv.Cursor.Varint.{varint-write_varint}
use overlay_broadcast.Bsv.Hash.{
  double_sha256, nibble, bytes_to_hex, from_display_hex, to_display_hex,
}
use overlay_broadcast.Bsv.Hash.Hex.{from_display_hex-to_display_hex}
use overlay_broadcast.Bsv.Script.{
  ScriptOp, op, push, parse_script, parse_op, parse_ops, push_data, op_dup,
}
use overlay_broadcast.Bsv.Script.Assembly.{assemble, parse_script-assemble}
use overlay_broadcast.Bsv.Script.Total.{parse_script-returns}
use overlay_broadcast.Bsv.Transaction.{Transaction, serialize, parse}
use overlay_broadcast.Bsv.Transaction.Wire.{IsTransaction, transaction_bytes}
use overlay_broadcast.Bsv.Transaction.RoundTrip.{parse-serialize, parse_trailing, serialize_lem}
use overlay_broadcast.Bsv.DataCarrier.{build_data_carrier, parse_data_carrier}
use overlay_broadcast.Bsv.DataCarrier.RoundTrip.{parse_data_carrier-build_data_carrier}
use overlay_broadcast.Bsv.Header
use overlay_broadcast.Bsv.Header.{BlockHeader}
use overlay_broadcast.Bsv.Header.Wire.{IsHeader}
use overlay_broadcast.Bsv.Header.RoundTrip.{parse-serialize_header, serialize-parse_header}
use overlay_broadcast.Bsv.HeaderChain
use overlay_broadcast.Bsv.HeaderChain.{HeaderChain, add, merkle_root_at_height}
use overlay_broadcast.Bsv.HeaderChain.Valid.{IsValid, empty, step, Built-IsValid}
use overlay_broadcast.Bsv.Sighash.{sighash, is_anyone}
use overlay_broadcast.Bsv.Sighash.Binding.{sighash-single_anyone}
use overlay_broadcast.Bsv.Merkle.{merkle_root, compute_root_from_proof, verify_against_chain}
use overlay_broadcast.Bsv.Merkle.Inclusion.{
  proof_of, compute_root_from_proof-proof_of, verify_against_chain-proof_of,
}

varint-write_varint_example :
    (c : Cursor) × (varint (Cursor.new (write_varint [] 515 ++ (7 ∷ []))) ≡ ok (515, c))
    × (Base.drop c.off c.bytes ≡ 7 ∷ [])
    × (remaining c ≡ 1)
unfolding write_varint to_le_bytes
varint-write_varint_example = varint-write_varint 515 (7 ∷ []) (omega arith) (omega arith)

hex_run : bytes_to_hex (0 ∷ 171 ∷ []) ≡ b'0' ∷ b'0' ∷ b'a' ∷ b'b' ∷ []
unfolding bytes_to_hex nibble
hex_run = refl

abbrev hash_of : ℕ → List ℕ
hash_of b = b ∷ replicate 31 0

display_example : from_display_hex (to_display_hex (hash_of 9)) ≡ ok (hash_of 9)
display_example = from_display_hex-to_display_hex (hash_of 9) (omega arith) refl

abbrev ops : List ScriptOp
ops = op op_dup ∷ push (1 ∷ 2 ∷ 3 ∷ []) ∷ []

parse_script-assemble_example : parse_script (assemble ops) ≡ ok ops
unfolding push_data
parse_script-assemble_example = parse_script-assemble ops (ground arith) (omega arith) (omega arith)

script_run : parse_script (0x76 ∷ 0x02 ∷ 0x05 ∷ []) ≡ err truncated
unfolding parse_script parse_op Cursor.u8 Cursor.take Cursor.is_empty Cursor.new
script_run = refl

parse_script-returns_example :
    (r : BsvResult (List ScriptOp)) × (parse_ops 3 [] (Cursor.new (0x4c ∷ 0x09 ∷ [])) ≡ some r)
    × (parse_script (0x4c ∷ 0x09 ∷ []) ≡ r)
parse_script-returns_example = parse_script-returns (0x4c ∷ 0x09 ∷ [])

carrier_example :
    parse_data_carrier (build_data_carrier (104 ∷ 105 ∷ [])).locking_script ≡ ok (104 ∷ 105 ∷ [])
carrier_example = parse_data_carrier-build_data_carrier (104 ∷ 105 ∷ []) (omega arith)

abbrev payment : Transaction
payment = record {
  version = 1;
  inputs =
      record {
        outpoint = record { txid = hash_of 7; vout = 1 };
        unlocking_script = 0x51 ∷ [];
        sequence = 0xffff_ffff;
      }
      ∷ [];
  outputs = record { value = 5000; locking_script = 0x6a ∷ [] } ∷ [];
  locktime = 0;
}

payment-IsTransaction : IsTransaction payment
payment-IsTransaction = record {
  version = omega arith;
  inputs = (
    record { txid = refl; vout = omega arith; script = omega arith; sequence = omega arith },
    tt,
  );
  input_count = omega arith;
  outputs = (record { value = omega arith; script = omega arith }, tt);
  output_count = omega arith;
  locktime = omega arith;
}

parse-serialize_example : (raw : List ℕ) × (serialize payment ≡ ok raw) × (parse raw ≡ ok payment)
unfolding write_varint to_le_bytes
parse-serialize_example = parse-serialize payment payment-IsTransaction (omega arith)

parse_trailing_example : parse (transaction_bytes payment ++ (0 ∷ [])) ≡ err malformed_tx
unfolding write_varint to_le_bytes
parse_trailing_example =
    parse_trailing payment (transaction_bytes payment) 0 [] payment-IsTransaction
      (serialize_lem payment payment-IsTransaction) (omega arith)

abbrev genesis : BlockHeader
genesis = record {
  version = 1;
  prev_block_hash = hash_of 0;
  merkle_root = hash_of 5;
  time = 7;
  bits = 0x1d00_ffff;
  nonce = 42;
}

genesis-IsHeader : IsHeader genesis
genesis-IsHeader = record {
  version = omega arith;
  prev = refl;
  root = refl;
  time = omega arith;
  bits = omega arith;
  nonce = omega arith;
}

parse-serialize_header_example : Header.parse (Header.serialize genesis) ≡ ok genesis
parse-serialize_header_example = parse-serialize_header genesis genesis-IsHeader

serialize-parse_header_example :
    (h : BlockHeader) × (Header.parse (replicate 80 1) ≡ ok h)
    × (Header.serialize h ≡ replicate 80 1)
serialize-parse_header_example = serialize-parse_header (replicate 80 1) (omega arith) refl

-- A digest of zeros meets every target.
abbrev zero_digest : List ℕ → List ℕ
zero_digest bytes = replicate 32 0

abbrev one_block : HeaderChain
one_block = record { headers = genesis ∷ []; start_height = 100; by_root = (hash_of 5, 100) ∷ [] }

genesis_added : add zero_digest (HeaderChain.new 100) genesis ≡ ok one_block
unfolding add HeaderChain.new Header.meets_target Header.block_hash double_sha256 Dict.insert
genesis_added = refl

Built-IsValid_example : IsValid zero_digest one_block
Built-IsValid_example =
    Built-IsValid zero_digest 100 one_block (omega arith) (step genesis empty genesis_added)

abbrev sum : List ℕ → ℕ
sum [] = 0
sum (b ∷ bs) = b + 2 * sum bs

-- A digest that depends on its input.
abbrev sum_digest : List ℕ → List ℕ
sum_digest bytes = to_le_bytes 32 (sum bytes)

-- The root of three leaves; the third is paired with itself.
abbrev leaves : List (List ℕ)
leaves = hash_of 1 ∷ hash_of 2 ∷ hash_of 3 ∷ []

inclusion_example :
    (root : List ℕ) × (merkle_root sum_digest leaves ≡ ok root)
    × (compute_root_from_proof sum_digest (hash_of 3) (proof_of sum_digest leaves 2) ≡ ok root)
inclusion_example =
    compute_root_from_proof-proof_of sum_digest leaves 2 (hash_of 3) (omega arith) refl

-- The block of one transaction that `genesis` commits to.
verify_against_chain_example :
    verify_against_chain sum_digest
      (hash_of 5)
      (proof_of sum_digest (hash_of 5 ∷ []) 0)
      100
      one_block
    ≡ ok tt
unfolding merkle_root merkle_root_at_height
verify_against_chain_example =
    verify_against_chain-proof_of sum_digest (hash_of 5 ∷ []) 0 100 (hash_of 5) (hash_of 5)
      one_block (omega arith) refl refl refl

abbrev shifted_payment : Transaction
shifted_payment = record payment {
  inputs =
      record {
        outpoint = record { txid = hash_of 1; vout = 7 };
        unlocking_script = [];
        sequence = 2;
      }
      ∷ payment.inputs;
  outputs = record { value = 5; locking_script = [] } ∷ payment.outputs;
}

single_anyone_example :
    sighash sum_digest payment 0 (0x51 ∷ []) 9 0xc3
    ≡ sighash sum_digest shifted_payment 1 (0x51 ∷ []) 9 0xc3
unfolding is_anyone
single_anyone_example =
    sighash-single_anyone sum_digest payment shifted_payment _ _ 0 1 (0x51 ∷ []) 9 0xc3 refl refl
      (record { version = refl; locktime = refl }) refl refl refl refl
