-- ===== src/Bsv/Script.antt =====
-- crates/bsv/src/script.rs: script assembly and the script parser.
pub mod Assembly
pub mod Total
use overlay_broadcast.Base
use overlay_broadcast.Base.{
  ℕ, zero, suc, ◌+◌, ◌^◌, Bool, ◌&&◌, Option, none, some, List, [], ◌∷◌, ◌++◌, length, ltb, leb,
  ◌==◌, if◌then◌else◌, ok, err,
}
use overlay_broadcast.Base.LittleEndian.{to_le_bytes}
use overlay_broadcast.Bsv.Error.{BsvResult, out_of_range, malformed_script}
use overlay_broadcast.Bsv.Cursor
use overlay_broadcast.Bsv.Cursor.{Cursor, Parser, ◌>>=◌, pure, lift, take, u8, or_bytes, or_zero}

-- The opcodes of `mod op`.
abbrev pub op_false : ℕ
op_false = 0x00

abbrev pub pushdata1 : ℕ
pushdata1 = 0x4c

abbrev pub pushdata2 : ℕ
pushdata2 = 0x4d

abbrev pub pushdata4 : ℕ
pushdata4 = 0x4e

abbrev pub op_return : ℕ
op_return = 0x6a

abbrev pub op_dup : ℕ
op_dup = 0x76

abbrev pub op_equalverify : ℕ
op_equalverify = 0x88

abbrev pub op_hash160 : ℕ
op_hash160 = 0xa9

abbrev pub op_checksig : ℕ
op_checksig = 0xac

abbrev pub op_checkmultisig : ℕ
op_checkmultisig = 0xae

abbrev pub op_n1 : ℕ
op_n1 = 0x51

abbrev pub op_n2 : ℕ
op_n2 = 0x52

pub data ScriptOp : Type 0 where
  op : ℕ → ScriptOp
  push : List ℕ → ScriptOp

abbrev pub max_script_ops : ℕ
max_script_ops = 10_000_000

unfoldable pub push_data : List ℕ → List ℕ → List ℕ
unfolding or_zero
push_data out payload =
    let len = length payload in
    (if leb len 75
      then out ++ (or_zero 256 len ∷ [])
      else if leb len 0xff
      then out ++ (pushdata1 ∷ or_zero 256 len ∷ [])
      else if leb len 0xffff
      then out ++ (pushdata2 ∷ to_le_bytes 2 (or_zero (2 ^ 16) len))
      else out ++ (pushdata4 ∷ to_le_bytes 4 (or_zero (2 ^ 32) len)))
    ++ payload

unfoldable pub p2pkh : List ℕ → List ℕ
unfolding push_data
p2pkh hash160 = push_data (op_dup ∷ op_hash160 ∷ []) hash160 ++ (op_equalverify ∷ op_checksig ∷ [])

unfoldable pub bare_multisig_1_of_2 : List ℕ → List ℕ → List ℕ
unfolding push_data
bare_multisig_1_of_2 pk_a pk_b =
    push_data (push_data (op_n1 ∷ []) pk_a) pk_b ++ (op_n2 ∷ op_checkmultisig ∷ [])

unfoldable pub push_n : ℕ → Parser ScriptOp
push_n len_bytes = do
  slice ← take len_bytes
  n ← lift (or_bytes 0 0 slice)
  run ← take n
  pure (push run)

-- The `match` on an opcode.
unfoldable pub op_of : ℕ → Parser ScriptOp
unfolding push_n
op_of opcode =
    if leb 0x01 opcode && leb opcode 0x4b
    then (do run ← take opcode; pure (push run))
    else if opcode == pushdata1
    then push_n 1
    else if opcode == pushdata2
    then push_n 2
    else if opcode == pushdata4
    then push_n 4
    else pure (op opcode)

unfoldable pub parse_op : Parser ScriptOp
unfolding op_of
parse_op = do opcode ← u8; op_of opcode

-- The `while` loop; `none` means that the fuel ran out.
unfoldable pub parse_ops : ℕ → List ScriptOp → Cursor → Option (BsvResult (List ScriptOp))
parse_ops zero ops cur = none
parse_ops (suc fuel) ops cur =
    if Cursor.is_empty cur
    then some (ok ops)
    else if leb max_script_ops (length ops)
    then some (err out_of_range)
    else elim (parse_op cur) [
      | ok (o, cur') ↦ parse_ops fuel (ops ++ (o ∷ [])) cur'
      | err e ↦ some (err e)
    ]

-- A round reads a byte, so the loop never takes the `none` of this definition.
abbrev finish : Option (BsvResult (List ScriptOp)) → BsvResult (List ScriptOp)
finish none = err out_of_range
finish (some r) = r

unfoldable pub parse_script : List ℕ → BsvResult (List ScriptOp)
unfolding parse_ops
parse_script script = finish (parse_ops (suc (length script)) [] (Cursor.new script))
