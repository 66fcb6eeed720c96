-- ===== src/Bsv/Script/Assembly.antt =====
-- Scripts that crates/bsv/src/script.rs assembles, and its parser on them.
use native.Mathlib.Decide.{dec_le}
use overlay_broadcast.Base.{
  ℕ, zero, suc, ◌+◌, ◌^◌, ◌≤◌, ◌<◌, ◌≡◌, ◌≢◌, refl, sym, ap, ◌∙◌, List, [], ◌∷◌, ◌++◌, some, arith,
  length, length-append, append-nil, append_assoc, ok, All, leb, if◌then◌else◌, ◌&&◌, ◌==◌, true,
  false,
}
use overlay_broadcast.Base.LittleEndian.{to_le_bytes, length-to_le_bytes}
use overlay_broadcast.Bsv.Cursor.{Cursor, ◌>>=◌, pure, take, is_empty, remaining, new}
use overlay_broadcast.Bsv.Cursor.Reads.{
  Rest, Parses, Parses-bind, Parses-pure, Parses-cast, Parses-take, Parses-u8, Rest-new,
  remaining-Rest,
}
use overlay_broadcast.Bsv.Cursor.Varint.{or_bytes-to_le_bytes}
use overlay_broadcast.Bsv.Script.{
  ScriptOp, op, push, push_data, push_n, op_of, parse_op, parse_ops, parse_script, max_script_ops,
  pushdata1, pushdata2, pushdata4,
}

-- An opcode that is no push, and a push that is not empty and has a length of at most 32 bits.
abbrev pub Encodable : ScriptOp → Type 0
Encodable (op c) =
    (leb 1 c && leb c 0x4b ≡ false) × (c ≢ pushdata1) × (c ≢ pushdata2) × (c ≢ pushdata4)
Encodable (push run) = (0 < length run) × (length run < 2 ^ 32)

-- The bytes of an operation, and of a script.
abbrev pub encode : ScriptOp → List ℕ
encode (op c) = c ∷ []
encode (push run) = push_data [] run

abbrev pub assemble : List ScriptOp → List ℕ
assemble [] = []
assemble (o ∷ os) = encode o ++ assemble os

-- What stands before a push of `len` bytes.
abbrev push_header : ℕ → List ℕ
push_header len =
    if leb len 75
    then len ∷ []
    else if leb len 0xff
    then pushdata1 ∷ len ∷ []
    else if leb len 0xffff
    then pushdata2 ∷ to_le_bytes 2 len
    else pushdata4 ∷ to_le_bytes 4 len

push_data_lem :
    (out run : List ℕ)
    → length run < 2 ^ 32
    → push_data out run ≡ out ++ (push_header (length run) ++ run)
unfolding push_data
push_data_lem out run h = ground (arith, append_assoc out (push_header (length run)) run)

pub push_data-append :
    (out run : List ℕ) → length run < 2 ^ 32 → push_data out run ≡ out ++ push_data [] run
push_data-append out run h = push_data_lem out run h ∙ rw (push_data_lem [] run h)

pub length-push_data :
    (run : List ℕ) → length run < 2 ^ 32 → length (push_data [] run) ≤ length run + 5
length-push_data run h = rw (push_data_lem [] run h) (
    ground (
      arith,
      length-append (push_header (length run)) run,
      length-to_le_bytes 2 (length run),
      length-to_le_bytes 4 (length run),
    ))

Parses-run : (run : List ℕ) → Parses (take (length run) >>= λ r. pure (push r)) run (push run)
Parses-run run =
    Parses-cast (append-nil run) (Parses-bind _ (Parses-take _ run refl) (Parses-pure (push run)))

Parses-push_n :
    (n : ℕ) (run : List ℕ)
    → n ≤ 8
    → length run < 256 ^ n
    → Parses (push_n n) (to_le_bytes n (length run) ++ run) (push run)
unfolding push_n
Parses-push_n n run hn hr =
    Parses-bind _ (Parses-take n (to_le_bytes n (length run)) (length-to_le_bytes n _))
      (rw (or_bytes-to_le_bytes n (length run) hn hr) (Parses-run run))

op_of_direct : (len : ℕ) → 0 < len → len ≤ 75 → op_of len ≡ (take len >>= λ r. pure (push r))
unfolding op_of
op_of_direct len lo hi = ground arith

op_of_op : (c : ℕ) → Encodable (op c) → op_of c ≡ pure (op c)
unfolding op_of
op_of_op c h = ground (arith, h.0, h.1, h.2, h.3)

op_of_pushes :
    (op_of pushdata1 ≡ push_n 1) × (op_of pushdata2 ≡ push_n 2) × (op_of pushdata4 ≡ push_n 4)
unfolding op_of
op_of_pushes = (refl, refl, refl)

Parses-opcode :
    (c : ℕ) {xs : List ℕ} {o : ScriptOp} → Parses (op_of c) xs o → Parses parse_op (c ∷ xs) o
unfolding parse_op
Parses-opcode c h = Parses-bind _ (Parses-u8 c) h

push_header_one :
    (len : ℕ) → 75 < len → len ≤ 0xff → push_header len ≡ pushdata1 ∷ to_le_bytes 1 len
unfolding to_le_bytes
push_header_one len lo hi = ground arith

Parses-push_header :
    (run : List ℕ)
    → Encodable (push run)
    → Parses parse_op (push_header (length run) ++ run) (push run)
Parses-push_header run h = elim (dec_le (length run) 75) [
  | yes a ↦ rw (direct a) (Parses-opcode _ (rw (op_of_direct _ h.0 a) (Parses-run run)))
  | no a ↦ elim (dec_le (length run) 0xff) [
    | yes b ↦
        rw (push_header_one (length run) (omega arith) b)
          (Parses-opcode _ (rw op_of_pushes.0 (Parses-push_n 1 run (omega arith) (omega arith))))
    | no b ↦ elim (dec_le (length run) 0xffff) [
      | yes c ↦
          rw (two (omega arith) c)
            (Parses-opcode _ (rw op_of_pushes.1 (Parses-push_n 2 run (omega arith) (omega arith))))
      | no c ↦
          rw (four (omega arith))
            (Parses-opcode _ (rw op_of_pushes.2 (Parses-push_n 4 run (omega arith) (h.1))))
    ]
  ]
]
  where
    direct : length run ≤ 75 → push_header (length run) ≡ length run ∷ []
    direct hi = ground arith

    two :
        0xff < length run
        → length run ≤ 0xffff
        → push_header (length run) ≡ pushdata2 ∷ to_le_bytes 2 (length run)
    two lo hi = ground arith

    four : 0xffff < length run → push_header (length run) ≡ pushdata4 ∷ to_le_bytes 4 (length run)
    four lo = ground arith

pub Parses-op : (o : ScriptOp) → Encodable o → Parses parse_op (encode o) o
Parses-op (op c) h = Parses-opcode c (rw (op_of_op c h) (Parses-pure (op c)))
Parses-op (push run) h = rw (push_data_lem [] run h.1) (Parses-push_header run h)

encode_pos : (o : ScriptOp) → 0 < length (encode o)
unfolding push_data
encode_pos (op c) = omega arith
encode_pos (push run) = ground (arith, length-append (push_header (length run)) run)

-- One round of the loop.
parse_ops_step :
    (fuel : ℕ) (ops : List ScriptOp) (c : Cursor) {o : ScriptOp} {c' : Cursor}
    → 0 < remaining c
    → length ops < max_script_ops
    → parse_op c ≡ ok (o, c')
    → parse_ops (suc fuel) ops c ≡ parse_ops fuel (ops ++ (o ∷ [])) c'
unfolding parse_ops is_empty
parse_ops_step fuel ops c more room e =
    let e1 : (remaining c == 0) ≡ false = ground arith in
    let e2 : leb max_script_ops (length ops) ≡ false = ground arith in rw e1 (rw e2 (rw e refl))

parse_ops_end :
    (fuel : ℕ) (ops : List ScriptOp) (c : Cursor)
    → remaining c ≡ 0
    → parse_ops (suc fuel) ops c ≡ some (ok ops)
unfolding parse_ops is_empty
parse_ops_end fuel ops c e = let e1 : (remaining c == 0) ≡ true = ground arith in rw e1 refl

parse_ops-assemble :
    (os ops : List ScriptOp) (c : Cursor) (fuel : ℕ)
    → All Encodable os
    → Rest c (assemble os)
    → length os ≤ fuel
    → length ops + length os ≤ max_script_ops
    → parse_ops (suc fuel) ops c ≡ some (ok (ops ++ os))
parse_ops-assemble [] ops c fuel h r hf hm =
    parse_ops_end fuel ops c (remaining-Rest r) ∙ ap (λ l. some (ok l)) (sym (append-nil ops))
parse_ops-assemble (o ∷ os) ops c zero h r hf hm = absurd (omega arith)
parse_ops-assemble (o ∷ os) ops c (suc fuel) h r hf hm =
    let (c', e, r') = (Parses-op o h.0).run c (assemble os) r in
    let more : 0 < remaining c =
      omega (arith, remaining-Rest r, encode_pos o, length-append (encode o) (assemble os)) in
    parse_ops_step (suc fuel) ops c more (omega arith) e
    ∙ parse_ops-assemble os (ops ++ (o ∷ [])) c' fuel h.1 r' (omega arith)
        (omega (arith, length-append ops (o ∷ [])))
    ∙ ap (λ l. some (ok l)) (append_assoc ops (o ∷ []) os)

length-assemble : (os : List ScriptOp) → length os ≤ length (assemble os)
length-assemble [] = omega arith
length-assemble (o ∷ os) =
    omega (arith, length-append (encode o) (assemble os), encode_pos o, length-assemble os)

-- The parser reads a script back as the operations that it was assembled from, if each can be
-- encoded, they are no more than the parser's limit and the script has less than 2^64 bytes.
pub parse_script-assemble :
    (os : List ScriptOp)
    → All Encodable os
    → length os ≤ max_script_ops
    → length (assemble os) < 2 ^ 64
    → parse_script (assemble os) ≡ ok os
unfolding parse_script
parse_script-assemble os h hm hl =
    rw
      (parse_ops-assemble os [] (new (assemble os)) (length (assemble os)) h
        (Rest-new (assemble os) hl) (length-assemble os) (omega arith))
      refl
