-- ===== src/Bsv/Transaction/Wire.antt =====
-- The wire format that `parse` of crates/bsv/src/transaction.rs reads.
use overlay_broadcast.Base.{
  ℕ, ◌^◌, ◌≤◌, ◌<◌, ◌≡◌, refl, List, [], ◌∷◌, ◌++◌, arith, length, append-nil, append_assoc, ok,
  err, All, ltb, if◌then◌else◌, ◌==◌, false,
}
use overlay_broadcast.Base.LittleEndian.{to_le_bytes}
use overlay_broadcast.Bsv.Error.{malformed_tx}
use overlay_broadcast.Bsv.Cursor.{Cursor, Parser, ◌>>=◌, new, is_empty}
use overlay_broadcast.Bsv.Cursor.Reads.{
  Rest, Parses, Parses-bind, Parses-pure, Rest-new, remaining-Rest, Parses-hash256, Parses-u32_le,
  Parses-i32_le, Parses-u64_le,
}
use overlay_broadcast.Bsv.Cursor.Varint.{compact, Parses-varint, Parses-varint_bytes}
use overlay_broadcast.Bsv.Transaction.{
  TxIn, TxOut, Transaction, max_io, parse_items, parse_vec, parse_input, parse_output, ended,
  parse_body, parse,
}

-- The ranges of the Rust types, and the parser's limit on inputs and outputs.
pub record IsTxIn (i : TxIn) : Type 0 where
  pub txid : length i.outpoint.txid ≡ 32
  pub vout : i.outpoint.vout < 2 ^ 32
  pub script : length i.unlocking_script < 2 ^ 64
  pub sequence : i.sequence < 2 ^ 32

pub record IsTxOut (o : TxOut) : Type 0 where
  pub value : o.value < 2 ^ 64
  pub script : length o.locking_script < 2 ^ 64

pub record IsTransaction (tx : Transaction) : Type 0 where
  pub version : tx.version < 2 ^ 32
  pub inputs : All IsTxIn tx.inputs
  pub input_count : length tx.inputs ≤ max_io
  pub outputs : All IsTxOut tx.outputs
  pub output_count : length tx.outputs ≤ max_io
  pub locktime : tx.locktime < 2 ^ 32

-- The wire format, in the order in which the parser reads it.
abbrev pub input_bytes : TxIn → List ℕ
input_bytes i =
    i.outpoint.txid
    ++ (to_le_bytes 4 i.outpoint.vout
        ++ ((compact (length i.unlocking_script) ++ i.unlocking_script)
            ++ (to_le_bytes 4 i.sequence ++ [])))

abbrev pub output_bytes : TxOut → List ℕ
output_bytes o =
    to_le_bytes 8 o.value ++ ((compact (length o.locking_script) ++ o.locking_script) ++ [])

abbrev pub concat_with : {A : Type 0} → (A → List ℕ) → List A → List ℕ
concat_with enc [] = []
concat_with enc (x ∷ xs) = enc x ++ concat_with enc xs

abbrev pub vec_bytes : {A : Type 0} → (A → List ℕ) → List A → List ℕ
vec_bytes enc xs = compact (length xs) ++ concat_with enc xs

abbrev pub transaction_bytes : Transaction → List ℕ
transaction_bytes tx =
    to_le_bytes 4 tx.version
    ++ (vec_bytes input_bytes tx.inputs
        ++ (vec_bytes output_bytes tx.outputs ++ (to_le_bytes 4 tx.locktime ++ [])))

Parses-parse_input : (i : TxIn) → IsTxIn i → Parses parse_input (input_bytes i) i
unfolding parse_input
Parses-parse_input i v = Parses-bind _ (Parses-hash256 i.outpoint.txid v.txid) (
    Parses-bind _ (Parses-u32_le i.outpoint.vout v.vout) (
      Parses-bind _ (Parses-varint_bytes i.unlocking_script v.script)
        (Parses-bind _ (Parses-u32_le i.sequence v.sequence) (Parses-pure i))))

Parses-parse_output : (o : TxOut) → IsTxOut o → Parses parse_output (output_bytes o) o
unfolding parse_output
Parses-parse_output o v =
    Parses-bind _ (Parses-u64_le o.value v.value)
      (Parses-bind _ (Parses-varint_bytes o.locking_script v.script) (Parses-pure o))

module _ {A : Type 0} {p : Parser A} {enc : A → List ℕ} {P : A → Type 0}
    (one : (x : A) → P x → Parses p (enc x) x) where
  Parses-parse_items :
      (xs out : List A)
      → All P xs
      → Parses (parse_items p (length xs) out) (concat_with enc xs) (out ++ xs)
  unfolding parse_items
  Parses-parse_items [] out h = rw (append-nil out) (Parses-pure out)
  Parses-parse_items (x ∷ xs) out h =
      Parses-bind _ (one x h.0)
        (rw (append_assoc out (x ∷ []) xs) at (Parses-parse_items xs (out ++ (x ∷ [])) h.1))

  Parses-parse_vec :
      (xs : List A) → All P xs → length xs ≤ max_io → Parses (parse_vec p) (vec_bytes enc xs) xs
  unfolding parse_vec
  Parses-parse_vec xs h few =
      Parses-bind _ (Parses-varint (length xs) (omega arith))
        (rw within (Parses-parse_items xs [] h))
    where
      within : ltb max_io (length xs) ≡ false
      within = ground arith

-- On every input that begins with `xs`, `p` reads just `xs` and goes on as `q`.
record Leads {A : Type 0} (p : Parser A) (xs : List ℕ) (q : Parser A) : Type 0 where
  run : (c : Cursor) (r : List ℕ) → Rest c (xs ++ r) → (c' : Cursor) × Rest c' r × (p c ≡ q c')

module _ {A B : Type 0} {p : Parser A} {xs ys : List ℕ} {a : A} {q : Parser B} where
  Leads-bind : (f : A → Parser B) → Parses p xs a → Leads (f a) ys q → Leads (p >>= f) (xs ++ ys) q
  Leads-bind f hp hf = record {
    run = λ c r h.
        let (c1, e1, h1) = hp.run c (ys ++ r) (rw (← append_assoc xs ys r) h) in
        let (c2, h2, e2) = hf.run c1 r h1 in (c2, h2, rw e1 e2);
  }

Leads-end : {A : Type 0} (q : Parser A) → Leads q [] q
Leads-end q = record { run = λ c r h. (c, h, refl) }

-- The four fields are read, and the check for trailing bytes is left.
Leads-parse_body :
    (tx : Transaction) → IsTransaction tx → Leads parse_body (transaction_bytes tx) (ended tx)
unfolding parse_body
Leads-parse_body tx v = Leads-bind _ (Parses-i32_le tx.version v.version) (
    Leads-bind _ (Parses-parse_vec Parses-parse_input tx.inputs v.inputs v.input_count) (
      Leads-bind _ (Parses-parse_vec Parses-parse_output tx.outputs v.outputs v.output_count)
        (Leads-bind _ (Parses-u32_le tx.locktime v.locktime) (Leads-end (ended tx)))))

-- The parser on the wire format with `r` behind it.
pub parse-bytes :
    (tx : Transaction) (r : List ℕ)
    → IsTransaction tx
    → length (transaction_bytes tx ++ r) < 2 ^ 64
    → parse (transaction_bytes tx ++ r) ≡ (if length r == 0 then ok tx else err malformed_tx)
unfolding parse ended is_empty
parse-bytes tx r v fits =
    let (c, h, e) =
      (Leads-parse_body tx v).run (new (transaction_bytes tx ++ r)) r (Rest-new _ fits) in
    rw e (ground (arith, remaining-Rest h))
