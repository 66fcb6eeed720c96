-- ===== src/Bsv/Sighash/Binding.antt =====
-- crates/bsv/src/sighash.rs: what a signature with SIGHASH_SINGLE and SIGHASH_ANYONECANPAY binds.
use overlay_broadcast.Base.{
  ℕ, ◌≡◌, refl, ap, true, false, some, List, bit_and, length, get_elem?, get_elem?-lt, leb, arith,
  >>=-cong, ok,
}
use overlay_broadcast.Bsv.Transaction.{Transaction, TxIn, TxOut, count}
use overlay_broadcast.Bsv.Hash.{double_sha256}
use overlay_broadcast.Bsv.Sighash.{
  sighash_single, sighash, sighash_of, output_at, outputs_hash, preimage, hash_prevouts,
  hash_sequence, is_anyone,
}

-- Two transactions have the same version and lock time.
pub record SameFrame (tx ty : Transaction) : Type 0 where
  pub version : tx.version ≡ ty.version
  pub locktime : tx.locktime ≡ ty.locktime

in_range :
    {A : Type 0} (xs : List A) (i : ℕ) {a : A} → get_elem? xs i ≡ some a → leb (length xs) i ≡ false
in_range xs i h = ground (arith, get_elem?-lt xs i h)

module _ (digest : List ℕ → List ℕ) where
  outputs_hash-single :
      (tx ty : Transaction) (i j : ℕ) (o : TxOut)
      → get_elem? tx.outputs i ≡ some o
      → get_elem? ty.outputs j ≡ some o
      → outputs_hash digest tx sighash_single i ≡ outputs_hash digest ty sighash_single j
  unfolding outputs_hash output_at
  outputs_hash-single tx ty i j o hx hy = rw (hx, hy) refl

  preimage-anyone :
      (tx ty : Transaction) (base : ℕ) (input : TxIn) (hash script : List ℕ) (n value type : ℕ)
      → SameFrame tx ty
      → preimage digest tx base true input hash script n value type
        ≡ preimage digest ty base true input hash script n value type
  unfolding preimage hash_prevouts hash_sequence
  preimage-anyone tx ty base input hash script n value type same =
      rw (same.version, same.locktime) refl

  sighash_of-single_anyone :
      (tx ty : Transaction) (input : TxIn) (i j : ℕ) (o : TxOut) (script : List ℕ) (value type : ℕ)
      → bit_and type 0x1f ≡ sighash_single
      → is_anyone type ≡ true
      → SameFrame tx ty
      → get_elem? tx.outputs i ≡ some o
      → get_elem? ty.outputs j ≡ some o
      → sighash_of digest tx input i script value type
        ≡ sighash_of digest ty input j script value type
  unfolding sighash_of
  sighash_of-single_anyone tx ty input i j o script value type single anyone same hx hy =
      rw (single, anyone, in_range tx.outputs i hx, in_range ty.outputs j hy)
        (rw (outputs_hash-single tx ty i j o hx hy) (
          >>=-cong (outputs_hash digest ty sighash_single j) _ _ λ hash.
            >>=-cong (count (length script)) _ _ λ n.
              ap (λ bytes. ok (double_sha256 digest bytes))
                (preimage-anyone tx ty sighash_single input hash script n value type same)))

  -- A signature hash for SIGHASH_SINGLE with SIGHASH_ANYONECANPAY binds, of the inputs and the
  -- outputs, only the signed input and the output at its index: two transactions with the same
  -- version and lock time, where the input and that output stand side by side at any index,
  -- have the same hash, whatever other inputs and outputs they have.
  pub sighash-single_anyone :
      (tx ty : Transaction) (input : TxIn) (o : TxOut) (i j : ℕ) (script : List ℕ) (value type : ℕ)
      → bit_and type 0x1f ≡ sighash_single
      → is_anyone type ≡ true
      → SameFrame tx ty
      → get_elem? tx.inputs i ≡ some input
      → get_elem? ty.inputs j ≡ some input
      → get_elem? tx.outputs i ≡ some o
      → get_elem? ty.outputs j ≡ some o
      → sighash digest tx i script value type ≡ sighash digest ty j script value type
  unfolding sighash
  sighash-single_anyone tx ty input o i j script value type single anyone same ix iy ox oy =
      rw (ix, iy)
        (sighash_of-single_anyone tx ty input i j o script value type single anyone same ox oy)
