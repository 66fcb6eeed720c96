-- ===== src/Session/Unlock.antt =====
-- What the unlocking scripts of crates/session/src/builder.rs leave of a transaction and its digests.
use overlay_broadcast.Base.{
  ℕ, zero, suc, ◌+◌, ◌≤◌, ◌<◌, ◌^◌, Bool, true, false, Option, none, some, List, [], ◌∷◌, ◌++◌,
  Result, ok, err, ok_or, ok_or-eq-ok, ok_inj, err_ok, none-some, some_inj, ◌>>=◌, >>=-eq-ok,
  map_err, length, length-append, get_elem?, take, take-append, append-nil, ◌≡◌, refl, sym, ap, ◌∙◌,
  ◌⊎◌, inl, inr, arith, Bool-cases, Option-cases, ==_iff, ◌==◌, false-true, ◌&&◌, if◌then◌else◌,
  All,
}
use overlay_broadcast.Base
use overlay_broadcast.Bsv.Error.{malformed_tx}
use overlay_broadcast.Bsv.Sighash.{
  sighash, sighash_of, prevouts, sequences, outputs_hash, preimage, hash_prevouts, hash_sequence,
}
use overlay_broadcast.Bsv.Transaction.{Transaction, TxIn, OutPoint}
use overlay_broadcast.Session.Builder.{set_unlock}

-- What an unlocking script leaves of the inputs.
set_unlock-prevouts :
    (is js : List TxIn) (i : ℕ) (u : List ℕ)
    → set_unlock is i u ≡ some js
    → prevouts js ≡ prevouts is
unfolding set_unlock prevouts
set_unlock-prevouts [] js i u h = absurd (none-some h)
set_unlock-prevouts (x ∷ is) js zero u h = rw (← some_inj h) refl
set_unlock-prevouts (x ∷ is) js (suc i) u h = elim (Option-cases (set_unlock is i u)) [
  | inl away ↦ absurd (none-some (rw away at h))
  | inr (ks, found) ↦
      rw (← some_inj (rw found at h)) (rw (set_unlock-prevouts is ks i u found) refl)
]

set_unlock-sequences :
    (is js : List TxIn) (i : ℕ) (u : List ℕ)
    → set_unlock is i u ≡ some js
    → sequences js ≡ sequences is
unfolding set_unlock sequences
set_unlock-sequences [] js i u h = absurd (none-some h)
set_unlock-sequences (x ∷ is) js zero u h = rw (← some_inj h) refl
set_unlock-sequences (x ∷ is) js (suc i) u h = elim (Option-cases (set_unlock is i u)) [
  | inl away ↦ absurd (none-some (rw away at h))
  | inr (ks, found) ↦
      rw (← some_inj (rw found at h)) (rw (set_unlock-sequences is ks i u found) refl)
]

-- The input at an index, with its script or without regard to it.
abbrev bare : Option TxIn → Option (OutPoint × ℕ)
bare none = none
bare (some x) = some (x.outpoint, x.sequence)

set_unlock-bare :
    (is js : List TxIn) (i k : ℕ) (u : List ℕ)
    → set_unlock is i u ≡ some js
    → bare (get_elem? js k) ≡ bare (get_elem? is k)
unfolding set_unlock
set_unlock-bare [] js i k u h = absurd (none-some h)
set_unlock-bare (x ∷ is) js zero zero u h = rw (← some_inj h) refl
set_unlock-bare (x ∷ is) js zero (suc k) u h = rw (← some_inj h) refl
set_unlock-bare (x ∷ is) js (suc i) k u h = elim (Option-cases (set_unlock is i u)) [
  | inl away ↦ absurd (none-some (rw away at h))
  | inr (ks, found) ↦
      rw (← some_inj (rw found at h)) (at_index x is ks k (λ k. set_unlock-bare is ks i k u found))
]
  where
    at_index :
        (x : TxIn) (is ks : List TxIn) (k : ℕ)
        → ((k : ℕ) → bare (get_elem? ks k) ≡ bare (get_elem? is k))
        → bare (get_elem? (x ∷ ks) k) ≡ bare (get_elem? (x ∷ is) k)
    at_index x is ks zero h = refl
    at_index x is ks (suc k) h = h k

pub set_unlock-same :
    (is js : List TxIn) (i : ℕ) (u : List ℕ)
    → set_unlock is i u ≡ some js
    → (x : TxIn) × (get_elem? js i ≡ some x) × (x.unlocking_script ≡ u)
unfolding set_unlock
set_unlock-same [] js i u h = absurd (none-some h)
set_unlock-same (x ∷ is) js zero u h =
    rw (← some_inj h) (record x { unlocking_script = u }, refl, refl)
set_unlock-same (x ∷ is) js (suc i) u h = elim (Option-cases (set_unlock is i u)) [
  | inl away ↦ absurd (none-some (rw away at h))
  | inr (ks, found) ↦ rw (← some_inj (rw found at h)) (set_unlock-same is ks i u found)
]

pub set_unlock-other :
    (is js : List TxIn) (i k : ℕ) (u : List ℕ)
    → set_unlock is i u ≡ some js
    → (i == k) ≡ false
    → get_elem? js k ≡ get_elem? is k
unfolding set_unlock
set_unlock-other [] js i k u h other = absurd (none-some h)
set_unlock-other (x ∷ is) js zero zero u h other = absurd (false-true other refl)
set_unlock-other (x ∷ is) js zero (suc k) u h other = rw (← some_inj h) refl
set_unlock-other (x ∷ is) js (suc i) k u h other = elim (Option-cases (set_unlock is i u)) [
  | inl away ↦ absurd (none-some (rw away at h))
  | inr (ks, found) ↦
      rw (← some_inj (rw found at h))
        (at_index x is ks k other (λ k apart. set_unlock-other is ks i k u found apart))
]
  where
    at_index :
        (x : TxIn) (is ks : List TxIn) (k : ℕ)
        → (suc i == k) ≡ false
        → ((k : ℕ) → (i == k) ≡ false → get_elem? ks k ≡ get_elem? is k)
        → get_elem? (x ∷ ks) k ≡ get_elem? (x ∷ is) k
    at_index x is ks zero other h = refl
    at_index x is ks (suc k) other h = h k (ground (arith, other))

module _ (digest : List ℕ → List ℕ) where
  -- Two inputs that differ at most in their scripts have the same digest.
  sighash_of-bare :
      (tx : Transaction) (js : List TxIn) (x y : TxIn) (i : ℕ) (script : List ℕ) (value flag : ℕ)
      → prevouts js ≡ prevouts tx.inputs
      → sequences js ≡ sequences tx.inputs
      → x.outpoint ≡ y.outpoint
      → x.sequence ≡ y.sequence
      → sighash_of digest (record tx { inputs = js }) x i script value flag
        ≡ sighash_of digest tx y i script value flag
  unfolding sighash_of outputs_hash preimage hash_prevouts hash_sequence
  sighash_of-bare tx js x y i script value flag p s o q = rw (p, s, o, q) refl

  pub sighash-set_unlock :
      (tx : Transaction) (js : List TxIn) (k i : ℕ) (u script : List ℕ) (value flag : ℕ)
      → set_unlock tx.inputs k u ≡ some js
      → sighash digest (record tx { inputs = js }) i script value flag
        ≡ sighash digest tx i script value flag
  unfolding sighash
  sighash-set_unlock tx js k i u script value flag h =
      both (get_elem? js i) (get_elem? tx.inputs i) (set_unlock-bare tx.inputs js k i u h)
    where
      both :
          (a b : Option TxIn)
          → bare a ≡ bare b
          → (Base.◌>>=◌
              (ok_or a malformed_tx)
              λ input. sighash_of digest (record tx { inputs = js }) input i script value flag)
            ≡ (Base.◌>>=◌
                (ok_or b malformed_tx)
                λ input. sighash_of digest tx input i script value flag)
      both none none e = refl
      both none (some y) e = absurd (none-some e)
      both (some x) none e = absurd (none-some (sym e))
      both (some x) (some y) e =
          sighash_of-bare tx js x y i script value flag (set_unlock-prevouts tx.inputs js k u h)
            (set_unlock-sequences tx.inputs js k u h) (ap (λ z. z.0) (some_inj e))
            (ap (λ z. z.1) (some_inj e))
