-- ===== src/Session/Signatures.antt =====
-- The signatures of crates/session/src/builder.rs under the ones that follow.
use overlay_broadcast.Base.{
  ℕ, suc, ◌≤◌, true, false, some, List, [], ◌∷◌, ◌++◌, ok, ok_or, ok_or-eq-ok, ok_inj, >>=-eq-ok,
  map_err, map_err-eq-ok, length, length-append, get_elem?, take, take-append, append-nil, ◌≡◌,
  refl, sym, ap, ◌∙◌, inl, inr, arith, Option-cases, ◌==◌,
}
use overlay_broadcast.Bsv.Script.{push, push_data, p2pkh, parse_script}
use overlay_broadcast.Bsv.Script.Assembly.{
  parse_script-assemble, push_data-append, length-push_data,
}
use overlay_broadcast.Bsv.Transaction.{Transaction, TxIn}
use overlay_broadcast.Api.Service.{Crypto, verify_der_prehash, is_low_s}
use overlay_broadcast.Ckd.Key.{bad_key}
use overlay_broadcast.Session.Signing.{Signer, IsSigner, sign_prehash_der, low_s}
use overlay_broadcast.Session.Subscription.{bsv, ckd, bad_index}
use overlay_broadcast.Session.Builder.{
  member_flag, broadcaster_flag, set_unlock, without_flag, input_digest, member_digest, unlock_of,
  apply_unlock, sign_member, sign_broadcaster, verify_ops, verify_unlock, verify_member,
}
use overlay_broadcast.Session.Unlock.{set_unlock-same, set_unlock-other, sighash-set_unlock}

without_flag-append : (der : List ℕ) (flag : ℕ) → without_flag (der ++ (flag ∷ [])) ≡ some der
without_flag-append [] flag = refl
without_flag-append (d ∷ ds) flag =
    let n : length (ds ++ (flag ∷ [])) ≡ suc (length ds) =
      omega (arith, length-append ds (flag ∷ [])) in
    ap (λ n. some (take n (d ∷ (ds ++ (flag ∷ []))))) n
    ∙ ap (λ l. some (d ∷ l)) (take-append ds (flag ∷ []))

module _ (crypto : Crypto) (s : Signer crypto) (l : IsSigner crypto s) where
  low_s-verifies :
      (key : crypto.VerifyingKey) (prehash : List ℕ) (x : crypto.Signature)
      → crypto.verify_prehash key prehash x ≡ true
      → (is_low_s crypto (low_s crypto s x (crypto.normalize_s x)) ≡ true)
        × (crypto.verify_prehash key prehash (low_s crypto s x (crypto.normalize_s x)) ≡ true)
  unfolding is_low_s
  low_s-verifies key prehash x h = elim (Option-cases (crypto.normalize_s x)) [
    | inl low ↦ rw low (rw (is_low_s, low) refl, h)
    | inr (y, high) ↦
        rw high (rw (is_low_s, l.low x y high) refl, l.valid_low key prehash x y h high)
  ]

  -- What `sign_prehash_der` signed verifies, and has at most 72 bytes.
  verify-sign :
      (private_key public_key prehash der : List ℕ) (key : s.SigningKey)
      → s.from_slice private_key ≡ some key
      → crypto.from_sec1_bytes public_key ≡ some (s.verifying_key key)
      → sign_prehash_der crypto s private_key prehash ≡ ok der
      → (verify_der_prehash crypto public_key prehash der ≡ true) × (length der ≤ 72)
  unfolding sign_prehash_der verify_der_prehash
  verify-sign private_key public_key prehash der key has pair h =
      let first =
        >>=-eq-ok (ok_or (s.sign_prehash key prehash) bad_key) _
          (rw (sign_prehash_der, has) at h) in
      let signed = ok_or-eq-ok bad_key (s.sign_prehash key prehash) first.1 in
      let x = low_s crypto s first.0 (crypto.normalize_s first.0) in
      let good =
        low_s-verifies (s.verifying_key key) prehash first.0 (l.valid key prehash first.0 signed) in
      rw (← ok_inj first.2)
        (rw (verify_der_prehash, pair, l.reads x, good.0, good.1) refl, l.short x)

  unlock-parses :
      (der public_key : List ℕ) (flag : ℕ)
      → length der ≤ 72
      → length public_key ≡ 33
      → parse_script (unlock_of crypto s der public_key flag)
        ≡ ok (push (der ++ (flag ∷ [])) ∷ push public_key ∷ [])
  unlock-parses der public_key flag short size =
      let sig = der ++ (flag ∷ []) in
      let n = length-append der (flag ∷ []) in
      let m = length-push_data sig (omega (arith, n)) in
      let k = length-push_data public_key (omega (arith, size)) in
      ap parse_script (
        push_data-append (push_data [] sig) public_key (omega (arith, size))
        ∙ ap (λ z. push_data [] sig ++ z) (sym (append-nil (push_data [] public_key))))
      ∙ parse_script-assemble (push sig ∷ push public_key ∷ [])
          ((omega (arith, n), omega (arith, n)), ((omega (arith, size), omega (arith, size)), tt))
          (omega arith)
          (omega (
            arith,
            n,
            m,
            k,
            size,
            length-append (push_data [] sig) (push_data [] public_key ++ []),
            length-append (push_data [] public_key) [],
          ))

  -- An input whose script is the unlocking script of a signature on the digest verifies.
  unlock-verifies :
      (tx : Transaction) (i : ℕ) (x : TxIn) (private_key public_key prehash der : List ℕ)
      (key : s.SigningKey) (flag : ℕ)
      → s.from_slice private_key ≡ some key
      → crypto.from_sec1_bytes public_key ≡ some (s.verifying_key key)
      → length public_key ≡ 33
      → sign_prehash_der crypto s private_key prehash ≡ ok der
      → get_elem? tx.inputs i ≡ some x
      → x.unlocking_script ≡ unlock_of crypto s der public_key flag
      → verify_unlock crypto s tx i prehash ≡ ok true
  unfolding verify_unlock verify_ops
  unlock-verifies tx i x private_key public_key prehash der key flag has pair size signed found
        script =
      let good = verify-sign private_key public_key prehash der key has pair signed in
      rw
        (
          verify_unlock,
          found,
          script,
          unlock-parses der public_key flag good.1 size,
          verify_ops,
          without_flag-append der flag,
          good.0,
        )
        refl

  -- The signatures of other inputs, by members or by the broadcaster, one after the other.
  pub data Later (i : ℕ) (tx : Transaction) : Transaction → Type 0 where
    same : Later i tx tx
    member :
        (ty tz : Transaction) (j : ℕ) (private_key public_key : List ℕ) (value : ℕ)
        → Later i tx ty
        → (j == i) ≡ false
        → sign_member crypto s ty j private_key public_key value ≡ ok tz
        → Later i tx tz
    broadcaster :
        (ty tz : Transaction) (j : ℕ) (private_key public_key : List ℕ) (value : ℕ)
        → Later i tx ty
        → (j == i) ≡ false
        → sign_broadcaster crypto s ty j private_key public_key value ≡ ok tz
        → Later i tx tz

  -- A signature sets one unlocking script.
  record Set (tx : Transaction) (j : ℕ) (prehash private_key public_key : List ℕ) (flag : ℕ)
      (ty : Transaction) : Type 0 where
    pub der : List ℕ
    pub signed : sign_prehash_der crypto s private_key prehash ≡ ok der
    pub inputs : List TxIn
    pub set : set_unlock tx.inputs j (unlock_of crypto s der public_key flag) ≡ some inputs
    pub made : record tx { inputs = inputs } ≡ ty

  apply_unlock-Set :
      (tx ty : Transaction) (j : ℕ) (private_key public_key prehash : List ℕ) (flag : ℕ)
      → apply_unlock crypto s tx j private_key public_key prehash flag ≡ ok ty
      → Set tx j prehash private_key public_key flag ty
  unfolding apply_unlock
  apply_unlock-Set tx ty j private_key public_key prehash flag h =
      let first = >>=-eq-ok (map_err ckd (sign_prehash_der crypto s private_key prehash)) _ h in
      let second =
        >>=-eq-ok
          (ok_or (set_unlock tx.inputs j (unlock_of crypto s first.0 public_key flag)) bad_index) _
          first.2 in
      record {
        der = first.0;
        signed = map_err-eq-ok ckd (sign_prehash_der crypto s private_key prehash) first.1;
        inputs = second.0;
        set =
            ok_or-eq-ok bad_index
              (set_unlock tx.inputs j (unlock_of crypto s first.0 public_key flag)) second.1;
        made = ok_inj second.2;
      }

  -- The digest and the input of the member stay as they are.
  record Holds (i : ℕ) (prehash public_key : List ℕ) (value : ℕ) (x : TxIn) (tx : Transaction)
      : Type 0 where
    pub digest : member_digest crypto s tx i public_key value ≡ ok prehash
    pub input : get_elem? tx.inputs i ≡ some x

  digest-Set :
      (tx ty : Transaction) (j i : ℕ) (d k pk public_key : List ℕ) (flag value : ℕ)
      → Set tx j d k pk flag ty
      → member_digest crypto s ty i public_key value ≡ member_digest crypto s tx i public_key value
  unfolding member_digest input_digest
  digest-Set tx ty j i d k pk public_key flag value t = rw (← t.made) (
      ap (map_err bsv) (
        sighash-set_unlock crypto.digest tx t.inputs j i (unlock_of crypto s t.der pk flag)
          (p2pkh (s.hash160 public_key)) value member_flag t.set))

  Holds-Set :
      (i : ℕ) (prehash public_key : List ℕ) (value : ℕ) (x : TxIn) (tx ty : Transaction) (j : ℕ)
      (d k pk : List ℕ) (flag : ℕ)
      → (j == i) ≡ false
      → Set tx j d k pk flag ty
      → Holds i prehash public_key value x tx
      → Holds i prehash public_key value x ty
  Holds-Set i prehash public_key value x tx ty j d k pk flag other t h = record {
    digest = digest-Set tx ty j i d k pk public_key flag value t ∙ h.digest;
    input = rw (← t.made) (
        set_unlock-other tx.inputs t.inputs j i (unlock_of crypto s t.der pk flag) t.set other
        ∙ h.input);
  }

  Holds-Later :
      (i : ℕ) (prehash public_key : List ℕ) (value : ℕ) (x : TxIn) (tx ty : Transaction)
      → Later i tx ty
      → Holds i prehash public_key value x tx
      → Holds i prehash public_key value x ty
  unfolding sign_member sign_broadcaster
  Holds-Later i prehash public_key value x tx _ same h = h
  Holds-Later i prehash public_key value x tx _ (member ty tz j k pk v later other signed) h =
      let first = >>=-eq-ok (member_digest crypto s ty j pk v) _ signed in
      Holds-Set i prehash public_key value x ty tz j first.0 k pk member_flag other
        (apply_unlock-Set ty tz j k pk first.0 member_flag first.2)
        (Holds-Later i prehash public_key value x tx ty later h)
  Holds-Later i prehash public_key value x tx _ (broadcaster ty tz j k pk v later other signed) h =
      let first = >>=-eq-ok (input_digest crypto s broadcaster_flag ty j pk v) _ signed in
      Holds-Set i prehash public_key value x ty tz j first.0 k pk broadcaster_flag other
        (apply_unlock-Set ty tz j k pk first.0 broadcaster_flag first.2)
        (Holds-Later i prehash public_key value x tx ty later h)

  -- Where k256's signatures verify and DER is read back, with the 33 bytes of the public key of a
  -- private key: after `sign_member` of an input has returned a transaction, and any signatures of
  -- other inputs by members or by the broadcaster that returned ones, `verify_member` accepts the
  -- input.
  pub verify_member-sign_member :
      (tx ty tz : Transaction) (i : ℕ) (private_key public_key : List ℕ) (value : ℕ)
      (key : s.SigningKey)
      → s.from_slice private_key ≡ some key
      → crypto.from_sec1_bytes public_key ≡ some (s.verifying_key key)
      → length public_key ≡ 33
      → sign_member crypto s tx i private_key public_key value ≡ ok ty
      → Later i ty tz
      → verify_member crypto s tz i public_key value ≡ ok true
  unfolding sign_member verify_member
  verify_member-sign_member tx ty tz i private_key public_key value key has pair size signed later =
      let first = >>=-eq-ok (member_digest crypto s tx i public_key value) _ signed in
      let t = apply_unlock-Set tx ty i private_key public_key first.0 member_flag first.2 in
      let input =
        set_unlock-same tx.inputs t.inputs i (unlock_of crypto s t.der public_key member_flag)
          t.set in
      let now = Holds-Later i first.0 public_key value input.0 ty tz later (record {
        digest =
            digest-Set tx ty i i first.0 private_key public_key public_key member_flag value t
            ∙ first.1;
        input = rw (← t.made) input.1;
      }) in
      rw (verify_member, now.digest)
        (unlock-verifies tz i input.0 private_key public_key first.0 t.der key member_flag has pair
          size t.signed now.input input.2)
