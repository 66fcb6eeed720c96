-- ===== src/Ckd/Public.antt =====
-- The two derivations of crates/ckd/src/ckd.rs, of private and of public keys, on the same index.
use overlay_broadcast.Base.{
  ℕ, false, some, List, ◌++◌, ok, ok_or, ok_or-eq-ok, ok_inj, err_ok, none-some, >>=-eq-ok,
  some_inj, leb, ◌==◌, length, take, drop, ◌≡◌, refl, sym, ap, ◌∙◌, inl, inr, Bool-cases,
}
use overlay_broadcast.Base.LittleEndian.{be_bytes}
use overlay_broadcast.Ckd.Group.{Group, IsGroup, all_zero}
use overlay_broadcast.Ckd.Key.{
  XPriv, XPub, bad_key, derivation_failed, hardened, scalar_from_canonical, hmac_sha512,
  encode_point, public_key_compressed, child_data, next_depth, private_child, derive_child, to_xpub,
  public_child, derive_public_child,
}

module _ {Point : Type 0} (q : Group Point) (l : IsGroup q) where
  -- A secret key's public key is its encoded point.
  public_lem :
      (k : XPriv) (a : ℕ)
      → q.secret_key k.private_key ≡ some a
      → public_key_compressed q k ≡ ok (q.encoded (q.multiply q.generator a))
  unfolding public_key_compressed encode_point
  public_lem k a h = rw (public_key_compressed, h, l.fits k.private_key a h) refl

  -- What a private key that has a public key is.
  secret_lem :
      (k : XPriv) (out : List ℕ)
      → public_key_compressed q k ≡ ok out
      → (a : ℕ) × (q.secret_key k.private_key ≡ some a)
        × (q.encoded (q.multiply q.generator a) ≡ out)
  unfolding public_key_compressed
  secret_lem k out h =
      let first = >>=-eq-ok (ok_or (q.secret_key k.private_key) bad_key) _ h in
      let secret = ok_or-eq-ok bad_key (q.secret_key k.private_key) first.1 in
      (first.0, secret, ok_inj (sym (public_lem k first.0 secret) ∙ h))

  -- What a private child that was derived is made of.
  record Derived (k : XPriv) (index : ℕ) (i : List ℕ) (c : XPriv) : Type 0 where
    pub left : ℕ
    pub parent : ℕ
    pub depth : ℕ
    pub has_left : scalar_from_canonical q (take 32 i) ≡ some left
    pub has_parent : q.scalar k.private_key ≡ some parent
    pub nonzero : all_zero (q.repr (q.plus left parent)) ≡ false
    pub has_depth : next_depth k.depth ≡ ok depth
    pub made :
        record {
          private_key = q.repr (q.plus left parent);
          chain_code = drop 32 i;
          depth = depth;
          child_number = index;
        }
        ≡ c

  scalar_lem :
      (bytes : List ℕ) (a : ℕ) → scalar_from_canonical q bytes ≡ some a → q.scalar bytes ≡ some a
  unfolding scalar_from_canonical
  scalar_lem bytes a h = elim (Bool-cases (length bytes == 32)) [
    | inl fits ↦ rw (scalar_from_canonical, fits) at h
    | inr unfit ↦ absurd (none-some (rw (scalar_from_canonical, unfit) at h))
  ]

  private_child-Derived :
      (k : XPriv) (index : ℕ) (i : List ℕ) (c : XPriv)
      → private_child q k index i ≡ ok c
      → Derived k index i c
  unfolding private_child
  private_child-Derived k index i c h =
      let first = >>=-eq-ok (ok_or (scalar_from_canonical q (take 32 i)) derivation_failed) _ h in
      let second = >>=-eq-ok (ok_or (scalar_from_canonical q k.private_key) bad_key) _ first.2 in
      elim (Bool-cases (all_zero (q.repr (q.plus first.0 second.0)))) [
        | inl zeros ↦ absurd (err_ok (rw zeros at second.2))
        | inr other ↦
            let third = >>=-eq-ok (next_depth k.depth) _ (rw other at second.2) in
            record {
              left = first.0;
              parent = second.0;
              depth = third.0;
              has_left =
                  ok_or-eq-ok derivation_failed (scalar_from_canonical q (take 32 i)) first.1;
              has_parent =
                  scalar_lem k.private_key second.0
                    (ok_or-eq-ok bad_key (scalar_from_canonical q k.private_key) second.1);
              nonzero = other;
              has_depth = third.1;
              made = ok_inj third.2;
            }
      ]

  -- The public key of a private child.
  abbrev child_point : ℕ → ℕ → List ℕ
  child_point left parent = q.encoded (q.multiply q.generator (q.plus left parent))

  abbrev pub xpub_of : List ℕ → List ℕ → ℕ → ℕ → XPub
  xpub_of key chain depth number = record {
    public_key = key;
    chain_code = chain;
    depth = depth;
    child_number = number;
  }

  public_child-to_xpub :
      (k c : XPriv) (K : XPub) (index : ℕ) (i : List ℕ)
      → to_xpub q k ≡ ok K
      → private_child q k index i ≡ ok c
      → (C : XPub) × (to_xpub q c ≡ ok C) × (public_child q K index i ≡ ok C)
  unfolding to_xpub public_child encode_point
  public_child-to_xpub k c K index i known h =
      let d = private_child-Derived k index i c h in
      let first = >>=-eq-ok (public_key_compressed q k) _ known in
      let secret = secret_lem k first.0 first.1 in
      let same = some_inj (sym d.has_parent ∙ l.secret_scalar k.private_key secret.0 secret.1) in
      let own = l.secret_repr (q.plus d.left d.parent) d.nonzero in
      let fits = l.fits (q.repr (q.plus d.left d.parent)) (q.plus d.left d.parent) own in
      let C = xpub_of (child_point d.left d.parent) (drop 32 i) d.depth index in
      (
        C,
        rw (← d.made) (
            rw
              (
                to_xpub,
                public_lem
                    (record {
                      private_key = q.repr (q.plus d.left d.parent);
                      chain_code = drop 32 i;
                      depth = d.depth;
                      child_number = index;
                    })
                    (q.plus d.left d.parent) own,
              )
              refl),
        rw (← ok_inj first.2, ← secret.2)
            (rw
              (
                public_child,
                d.has_left,
                l.reads k.private_key secret.0 secret.1,
                d.has_depth,
                ← same,
                ← l.sum d.left d.parent,
                fits,
              )
              refl),
      )

  public_step :
      (K : XPub) (index : ℕ) (i : List ℕ)
      → leb hardened index ≡ false
      → hmac_sha512 q K.chain_code (K.public_key ++ be_bytes 4 index) ≡ ok i
      → derive_public_child q K index ≡ public_child q K index i
  unfolding derive_public_child
  public_step K index i soft mac = rw (derive_public_child, soft, mac) refl

  -- Where public keys add as their secret keys do and are read back: if an extended private key has
  -- an extended public key and a private child at an index that is not hardened, then the public
  -- child of the one at that index exists and is the extended public key of the other.
  pub derive_public_child-to_xpub :
      (k c : XPriv) (K : XPub) (index : ℕ)
      → leb hardened index ≡ false
      → to_xpub q k ≡ ok K
      → derive_child q k index ≡ ok c
      → (C : XPub) × (to_xpub q c ≡ ok C) × (derive_public_child q K index ≡ ok C)
  unfolding derive_child child_data to_xpub
  derive_public_child-to_xpub k c K index soft known h =
      let first = >>=-eq-ok (child_data q k index) _ h in
      let key = >>=-eq-ok (public_key_compressed q k) _ known in
      let start = ok_inj (sym (rw (child_data, soft) at first.1) ∙ key.1) in
      let second = >>=-eq-ok (hmac_sha512 q k.chain_code (first.0 ++ be_bytes 4 index)) _ first.2 in
      let child = public_child-to_xpub k c K index second.0 known second.2 in
      (
        child.0,
        child.1,
        public_step K index second.0 soft (
              ap (λ (x : XPub). hmac_sha512 q x.chain_code (x.public_key ++ be_bytes 4 index))
                (sym (ok_inj key.2))
              ∙ ap (λ x. hmac_sha512 q k.chain_code (x ++ be_bytes 4 index)) (sym start)
              ∙ second.1)
            ∙ child.2,
      )
