-- ===== src/Ckd/Key.antt =====
-- crates/ckd/src/ckd.rs and error.rs.
use overlay_broadcast.Base.{
  ℕ, suc, ◌+◌, ◌<◌, Bool, true, false, Option, none, some, List, [], ◌∷◌, ◌++◌, Result, ok, err,
  ok_or, ◌>>=◌, ltb, leb, ◌==◌, ◌||◌, length, take, drop, if◌then◌else◌,
}
use overlay_broadcast.Base
use overlay_broadcast.Base.LittleEndian.{be_bytes}
use overlay_broadcast.Ckd.Group.{Group, all_zero}

pub data CkdError : Type 0 where
  bad_key bad_public_key invalid_index derivation_failed hardened_needs_private : CkdError

abbrev pub CkdResult : Type 0 → Type 0
CkdResult A = Result CkdError A

abbrev pub hardened : ℕ
hardened = 2147483648

pub record XPriv : Type 0 where
  pub private_key : List ℕ
  pub chain_code : List ℕ
  pub depth : ℕ
  pub child_number : ℕ

pub record XPub : Type 0 where
  pub public_key : List ℕ
  pub chain_code : List ℕ
  pub depth : ℕ
  pub child_number : ℕ

-- `b"Bitcoin seed"`
abbrev seed_key : List ℕ
seed_key = 66 ∷ 105 ∷ 116 ∷ 99 ∷ 111 ∷ 105 ∷ 110 ∷ 32 ∷ 115 ∷ 101 ∷ 101 ∷ 100 ∷ []

-- `checked_add(1)` on 8 bits.
abbrev pub next_depth : ℕ → CkdResult ℕ
next_depth depth = if ltb (depth + 1) 256 then ok (depth + 1) else err invalid_index

module _ {Point : Type 0} (q : Group Point) where
  unfoldable pub scalar_from_canonical : List ℕ → Option ℕ
  scalar_from_canonical bytes = if length bytes == 32 then q.scalar bytes else none

  unfoldable pub hmac_sha512 : List ℕ → List ℕ → CkdResult (List ℕ)
  hmac_sha512 key bytes = ok_or (q.hmac key bytes) derivation_failed

  unfoldable pub encode_point : Point → CkdResult (List ℕ)
  encode_point point =
      let encoded = q.encoded point in
      if length encoded == 33 then ok encoded else err derivation_failed

  unfoldable pub public_key_compressed : XPriv → CkdResult (List ℕ)
  unfolding encode_point
  public_key_compressed k =
      Base.◌>>=◌ (ok_or (q.secret_key k.private_key) bad_key)
        λ secret. encode_point (q.multiply q.generator secret)

  unfoldable pub from_seed : List ℕ → CkdResult XPriv
  unfolding scalar_from_canonical hmac_sha512
  from_seed seed =
      if ltb (length seed) 16 || ltb 64 (length seed)
      then err bad_key
      else (Base.◌>>=◌ (hmac_sha512 seed_key seed) λ i.
          Base.◌>>=◌ (ok_or (scalar_from_canonical (take 32 i)) bad_key) λ scalar.
            if all_zero (q.repr scalar)
            then err bad_key
            else ok (record {
              private_key = take 32 i;
              chain_code = drop 32 i;
              depth = 0;
              child_number = 0;
            }))

  -- What the MAC of a child is over, before the index.
  unfoldable pub child_data : XPriv → ℕ → CkdResult (List ℕ)
  unfolding public_key_compressed
  child_data k index =
      if leb hardened index then ok (0 ∷ k.private_key) else public_key_compressed k

  -- The child from the output of the MAC.
  unfoldable pub private_child : XPriv → ℕ → List ℕ → CkdResult XPriv
  unfolding scalar_from_canonical
  private_child k index i =
      Base.◌>>=◌ (ok_or (scalar_from_canonical (take 32 i)) derivation_failed) λ left.
        Base.◌>>=◌ (ok_or (scalar_from_canonical k.private_key) bad_key) λ parent.
          if all_zero (q.repr (q.plus left parent))
          then err derivation_failed
          else (Base.◌>>=◌ (next_depth k.depth) λ depth. ok (record {
            private_key = q.repr (q.plus left parent);
            chain_code = drop 32 i;
            depth = depth;
            child_number = index;
          }))

  unfoldable pub derive_child : XPriv → ℕ → CkdResult XPriv
  unfolding child_data hmac_sha512 private_child
  derive_child k index = Base.◌>>=◌ (child_data k index) λ start.
      Base.◌>>=◌ (hmac_sha512 k.chain_code (start ++ be_bytes 4 index)) λ i. private_child k index i

  unfoldable pub derive_path : XPriv → List ℕ → CkdResult XPriv
  unfolding derive_child
  derive_path k [] = ok k
  derive_path k (index ∷ path) = Base.◌>>=◌ (derive_child k index) λ child. derive_path child path

  unfoldable pub to_xpub : XPriv → CkdResult XPub
  unfolding public_key_compressed
  to_xpub k = Base.◌>>=◌ (public_key_compressed k) λ public_key. ok (record {
    public_key = public_key;
    chain_code = k.chain_code;
    depth = k.depth;
    child_number = k.child_number;
  })

  -- The child from the output of the MAC.
  unfoldable pub public_child : XPub → ℕ → List ℕ → CkdResult XPub
  unfolding scalar_from_canonical encode_point
  public_child k index i =
      Base.◌>>=◌ (ok_or (scalar_from_canonical (take 32 i)) derivation_failed) λ left.
        Base.◌>>=◌ (ok_or (q.public_key k.public_key) bad_public_key) λ parent.
          Base.◌>>=◌ (next_depth k.depth) λ depth.
            Base.◌>>=◌ (encode_point (q.add (q.multiply q.generator left) parent)) λ public_key.
              ok (record {
                public_key = public_key;
                chain_code = drop 32 i;
                depth = depth;
                child_number = index;
              })

  unfoldable pub derive_public_child : XPub → ℕ → CkdResult XPub
  unfolding hmac_sha512 public_child
  derive_public_child k index =
      if leb hardened index
      then err hardened_needs_private
      else (Base.◌>>=◌ (hmac_sha512 k.chain_code (k.public_key ++ be_bytes 4 index))
          λ i. public_child k index i)
