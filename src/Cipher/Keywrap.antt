-- ===== src/Cipher/Keywrap.antt =====
-- crates/cipher/src/keywrap.rs. A function that draws randomness takes the number of the next draw
-- and returns the one after its own.
use overlay_broadcast.Base.{
  ℕ, suc, Option, none, some, List, [], ◌∷◌, Result, ok, err, ok_or, ◌>>=◌, map_err, then_with,
}
use overlay_broadcast.Base
use overlay_broadcast.Cipher.Primitives.{Primitives}
use overlay_broadcast.Cipher.Aead.{CipherResult, random, seal, unseal}

pub record WrappedKey : Type 0 where
  pub nonce : List ℕ
  pub bytes : List ℕ

-- `b"overlay-broadcast/keywrap/v1"`
abbrev pub keywrap_aad : List ℕ
keywrap_aad =
    111 ∷ 118 ∷ 101 ∷ 114 ∷ 108 ∷ 97 ∷ 121 ∷ 45 ∷ 98 ∷ 114 ∷ 111 ∷ 97 ∷ 100 ∷ 99 ∷ 97 ∷ 115 ∷ 116
    ∷ 47 ∷ 107 ∷ 101 ∷ 121 ∷ 119 ∷ 114 ∷ 97 ∷ 112 ∷ 47 ∷ 118 ∷ 49 ∷ []

module _ {Point : Type 0} (p : Primitives Point) where
  -- `OsRandom.fill` on a buffer of the given length.
  unfoldable pub draw {κ} : {E : Type κ} → E → ℕ → ℕ → ℕ × Result E (List ℕ)
  draw e n i = (suc i, ok_or (p.fill i n) e)

  unfoldable pub wrap : List ℕ → List ℕ → ℕ → ℕ × CipherResult WrappedKey
  unfolding draw
  wrap wrapping_key key_to_wrap i = then_with (draw random 12 i) λ nonce i. (
    i,
    Base.◌>>=◌ (seal p wrapping_key nonce key_to_wrap keywrap_aad)
        λ bytes. ok (record { nonce = nonce; bytes = bytes }),
  )

  unfoldable pub unwrap : List ℕ → WrappedKey → CipherResult (List ℕ)
  unwrap wrapping_key wrapped = unseal p wrapping_key wrapped.nonce wrapped.bytes keywrap_aad
