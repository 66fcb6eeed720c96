-- ===== src/Overlay/Keys.antt =====
-- crates/overlay/src/keys.rs and error.rs, with NodeError of crates/bsv/src/nodeclient.rs. A
-- `Position` is its coordinates, a key in a `SecretBytes` its bytes. A function that draws randomness
-- takes the number of the next draw and returns the one after its own.
use overlay_broadcast.Base.{ℕ, List, [], ◌∷◌, Result, ok, err, ok_or, ◌>>=◌, map_err, then_with}
use overlay_broadcast.Base
use overlay_broadcast.Bsv.Error.{BsvError}
use overlay_broadcast.Keygraph.Graph.{KgError}
use overlay_broadcast.Cipher.Primitives.{Primitives}
use overlay_broadcast.Cipher.Aead.{CipherError, Ciphertext, seal, unseal}
use overlay_broadcast.Cipher.Keywrap.{draw}
use overlay_broadcast.Ckd.Group.{Group}
use overlay_broadcast.Ckd.Key.{CkdError, XPriv, from_seed, derive_path}
use overlay_broadcast.Ckd.Seeds.{
  Seeds, from_master, hardened_path, writing_key, second_function_key, third_function_key,
}

pub data NodeError : Type 0 where
  not_found : NodeError
  unreachable : List ℕ → NodeError
  bad_response : NodeError
  bsv : BsvError → NodeError

pub data OverlayError : Type 0 where
  ckd : CkdError → OverlayError
  cipher : CipherError → OverlayError
  graph : KgError → OverlayError
  bsv_error : BsvError → OverlayError
  node : NodeError → OverlayError
  random unknown_position : OverlayError

abbrev pub OverlayResult : Type 0 → Type 0
OverlayResult A = Result OverlayError A

-- `b"overlay/obfuscation-key/v1"`
abbrev pub obfuscation_info : List ℕ
obfuscation_info =
    111 ∷ 118 ∷ 101 ∷ 114 ∷ 108 ∷ 97 ∷ 121 ∷ 47 ∷ 111 ∷ 98 ∷ 102 ∷ 117 ∷ 115 ∷ 99 ∷ 97 ∷ 116 ∷ 105
    ∷ 111 ∷ 110 ∷ 45 ∷ 107 ∷ 101 ∷ 121 ∷ 47 ∷ 118 ∷ 49 ∷ []

-- `b"overlay/obfuscation/v1"`
abbrev pub obfuscation_aad : List ℕ
obfuscation_aad =
    111 ∷ 118 ∷ 101 ∷ 114 ∷ 108 ∷ 97 ∷ 121 ∷ 47 ∷ 111 ∷ 98 ∷ 102 ∷ 117 ∷ 115 ∷ 99 ∷ 97 ∷ 116 ∷ 105
    ∷ 111 ∷ 110 ∷ 47 ∷ 118 ∷ 49 ∷ []

pub record OverlayKeys : Type 0 where
  pub seeds : Seeds

unfoldable pub from_seeds : Seeds → OverlayKeys
from_seeds seeds = record { seeds = seeds }

unfoldable pub signal_position : List ℕ → List ℕ
signal_position position = position

module _ {Point : Type 0} (q : Group Point) where
  unfoldable pub overlay_keys : List ℕ → OverlayResult OverlayKeys
  overlay_keys master_seed =
      Base.◌>>=◌ (map_err ckd (from_master q master_seed)) λ seeds. ok (record { seeds = seeds })

  unfoldable pub first_key : OverlayKeys → List ℕ → OverlayResult XPriv
  first_key k position = map_err ckd (writing_key q k.seeds position)

  unfoldable pub second_key : OverlayKeys → List ℕ → OverlayResult XPriv
  second_key k position = map_err ckd (second_function_key q k.seeds position)

  unfoldable pub third_key : OverlayKeys → List ℕ → OverlayResult XPriv
  third_key k position = map_err ckd (third_function_key q k.seeds position)

  unfoldable pub resolve_key : List ℕ → List ℕ → OverlayResult XPriv
  resolve_key signalled_coords seed =
      Base.◌>>=◌ (map_err ckd (from_seed q seed))
        λ k. map_err ckd (derive_path q k (hardened_path signalled_coords))

module _ {Point : Type 0} (p : Primitives Point) where
  unfoldable pub obfuscation_key : XPriv → OverlayResult (List ℕ)
  obfuscation_key k = ok_or (p.expand k.private_key obfuscation_info 32) random

  -- The nonce is drawn once the key is there.
  unfoldable pub obfuscate : XPriv → List ℕ → ℕ → ℕ × OverlayResult Ciphertext
  unfolding obfuscation_key
  obfuscate k payload i =
      then_with (i, obfuscation_key k)
        λ key i. then_with (draw p random 12 i) λ nonce i. (
          i,
          Base.◌>>=◌ (map_err cipher (seal p key nonce payload obfuscation_aad))
              λ bytes. ok (record { nonce = nonce; bytes = bytes }),
        )

  unfoldable pub deobfuscate : XPriv → Ciphertext → OverlayResult (List ℕ)
  unfolding obfuscation_key
  deobfuscate k ciphertext =
      Base.◌>>=◌ (obfuscation_key k)
        λ key. map_err cipher (unseal p key ciphertext.nonce ciphertext.bytes obfuscation_aad)
