-- ===== src/Overlay/RoundTrip.antt =====
-- What crates/overlay/src/keys.rs obfuscates at a position, the holder of the seed reads.
use overlay_broadcast.Base.{
  ℕ, List, Result, ok, err, ok_or, ◌>>=◌, >>=-eq-ok, then_with-eq-ok, then_with-state, map_err,
  map_err-eq-ok, ok_inj, err_ok, ◌≡◌, refl, sym, ap, ◌∙◌,
}
use overlay_broadcast.Base
use overlay_broadcast.Cipher.Primitives.{Primitives, IsCipher}
use overlay_broadcast.Cipher.Aead.{Ciphertext, seal}
use overlay_broadcast.Cipher.Keywrap.{draw}
use overlay_broadcast.Cipher.RoundTrip.{unseal-seal}
use overlay_broadcast.Ckd.Group.{Group}
use overlay_broadcast.Ckd.Key.{XPriv, from_seed, derive_path}
use overlay_broadcast.Ckd.Seeds.{hardened_path, key_at, second_function_key}
use overlay_broadcast.Overlay.Keys.{
  OverlayKeys, ckd, cipher, random, obfuscation_aad, obfuscation_key, obfuscate, deobfuscate,
  second_key, resolve_key, signal_position,
}

module _ {Point : Type 0} (p : Primitives Point) (c : IsCipher p) where
  deobfuscate-obfuscate :
      (k : XPriv) (payload : List ℕ) (i j : ℕ) (out : Ciphertext)
      → obfuscate p k payload i ≡ (j, ok out)
      → deobfuscate p k out ≡ ok payload
  unfolding obfuscate deobfuscate
  deobfuscate-obfuscate k payload i j out h =
      let key = then_with-state i (obfuscation_key p k) _ h in
      let nonce = then_with-eq-ok (draw p random 12 i) _ key.2 in
      let bytes =
        >>=-eq-ok (map_err cipher (seal p key.0 nonce.0 payload obfuscation_aad)) _
          (ap (λ r. r.1) nonce.3) in
      rw (← ok_inj bytes.2) (
        rw (deobfuscate, key.1)
          (ap (map_err cipher) (
            unseal-seal p c key.0 nonce.0 payload obfuscation_aad bytes.0
              (map_err-eq-ok cipher (seal p key.0 nonce.0 payload obfuscation_aad) bytes.1))))

module _ {Point : Type 0} (q : Group Point) where
  -- `?` on each step of a chain is `?` on the chain.
  resolve_key-key_at :
      (position seed : List ℕ) → resolve_key q position seed ≡ map_err ckd (key_at q seed position)
  unfolding resolve_key key_at
  resolve_key-key_at position seed = step (from_seed q seed)
    where
      step :
          (r : Result _ XPriv)
          → (Base.◌>>=◌ (map_err ckd r) λ k. map_err ckd (derive_path q k (hardened_path position)))
            ≡ map_err ckd (Base.◌>>=◌ r λ k. derive_path q k (hardened_path position))
      step (ok k) = refl
      step (err e) = refl

  resolve_key-second_key :
      (keys : OverlayKeys) (position : List ℕ)
      → resolve_key q (signal_position position) keys.seeds.second ≡ second_key q keys position
  unfolding signal_position second_key second_function_key
  resolve_key-second_key keys position = resolve_key-key_at position keys.seeds.second

module _ {Point Key : Type 0} (p : Primitives Key) (c : IsCipher p) (q : Group Point) where
  -- Where AES-GCM decrypts what it encrypted: a payload that was obfuscated with the second key of a
  -- position is what `deobfuscate` returns with the key that `resolve_key` finds from the signalled
  -- position and the second seed alone.
  pub deobfuscate-resolve_key :
      (keys : OverlayKeys) (position payload : List ℕ) (k : XPriv) (i j : ℕ) (out : Ciphertext)
      → second_key q keys position ≡ ok k
      → obfuscate p k payload i ≡ (j, ok out)
      → (Base.◌>>=◌
          (resolve_key q (signal_position position) keys.seeds.second)
          λ r. deobfuscate p r out)
        ≡ ok payload
  deobfuscate-resolve_key keys position payload k i j out has sent =
      rw (resolve_key-second_key q keys position, has)
        (deobfuscate-obfuscate p c k payload i j out sent)
