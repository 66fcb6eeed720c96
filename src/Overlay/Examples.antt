-- ===== src/Overlay/Examples.antt =====
-- Concrete runs on crates/overlay.
use overlay_broadcast.Base.{ℕ, List, [], ◌∷◌, Result, ok, err, ◌>>=◌, ◌++◌, replicate, ◌≡◌, refl}
use overlay_broadcast.Base
use overlay_broadcast.Base.Dict
use overlay_broadcast.Cipher.Aead.{Ciphertext, seal}
use overlay_broadcast.Cipher.Keywrap.{draw}
use overlay_broadcast.Cipher.Sample as CipherSample
use overlay_broadcast.Ckd.Key.{XPriv, from_seed, derive_path, derive_child}
use overlay_broadcast.Ckd.Seeds.{second_function_key, key_at, hardened_path}
use overlay_broadcast.Ckd.Sample as CkdSample
use overlay_broadcast.Keygraph.Graph.{Bounds, with_root, add_child, position}
use overlay_broadcast.Overlay.Keys.{
  OverlayResult, OverlayKeys, second_key, obfuscation_key, obfuscate, deobfuscate, resolve_key,
  signal_position,
}
use overlay_broadcast.Overlay.Graph.{OverlayGraph, metanet, new, add_node, position_of}
use overlay_broadcast.Overlay.RoundTrip.{deobfuscate-resolve_key}

abbrev keys : OverlayKeys
keys = record {
  seeds = record { first = replicate 32 1; second = replicate 32 2; third = replicate 32 3 };
}

abbrev key : XPriv
key = record {
  private_key = 2 ∷ replicate 31 0;
  chain_code = replicate 32 1;
  depth = 1;
  child_number = 2147483651;
}

abbrev hidden : Ciphertext
hidden = record { nonce = 4 ∷ replicate 11 0; bytes = 2 ∷ replicate 31 0 ++ (104 ∷ 105 ∷ []) }

key_test : second_key CkdSample.sample keys (3 ∷ []) ≡ ok key
unfolding second_key second_function_key key_at hardened_path from_seed derive_path derive_child
key_test = refl

obfuscate_test : obfuscate CipherSample.sample key (104 ∷ 105 ∷ []) 4 ≡ (5, ok hidden)
unfolding obfuscate obfuscation_key draw seal
obfuscate_test = refl

deobfuscate_example :
    (Base.◌>>=◌
      (resolve_key CkdSample.sample (signal_position (3 ∷ [])) keys.seeds.second)
      λ r. deobfuscate CipherSample.sample r hidden)
    ≡ ok (104 ∷ 105 ∷ [])
deobfuscate_example =
    deobfuscate-resolve_key CipherSample.sample CipherSample.sample-IsCipher CkdSample.sample keys
      (3 ∷ []) (104 ∷ 105 ∷ []) key 4 5 hidden key_test obfuscate_test

-- A node below the root has its coordinate for a position.
abbrev bounds : Bounds
bounds = record { max_depth = 3; max_breadth = 2; max_nodes = 5 }

abbrev grown : OverlayGraph × OverlayResult ℕ
grown = add_node (new metanet bounds) 0 7

add_node_test : (grown.1 ≡ ok 1) × (position_of grown.0 1 ≡ ok (7 ∷ []))
unfolding new add_node position_of with_root add_child position Dict.get Dict.insert
add_node_test = (refl, refl)
