-- ===== src/Session/Examples.antt =====
-- Tests of the subscription at small numbers, and of the signatures of a session with one member
-- under a digest that keeps the length of its input and signatures that name their key.
use overlay_broadcast.Base.{
  ℕ, ◌/◌, ◌<◌, ◌≡◌, ◌↔◌, ◌==◌, ◌&&◌, refl, min, true, arith, ok, err, Option, none, some, List, [],
  ◌∷◌, length, replicate, some_inj, none-some,
}
use overlay_broadcast.Bsv.Cursor.{write_varint}
use overlay_broadcast.Bsv.Hash.{double_sha256}
use overlay_broadcast.Bsv.Script.{push_data, p2pkh, bare_multisig_1_of_2}
use overlay_broadcast.Bsv.DataCarrier.{build_data_carrier}
use overlay_broadcast.Bsv.Sighash.{
  sighash, sighash_of, outputs_hash, output_at, serialize_output, hash_prevouts, hash_sequence,
  preimage, is_anyone, prevouts, sequences,
}
use overlay_broadcast.Bsv.Transaction.{Transaction, OutPoint, count, serialize_all}
use overlay_broadcast.Api.Service.{Crypto}
use overlay_broadcast.Session.Subscription.{
  Subscription, new, on_block, attempts, is_revoked, attempts-is_revoked,
}
use overlay_broadcast.Session.Signing.{Signer, IsSigner, sign_prehash_der}
use overlay_broadcast.Session.Builder.{
  SesResult, session_transaction, member_inputs, member_outputs, input_for, set_unlock,
  input_digest, member_digest, apply_unlock, sign_member, sign_broadcaster, verify_member,
}
use overlay_broadcast.Session.Signatures.{same, broadcaster, verify_member-sign_member}

abbrev made : Subscription
made = record { mode = on_block; contribution = 10; mem_fee = 3; renewed = 0 }

new_run : new on_block 10 3 ≡ ok made
unfolding new
new_run = refl

attempts_run : (attempts 5 made).renewed ≡ 3
unfolding attempts
attempts_run = refl

renewed_example :
    ((attempts 5 made).renewed ≡ min 5 (10 / 3))
    × ((is_revoked (attempts 5 made) 4 ≡ true) ↔ (min 5 (10 / 3) < 4))
renewed_example = attempts-is_revoked on_block 10 3 5 4 made (omega arith) new_run

abbrev name_of : List ℕ → ℕ
name_of [] = 0
name_of (b ∷ bs) = b

abbrev read_der : List ℕ → Option (ℕ × ℕ)
read_der (a ∷ b ∷ []) = some (a, b)
read_der bytes = none

abbrev crypto : Crypto
crypto = record {
  VerifyingKey = ℕ;
  Signature = ℕ × ℕ;
  digest = λ bytes. length bytes ∷ [];
  from_sec1_bytes = λ key. some (name_of key);
  from_der = read_der;
  normalize_s = λ _. none;
  verify_prehash =
      λ key prehash signature. (signature.0 == key) && (signature.1 == name_of prehash);
}

abbrev signer : Signer crypto
signer = record {
  SigningKey = ℕ;
  from_slice = λ key. some (name_of key);
  verifying_key = λ key. key;
  sign_prehash = λ key prehash. some (key, name_of prehash);
  to_der = λ signature. signature.0 ∷ signature.1 ∷ [];
  hash160 = λ key. name_of key ∷ [];
}

signer-IsSigner : IsSigner crypto signer
signer-IsSigner = record {
  valid = λ key prehash x h. rw (← some_inj h) (ground arith);
  valid_low = λ key prehash x y _ h. absurd (none-some h);
  low = λ x y h. absurd (none-some h);
  reads = λ x. refl;
  short = λ x. omega arith;
}

abbrev outpoint_of : ℕ → OutPoint
outpoint_of n = record { txid = n ∷ []; vout = 0 }

abbrev key_of : ℕ → List ℕ
key_of n = replicate 33 n

abbrev draft : Transaction
draft =
    session_transaction crypto signer
      (record {
        member_pubkey = key_of 5;
        funding = outpoint_of 1;
        input_value = 10;
        output_value = 7;
      }
        ∷ [])
      (record {
        broadcaster_pubkey = key_of 6;
        broadcaster_funding = outpoint_of 2;
        broadcaster_input_value = 20;
        broadcaster_output_value = 19;
        rekeying_payload = 1 ∷ 2 ∷ [];
      })

abbrev or_draft : SesResult Transaction → Transaction
or_draft (ok tx) = tx
or_draft (err _) = draft

abbrev with_member : Transaction
with_member = or_draft (sign_member crypto signer draft 0 (key_of 5) (key_of 5) 10)

abbrev with_both : Transaction
with_both = or_draft (sign_broadcaster crypto signer with_member 1 (key_of 6) (key_of 6) 20)

member_run : sign_member crypto signer draft 0 (key_of 5) (key_of 5) 10 ≡ ok with_member
unfolding sign_member sign_broadcaster member_digest input_digest apply_unlock set_unlock
    sign_prehash_der session_transaction member_inputs member_outputs input_for build_data_carrier
    push_data p2pkh bare_multisig_1_of_2 sighash sighash_of outputs_hash output_at serialize_output
    hash_prevouts hash_sequence preimage is_anyone prevouts sequences count serialize_all
    write_varint double_sha256
member_run = refl

broadcaster_run :
    sign_broadcaster crypto signer with_member 1 (key_of 6) (key_of 6) 20 ≡ ok with_both
unfolding sign_member sign_broadcaster member_digest input_digest apply_unlock set_unlock
    sign_prehash_der session_transaction member_inputs member_outputs input_for build_data_carrier
    push_data p2pkh bare_multisig_1_of_2 sighash sighash_of outputs_hash output_at serialize_output
    hash_prevouts hash_sequence preimage is_anyone prevouts sequences count serialize_all
    write_varint double_sha256
broadcaster_run = refl

signature_example : verify_member crypto signer with_both 0 (key_of 5) 10 ≡ ok true
signature_example =
    verify_member-sign_member crypto signer signer-IsSigner draft with_member with_both 0 (key_of 5)
      (key_of 5) 10 5 refl refl refl member_run
      (broadcaster with_member with_both 1 (key_of 6) (key_of 6) 20 same refl broadcaster_run)
