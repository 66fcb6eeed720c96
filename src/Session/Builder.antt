-- ===== src/Session/Builder.antt =====
-- crates/session/src/builder.rs. A method of a `&mut Transaction` returns the new one or the error.
use overlay_broadcast.Base.{
  ℕ, zero, suc, ◌-◌, Bool, true, false, Option, none, some, List, [], ◌∷◌, ◌++◌, Result, ok, err,
  ok_or, ◌>>=◌, map_err, length, get_elem?, take, bit_or, ◌&&◌, if◌then◌else◌,
}
use overlay_broadcast.Base
use overlay_broadcast.Bsv.Script.{
  ScriptOp, push, push_data, p2pkh, bare_multisig_1_of_2, parse_script,
}
use overlay_broadcast.Bsv.DataCarrier.{build_data_carrier}
use overlay_broadcast.Bsv.Sighash.{sighash, sighash_all, sighash_single, sighash_forkid}
use overlay_broadcast.Bsv.Transaction.{Transaction, TxIn, TxOut, OutPoint}
use overlay_broadcast.Api.Service.{Crypto, verify_der_prehash}
use overlay_broadcast.Session.Signing.{Signer, sign_prehash_der}
use overlay_broadcast.Session.Subscription.{SesError, bsv, ckd, bad_structure, bad_index}

abbrev pub SesResult : Type 0 → Type 0
SesResult A = Result SesError A

abbrev seq_final : ℕ
seq_final = 0xffffffff

abbrev pub member_flag : ℕ
member_flag = bit_or sighash_single sighash_forkid

abbrev pub broadcaster_flag : ℕ
broadcaster_flag = bit_or sighash_all sighash_forkid

pub record MemberSpec : Type 0 where
  pub member_pubkey : List ℕ
  pub funding : OutPoint
  pub input_value : ℕ
  pub output_value : ℕ

pub record SessionParams : Type 0 where
  pub broadcaster_pubkey : List ℕ
  pub broadcaster_funding : OutPoint
  pub broadcaster_input_value : ℕ
  pub broadcaster_output_value : ℕ
  pub rekeying_payload : List ℕ

pub record SessionTx : Type 0 where
  pub transaction : Transaction
  pub member_count : ℕ

unfoldable pub broadcaster_index : SessionTx → ℕ
broadcaster_index s = s.member_count

abbrev all_done : List Bool → Bool
all_done [] = true
all_done (b ∷ bs) = b && all_done bs

unfoldable pub ready_to_release : List Bool → Bool
ready_to_release [] = false
ready_to_release (b ∷ bs) = all_done (b ∷ bs)

unfoldable pub input_for : OutPoint → TxIn
input_for funding = record { outpoint = funding; unlocking_script = []; sequence = seq_final }

unfoldable pub member_inputs : List MemberSpec → List TxIn
unfolding input_for
member_inputs [] = []
member_inputs (m ∷ ms) = input_for m.funding ∷ member_inputs ms

unfoldable pub member_outputs : List ℕ → List MemberSpec → List TxOut
member_outputs broadcaster [] = []
member_outputs broadcaster (m ∷ ms) =
    record {
      value = m.output_value;
      locking_script = bare_multisig_1_of_2 m.member_pubkey broadcaster;
    }
    ∷ member_outputs broadcaster ms

-- The unlocking script of the input at the index, if there is one, is replaced.
unfoldable pub set_unlock : List TxIn → ℕ → List ℕ → Option (List TxIn)
set_unlock [] index unlock = none
set_unlock (i ∷ is) zero unlock = some (record i { unlocking_script = unlock } ∷ is)
set_unlock (i ∷ is) (suc index) unlock = elim (set_unlock is index unlock) [
  | none ↦ none
  | some js ↦ some (i ∷ js)
]

-- All but the last byte, which `checked_sub` needs.
abbrev pub without_flag : List ℕ → Option (List ℕ)
without_flag [] = none
without_flag (b ∷ bs) = some (take (length bs) (b ∷ bs))

module _ (crypto : Crypto) (s : Signer crypto) where
  -- The transaction of `build_session`.
  unfoldable pub session_transaction : List MemberSpec → SessionParams → Transaction
  unfolding member_inputs member_outputs input_for
  session_transaction members params = record {
    version = 1;
    inputs = member_inputs members ++ (input_for params.broadcaster_funding ∷ []);
    outputs =
        member_outputs params.broadcaster_pubkey members
        ++ (record {
          value = params.broadcaster_output_value;
          locking_script = p2pkh (s.hash160 params.broadcaster_pubkey);
        }
            ∷ build_data_carrier params.rekeying_payload
            ∷ []);
    locktime = 0;
  }

  unfoldable pub build_session : List MemberSpec → SessionParams → SesResult SessionTx
  unfolding session_transaction
  build_session [] params = err bad_structure
  build_session (m ∷ ms) params =
      ok (record {
        transaction = session_transaction (m ∷ ms) params;
        member_count = length (m ∷ ms);
      })

  -- The digest of the input at the index, spent from a public key's hash under a flag.
  unfoldable pub input_digest : ℕ → Transaction → ℕ → List ℕ → ℕ → SesResult (List ℕ)
  input_digest flag tx index pubkey input_value =
      map_err bsv (sighash crypto.digest tx index (p2pkh (s.hash160 pubkey)) input_value flag)

  unfoldable pub member_digest : Transaction → ℕ → List ℕ → ℕ → SesResult (List ℕ)
  unfolding input_digest
  member_digest tx index member_pubkey input_value =
      input_digest member_flag tx index member_pubkey input_value

  -- The unlocking script: the signature with its flag, and the public key.
  abbrev pub unlock_of : List ℕ → List ℕ → ℕ → List ℕ
  unlock_of der public_key flag = push_data (push_data [] (der ++ (flag ∷ []))) public_key

  unfoldable pub apply_unlock :
      Transaction → ℕ → List ℕ → List ℕ → List ℕ → ℕ → SesResult Transaction
  unfolding set_unlock
  apply_unlock tx index private_key public_key digest flag =
      Base.◌>>=◌ (map_err ckd (sign_prehash_der crypto s private_key digest)) λ der.
        Base.◌>>=◌ (ok_or (set_unlock tx.inputs index (unlock_of der public_key flag)) bad_index)
          λ inputs. ok (record tx { inputs = inputs })

  unfoldable pub sign_member : Transaction → ℕ → List ℕ → List ℕ → ℕ → SesResult Transaction
  unfolding member_digest apply_unlock
  sign_member tx index member_priv member_pubkey input_value =
      Base.◌>>=◌ (member_digest tx index member_pubkey input_value)
        λ digest. apply_unlock tx index member_priv member_pubkey digest member_flag

  unfoldable pub sign_broadcaster : Transaction → ℕ → List ℕ → List ℕ → ℕ → SesResult Transaction
  unfolding input_digest apply_unlock
  sign_broadcaster tx index broadcaster_priv broadcaster_pubkey input_value =
      Base.◌>>=◌ (input_digest broadcaster_flag tx index broadcaster_pubkey input_value)
        λ digest. apply_unlock tx index broadcaster_priv broadcaster_pubkey digest broadcaster_flag

  -- The match of `verify_unlock` on the operations of the script.
  unfoldable pub verify_ops : List ℕ → List ScriptOp → SesResult Bool
  verify_ops digest (push sig_with_flag ∷ push public_key ∷ []) =
      Base.◌>>=◌ (ok_or (without_flag sig_with_flag) bad_structure)
        λ signature_der. ok (verify_der_prehash crypto public_key digest signature_der)
  verify_ops digest ops = ok false

  unfoldable pub verify_unlock : Transaction → ℕ → List ℕ → SesResult Bool
  unfolding verify_ops
  verify_unlock tx index digest = Base.◌>>=◌ (ok_or (get_elem? tx.inputs index) bad_index) λ input.
      Base.◌>>=◌ (map_err bsv (parse_script input.unlocking_script)) λ ops. verify_ops digest ops

  unfoldable pub verify_member : Transaction → ℕ → List ℕ → ℕ → SesResult Bool
  unfolding member_digest verify_unlock
  verify_member tx index member_pubkey input_value =
      Base.◌>>=◌ (member_digest tx index member_pubkey input_value)
        λ digest. verify_unlock tx index digest

  unfoldable pub verify_broadcaster : Transaction → ℕ → List ℕ → ℕ → SesResult Bool
  unfolding input_digest verify_unlock
  verify_broadcaster tx index broadcaster_pubkey input_value =
      Base.◌>>=◌ (input_digest broadcaster_flag tx index broadcaster_pubkey input_value)
        λ digest. verify_unlock tx index digest
