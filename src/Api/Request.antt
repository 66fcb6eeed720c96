-- ===== src/Api/Request.antt =====
-- crates/api/src/request.rs: the operations, the request and the bytes that its caller signs. Text
-- is its bytes; `digest` is `Sha256::digest`.
use overlay_broadcast.Base.{ℕ, Bool, true, false, Option, none, some, List, [], ◌∷◌, ◌++◌}
use overlay_broadcast.Base.LittleEndian.{to_le_bytes}
use overlay_broadcast.Bsv.Hash.{double_sha256}
use mathlib.Core.List.{reverse}

pub data Operation : Type 0 where
  overlay_write : Operation
  overlay_signal_position : Operation
  overlay_resolve_position : Operation
  overlay_obfuscate : Operation
  overlay_deobfuscate : Operation
  broadcast_session_open : Operation
  broadcast_rekey_user : Operation
  broadcast_rekey_key : Operation
  broadcast_rekey_group : Operation
  broadcast_message : Operation
  broadcast_decrypt : Operation
  session_subscribe_off_chain : Operation
  session_subscribe_on_block : Operation
  session_renew : Operation
  session_revoke : Operation
  custody_keygen : Operation
  custody_rotate : Operation
  custody_revoke : Operation
  health : Operation
  readiness : Operation

unfoldable pub name : Operation → List ℕ
name overlay_write =
    b'o' ∷ b'v' ∷ b'e' ∷ b'r' ∷ b'l' ∷ b'a' ∷ b'y' ∷ b'.' ∷ b'w' ∷ b'r' ∷ b'i' ∷ b't' ∷ b'e' ∷ []
name overlay_signal_position =
    b'o' ∷ b'v' ∷ b'e' ∷ b'r' ∷ b'l' ∷ b'a' ∷ b'y' ∷ b'.' ∷ b's' ∷ b'i' ∷ b'g' ∷ b'n' ∷ b'a' ∷ b'l'
    ∷ b'_' ∷ b'p' ∷ b'o' ∷ b's' ∷ b'i' ∷ b't' ∷ b'i' ∷ b'o' ∷ b'n' ∷ []
name overlay_resolve_position =
    b'o' ∷ b'v' ∷ b'e' ∷ b'r' ∷ b'l' ∷ b'a' ∷ b'y' ∷ b'.' ∷ b'r' ∷ b'e' ∷ b's' ∷ b'o' ∷ b'l' ∷ b'v'
    ∷ b'e' ∷ b'_' ∷ b'p' ∷ b'o' ∷ b's' ∷ b'i' ∷ b't' ∷ b'i' ∷ b'o' ∷ b'n' ∷ []
name overlay_obfuscate =
    b'o' ∷ b'v' ∷ b'e' ∷ b'r' ∷ b'l' ∷ b'a' ∷ b'y' ∷ b'.' ∷ b'o' ∷ b'b' ∷ b'f' ∷ b'u' ∷ b's' ∷ b'c'
    ∷ b'a' ∷ b't' ∷ b'e' ∷ []
name overlay_deobfuscate =
    b'o' ∷ b'v' ∷ b'e' ∷ b'r' ∷ b'l' ∷ b'a' ∷ b'y' ∷ b'.' ∷ b'd' ∷ b'e' ∷ b'o' ∷ b'b' ∷ b'f' ∷ b'u'
    ∷ b's' ∷ b'c' ∷ b'a' ∷ b't' ∷ b'e' ∷ []
name broadcast_session_open =
    b'b' ∷ b'r' ∷ b'o' ∷ b'a' ∷ b'd' ∷ b'c' ∷ b'a' ∷ b's' ∷ b't' ∷ b'.' ∷ b's' ∷ b'e' ∷ b's' ∷ b's'
    ∷ b'i' ∷ b'o' ∷ b'n' ∷ b'_' ∷ b'o' ∷ b'p' ∷ b'e' ∷ b'n' ∷ []
name broadcast_rekey_user =
    b'b' ∷ b'r' ∷ b'o' ∷ b'a' ∷ b'd' ∷ b'c' ∷ b'a' ∷ b's' ∷ b't' ∷ b'.' ∷ b'r' ∷ b'e' ∷ b'k' ∷ b'e'
    ∷ b'y' ∷ b'.' ∷ b'u' ∷ b's' ∷ b'e' ∷ b'r' ∷ []
name broadcast_rekey_key =
    b'b' ∷ b'r' ∷ b'o' ∷ b'a' ∷ b'd' ∷ b'c' ∷ b'a' ∷ b's' ∷ b't' ∷ b'.' ∷ b'r' ∷ b'e' ∷ b'k' ∷ b'e'
    ∷ b'y' ∷ b'.' ∷ b'k' ∷ b'e' ∷ b'y' ∷ []
name broadcast_rekey_group =
    b'b' ∷ b'r' ∷ b'o' ∷ b'a' ∷ b'd' ∷ b'c' ∷ b'a' ∷ b's' ∷ b't' ∷ b'.' ∷ b'r' ∷ b'e' ∷ b'k' ∷ b'e'
    ∷ b'y' ∷ b'.' ∷ b'g' ∷ b'r' ∷ b'o' ∷ b'u' ∷ b'p' ∷ []
name broadcast_message =
    b'b' ∷ b'r' ∷ b'o' ∷ b'a' ∷ b'd' ∷ b'c' ∷ b'a' ∷ b's' ∷ b't' ∷ b'.' ∷ b'm' ∷ b'e' ∷ b's' ∷ b's'
    ∷ b'a' ∷ b'g' ∷ b'e' ∷ []
name broadcast_decrypt =
    b'b' ∷ b'r' ∷ b'o' ∷ b'a' ∷ b'd' ∷ b'c' ∷ b'a' ∷ b's' ∷ b't' ∷ b'.' ∷ b'd' ∷ b'e' ∷ b'c' ∷ b'r'
    ∷ b'y' ∷ b'p' ∷ b't' ∷ []
name session_subscribe_off_chain =
    b's' ∷ b'e' ∷ b's' ∷ b's' ∷ b'i' ∷ b'o' ∷ b'n' ∷ b'.' ∷ b's' ∷ b'u' ∷ b'b' ∷ b's' ∷ b'c' ∷ b'r'
    ∷ b'i' ∷ b'b' ∷ b'e' ∷ b'.' ∷ b'o' ∷ b'f' ∷ b'f' ∷ b'_' ∷ b'c' ∷ b'h' ∷ b'a' ∷ b'i' ∷ b'n' ∷ []
name session_subscribe_on_block =
    b's' ∷ b'e' ∷ b's' ∷ b's' ∷ b'i' ∷ b'o' ∷ b'n' ∷ b'.' ∷ b's' ∷ b'u' ∷ b'b' ∷ b's' ∷ b'c' ∷ b'r'
    ∷ b'i' ∷ b'b' ∷ b'e' ∷ b'.' ∷ b'o' ∷ b'n' ∷ b'_' ∷ b'b' ∷ b'l' ∷ b'o' ∷ b'c' ∷ b'k' ∷ []
name session_renew =
    b's' ∷ b'e' ∷ b's' ∷ b's' ∷ b'i' ∷ b'o' ∷ b'n' ∷ b'.' ∷ b'r' ∷ b'e' ∷ b'n' ∷ b'e' ∷ b'w' ∷ []
name session_revoke =
    b's' ∷ b'e' ∷ b's' ∷ b's' ∷ b'i' ∷ b'o' ∷ b'n' ∷ b'.' ∷ b'r' ∷ b'e' ∷ b'v' ∷ b'o' ∷ b'k' ∷ b'e'
    ∷ []
name custody_keygen =
    b'c' ∷ b'u' ∷ b's' ∷ b't' ∷ b'o' ∷ b'd' ∷ b'y' ∷ b'.' ∷ b'k' ∷ b'e' ∷ b'y' ∷ b'g' ∷ b'e' ∷ b'n'
    ∷ []
name custody_rotate =
    b'c' ∷ b'u' ∷ b's' ∷ b't' ∷ b'o' ∷ b'd' ∷ b'y' ∷ b'.' ∷ b'r' ∷ b'o' ∷ b't' ∷ b'a' ∷ b't' ∷ b'e'
    ∷ []
name custody_revoke =
    b'c' ∷ b'u' ∷ b's' ∷ b't' ∷ b'o' ∷ b'd' ∷ b'y' ∷ b'.' ∷ b'r' ∷ b'e' ∷ b'v' ∷ b'o' ∷ b'k' ∷ b'e'
    ∷ []
name health = b'h' ∷ b'e' ∷ b'a' ∷ b'l' ∷ b't' ∷ b'h' ∷ []
name readiness = b'r' ∷ b'e' ∷ b'a' ∷ b'd' ∷ b'i' ∷ b'n' ∷ b'e' ∷ b's' ∷ b's' ∷ []

unfoldable pub requires_auth : Operation → Bool
requires_auth health = false
requires_auth readiness = false
requires_auth _ = true

pub record Request : Type 0 where
  pub caller : List ℕ
  pub operation : Operation
  pub payload : List ℕ
  pub position : Option (List ℕ)
  pub nonce : ℕ
  pub expiry_unix : ℕ
  pub signature : List ℕ

-- `u64::to_be_bytes`
abbrev pub to_be_bytes : ℕ → List ℕ
to_be_bytes n = reverse (to_le_bytes 8 n)

abbrev or_nothing : Option (List ℕ) → List ℕ
or_nothing none = []
or_nothing (some s) = s

unfoldable pub signing_prehash : (List ℕ → List ℕ) → Request → List ℕ
unfolding name
signing_prehash digest r = double_sha256 digest (
    name r.operation
    ++ (0x1f ∷ [])
    ++ r.caller
    ++ (0x1f ∷ [])
    ++ to_be_bytes r.nonce
    ++ to_be_bytes r.expiry_unix
    ++ (0x1f ∷ [])
    ++ or_nothing r.position
    ++ (0x1f ∷ [])
    ++ r.payload)
