-- ===== src/Api/Config.antt =====
-- crates/api/src/config.rs: the limits of the service, and their validation.
use overlay_broadcast.Base.{ℕ, List, [], ◌∷◌, ◌==◌, ok, err, if◌then◌else◌}
use overlay_broadcast.Api.Error.{ApiResult, config}

pub record ApiConfig : Type 0 where
  pub max_payload_bytes : ℕ
  pub rate_limit_per_window : ℕ
  pub rate_window_secs : ℕ
  pub op_timeout_millis : ℕ

abbrev payload_message : List ℕ
payload_message =
    b'm' ∷ b'a' ∷ b'x' ∷ b'_' ∷ b'p' ∷ b'a' ∷ b'y' ∷ b'l' ∷ b'o' ∷ b'a' ∷ b'd' ∷ b'_' ∷ b'b' ∷ b'y'
    ∷ b't' ∷ b'e' ∷ b's' ∷ b' ' ∷ b'm' ∷ b'u' ∷ b's' ∷ b't' ∷ b' ' ∷ b'b' ∷ b'e' ∷ b' ' ∷ b'>'
    ∷ b' ' ∷ b'0' ∷ []

abbrev rate_message : List ℕ
rate_message =
    b'r' ∷ b'a' ∷ b't' ∷ b'e' ∷ b'_' ∷ b'l' ∷ b'i' ∷ b'm' ∷ b'i' ∷ b't' ∷ b'_' ∷ b'p' ∷ b'e' ∷ b'r'
    ∷ b'_' ∷ b'w' ∷ b'i' ∷ b'n' ∷ b'd' ∷ b'o' ∷ b'w' ∷ b' ' ∷ b'm' ∷ b'u' ∷ b's' ∷ b't' ∷ b' '
    ∷ b'b' ∷ b'e' ∷ b' ' ∷ b'>' ∷ b' ' ∷ b'0' ∷ []

abbrev window_message : List ℕ
window_message =
    b'r' ∷ b'a' ∷ b't' ∷ b'e' ∷ b'_' ∷ b'w' ∷ b'i' ∷ b'n' ∷ b'd' ∷ b'o' ∷ b'w' ∷ b'_' ∷ b's' ∷ b'e'
    ∷ b'c' ∷ b's' ∷ b' ' ∷ b'm' ∷ b'u' ∷ b's' ∷ b't' ∷ b' ' ∷ b'b' ∷ b'e' ∷ b' ' ∷ b'>' ∷ b' '
    ∷ b'0' ∷ []

abbrev timeout_message : List ℕ
timeout_message =
    b'o' ∷ b'p' ∷ b'_' ∷ b't' ∷ b'i' ∷ b'm' ∷ b'e' ∷ b'o' ∷ b'u' ∷ b't' ∷ b'_' ∷ b'm' ∷ b'i' ∷ b'l'
    ∷ b'l' ∷ b'i' ∷ b's' ∷ b' ' ∷ b'm' ∷ b'u' ∷ b's' ∷ b't' ∷ b' ' ∷ b'b' ∷ b'e' ∷ b' ' ∷ b'>'
    ∷ b' ' ∷ b'0' ∷ []

unfoldable pub validate : ApiConfig → ApiResult (Unit {0})
validate c =
    if c.max_payload_bytes == 0
    then err (config payload_message)
    else if c.rate_limit_per_window == 0
    then err (config rate_message)
    else if c.rate_window_secs == 0
    then err (config window_message)
    else if c.op_timeout_millis == 0
    then err (config timeout_message)
    else ok tt
