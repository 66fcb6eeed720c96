-- ===== src/Api/Error.antt =====
-- crates/api/src/error.rs. A message is its bytes.
use overlay_broadcast.Base.{ℕ, List, Result}

pub data ApiError : Type 0 where
  bad_request : List ℕ → ApiError
  unauthorized replay expired oversize rate_limited timeout not_terminated : ApiError
  config : List ℕ → ApiError
  internal : ApiError

unfoldable pub status : ApiError → ℕ
status (bad_request _) = 400
status unauthorized = 401
status replay = 401
status expired = 401
status oversize = 413
status rate_limited = 429
status timeout = 504
status not_terminated = 409
status (config _) = 500
status internal = 500

abbrev pub ApiResult : Type 0 → Type 0
ApiResult A = Result ApiError A
