-- ===== src/Api/Examples.antt =====
-- Tests of the boundary service on small inputs: a store of bytes behind it, a digest that keeps the
-- sum of its input, and signatures that name their key.
use overlay_broadcast.Base.{
  ◌⊎◌, ℕ, ◌+◌, ◌≡◌, refl, max, min, none, some, List, [], ◌∷◌, ◌++◌, arith, ok, err,
}
use overlay_broadcast.Base.Dict
use overlay_broadcast.Base.Dict.{nat_eq}
use overlay_broadcast.Bsv.Hash.{double_sha256}
use overlay_broadcast.Api.Error.{ApiError}
use overlay_broadcast.Api.Auth
use overlay_broadcast.Api.RateLimit
use overlay_broadcast.Api.RateLimit.Budget.{allowed_in, calls_in, allowed_in-new}
use overlay_broadcast.Api.Request.{Request, overlay_write, overlay_obfuscate, requires_auth}
use overlay_broadcast.Api.Service.{Crypto, Backend, ApiService, handle, verify_der_prehash}
use overlay_broadcast.Api.Service.Answers.{Answered, handle-Answered, handle_audit, executed, entry}
use overlay_broadcast.Api.Service.Replay.{serve, handle_replay}

abbrev sum : List ℕ → ℕ
sum [] = 0
sum (x ∷ xs) = x + sum xs

abbrev crypto : Crypto
crypto = record {
  VerifyingKey = List ℕ;
  Signature = List ℕ;
  digest = λ bytes. sum bytes ∷ [];
  from_sec1_bytes = λ key. some key;
  from_der = λ signature. some signature;
  normalize_s = λ _. none;
  verify_prehash = λ key _ signature. Dict.list_beq key signature;
}

abbrev backend : Backend
backend = record {
  State = List ℕ;
  execute = λ s _ payload. (payload ++ s, ok (record { data_bytes = payload; chain_root = none }));
}

abbrev service : ApiService crypto backend
service = record {
  config = record {
    max_payload_bytes = 4;
    rate_limit_per_window = 2;
    rate_window_secs = 60;
    op_timeout_millis = 1000;
  };
  callers = record { keys = (1 ∷ [], 9 ∷ []) ∷ [] };
  nonces = record { seen = [] };
  limiter = record { limit = 2; window_secs = 60; windows = [] };
  audit = record { entries = [] };
  header_chain = record { headers = []; start_height = 0; by_root = [] };
  backend_state = [];
}

abbrev request : Request
request = record {
  caller = 1 ∷ [];
  operation = overlay_write;
  payload = 7 ∷ [];
  position = none;
  nonce = 5;
  expiry_unix = 100;
  signature = 9 ∷ [];
}

abbrev second : Request
second = record request { operation = overlay_obfuscate; payload = 8 ∷ [] }

request_answered : (handle crypto backend service request 10 3).1 ≡ ok (7 ∷ [])
unfolding handle verify_der_prehash Auth.public_key Auth.check_and_record Dict.get Dict.contains
    Dict.list_beq RateLimit.allow double_sha256 requires_auth
request_answered = refl

answer_example :
    Answered crypto backend service
      (handle crypto backend service request 10 3).0
      request
      10
      3
      (7 ∷ [])
unfolding requires_auth
answer_example = handle-Answered crypto backend service request 10 3 (7 ∷ []) refl request_answered

abbrev after_request : ApiService crypto backend
after_request = serve crypto backend (handle crypto backend service request 10 3).0 []

replay_example :
    ((handle crypto backend after_request second 20 3).0.backend_state
      ≡ after_request.backend_state)
    × ((e : ApiError) × ((handle crypto backend after_request second 20 3).1 ≡ err e))
unfolding requires_auth
replay_example =
    handle_replay crypto backend service request second 10 3 (7 ∷ []) [] 20 3 refl request_answered
      refl refl refl

abbrev calls : List (List ℕ × ℕ)
calls = (1 ∷ [], 5) ∷ (2 ∷ [], 6) ∷ (1 ∷ [], 7) ∷ (1 ∷ [], 8) ∷ (1 ∷ [], 61) ∷ []

allowed_example :
    allowed_in (1 ∷ []) 0 (RateLimit.new 2 60) calls ≡ min 2 (calls_in (1 ∷ []) (max 60 1) 0 calls)
allowed_example = allowed_in-new (1 ∷ []) 0 2 60 calls (omega arith) (omega arith)

audit_example :
    (((handle crypto backend service request 10 3).0.backend_state ≡ service.backend_state)
      × ((handle crypto backend service request 10 3).0.audit ≡ service.audit)
      × ((e : ApiError) × ((handle crypto backend service request 10 3).1 ≡ err e)))
    ⊎ (((handle crypto backend service request 10 3).0.backend_state
          ≡ (executed crypto backend service request).0)
        × ((handle crypto backend service request 10 3).0.audit.entries
            ≡ service.audit.entries ++ (entry crypto backend service request 10 ∷ [])))
audit_example = handle_audit crypto backend service request 10 3
