-- ===== src/Api/Auth.antt =====
-- crates/api/src/auth.rs: the registry of callers and the store of seen nonces. A caller's name
-- is its bytes.
use overlay_broadcast.Base.{ℕ, Bool, true, false, Option, List, if◌then◌else◌}
use overlay_broadcast.Base.Dict
use overlay_broadcast.Base.Dict.{nat_eq, list_eq, pair_eq, Set}

pub record CallerRegistry : Type 0 where
  pub keys : List (List ℕ × List ℕ)

unfoldable pub register : CallerRegistry → List ℕ → List ℕ → CallerRegistry
register r caller public_key_sec1 = record { keys = Dict.insert caller public_key_sec1 r.keys }

unfoldable pub public_key : CallerRegistry → List ℕ → Option (List ℕ)
public_key r caller = Dict.get caller r.keys

pub record NonceStore : Type 0 where
  pub seen : Set (List ℕ × ℕ)

-- `HashSet::insert` says whether the pair is new, and leaves a set that has it as it is.
unfoldable pub check_and_record : NonceStore → List ℕ → ℕ → NonceStore × Bool
check_and_record s caller nonce =
    if Dict.contains (caller, nonce) s.seen
    then (s, false)
    else (record { seen = Dict.insert (caller, nonce) tt s.seen }, true)
