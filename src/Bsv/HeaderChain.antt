-- ===== src/Bsv/HeaderChain.antt =====
-- crates/bsv/src/headerchain.rs: the validated, append-only chain of headers.
-- `digest` is `Sha256::digest`. A method that fails leaves the chain as it was, so it returns the
-- new chain or the error.
pub mod Valid
use overlay_broadcast.Base
use overlay_broadcast.Base.{
  ℕ, ◌+◌, ◌-◌, Option, none, some, List, [], ◌∷◌, ◌++◌, length, leb, get_elem?, get_last?,
  if◌then◌else◌, ok, err, ok_or, ◌>>=◌, ◌>>◌,
}
use overlay_broadcast.Base.Dict
use overlay_broadcast.Base.Dict.{◌==◌, nat_eq, list_eq}
use overlay_broadcast.Bsv.Error.{
  BsvResult, out_of_range, chain_not_linked, chain_bad_pow, chain_non_monotonic,
}
use overlay_broadcast.Bsv.Cursor.{checked_add}
use overlay_broadcast.Bsv.Header.{BlockHeader, block_hash, meets_target}

pub record HeaderChain : Type 0 where
  pub headers : List BlockHeader
  pub start_height : ℕ
  pub by_root : List (List ℕ × ℕ)

unfoldable pub new : ℕ → HeaderChain
new start_height = record { headers = []; start_height = start_height; by_root = [] }

-- `checked_sub`
abbrev pub checked_sub : ℕ → ℕ → Option ℕ
checked_sub a b = if leb b a then some (a - b) else none

unfoldable pub next_height : HeaderChain → BsvResult ℕ
next_height c = ok_or (checked_add c.start_height (length c.headers)) out_of_range

unfoldable pub tip_height : HeaderChain → Option ℕ
tip_height c = elim (checked_sub (length c.headers) 1) [
  | none ↦ none
  | some d ↦ checked_add c.start_height d
]

root_at : Option BlockHeader → Option (List ℕ)
root_at none = none
root_at (some h) = some h.merkle_root

unfoldable pub merkle_root_at_height : HeaderChain → ℕ → Option (List ℕ)
unfolding root_at
merkle_root_at_height c height = elim (checked_sub height c.start_height) [
  | none ↦ none
  | some i ↦ root_at (get_elem? c.headers i)
]

unfoldable pub contains_merkle_root : HeaderChain → List ℕ → Option ℕ
contains_merkle_root c root = Dict.get root c.by_root

module _ (digest : List ℕ → List ℕ) where
  -- The first check of `add`: an empty chain takes any header.
  unfoldable pub check_link : Option BlockHeader → BlockHeader → BsvResult (Unit {0})
  check_link none h = ok tt
  check_link (some tip) h =
      if h.prev_block_hash == block_hash digest tip then ok tt else err chain_not_linked

  unfoldable pub check_pow : BlockHeader → BsvResult (Unit {0})
  check_pow h = if meets_target digest h then ok tt else err chain_bad_pow

  unfoldable pub add : HeaderChain → BlockHeader → BsvResult HeaderChain
  unfolding check_link check_pow next_height
  add c h = do
    check_link (get_last? c.headers) h
    check_pow h
    height ← next_height c
    ok (record c {
      headers = c.headers ++ (h ∷ []);
      by_root = Dict.insert h.merkle_root height c.by_root;
    })

  unfoldable pub add_at_height : HeaderChain → BlockHeader → ℕ → BsvResult HeaderChain
  unfolding add
  add_at_height c h expected = do
    height ← next_height c
    if height == expected then add c h else err chain_non_monotonic
