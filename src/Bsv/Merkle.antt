-- ===== src/Bsv/Merkle.antt =====
-- crates/bsv/src/merkle.rs: the merkle root of a block, and inclusion proofs.
-- `digest` is `Sha256::digest`.
pub mod Inclusion
use overlay_broadcast.Base.{
  ℕ, zero, suc, ◌/◌, ◌%◌, List, [], ◌∷◌, none, some, length, ltb, if◌then◌else◌, ◌==◌, ok, err,
  ok_or, ◌>>=◌, replicate, Result,
}
use overlay_broadcast.Base.Dict
use overlay_broadcast.Base.Dict.{nat_eq}
use overlay_broadcast.Bsv.Error.{BsvResult, out_of_range, merkle_mismatch}
use overlay_broadcast.Bsv.Hash.{double_sha256}
use overlay_broadcast.Bsv.Header.{write_at}
use overlay_broadcast.Bsv.HeaderChain.{HeaderChain, merkle_root_at_height}

abbrev pub max_tree_height : ℕ
max_tree_height = 64

pub record MerkleProof : Type 0 where
  pub index : ℕ
  pub siblings : List (List ℕ)

-- `first`: an empty level has no root.
abbrev first : List (List ℕ) → BsvResult (List ℕ)
first [] = err merkle_mismatch
first (x ∷ xs) = ok x

module _ (digest : List ℕ → List ℕ) where
  -- `write_half` writes 32 bytes at 0 and at 32 of a buffer of 64.
  unfoldable pub hash_pair : List ℕ → List ℕ → List ℕ
  hash_pair left right = double_sha256 digest (write_at (write_at (replicate 64 0) 0 left) 32 right)

  -- Pairs of a level; a last node without a partner is paired with itself.
  unfoldable pub next_level : List (List ℕ) → List (List ℕ)
  next_level [] = []
  next_level (left ∷ []) = hash_pair left left ∷ []
  next_level (left ∷ right ∷ level) = hash_pair left right ∷ next_level level

  -- The `while` loop, by the rounds that `max_tree_height` leaves.
  unfoldable pub climb : ℕ → List (List ℕ) → BsvResult (List ℕ)
  climb zero level = if ltb 1 (length level) then err out_of_range else first level
  climb (suc rounds) level =
      let above = climb rounds (next_level level) in
      if ltb 1 (length level) then above else first level

  unfoldable pub merkle_root : List (List ℕ) → BsvResult (List ℕ)
  unfolding climb
  merkle_root [] = err merkle_mismatch
  merkle_root (leaf ∷ leaves) = climb max_tree_height (leaf ∷ leaves)

  -- The `for` loop; `index & 1` is the remainder by 2, and `index >>= 1` the half.
  unfoldable pub follow : List ℕ → ℕ → List (List ℕ) → List ℕ
  follow current index [] = current
  follow current index (sibling ∷ siblings) =
      follow (if index % 2 == 0 then hash_pair current sibling else hash_pair sibling current)
        (index / 2) siblings

  unfoldable pub compute_root_from_proof : List ℕ → MerkleProof → BsvResult (List ℕ)
  unfolding follow
  compute_root_from_proof leaf proof =
      if ltb max_tree_height (length proof.siblings)
      then err out_of_range
      else ok (follow leaf proof.index proof.siblings)

  unfoldable pub verify_against_chain :
      List ℕ → MerkleProof → ℕ → HeaderChain → BsvResult (Unit {0})
  verify_against_chain leaf proof height chain = do
    anchored ← ok_or (merkle_root_at_height chain height) merkle_mismatch
    computed ← compute_root_from_proof leaf proof
    if Dict.list_beq computed anchored then ok tt else err merkle_mismatch
