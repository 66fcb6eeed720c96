-- ===== src/Bsv/Merkle/Inclusion.antt =====
-- The proofs that the levels of a tree of crates/bsv/src/merkle.rs give.
use overlay_broadcast.Base.{
  ℕ, zero, suc, ◌+◌, ◌/◌, ◌%◌, ◌^◌, ◌≤◌, ◌<◌, ◌≡◌, refl, ◌∙◌, List, [], ◌∷◌, some, arith, length,
  get_elem?, get_elem?-lt, ltb, if◌then◌else◌, ok, Bool-cases, inl, inr, false, ◌==◌,
}
use native.Mathlib.Nat.{pow-suc}
use overlay_broadcast.Base.Dict.{list_beq_iff}
use overlay_broadcast.Bsv.HeaderChain.{HeaderChain, merkle_root_at_height}
use overlay_broadcast.Bsv.Merkle.{
  MerkleProof, max_tree_height, hash_pair, next_level, climb, merkle_root, follow, first,
  compute_root_from_proof, verify_against_chain,
}

-- The node beside `i` on its level, or `i` itself where it is the last of an odd level.
abbrev partner : List (List ℕ) → ℕ → List ℕ
partner [] i = []
partner (a ∷ []) i = a
partner (a ∷ b ∷ level) zero = b
partner (a ∷ b ∷ level) (suc zero) = a
partner (a ∷ b ∷ level) (suc (suc i)) = partner level i

first_only :
    (level : List (List ℕ)) (i : ℕ) (x : List ℕ)
    → length level ≤ 1
    → get_elem? level i ≡ some x
    → first level ≡ ok x
first_only [] i x h e = cc
first_only (a ∷ []) zero x h e = ground arith
first_only (a ∷ []) (suc i) x h e = cc
first_only (a ∷ b ∷ level) i x h e = absurd (omega arith)

module _ (digest : List ℕ → List ℕ) where
  -- The siblings of leaf `i`, from the leaves upward.
  unfoldable pub siblings_of : ℕ → List (List ℕ) → ℕ → List (List ℕ)
  siblings_of zero level i = []
  siblings_of (suc rounds) level i =
      let above = siblings_of rounds (next_level digest level) (i / 2) in
      if ltb 1 (length level) then partner level i ∷ above else []

  pub length-next_level :
      (level : List (List ℕ)) → length (next_level digest level) ≡ (length level + 1) / 2
  unfolding next_level
  length-next_level [] = omega arith
  length-next_level (a ∷ []) = omega arith
  length-next_level (a ∷ b ∷ level) = omega (arith, length-next_level level)

  -- The node above `i`.
  parent :
      (level : List (List ℕ)) (i : ℕ) (x : List ℕ)
      → get_elem? level i ≡ some x
      → get_elem? (next_level digest level) (i / 2)
        ≡ some (
            if i % 2 == 0
            then hash_pair digest x (partner level i)
            else hash_pair digest (partner level i) x)
  unfolding next_level
  parent [] i x e = cc
  parent (a ∷ []) zero x e = ground arith
  parent (a ∷ []) (suc i) x e = cc
  parent (a ∷ b ∷ level) zero x e = ground arith
  parent (a ∷ b ∷ level) (suc zero) x e = ground arith
  parent (a ∷ b ∷ level) (suc (suc i)) x e =
      let half : suc (suc i) / 2 ≡ suc (i / 2) = omega arith in
      let parity : suc (suc i) % 2 ≡ i % 2 = omega arith in rw half (rw parity (parent level i x e))

  -- The proof that belongs to leaf `i`.
  abbrev pub proof_of : List (List ℕ) → ℕ → MerkleProof
  proof_of leaves i = record { index = i; siblings = siblings_of max_tree_height leaves i }

  climb-follow :
      (rounds : ℕ) (level : List (List ℕ)) (i : ℕ) (x : List ℕ)
      → length level ≤ 2 ^ rounds
      → get_elem? level i ≡ some x
      → climb digest rounds level ≡ ok (follow digest x i (siblings_of rounds level i))
  unfolding climb follow siblings_of
  climb-follow zero level i x h e =
      let one : ltb 1 (length level) ≡ false = ground arith in rw one (first_only level i x h e)
  climb-follow (suc rounds) level i x h e = elim (Bool-cases (ltb 1 (length level))) [
    | inl t ↦ rw t (
        climb-follow rounds (next_level digest level) (i / 2) _
          (omega (arith, length-next_level level, pow-suc 2 rounds)) (parent level i x e))
    | inr f ↦ let short : length level ≤ 1 = ground arith in rw f (first_only level i x short e)
  ]

  length-siblings_of :
      (rounds : ℕ) (level : List (List ℕ)) (i : ℕ) → length (siblings_of rounds level i) ≤ rounds
  unfolding siblings_of
  length-siblings_of zero level i = omega arith
  length-siblings_of (suc rounds) level i =
      ground (arith, length-siblings_of rounds (next_level digest level) (i / 2))

  merkle_root-climb :
      (leaves : List (List ℕ))
      → 0 < length leaves
      → merkle_root digest leaves ≡ climb digest 64 leaves
  unfolding merkle_root
  merkle_root-climb [] h = absurd (omega arith)
  merkle_root-climb (x ∷ leaves) h = refl

  compute_root_from_proof_lem :
      (x : List ℕ) (proof : MerkleProof)
      → length proof.siblings ≤ 64
      → compute_root_from_proof digest x proof ≡ ok (follow digest x proof.index proof.siblings)
  unfolding compute_root_from_proof
  compute_root_from_proof_lem x proof h = ground arith

-- For every leaf of at most 2^64, the siblings that stand beside its path lead from the leaf to
-- `merkle_root` of all leaves, which is a root and no error.
pub compute_root_from_proof-proof_of :
    (digest : List ℕ → List ℕ) (leaves : List (List ℕ)) (i : ℕ) (leaf : List ℕ)
    → length leaves ≤ 2 ^ 64
    → get_elem? leaves i ≡ some leaf
    → (root : List ℕ) × (merkle_root digest leaves ≡ ok root)
      × (compute_root_from_proof digest leaf (proof_of digest leaves i) ≡ ok root)
compute_root_from_proof-proof_of digest leaves i leaf h e = (
  follow digest leaf i (siblings_of digest 64 leaves i),
  merkle_root-climb digest leaves (omega (arith, get_elem?-lt leaves i e))
      ∙ climb-follow digest 64 leaves i leaf h e,
  compute_root_from_proof_lem digest leaf (proof_of digest leaves i)
      (length-siblings_of digest 64 leaves i),
)

-- If the chain's header at `height` commits to the merkle root of at most 2^64 leaves, then each
-- leaf is verified against the chain by the siblings beside its path.
pub verify_against_chain-proof_of :
    (digest : List ℕ → List ℕ) (leaves : List (List ℕ)) (i height : ℕ) (leaf root : List ℕ)
    (chain : HeaderChain)
    → length leaves ≤ 2 ^ 64
    → get_elem? leaves i ≡ some leaf
    → merkle_root digest leaves ≡ ok root
    → merkle_root_at_height chain height ≡ some root
    → verify_against_chain digest leaf (proof_of digest leaves i) height chain ≡ ok tt
unfolding verify_against_chain
verify_against_chain-proof_of digest leaves i height leaf root chain h e er ec =
    let (r, e1, e2) = compute_root_from_proof-proof_of digest leaves i leaf h e in
    let same : r ≡ root = cc in rw ec (rw e2 (rw ((list_beq_iff r root).1 same) refl))
