-- ===== src/Keygraph/Graph/Ascent.antt =====
-- `leaf_to_root` of crates/keygraph/src/graph.rs on a tree.
use overlay_broadcast.Base.{
  ℕ, zero, suc, ◌+◌, ◌<◌, Option, none, some, List, [], ◌∷◌, ◌++◌, ok, length, ◌≡◌, refl, sym, ap,
  ◌∙◌, inl, inr, arith, append_assoc, ltb, true,
}
use overlay_broadcast.Base.Dict
use overlay_broadcast.Base.Dict.{nat_eq}
use overlay_broadcast.Bsv.Cursor.{u64_size}
use overlay_broadcast.Keygraph.Graph.{Node, Nodes, KeyGraph, climb, leaf_to_root}
use overlay_broadcast.Keygraph.Graph.Tree.{IsTree}

-- The path starts at the node `i`, goes from each node to its parent, and ends at a node of none.
unfoldable pub IsAscent : Nodes → ℕ → List ℕ → Type 0
IsAscent m i [] = ⊥
IsAscent m i (x ∷ xs) =
    (x ≡ i)
    × ((n : Node) × (Dict.get i m ≡ some n)
        × elim n.parent [ none ↦ xs ≡ [] | some p ↦ IsAscent m p xs ])

record Climbed (m : Nodes) (left : ℕ) (path : List ℕ) (i l : ℕ) : Type 0 where
  pub steps : List ℕ
  pub result : climb m left path (some i) ≡ ok (path ++ steps)
  pub ascent : IsAscent m i steps
  pub measured : length steps ≡ l + 1

climb_step :
    (m : Nodes) (left : ℕ) (path : List ℕ) (i : ℕ) (n : Node)
    → Dict.get i m ≡ some n
    → climb m (suc left) path (some i) ≡ climb m left (path ++ (i ∷ [])) n.parent
unfolding climb
climb_step m left path i n h = rw (climb, h) refl

climb_top :
    (m : Nodes) (left : ℕ) (path : List ℕ) (i : ℕ) (n : Node)
    → Dict.get i m ≡ some n
    → n.parent ≡ none
    → Climbed m (suc left) path i 0
unfolding climb IsAscent
climb_top m left path i n h top = record {
  steps = i ∷ [];
  result = climb_step m left path i n h ∙ rw top refl;
  ascent = (refl, (n, h, rw top refl));
  measured = refl;
}

climb_up :
    (m : Nodes) (left : ℕ) (path : List ℕ) (i l : ℕ) (n : Node) (p : ℕ)
    → Dict.get i m ≡ some n
    → n.parent ≡ some p
    → Climbed m left (path ++ (i ∷ [])) p l
    → Climbed m (suc left) path i (suc l)
unfolding IsAscent
climb_up m left path i l n p h edge c = record {
  steps = i ∷ c.steps;
  result =
      climb_step m left path i n h
      ∙ rw edge (c.result ∙ ap ok (append_assoc path (i ∷ []) c.steps));
  ascent = (refl, (n, h, rw edge c.ascent));
  measured = omega (arith, c.measured);
}

module _ (g : KeyGraph) (t : IsTree g) where
  pub root_lem : (n : Node) → Dict.get g.root g.nodes ≡ some n → (n.parent ≡ none) × (n.layer ≡ 0)
  root_lem n h =
      let e = inner (sym t.top_present ∙ h) in
      (
        sym (ap (λ (x : Node). x.parent) e) ∙ t.top_parent,
        sym (ap (λ (x : Node). x.layer) e) ∙ t.top_layer,
      )
    where
      inner : ◌≡◌ {A = Option Node} (some t.top) (some n) → t.top ≡ n
      inner h = cc

  climb_lem :
      (l left : ℕ) (path : List ℕ) (i : ℕ) (n : Node)
      → Dict.get i g.nodes ≡ some n
      → n.layer ≡ l
      → l < left
      → Climbed g.nodes left path i l
  climb_lem l zero path i n h e lt = absurd (omega arith)
  climb_lem zero (suc left) path i n h e lt = elim (t.linked i n h) [
    | inl root ↦ climb_top g.nodes left path i n h (root_lem n (rw (← root) h)).0
    | inr up ↦ absurd (omega (arith, up.below))
  ]
  climb_lem (suc l) (suc left) path i n h e lt = elim (t.linked i n h) [
    | inl root ↦ absurd (omega (arith, (root_lem n (rw (← root) h)).1))
    | inr up ↦ climb_up g.nodes left path i l n up.up h up.edge (
        climb_lem l left (path ++ (i ∷ [])) up.up up.node up.present (omega (arith, up.below))
          (omega arith))
  ]

  -- On a tree whose largest depth leaves room for the count of the steps, `leaf_to_root` of a
  -- present node returns a path, which is one longer than the node's layer, starts at the node, goes
  -- from each node to its parent and ends at a node without one.
  pub leaf_to_root-IsAscent :
      (i : ℕ) (n : Node)
      → Dict.get i g.nodes ≡ some n
      → g.bounds.max_depth + 2 < u64_size
      → (path : List ℕ) × (leaf_to_root g i ≡ ok path)
        × IsAscent g.nodes i path
        × (length path ≡ n.layer + 1)
  unfolding leaf_to_root
  leaf_to_root-IsAscent i n h small =
      let deep = t.deep i n h in
      let c = climb_lem n.layer (g.bounds.max_depth + 2 + 1) [] i n h refl (omega arith) in
      (c.steps, rw (leaf_to_root, small_lem) c.result, c.ascent, c.measured)
    where
      small_lem : ltb (g.bounds.max_depth + 2) u64_size ≡ true
      small_lem = ground arith
