-- ===== src/Keygraph/Graph/Checks.antt =====
-- `verify_invariants` of crates/keygraph/src/graph.rs on a tree.
use overlay_broadcast.Base.{
  ℕ, suc, ◌+◌, ◌≤◌, false, Option, none, some, [], ◌∷◌, ok, ◌≡◌, refl, sym, ap, ◌∙◌, ◌⊎◌, inl, inr,
  arith, Bool-cases, if◌then◌else◌, All, ◌==◌, ==_iff, lt→ltb,
}
use overlay_broadcast.Base.Dict
use overlay_broadcast.Base.Dict.{nat_eq}
use overlay_broadcast.Base.Entries.{Distinct, All-entries}
use overlay_broadcast.Bsv.Cursor.{u64_size}
use overlay_broadcast.Keygraph.Graph.{
  Node, Nodes, KeyGraph, check_node, check_nodes, verify_invariants,
}
use overlay_broadcast.Keygraph.Graph.Tree.{IsTree, HasParent}

-- One root among the entries that have the key `root`, none among the others.
roots_in : ℕ → Nodes → ℕ
roots_in r [] = 0
roots_in r ((i, _) ∷ m) = let rest = roots_in r m in if i == r then suc rest else rest

unfoldable Counted : ℕ → Nodes → Type 0
Counted r m = roots_in r m ≡ elim (Dict.get r m) [ none ↦ 0 | some _ ↦ 1 ]

Distinct-Counted : (r : ℕ) (m : Nodes) → Distinct m → Counted r m
unfolding Counted roots_in Dict.get Distinct
Distinct-Counted r [] d = refl
Distinct-Counted r ((i, n) ∷ m) d = elim (Bool-cases (i == r)) [
  | inl same ↦
      let gone = rw ((==_iff i r).0 same) at d.0 in
      rw same (omega (arith, rw gone at (Distinct-Counted r m d.1)))
  | inr other ↦ rw other (Distinct-Counted r m d.1)
]

module _ (g : KeyGraph) (t : IsTree g) where
  -- What `check_node` reads of an entry.
  unfoldable Sound : ℕ → Node → Type 0
  Sound i n = ((i ≡ g.root) × (n.parent ≡ none)) ⊎ (((i == g.root) ≡ false) × HasParent g.nodes i n)

  root_parent : (n : Node) → Dict.get g.root g.nodes ≡ some n → n.parent ≡ none
  root_parent n h = sym (ap (λ (x : Node). x.parent) (inner (sym t.top_present ∙ h))) ∙ t.top_parent
    where
      inner : ◌≡◌ {A = Option Node} (some t.top) (some n) → t.top ≡ n
      inner h = cc

  get-Sound : (i : ℕ) (n : Node) → Dict.get i g.nodes ≡ some n → Sound i n
  unfolding Sound
  get-Sound i n h = elim (Bool-cases (i == g.root)) [
    | inl same ↦ let e = (==_iff i g.root).0 same in inl (e, root_parent n (rw e at h))
    | inr other ↦ elim (t.linked i n h) [
      | inl root ↦ absurd (ground (arith, root, other))
      | inr up ↦ inr (other, up)
    ]
  ]

  check_node_lem :
      (roots i : ℕ) (n : Node)
      → roots ≤ 1
      → Sound i n
      → check_node g roots (i, n) ≡ ok (if i == g.root then roots + 1 else roots)
  unfolding check_node Sound
  check_node_lem roots i n le s = elim s [
    | inl top ↦
        rw
          (
            check_node,
            top.1,
            top.0,
            lt→ltb (roots + 1) u64_size (omega arith),
            (==_iff g.root g.root).1 refl,
          )
          refl
    | inr up ↦ rw (check_node, up.1.edge, up.1.present, up.1.listed, up.0) refl
  ]

  check_nodes_lem :
      (roots : ℕ) (m : Nodes)
      → roots + roots_in g.root m ≤ 1
      → All (λ (x : ℕ × Node). Sound x.0 x.1) m
      → check_nodes g roots m ≡ ok (roots + roots_in g.root m)
  unfolding check_nodes roots_in
  check_nodes_lem roots [] le a = ap ok (omega arith)
  check_nodes_lem roots ((i, n) ∷ m) le a = elim (Bool-cases (i == g.root)) [
    | inl same ↦
        let bound = rw same at le in
        rw (check_nodes, check_node_lem roots i n (omega (arith, bound)) a.0, same)
          (check_nodes_lem (roots + 1) m (omega (arith, bound)) a.1 ∙ ap ok (omega arith))
    | inr other ↦
        let bound = rw other at le in
        rw (check_nodes, check_node_lem roots i n (omega (arith, bound)) a.0, other)
          (check_nodes_lem roots m bound a.1)
  ]

  -- A tree passes every check of `verify_invariants`.
  pub verify_invariants-IsTree : verify_invariants g ≡ ok tt
  unfolding verify_invariants Counted
  verify_invariants-IsTree =
      let count = rw t.top_present at (Distinct-Counted g.root g.nodes t.distinct) in
      rw
        (
          verify_invariants,
          check_nodes_lem 0 g.nodes (omega (arith, count))
              (All-entries Sound g.nodes t.distinct get-Sound),
          count,
        )
        refl
