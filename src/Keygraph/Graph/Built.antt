-- ===== src/Keygraph/Graph/Built.antt =====
-- The graphs that the methods of crates/keygraph/src/graph.rs make, in any order of the calls.
use overlay_broadcast.Base.{
  ℕ, zero, suc, ◌+◌, ◌<◌, false, none, some, List, ok, ◌==◌, length, ◌≡◌, refl, sym, ap, ◌∙◌, ◌⊎◌,
  inl, inr, arith, Bool-cases, ==_iff, some_inj, none-some, false-true,
}
use overlay_broadcast.Base.Dict
use overlay_broadcast.Base.Dict.{nat_eq}
use overlay_broadcast.Bsv.Cursor.{u64_size}
use overlay_broadcast.Keygraph.Graph.{
  Bounds, Node, KeyGraph, with_root, add_child, replace_root, remove_subtree, leaf_to_root,
  verify_invariants,
}
use overlay_broadcast.Keygraph.Graph.Tree.{IsTree, with_root-IsTree, replace_root-IsTree}
use overlay_broadcast.Keygraph.Graph.Growth.{add_child-IsTree}
use overlay_broadcast.Keygraph.Graph.Subtree.{IsBelow, here, under, remove_subtree_lem}
use overlay_broadcast.Keygraph.Graph.Cut.{Alike}
use overlay_broadcast.Keygraph.Graph.Erasure.{
  add_child-bounds, replace_root-bounds, remove_subtree-bounds, remove_subtree-IsTree,
}
use overlay_broadcast.Keygraph.Graph.Ascent.{IsAscent, root_lem, leaf_to_root-IsAscent}
use overlay_broadcast.Keygraph.Graph.Checks.{verify_invariants-IsTree}

pub data Built (b : Bounds) : KeyGraph → Type 0 where
  start : Built b (with_root b)
  add : {g : KeyGraph} → Built b g → (p coord : ℕ) → Built b (add_child g p coord).0
  replace : {g : KeyGraph} → Built b g → Built b (replace_root g).0
  remove : {g : KeyGraph} → Built b g → (id : ℕ) → Built b (remove_subtree g id).0

Built-bounds : (b : Bounds) (g : KeyGraph) → Built b g → g.bounds ≡ b
unfolding with_root
Built-bounds b _ start = refl
Built-bounds b _ (add {g = g} h p coord) = add_child-bounds g p coord ∙ Built-bounds b g h
Built-bounds b _ (replace {g = g} h) = replace_root-bounds g ∙ Built-bounds b g h
Built-bounds b _ (remove {g = g} h id) = remove_subtree-bounds g id ∙ Built-bounds b g h

pub Built-IsTree : (b : Bounds) (g : KeyGraph) → b.max_nodes + 1 < u64_size → Built b g → IsTree g
Built-IsTree b _ small start = with_root-IsTree b
Built-IsTree b _ small (add {g = g} h p coord) =
    add_child-IsTree g (Built-IsTree b g small h) p coord
Built-IsTree b _ small (replace {g = g} h) = replace_root-IsTree g (Built-IsTree b g small h)
Built-IsTree b _ small (remove {g = g} h id) =
    remove_subtree-IsTree g (rw (Built-bounds b g h) small) (Built-IsTree b g small h) id

-- Where `max_nodes + 1` fits 64 bits, every graph that `with_root`, `add_child`, `replace_root` and
-- `remove_subtree` make, in any order and with any results, passes `verify_invariants`.
pub Built-verify_invariants :
    (b : Bounds) (g : KeyGraph)
    → b.max_nodes + 1 < u64_size
    → Built b g
    → verify_invariants g ≡ ok tt
Built-verify_invariants b g small h = verify_invariants-IsTree g (Built-IsTree b g small h)

-- Where `max_nodes + 1` and `max_depth + 2` fit 64 bits, `leaf_to_root` of a present node of a graph
-- that the methods make returns a path: it starts at the node, goes from each node to its parent,
-- ends at a node without one, and is one longer than the layer of the node.
pub leaf_to_root-Built :
    (b : Bounds) (g : KeyGraph) (i : ℕ) (n : Node)
    → b.max_nodes + 1 < u64_size
    → b.max_depth + 2 < u64_size
    → Built b g
    → Dict.get i g.nodes ≡ some n
    → (path : List ℕ) × (leaf_to_root g i ≡ ok path)
      × IsAscent g.nodes i path
      × (length path ≡ n.layer + 1)
leaf_to_root-Built b g i n nodes depth h found =
    leaf_to_root-IsAscent g (Built-IsTree b g nodes h) i n found (rw (Built-bounds b g h) depth)

-- A node under the given one or outside of it.
module _ (g : KeyGraph) (t : IsTree g) (id : ℕ) where
  outside :
      (i : ℕ) (n : Node)
      → Dict.get i g.nodes ≡ some n
      → (id == i) ≡ false
      → ((p : ℕ) → n.parent ≡ some p → IsBelow g.nodes id p → ⊥)
      → ¬ IsBelow g.nodes id i
  outside _ n found other h here = false-true other (ground arith)
  outside i n found other h (under {p = p} y was edge b) =
      h p (ap (λ (z : Node). z.parent) (some_inj (sym found ∙ was)) ∙ edge) b

  IsBelow-or_outside :
      (l i : ℕ) (n : Node)
      → Dict.get i g.nodes ≡ some n
      → n.layer < l
      → IsBelow g.nodes id i ⊎ (¬ IsBelow g.nodes id i)
  IsBelow-or_outside zero i n found lt = absurd (omega arith)
  IsBelow-or_outside (suc l) i n found lt = elim (Bool-cases (id == i)) [
    | inl same ↦ inl (rw (← (==_iff id i).0 same) here)
    | inr other ↦ elim (t.linked i n found) [
      | inl root ↦ inr (
          outside i n found other
            λ p edge b. none-some (sym (root_lem g t n (rw (← root) found)).0 ∙ edge))
      | inr up ↦ elim (IsBelow-or_outside l up.up up.node up.present (omega (arith, up.below))) [
        | inl b ↦ inl (under n found up.edge b)
        | inr out ↦
            inr (outside i n found other λ p edge b. out (rw (some_inj (sym edge ∙ up.edge)) at b))
      ]
    ]
  ]

-- Where `max_nodes + 1` fits 64 bits, on a graph that the methods make, `remove_subtree` of a
-- present node other than the root returns `ok`; of the nodes that were there, it removes those that
-- are the given one or lie under it, and each other one stays, with its position, layer, parent and
-- epoch.
pub remove_subtree-Built :
    (b : Bounds) (g : KeyGraph) (id : ℕ) (n : Node)
    → b.max_nodes + 1 < u64_size
    → Built b g
    → Dict.get id g.nodes ≡ some n
    → (id == g.root) ≡ false
    → (i : ℕ) (x : Node) → Dict.get i g.nodes ≡ some x
    → ((remove_subtree g id).1 ≡ ok tt)
      × ((IsBelow g.nodes id i × (Dict.get i (remove_subtree g id).0.nodes ≡ none))
          ⊎ ((¬ IsBelow g.nodes id i)
              × ((y : Node) × (Dict.get i (remove_subtree g id).0.nodes ≡ some y) × Alike y x)))
remove_subtree-Built b g id n small h found below i x there =
    let t = Built-IsTree b g small h in
    let r = remove_subtree_lem g t id n found below (rw (Built-bounds b g h) small) in
    rw r.result (
      refl,
      elim (IsBelow-or_outside g t id (suc x.layer) i x there (omega arith)) [
        | inl within ↦ inl (within, r.gone i within)
        | inr out ↦ inr (out, r.kept i x there out)
      ],
    )
