-- ===== src/Keygraph/Graph/Erasure.antt =====
-- `remove_subtree` of crates/keygraph/src/graph.rs on every branch, and the bounds under each method.
use overlay_broadcast.Base.{
  ℕ, ◌+◌, ◌<◌, none, some, ok, ◌==◌, ◌≡◌, inl, inr, arith, Bool-cases, Option-cases, err_ok,
}
use overlay_broadcast.Base.Dict
use overlay_broadcast.Base.Dict.{nat_eq}
use overlay_broadcast.Bsv.Cursor.{u64_size}
use overlay_broadcast.Keygraph.Graph.{Node, KeyGraph, add_child, replace_root, remove_subtree}
use overlay_broadcast.Keygraph.Graph.Tree.{IsTree}
use overlay_broadcast.Keygraph.Graph.Cut.{Alike, alike_refl}
use overlay_broadcast.Keygraph.Graph.Subtree.{here, remove_subtree_lem}

pub add_child-bounds : (g : KeyGraph) (p coord : ℕ) → (add_child g p coord).0.bounds ≡ g.bounds
unfolding add_child
add_child-bounds g p coord = ground arith

pub replace_root-bounds : (g : KeyGraph) → (replace_root g).0.bounds ≡ g.bounds
unfolding replace_root
replace_root-bounds g = ground arith

pub remove_subtree-bounds : (g : KeyGraph) (id : ℕ) → (remove_subtree g id).0.bounds ≡ g.bounds
unfolding remove_subtree
remove_subtree-bounds g id = ground arith

pub remove_subtree-IsTree :
    (g : KeyGraph)
    → g.bounds.max_nodes + 1 < u64_size
    → IsTree g
    → (id : ℕ) → IsTree (remove_subtree g id).0
unfolding remove_subtree
remove_subtree-IsTree g small t id = elim (Bool-cases (id == g.root)) [
  | inl root ↦ rw (remove_subtree, root) t
  | inr below ↦ elim (Option-cases (Dict.get id g.nodes)) [
    | inl gone ↦ rw (remove_subtree, below, gone) t
    | inr (n, found) ↦ let r = remove_subtree_lem g t id n found below small in rw r.result r.tree
  ]
]

pub remove_subtree-root : (g : KeyGraph) (id : ℕ) → (remove_subtree g id).0.root ≡ g.root
unfolding remove_subtree
remove_subtree-root g id = ground arith

-- After `remove_subtree`, whatever it returns, no node is new.
pub remove_subtree_old :
    (g : KeyGraph)
    → g.bounds.max_nodes + 1 < u64_size
    → IsTree g
    → (id i : ℕ) (x : Node) → Dict.get i (remove_subtree g id).0.nodes ≡ some x
    → (y : Node) × (Dict.get i g.nodes ≡ some y) × Alike x y
unfolding remove_subtree
remove_subtree_old g small t id i x h = elim (Bool-cases (id == g.root)) [
  | inl root ↦ (x, rw (remove_subtree, root) at h, alike_refl x)
  | inr below ↦ elim (Option-cases (Dict.get id g.nodes)) [
    | inl gone ↦ (x, rw (remove_subtree, below, gone) at h, alike_refl x)
    | inr (n, found) ↦
        let r = remove_subtree_lem g t id n found below small in r.old i x (rw r.result at h)
  ]
]

-- Where it returns `ok`, the node is gone.
pub remove_subtree_gone :
    (g : KeyGraph)
    → g.bounds.max_nodes + 1 < u64_size
    → IsTree g
    → (id : ℕ) → (remove_subtree g id).1 ≡ ok tt
    → Dict.get id (remove_subtree g id).0.nodes ≡ none
unfolding remove_subtree
remove_subtree_gone g small t id h = elim (Bool-cases (id == g.root)) [
  | inl root ↦ absurd (err_ok (rw (remove_subtree, root) at h))
  | inr below ↦ elim (Option-cases (Dict.get id g.nodes)) [
    | inl gone ↦ absurd (err_ok (rw (remove_subtree, below, gone) at h))
    | inr (n, found) ↦
        let r = remove_subtree_lem g t id n found below small in rw r.result (r.gone id here)
  ]
]
