-- ===== src/Keygraph/Graph/Removal.antt =====
-- `remove_subtree` of crates/keygraph/src/graph.rs on a tree.
use overlay_broadcast.Base.{
  ℕ, true, false, Option, none, some, List, ◌∷◌, ◌++◌, ◌==◌, elem, ◌≡◌, sym, ap, ◌∙◌, ◌⊎◌, inl, inr,
  arith, Bool-cases, ==_iff, some_inj, none-some, false-true,
}
use overlay_broadcast.Base.Dict
use overlay_broadcast.Base.Dict.{nat_eq, get-insert_same, get-insert_other}
use overlay_broadcast.Base.Elems.{Unique, elem-pushed, pushed-Unique}
use overlay_broadcast.Base.Entries.{Distinct, Distinct-remove, get-remove_cases, get-remove_other}
use overlay_broadcast.Keygraph.Graph.{Node, Nodes, KeyGraph}
use overlay_broadcast.Keygraph.Graph.Tree.{HasParent, IsChild}
use mathlib.Core.List.{reverse}

-- What the loop keeps: `IsTree` but for the edges from the nodes on the stack.
pub record IsCut (g : KeyGraph) (stack : List ℕ) (m : Nodes) : Type 0 where
  pub distinct : Distinct m
  pub top : Node
  pub top_present : Dict.get g.root m ≡ some top
  pub top_parent : top.parent ≡ none
  pub top_layer : top.layer ≡ 0
  pub linked :
      (i : ℕ) (n : Node)
      → Dict.get i m ≡ some n
      → (i ≡ g.root) ⊎ ((elem i stack ≡ true) ⊎ HasParent m i n)
  pub owned :
      (p : ℕ) (n : Node)
      → Dict.get p m ≡ some n
      → (c : ℕ) → elem c n.children ≡ true
      → IsChild m p c × (elem c stack ≡ false)
  pub unique : (p : ℕ) (n : Node) → Dict.get p m ≡ some n → Unique n.children
  pub waiting :
      (i : ℕ)
      → elem i stack ≡ true
      → ((n : Node) × (Dict.get i m ≡ some n)) × ((i == g.root) ≡ false)
  pub apart : Unique stack

module _ (g : KeyGraph) (current : ℕ) (stack : List ℕ) (m : Nodes) (c : IsCut g (current ∷ stack) m)
    (n : Node) (found : Dict.get current m ≡ some n) where
  abbrev pub rest : List ℕ
  rest = reverse n.children ++ stack

  abbrev pub left : Nodes
  left = Dict.remove current m

  not_root : (current == g.root) ≡ false
  not_root = (c.waiting current (ground (arith, ==_iff current current))).1

  stays :
      (i : ℕ) (x : Node) → (current == i) ≡ false → Dict.get i m ≡ some x → Dict.get i left ≡ some x
  stays i x other h = get-remove_other current i m other ∙ h

  -- A child of a present node is not the node that goes, nor waiting for it.
  child_apart :
      (p : ℕ) (x : Node)
      → Dict.get p m ≡ some x
      → (i : ℕ) → elem i x.children ≡ true
      → ((current == i) ≡ false) × (elem i stack ≡ false)
  child_apart p x h i e =
      (ground (arith, (c.owned p x h i e).1), ground (arith, (c.owned p x h i e).1))

  step-HasParent : (i : ℕ) (x : Node) → HasParent m i x → (elem i rest ≡ true) ⊎ HasParent left i x
  step-HasParent i x h = elim (Bool-cases (current == h.up)) [
    | inl same ↦ inl (under (inner (sym found ∙ rw (← (==_iff current h.up).0 same) at h.present)))
    | inr other ↦ inr (record {
      up = h.up;
      node = h.node;
      edge = h.edge;
      present = stays h.up h.node other h.present;
      listed = h.listed;
      below = h.below;
    })
  ]
    where
      inner : ◌≡◌ {A = Option Node} (some n) (some h.node) → h.node ≡ n
      inner e = cc

      under : h.node ≡ n → elem i rest ≡ true
      under e = ground (arith, elem-pushed i n.children stack, rw e at h.listed)

  step-linked :
      (i : ℕ) (x : Node)
      → Dict.get i left ≡ some x
      → (i ≡ g.root) ⊎ ((elem i rest ≡ true) ⊎ HasParent left i x)
  step-linked i x h =
      let was = get-remove_cases current i x m h in
      elim (c.linked i x was.1) [
        | inl root ↦ inl root
        | inr (inl waits) ↦ inr (inl (ground (arith, elem-pushed i n.children stack, waits, was.0)))
        | inr (inr up) ↦ inr (step-HasParent i x up)
      ]

  step-owned :
      (p : ℕ) (x : Node)
      → Dict.get p left ≡ some x
      → (i : ℕ) → elem i x.children ≡ true
      → IsChild left p i × (elem i rest ≡ false)
  step-owned p x h i e =
      let was = get-remove_cases current p x m h in
      let away = child_apart p x was.1 i e in
      let child = (c.owned p x was.1 i e).0 in
      (
        (child.0, stays i child.0 away.0 child.1, child.2),
        elim (Bool-cases (elem i n.children)) [
          | inr other ↦ ground (arith, elem-pushed i n.children stack, other, away.1)
          | inl here ↦
              let mine = (c.owned current n found i here).0 in
              let e = some_inj (sym child.1 ∙ mine.1) in
              let k = some_inj (sym child.2 ∙ ap (λ (y : Node). y.parent) e ∙ mine.2) in
              absurd (false-true was.0 (ground (arith, k)))
        ],
      )

  not_top :
      (i : ℕ) (x : Node) → Dict.get i m ≡ some x → x.parent ≡ some current → (i == g.root) ≡ false
  not_top i x h edge = elim (Bool-cases (i == g.root)) [
    | inr other ↦ other
    | inl root ↦
        let e = some_inj (sym c.top_present ∙ rw ((==_iff i g.root).0 root) at h) in
        absurd (none-some (sym c.top_parent ∙ ap (λ (y : Node). y.parent) e ∙ edge))
  ]

  step-waiting :
      (i : ℕ)
      → elem i rest ≡ true
      → ((x : Node) × (Dict.get i left ≡ some x)) × ((i == g.root) ≡ false)
  step-waiting i e = elim (Bool-cases (elem i n.children)) [
    | inl here ↦
        let child = (c.owned current n found i here).0 in
        (
          (child.0, stays i child.0 (child_apart current n found i here).0 child.1),
          not_top i child.0 child.1 child.2,
        )
    | inr other ↦
        let old = rw other at (sym (elem-pushed i n.children stack) ∙ e) in
        let was = c.waiting i (ground (arith, old)) in
        (
          (was.0.0, stays i was.0.0 (ground (arith, c.apart.0, ==_iff current i, old)) was.0.1),
          was.1,
        )
  ]

  pub step-IsCut : IsCut g rest left
  step-IsCut = record {
    distinct = Distinct-remove current m c.distinct;
    top = c.top;
    top_present = stays g.root c.top not_root c.top_present;
    top_parent = c.top_parent;
    top_layer = c.top_layer;
    linked = step-linked;
    owned = step-owned;
    unique = λ p x h. c.unique p x (get-remove_cases current p x m h).1;
    waiting = step-waiting;
    apart =
        pushed-Unique n.children stack (c.unique current n found) c.apart.1
          λ i e. (child_apart current n found i e).1;
  }
