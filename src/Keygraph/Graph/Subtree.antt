-- ===== src/Keygraph/Graph/Subtree.antt =====
-- The loop of `remove_subtree` of crates/keygraph/src/graph.rs, and the whole method.
use overlay_broadcast.Base.{
  ℕ, zero, suc, ◌+◌, ◌≤◌, ◌<◌, true, false, none, some, List, [], ◌∷◌, ◌++◌, ok, ◌==◌, length, elem,
  ◌≡◌, refl, sym, ap, ◌∙◌, ◌⊎◌, inl, inr, arith, Bool-cases, Option-cases, ==_iff, lt→ltb, some_inj,
  none-some, false-true,
}
use overlay_broadcast.Base.Dict
use overlay_broadcast.Base.Dict.{nat_eq}
use overlay_broadcast.Base.Elems.{elem-pushed}
use overlay_broadcast.Base.Entries.{length-remove, get-remove_cases, get-remove_other}
use overlay_broadcast.Bsv.Cursor.{u64_size}
use overlay_broadcast.Keygraph.Graph.{Node, Nodes, KeyGraph, drain, remove_subtree}
use overlay_broadcast.Keygraph.Graph.Tree.{IsTree, HasParent}
use overlay_broadcast.Keygraph.Graph.Removal.{IsCut, rest, step-IsCut}
use overlay_broadcast.Keygraph.Graph.Cut.{
  Alike, cut, before, unlink_lem, length-cut, after, cut-IsCut,
}
use mathlib.Core.List.{reverse}

-- The node `i` is the node `a` or lies under it.
pub data IsBelow (m : Nodes) (a : ℕ) : ℕ → Type 0 where
  here : IsBelow m a a
  under :
      {i p : ℕ} (n : Node)
      → Dict.get i m ≡ some n
      → n.parent ≡ some p
      → IsBelow m a p
      → IsBelow m a i

-- A set of nodes that holds what its nodes list.
abbrev IsClosed : (ℕ → Type 0) → Nodes → Type 0
IsClosed P m =
    (p : ℕ) (n : Node) → Dict.get p m ≡ some n → (c : ℕ) → elem c n.children ≡ true → P p → P c

-- What the loop leaves: nodes that were there, and each that is outside of the set.
record Drained (g : KeyGraph) (limit fuel : ℕ) (stack : List ℕ) (m : Nodes) (P : ℕ → Type 0)
    : Type 0 where
  pub rest : Nodes
  pub result : drain limit fuel stack m ≡ (rest, ok tt)
  pub cut : IsCut g [] rest
  pub old : (i : ℕ) (x : Node) → Dict.get i rest ≡ some x → Dict.get i m ≡ some x
  pub kept : (i : ℕ) (x : Node) → Dict.get i m ≡ some x → (P i → ⊥) → Dict.get i rest ≡ some x
  pub gone : (i : ℕ) → elem i stack ≡ true → Dict.get i rest ≡ none
  pub fewer : length rest ≤ length m

first : (a : ℕ) (xs : List ℕ) → elem a (a ∷ xs) ≡ true
first a xs = ground (arith, ==_iff a a)

module _ (g : KeyGraph) (limit : ℕ) (P : ℕ → Type 0) where
  drained_one :
      (fuel current : ℕ) (stack : List ℕ) (m : Nodes) (c : IsCut g (current ∷ stack) m) (n : Node)
      (found : Dict.get current m ≡ some n)
      → P current
      → Drained g limit fuel (reverse n.children ++ stack) (Dict.remove current m) P
      → Drained g limit (suc fuel) (current ∷ stack) m P
  unfolding drain
  drained_one fuel current stack m c n found mine d = record {
    rest = d.rest;
    result = rw (drain, found) d.result;
    cut = d.cut;
    old = λ i x h. (get-remove_cases current i x m (d.old i x h)).1;
    kept = λ i x h out. d.kept i x (get-remove_other current i m (differs i out) ∙ h) out;
    gone = λ i e. elim (Bool-cases (current == i)) [
      | inr other ↦ d.gone i (ground (arith, elem-pushed i n.children stack, e, other))
      | inl same ↦ elim (Option-cases (Dict.get i d.rest)) [
        | inl away ↦ away
        | inr (x, h) ↦ absurd (clash i same (get-remove_cases current i x m (d.old i x h)).0)
      ]
    ];
    fewer = omega (arith, d.fewer, length-remove current n m c.distinct found);
  }
    where
      clash : (a : ℕ) → (current == a) ≡ true → (current == a) ≡ false → ⊥
      clash a h k = cc

      differs : (i : ℕ) → (P i → ⊥) → (current == i) ≡ false
      differs i out = elim (Bool-cases (current == i)) [
        | inr other ↦ other
        | inl same ↦ absurd (out (rw (← (==_iff current i).0 same) mine))
      ]

  drain_lem :
      (fuel : ℕ) (stack : List ℕ) (m : Nodes)
      → IsCut g stack m
      → IsClosed P m
      → ((i : ℕ) → elem i stack ≡ true → P i)
      → length m ≤ fuel
      → Drained g limit fuel stack m P
  unfolding drain
  drain_lem fuel [] m c closed mine le = record {
    rest = m;
    result = refl;
    cut = c;
    old = λ i x h. h;
    kept = λ i x h out. h;
    gone = λ i e. absurd (clash e);
    fewer = omega arith;
  }
    where
      clash : false ≡ true → ⊥
      clash h = cc
  drain_lem zero (current ∷ stack) m c closed mine le =
      let found = (c.waiting current (first current stack)).0 in
      absurd (omega (arith, length-remove current found.0 m c.distinct found.1))
  drain_lem (suc fuel) (current ∷ stack) m c closed mine le =
      let found = (c.waiting current (first current stack)).0 in
      drained_one fuel current stack m c found.0 found.1 (mine current (first current stack)) (
        drain_lem fuel (rest g current stack m c found.0 found.1) (Dict.remove current m)
          (step-IsCut g current stack m c found.0 found.1)
          (λ p x h. closed p x (get-remove_cases current p x m h).1)
          (λ i e. elim (Bool-cases (elem i found.0.children)) [
            | inl child ↦
                closed current found.0 found.1 i child (mine current (first current stack))
            | inr other ↦ mine i (ground (arith, elem-pushed i found.0.children stack, e, other))
          ])
          (omega (arith, length-remove current found.0 m c.distinct found.1)))

-- What `remove_subtree` has left.
pub record Pruned (g : KeyGraph) (id : ℕ) : Type 0 where
  pub rest : Nodes
  pub result : remove_subtree g id ≡ (record g { nodes = rest }, ok tt)
  pub tree : IsTree (record g { nodes = rest })
  pub old :
      (i : ℕ) (x : Node)
      → Dict.get i rest ≡ some x
      → (y : Node) × (Dict.get i g.nodes ≡ some y) × Alike x y
  pub gone : (i : ℕ) → IsBelow g.nodes id i → Dict.get i rest ≡ none
  pub kept :
      (i : ℕ) (x : Node)
      → Dict.get i g.nodes ≡ some x
      → (IsBelow g.nodes id i → ⊥)
      → (y : Node) × (Dict.get i rest ≡ some y) × Alike y x

module _ (g : KeyGraph) (t : IsTree g) (id : ℕ) (n : Node) (found : Dict.get id g.nodes ≡ some n)
    (below : (id == g.root) ≡ false) (up : HasParent g.nodes id n) where
  below-IsClosed : IsClosed (IsBelow g.nodes id) (cut g t id n found below up)
  below-IsClosed p x h c e b =
      let child = ((cut-IsCut g t id n found below up).owned p x h c e).0 in
      let was = before g t id n found below up c child.0 child.1 in
      under was.old was.present (sym was.alike.parent ∙ child.2) b

  drained :
      (limit : ℕ)
      → length g.nodes ≤ limit
      → Drained g limit limit (id ∷ []) (cut g t id n found below up) (IsBelow g.nodes id)
  drained limit le =
      drain_lem g limit (IsBelow g.nodes id) limit (id ∷ []) (cut g t id n found below up)
        (cut-IsCut g t id n found below up) below-IsClosed (λ i e. rw (← same i e) here)
        (omega (arith, le, length-cut g t id n found below up))
    where
      same : (i : ℕ) → elem i (id ∷ []) ≡ true → id ≡ i
      same i e = ground (arith, e)

  module _ (limit : ℕ)
      (d : Drained g limit limit (id ∷ []) (cut g t id n found below up) (IsBelow g.nodes id)) where
    pruned_linked :
        (i : ℕ) (x : Node) → Dict.get i d.rest ≡ some x → (i ≡ g.root) ⊎ HasParent d.rest i x
    pruned_linked i x h = elim (d.cut.linked i x h) [
      | inl root ↦ inl root
      | inr (inl waits) ↦ absurd (clash waits)
      | inr (inr p) ↦ inr p
    ]
      where
        clash : false ≡ true → ⊥
        clash h = cc

    pruned-IsTree : IsTree (record g { nodes = d.rest })
    pruned-IsTree = record {
      distinct = d.cut.distinct;
      top = d.cut.top;
      top_present = d.cut.top_present;
      top_parent = d.cut.top_parent;
      top_layer = d.cut.top_layer;
      linked = pruned_linked;
      owned = λ p x h c e. (d.cut.owned p x h c e).0;
      unique = d.cut.unique;
      fresh = λ i x h.
          let was = before g t id n found below up i x (d.old i x h) in
          t.fresh i was.old was.present;
      deep = λ i x h.
          let was = before g t id n found below up i x (d.old i x h) in
          rw was.alike.layer (t.deep i was.old was.present);
      broad = λ i x h.
          let was = before g t id n found below up i x (d.old i x h) in
          omega (arith, was.broad, t.broad i was.old was.present);
      few = omega (arith, d.fewer, length-cut g t id n found below up, t.few);
    }

    -- A node that stays keeps its parent, which stays.
    pruned_parent :
        (i p : ℕ) (x y : Node)
        → Dict.get i g.nodes ≡ some y
        → y.parent ≡ some p
        → Dict.get i d.rest ≡ some x
        → Dict.get p d.rest ≡ none
        → ⊥
    pruned_parent i p x y was edge h away = elim (pruned_linked i x h) [
      | inl root ↦ none-some (
          sym d.cut.top_parent
          ∙ ap (λ (z : Node). z.parent) (some_inj (sym d.cut.top_present ∙ rw root at h))
          ∙ kept_edge)
      | inr q ↦ none-some (sym away ∙ rw (some_inj (sym q.edge ∙ kept_edge)) at q.present)
    ]
      where
        kept_edge : x.parent ≡ some p
        kept_edge =
            let b = before g t id n found below up i x (d.old i x h) in
            b.alike.parent ∙ ap (λ (z : Node). z.parent) (some_inj (sym b.present ∙ was)) ∙ edge

    pruned_gone : (i : ℕ) → IsBelow g.nodes id i → Dict.get i d.rest ≡ none
    pruned_gone _ here = d.gone id (first id [])
    pruned_gone i (under {p = p} y was edge b) = elim (Option-cases (Dict.get i d.rest)) [
      | inl away ↦ away
      | inr (x, h) ↦ absurd (pruned_parent i p x y was edge h (pruned_gone p b))
    ]

    pruned_kept :
        (i : ℕ) (x : Node)
        → Dict.get i g.nodes ≡ some x
        → (IsBelow g.nodes id i → ⊥)
        → (y : Node) × (Dict.get i d.rest ≡ some y) × Alike y x
    pruned_kept i x h out =
        let a = after g t id n found below up i x h in
        (a.new, d.kept i a.new a.present out, a.alike)

  remove_subtree_run :
      (final : Nodes)
      → g.bounds.max_nodes + 1 < u64_size
      → drain
          (g.bounds.max_nodes + 1)
          (g.bounds.max_nodes + 1)
          (id ∷ [])
          (cut g t id n found below up)
        ≡ (final, ok tt)
      → remove_subtree g id ≡ (record g { nodes = final }, ok tt)
  unfolding remove_subtree
  remove_subtree_run final small h =
      rw
        (
          remove_subtree,
          below,
          found,
          lt→ltb (g.bounds.max_nodes + 1) u64_size small,
          unlink_lem g t id n found below up,
          h,
        )
        refl

-- On a tree whose largest count of nodes leaves room for the guard, `remove_subtree` of a present
-- node other than the root returns `ok`, leaves a tree, leaves no node that is the given one or lies
-- under it, and keeps every other node, with its position, layer, parent and epoch.
pub remove_subtree_lem :
    (g : KeyGraph)
    → IsTree g
    → (id : ℕ) (n : Node) → Dict.get id g.nodes ≡ some n
    → (id == g.root) ≡ false
    → g.bounds.max_nodes + 1 < u64_size
    → Pruned g id
remove_subtree_lem g t id n found below small = elim (t.linked id n found) [
  | inl root ↦ absurd (false-true below (ground (arith, root)))
  | inr up ↦
      let limit = g.bounds.max_nodes + 1 in
      let d = drained g t id n found below up limit (omega (arith, t.few)) in
      record {
        rest = d.rest;
        result = remove_subtree_run g t id n found below up d.rest small d.result;
        tree = pruned-IsTree g t id n found below up limit d;
        old = λ i x h.
            let was = before g t id n found below up i x (d.old i x h) in
            (was.old, was.present, was.alike);
        gone = pruned_gone g t id n found below up limit d;
        kept = pruned_kept g t id n found below up limit d;
      }
]
