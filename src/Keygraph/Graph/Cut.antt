-- ===== src/Keygraph/Graph/Cut.antt =====
-- The start of `remove_subtree` of crates/keygraph/src/graph.rs: the parent forgets the node.
use overlay_broadcast.Base.{
  ℕ, ◌+◌, ◌≤◌, true, false, Option, some, [], ◌∷◌, ◌==◌, length, elem, without, ◌≡◌, refl, sym, ap,
  ◌∙◌, ◌⊎◌, inl, inr, arith, Bool-cases, ==_iff,
}
use overlay_broadcast.Base.Dict
use overlay_broadcast.Base.Dict.{nat_eq, get-insert_same, get-insert_other}
use overlay_broadcast.Base.Elems.{Unique, elem-without, without-Unique, length-without}
use overlay_broadcast.Base.Entries.{Distinct-insert, length-insert_old, get-insert_cases}
use overlay_broadcast.Keygraph.Graph.{Node, Nodes, KeyGraph, unlink}
use overlay_broadcast.Keygraph.Graph.Tree.{IsTree, HasParent, IsChild}
use overlay_broadcast.Keygraph.Graph.Removal.{IsCut}

-- Two nodes that differ at most in their children.
pub record Alike (x y : Node) : Type 0 where
  pub position : x.position ≡ y.position
  pub layer : x.layer ≡ y.layer
  pub parent : x.parent ≡ y.parent
  pub key_epoch : x.key_epoch ≡ y.key_epoch

pub alike_refl : (x : Node) → Alike x x
alike_refl x = record { position = refl; layer = refl; parent = refl; key_epoch = refl }

module _ (g : KeyGraph) (t : IsTree g) (id : ℕ) (n : Node) (found : Dict.get id g.nodes ≡ some n)
    (below : (id == g.root) ≡ false) (up : HasParent g.nodes id n) where
  abbrev shorter : Node
  shorter = record up.node { children = without id up.node.children }

  abbrev pub cut : Nodes
  cut = Dict.insert up.up shorter g.nodes

  pub unlink_lem : unlink g.nodes n.parent id ≡ cut
  unfolding unlink
  unlink_lem = rw (unlink, up.edge, up.present) refl

  pub length-cut : length cut ≡ length g.nodes
  length-cut = length-insert_old up.up shorter up.node g.nodes up.present

  pub record Before (i : ℕ) (new : Node) : Type 0 where
    pub old : Node
    pub present : Dict.get i g.nodes ≡ some old
    pub alike : Alike new old
    pub children :
        (c : ℕ)
        → elem c new.children ≡ true
        → (elem c old.children ≡ true) × (((id == c) ≡ false) ⊎ ((up.up == i) ≡ false))
    pub distinct : Unique new.children
    pub broad : length new.children ≤ length old.children

  shorter-Before : Before up.up shorter
  shorter-Before = record {
    old = up.node;
    present = up.present;
    alike = record { position = refl; layer = refl; parent = refl; key_epoch = refl };
    children = λ c e. (
      ground (arith, elem-without c id up.node.children, e),
      inl (ground (arith, elem-without c id up.node.children, e)),
    );
    distinct = without-Unique id up.node.children (t.unique up.up up.node up.present);
    broad = length-without id up.node.children;
  }

  pub before : (i : ℕ) (new : Node) → Dict.get i cut ≡ some new → Before i new
  before i new h = elim (get-insert_cases up.up i shorter new g.nodes h) [
    | inl same ↦ rw (← same.0, ← same.1) shorter-Before
    | inr other ↦ record {
      old = new;
      present = other.1;
      alike = alike_refl new;
      children = λ c e. (e, inr other.0);
      distinct = t.unique i new other.1;
      broad = omega arith;
    }
  ]

  pub record After (i : ℕ) (old : Node) : Type 0 where
    pub new : Node
    pub present : Dict.get i cut ≡ some new
    pub alike : Alike new old
    pub children :
        (c : ℕ) → elem c old.children ≡ true → (id == c) ≡ false → elem c new.children ≡ true

  shorter-After : After up.up up.node
  shorter-After = record {
    new = shorter;
    present = get-insert_same up.up shorter g.nodes;
    alike = record { position = refl; layer = refl; parent = refl; key_epoch = refl };
    children = λ c e other. ground (arith, elem-without c id up.node.children, e, other);
  }

  pub after : (i : ℕ) (old : Node) → Dict.get i g.nodes ≡ some old → After i old
  after i old h = elim (Bool-cases (up.up == i)) [
    | inl same ↦
        rw (inner (sym up.present ∙ rw (← (==_iff up.up i).0 same) at h), ← (==_iff up.up i).0 same)
          shorter-After
    | inr other ↦ record {
      new = old;
      present = get-insert_other up.up i shorter g.nodes other ∙ h;
      alike = alike_refl old;
      children = λ c e apart. e;
    }
  ]
    where
      inner : ◌≡◌ {A = Option Node} (some up.node) (some old) → old ≡ up.node
      inner h = cc

  cut-linked :
      (i : ℕ) (new : Node)
      → Dict.get i cut ≡ some new
      → (i ≡ g.root) ⊎ ((elem i (id ∷ []) ≡ true) ⊎ HasParent cut i new)
  cut-linked i new h =
      let b = before i new h in
      elim (t.linked i b.old b.present) [
        | inl root ↦ inl root
        | inr p ↦ elim (Bool-cases (id == i)) [
          | inl same ↦ inr (inl (ground (arith, same)))
          | inr other ↦
              let a = after p.up p.node p.present in
              inr (
                inr (record {
                  up = p.up;
                  node = a.new;
                  edge = b.alike.parent ∙ p.edge;
                  present = a.present;
                  listed = a.children i p.listed other;
                  below = b.alike.layer ∙ p.below ∙ ap (λ x. x + 1) (sym a.alike.layer);
                }))
        ]
      ]

  -- No other node lists the one that goes.
  only_parent : (q : ℕ) → IsChild g.nodes q id → (up.up == q) ≡ false → ⊥
  only_parent q (x, h, edge) other = ground (arith, other, ==_iff up.up q, same (sym found ∙ h))
    where
      same : ◌≡◌ {A = Option Node} (some n) (some x) → up.up ≡ q
      same e = inner (sym up.edge ∙ ap (λ (y : Node). y.parent) (node e) ∙ edge)
        where
          node : ◌≡◌ {A = Option Node} (some n) (some x) → n ≡ x
          node e = cc

          inner : ◌≡◌ {A = Option ℕ} (some up.up) (some q) → up.up ≡ q
          inner e = cc

  cut-apart :
      (q c : ℕ)
      → IsChild g.nodes q c
      → ((id == c) ≡ false) ⊎ ((up.up == q) ≡ false)
      → elem c (id ∷ []) ≡ false
  cut-apart q c child (inl other) = ground (arith, other)
  cut-apart q c child (inr other) = elim (Bool-cases (id == c)) [
    | inr apart ↦ ground (arith, apart)
    | inl same ↦ absurd (only_parent q (rw (← (==_iff id c).0 same) at child) other)
  ]

  cut-owned :
      (q : ℕ) (new : Node)
      → Dict.get q cut ≡ some new
      → (c : ℕ) → elem c new.children ≡ true
      → IsChild cut q c × (elem c (id ∷ []) ≡ false)
  cut-owned q new h c e =
      let b = before q new h in
      let child = t.owned q b.old b.present c (b.children c e).0 in
      let a = after c child.0 child.1 in
      ((a.new, a.present, a.alike.parent ∙ child.2), cut-apart q c child (b.children c e).1)

  cut-waiting :
      (i : ℕ)
      → elem i (id ∷ []) ≡ true
      → ((x : Node) × (Dict.get i cut ≡ some x)) × ((i == g.root) ≡ false)
  cut-waiting i e = let a = after id n found in rw (← same) ((a.new, a.present), below)
    where
      same : id ≡ i
      same = ground (arith, e)

  pub cut-IsCut : IsCut g (id ∷ []) cut
  cut-IsCut =
      let top = after g.root t.top t.top_present in
      record {
        distinct = Distinct-insert up.up shorter g.nodes t.distinct;
        top = top.new;
        top_present = top.present;
        top_parent = top.alike.parent ∙ t.top_parent;
        top_layer = top.alike.layer ∙ t.top_layer;
        linked = cut-linked;
        owned = cut-owned;
        unique = λ i new h. (before i new h).distinct;
        waiting = cut-waiting;
        apart = (refl, tt);
      }
