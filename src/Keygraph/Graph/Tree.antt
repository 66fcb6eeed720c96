-- ===== src/Keygraph/Graph/Tree.antt =====
-- What the methods of crates/keygraph/src/graph.rs keep of a graph: its nodes are a tree under the
-- root, within the bounds.
use overlay_broadcast.Base.{
  ℕ, ◌+◌, ◌≤◌, ◌<◌, true, false, Option, none, some, [], max, ◌==◌, length, elem, ◌≡◌, refl, sym,
  ap, ◌∙◌, ◌⊎◌, inl, inr, arith, Bool-cases, Option-cases, ==_iff,
}
use overlay_broadcast.Base.Dict
use overlay_broadcast.Base.Dict.{nat_eq, get-insert_same, get-insert_other}
use overlay_broadcast.Base.Elems.{Unique}
use overlay_broadcast.Base.Entries.{Distinct, Distinct-insert, length-insert_old, get-insert_cases}
use overlay_broadcast.Bsv.Cursor.{checked_add}
use overlay_broadcast.Keygraph.Graph.{
  Bounds, Node, Nodes, KeyGraph, root_node, with_root, replace_root,
}

-- The parent of the node `i` is present, lists it, and is one layer above.
pub record HasParent (m : Nodes) (i : ℕ) (n : Node) : Type 0 where
  pub up : ℕ
  pub node : Node
  pub edge : n.parent ≡ some up
  pub present : Dict.get up m ≡ some node
  pub listed : elem i node.children ≡ true
  pub below : n.layer ≡ node.layer + 1

-- The node `c` is present with the parent `p`.
abbrev pub IsChild : Nodes → ℕ → ℕ → Type 0
IsChild m p c = (n : Node) × (Dict.get c m ≡ some n) × (n.parent ≡ some p)

pub record IsTree (g : KeyGraph) : Type 0 where
  pub distinct : Distinct g.nodes
  pub top : Node
  pub top_present : Dict.get g.root g.nodes ≡ some top
  pub top_parent : top.parent ≡ none
  pub top_layer : top.layer ≡ 0
  pub linked :
      (i : ℕ) (n : Node) → Dict.get i g.nodes ≡ some n → (i ≡ g.root) ⊎ HasParent g.nodes i n
  pub owned :
      (p : ℕ) (n : Node)
      → Dict.get p g.nodes ≡ some n
      → (c : ℕ) → elem c n.children ≡ true
      → IsChild g.nodes p c
  pub unique : (p : ℕ) (n : Node) → Dict.get p g.nodes ≡ some n → Unique n.children
  pub fresh : (i : ℕ) (n : Node) → Dict.get i g.nodes ≡ some n → i < g.next_id
  pub deep : (i : ℕ) (n : Node) → Dict.get i g.nodes ≡ some n → n.layer ≤ g.bounds.max_depth
  pub broad :
      (i : ℕ) (n : Node) → Dict.get i g.nodes ≡ some n → length n.children ≤ g.bounds.max_breadth
  pub few : length g.nodes ≤ max 1 g.bounds.max_nodes

-- The only entry of the first graph.
first_lem :
    (i : ℕ) (n : Node)
    → Dict.get i (Dict.insert 0 root_node []) ≡ some n
    → (i ≡ 0) × (root_node ≡ n)
unfolding Dict.get Dict.insert
first_lem i n h = elim (Bool-cases (0 == i)) [
  | inl same ↦ (sym ((==_iff 0 i).0 same), cc)
  | inr other ↦ absurd (cc)
]

pub with_root-IsTree : (b : Bounds) → IsTree (with_root b)
unfolding with_root Distinct Dict.get Dict.insert
with_root-IsTree b = record {
  distinct = (refl, tt);
  top = root_node;
  top_present = refl;
  top_parent = refl;
  top_layer = refl;
  linked = λ i n h. inl (first_lem i n h).0;
  owned = λ p n h c e. absurd (clash (rw (← (first_lem p n h).1) at e));
  unique = λ p n h. rw (← (first_lem p n h).1) tt;
  fresh = λ i n h. rw (first_lem i n h).0 (omega arith);
  deep = λ i n h. rw (← (first_lem i n h).1) (omega arith);
  broad = λ i n h. rw (← (first_lem i n h).1) (omega arith);
  few = omega arith;
}
  where
    clash : false ≡ true → ⊥
    clash h = cc

-- A node written anew, with the same edges.
module _ (g : KeyGraph) (t : IsTree g) (k : ℕ) (n n' : Node) (found : Dict.get k g.nodes ≡ some n)
    (parent : n'.parent ≡ n.parent) (layer : n'.layer ≡ n.layer)
    (children : n'.children ≡ n.children) where
  abbrev rewritten : KeyGraph
  rewritten = record g { nodes = Dict.insert k n' g.nodes }

  -- Each entry was there before, with the same edges.
  record Before (i : ℕ) (new : Node) : Type 0 where
    pub old : Node
    pub present : Dict.get i g.nodes ≡ some old
    pub same_parent : new.parent ≡ old.parent
    pub same_layer : new.layer ≡ old.layer
    pub same_children : new.children ≡ old.children

  before : (i : ℕ) (new : Node) → Dict.get i rewritten.nodes ≡ some new → Before i new
  before i new h = elim (get-insert_cases k i n' new g.nodes h) [
    | inl same ↦ record {
      old = n;
      present = rw (← same.0) found;
      same_parent = ap (λ (x : Node). x.parent) (sym same.1) ∙ parent;
      same_layer = ap (λ (x : Node). x.layer) (sym same.1) ∙ layer;
      same_children = ap (λ (x : Node). x.children) (sym same.1) ∙ children;
    }
    | inr other ↦ record {
      old = new;
      present = other.1;
      same_parent = refl;
      same_layer = refl;
      same_children = refl;
    }
  ]

  record After (i : ℕ) (old : Node) : Type 0 where
    pub new : Node
    pub present : Dict.get i rewritten.nodes ≡ some new
    pub same_parent : new.parent ≡ old.parent
    pub same_layer : new.layer ≡ old.layer
    pub same_children : new.children ≡ old.children

  after : (i : ℕ) (old : Node) → Dict.get i g.nodes ≡ some old → After i old
  after i old h = elim (Bool-cases (k == i)) [
    | inl same ↦
        let e = inner (sym found ∙ rw (← (==_iff k i).0 same) at h) in
        record {
          new = n';
          present = rw (← (==_iff k i).0 same) (get-insert_same k n' g.nodes);
          same_parent = parent ∙ ap (λ (x : Node). x.parent) e;
          same_layer = layer ∙ ap (λ (x : Node). x.layer) e;
          same_children = children ∙ ap (λ (x : Node). x.children) e;
        }
    | inr other ↦ record {
      new = old;
      present = get-insert_other k i n' g.nodes other ∙ h;
      same_parent = refl;
      same_layer = refl;
      same_children = refl;
    }
  ]
    where
      inner : ◌≡◌ {A = Option Node} (some n) (some old) → n ≡ old
      inner h = cc

  rewritten-HasParent :
      (i : ℕ) (new : Node) (b : Before i new)
      → HasParent g.nodes i b.old
      → HasParent rewritten.nodes i new
  rewritten-HasParent i new b p =
      let a = after p.up p.node p.present in
      record {
        up = p.up;
        node = a.new;
        edge = b.same_parent ∙ p.edge;
        present = a.present;
        listed = rw a.same_children p.listed;
        below = b.same_layer ∙ p.below ∙ ap (λ x. x + 1) (sym a.same_layer);
      }

  pub rewritten-IsTree : IsTree rewritten
  rewritten-IsTree =
      let top = after g.root t.top t.top_present in
      record {
        distinct = Distinct-insert k n' g.nodes t.distinct;
        top = top.new;
        top_present = top.present;
        top_parent = top.same_parent ∙ t.top_parent;
        top_layer = top.same_layer ∙ t.top_layer;
        linked = λ i new h.
            let b = before i new h in
            elim (t.linked i b.old b.present) [
              | inl root ↦ inl root
              | inr p ↦ inr (rewritten-HasParent i new b p)
            ];
        owned = λ i new h c e.
            let b = before i new h in
            let child = t.owned i b.old b.present c (rw (← b.same_children) e) in
            let a = after c child.0 child.1 in (a.new, a.present, a.same_parent ∙ child.2);
        unique =
            λ i new h. let b = before i new h in rw b.same_children (t.unique i b.old b.present);
        fresh = λ i new h. t.fresh i (before i new h).old (before i new h).present;
        deep = λ i new h. let b = before i new h in rw b.same_layer (t.deep i b.old b.present);
        broad = λ i new h. let b = before i new h in rw b.same_children (t.broad i b.old b.present);
        few = rw (length-insert_old k n' n g.nodes found) t.few;
      }

pub replace_root-IsTree : (g : KeyGraph) → IsTree g → IsTree (replace_root g).0
unfolding replace_root
replace_root-IsTree g t =
    rw (replace_root, t.top_present)
      (elim (Option-cases (checked_add t.top.key_epoch 1)) [
        | inl full ↦ rw full t
        | inr (epoch, next) ↦ rw next (
            rewritten-IsTree g t g.root t.top (record t.top { key_epoch = epoch }) t.top_present
              refl refl refl)
      ])
