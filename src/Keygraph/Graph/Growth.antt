-- ===== src/Keygraph/Graph/Growth.antt =====
-- `add_child` of crates/keygraph/src/graph.rs, on each branch.
use overlay_broadcast.Base.{
  ℕ, ◌+◌, ◌≤◌, ◌<◌, true, false, Option, none, some, [], ◌∷◌, ◌++◌, ok, err, ltb, max, ◌==◌, length,
  elem, ◌≡◌, refl, sym, ap, ◌∙◌, ◌⊎◌, inl, inr, arith, Bool-cases, Option-cases, ==_iff,
  length-append,
}
use overlay_broadcast.Base.Dict
use overlay_broadcast.Base.Dict.{nat_eq, get-insert_same, get-insert_other}
use overlay_broadcast.Base.Elems.{Unique, elem-append, push-Unique, elem-last}
use overlay_broadcast.Base.Entries.{
  Distinct-insert, length-insert_new, length-insert_old, get-insert_cases,
}
use overlay_broadcast.Bsv.Cursor.{checked_add, u64_size}
use overlay_broadcast.Keygraph.Graph.{
  KgError, KgResult, Node, KeyGraph, child_of, push_child, is_full, add_child,
}
use overlay_broadcast.Keygraph.Graph.Tree.{IsTree, HasParent, IsChild}

has_room :
    (g : KeyGraph) (n : Node)
    → is_full g n ≡ false
    → (n.layer + 1 ≤ g.bounds.max_depth)
      × (length n.children + 1 ≤ g.bounds.max_breadth)
      × (length g.nodes + 1 ≤ g.bounds.max_nodes)
unfolding is_full
has_room g n h = (ground (arith, h), ground (arith, h), ground (arith, h))

abbrev pub with_child : KeyGraph → ℕ → Node → ℕ → KeyGraph
with_child g p n coord = record g {
  nodes =
      Dict.insert p (record n { children = n.children ++ (g.next_id ∷ []) })
        (Dict.insert g.next_id (child_of p n coord) g.nodes);
  next_id = g.next_id + 1;
}

module _ (g : KeyGraph) (t : IsTree g) (p : ℕ) (n : Node) (coord : ℕ)
    (found : Dict.get p g.nodes ≡ some n) (room : is_full g n ≡ false) where
  abbrev child : Node
  child = child_of p n coord

  abbrev pushed : Node
  pushed = record n { children = n.children ++ (g.next_id ∷ []) }

  abbrev added : KeyGraph
  added = with_child g p n coord

  apart : (i : ℕ) (old : Node) → Dict.get i g.nodes ≡ some old → (g.next_id == i) ≡ false
  apart i old h = ground (arith, t.fresh i old h)

  absent : Dict.get g.next_id g.nodes ≡ none
  absent = elim (Option-cases (Dict.get g.next_id g.nodes)) [
    | inl gone ↦ gone
    | inr (old, h) ↦ absurd (omega (arith, t.fresh g.next_id old h))
  ]

  get-mid :
      (i : ℕ) (old : Node)
      → Dict.get i g.nodes ≡ some old
      → Dict.get i (Dict.insert g.next_id child g.nodes) ≡ some old
  get-mid i old h = get-insert_other g.next_id i child g.nodes (apart i old h) ∙ h

  get-child : Dict.get g.next_id added.nodes ≡ some child
  get-child =
      get-insert_other p g.next_id pushed (Dict.insert g.next_id child g.nodes)
        (ground (arith, t.fresh p n found))
      ∙ get-insert_same g.next_id child g.nodes

  unlisted :
      (i : ℕ) (old : Node) → Dict.get i g.nodes ≡ some old → elem g.next_id old.children ≡ false
  unlisted i old h = elim (Bool-cases (elem g.next_id old.children)) [
    | inr e ↦ e
    | inl e ↦
        let c = t.owned i old h g.next_id e in absurd (omega (arith, t.fresh g.next_id c.0 c.1))
  ]

  -- An entry of the new graph that was there before.
  record Before (i : ℕ) (new : Node) : Type 0 where
    pub old : Node
    pub present : Dict.get i g.nodes ≡ some old
    pub same_parent : new.parent ≡ old.parent
    pub same_layer : new.layer ≡ old.layer
    pub children :
        (c : ℕ)
        → elem c new.children ≡ true
        → (elem c old.children ≡ true) ⊎ ((c ≡ g.next_id) × (p ≡ i))
    pub distinct : Unique new.children
    pub broad : length new.children ≤ g.bounds.max_breadth

  pushed-Before : Before p pushed
  pushed-Before = record {
    old = n;
    present = found;
    same_parent = refl;
    same_layer = refl;
    children = λ c e. elim (Bool-cases (elem c n.children)) [
      | inl here ↦ inl here
      | inr away ↦ inr (ground (arith, elem-append c n.children (g.next_id ∷ []), e, away), refl)
    ];
    distinct = push-Unique g.next_id n.children (t.unique p n found) (unlisted p n found);
    broad = omega (arith, length-append n.children (g.next_id ∷ []), (has_room g n room).1);
  }

  before :
      (i : ℕ) (new : Node)
      → Dict.get i added.nodes ≡ some new
      → ((g.next_id ≡ i) × (child ≡ new)) ⊎ Before i new
  before i new h = elim (get-insert_cases p i pushed new (Dict.insert g.next_id child g.nodes) h) [
    | inl same ↦ inr (rw (← same.0, ← same.1) pushed-Before)
    | inr other ↦ elim (get-insert_cases g.next_id i child new g.nodes other.1) [
      | inl same ↦ inl same
      | inr old ↦ inr (record {
        old = new;
        present = old.1;
        same_parent = refl;
        same_layer = refl;
        children = λ c e. inl e;
        distinct = t.unique i new old.1;
        broad = t.broad i new old.1;
      })
    ]
  ]

  pub with_child_old :
      (i : ℕ) (new : Node)
      → Dict.get i added.nodes ≡ some new
      → (g.next_id ≡ i) ⊎ ((old : Node) × (Dict.get i g.nodes ≡ some old))
  with_child_old i new h = elim (before i new h) [
    | inl same ↦ inl same.0
    | inr b ↦ inr (b.old, b.present)
  ]

  record After (i : ℕ) (old : Node) : Type 0 where
    pub new : Node
    pub present : Dict.get i added.nodes ≡ some new
    pub same_parent : new.parent ≡ old.parent
    pub same_layer : new.layer ≡ old.layer
    pub children : (c : ℕ) → elem c old.children ≡ true → elem c new.children ≡ true

  pushed-After : After p n
  pushed-After = record {
    new = pushed;
    present = get-insert_same p pushed (Dict.insert g.next_id child g.nodes);
    same_parent = refl;
    same_layer = refl;
    children = λ c e. ground (arith, elem-append c n.children (g.next_id ∷ []), e);
  }

  after : (i : ℕ) (old : Node) → Dict.get i g.nodes ≡ some old → After i old
  after i old h = elim (Bool-cases (p == i)) [
    | inl same ↦
        rw (inner (sym found ∙ rw (← (==_iff p i).0 same) at h), ← (==_iff p i).0 same) pushed-After
    | inr other ↦ record {
      new = old;
      present =
          get-insert_other p i pushed (Dict.insert g.next_id child g.nodes) other ∙ get-mid i old h;
      same_parent = refl;
      same_layer = refl;
      children = λ c e. e;
    }
  ]
    where
      inner : ◌≡◌ {A = Option Node} (some n) (some old) → old ≡ n
      inner h = cc

  child-HasParent : HasParent added.nodes g.next_id child
  child-HasParent = record {
    up = p;
    node = pushed;
    edge = refl;
    present = get-insert_same p pushed (Dict.insert g.next_id child g.nodes);
    listed = elem-last g.next_id n.children;
    below = refl;
  }

  kept-HasParent :
      (i : ℕ) (new : Node) (b : Before i new)
      → HasParent g.nodes i b.old
      → HasParent added.nodes i new
  kept-HasParent i new b h =
      let a = after h.up h.node h.present in
      record {
        up = h.up;
        node = a.new;
        edge = b.same_parent ∙ h.edge;
        present = a.present;
        listed = a.children i h.listed;
        below = b.same_layer ∙ h.below ∙ ap (λ x. x + 1) (sym a.same_layer);
      }

  added-linked :
      (i : ℕ) (new : Node)
      → Dict.get i added.nodes ≡ some new
      → (i ≡ g.root) ⊎ HasParent added.nodes i new
  added-linked i new h = elim (before i new h) [
    | inl same ↦ inr (rw (← same.0, ← same.1) child-HasParent)
    | inr b ↦ elim (t.linked i b.old b.present) [
      | inl root ↦ inl root
      | inr up ↦ inr (kept-HasParent i new b up)
    ]
  ]

  kept-IsChild : (i c : ℕ) → IsChild g.nodes i c → IsChild added.nodes i c
  kept-IsChild i c (old, h, edge) =
      let a = after c old h in (a.new, a.present, a.same_parent ∙ edge)

  added-owned :
      (i : ℕ) (new : Node)
      → Dict.get i added.nodes ≡ some new
      → (c : ℕ) → elem c new.children ≡ true
      → IsChild added.nodes i c
  added-owned i new h c e = elim (before i new h) [
    | inl same ↦ absurd (clash (rw (← same.1) at e))
    | inr b ↦ elim (b.children c e) [
      | inl here ↦ kept-IsChild i c (t.owned i b.old b.present c here)
      | inr last ↦ rw (last.0, ← last.1) (child, get-child, refl)
    ]
  ]
    where
      clash : false ≡ true → ⊥
      clash h = cc

  added-each :
      (i : ℕ) (new : Node)
      → Dict.get i added.nodes ≡ some new
      → Unique new.children
        × (i < added.next_id)
        × (new.layer ≤ g.bounds.max_depth)
        × (length new.children ≤ g.bounds.max_breadth)
  added-each i new h = elim (before i new h) [
    | inl same ↦ rw (← same.0, ← same.1) (tt, omega arith, (has_room g n room).0, omega arith)
    | inr b ↦ (
      b.distinct,
      omega (arith, t.fresh i b.old b.present),
      rw b.same_layer (t.deep i b.old b.present),
      b.broad,
    )
  ]

  added-few : length added.nodes ≤ max 1 g.bounds.max_nodes
  added-few = omega (
    arith,
    length-insert_old p pushed n (Dict.insert g.next_id child g.nodes) (get-mid p n found),
    length-insert_new g.next_id child g.nodes absent,
    (has_room g n room).2,
  )

  pub added-IsTree : IsTree added
  added-IsTree =
      let top = after g.root t.top t.top_present in
      record {
        distinct =
            Distinct-insert p pushed (Dict.insert g.next_id child g.nodes)
              (Distinct-insert g.next_id child g.nodes t.distinct);
        top = top.new;
        top_present = top.present;
        top_parent = top.same_parent ∙ t.top_parent;
        top_layer = top.same_layer ∙ t.top_layer;
        linked = added-linked;
        owned = added-owned;
        unique = λ i new h. (added-each i new h).0;
        fresh = λ i new h. (added-each i new h).1;
        deep = λ i new h. (added-each i new h).2;
        broad = λ i new h. (added-each i new h).3;
        few = added-few;
      }

  -- The push finds the parent.
  push_child_lem : push_child (Dict.insert g.next_id child g.nodes) p g.next_id ≡ added.nodes
  unfolding push_child
  push_child_lem = rw (push_child, get-mid p n found) refl

-- A run of `add_child` either leaves the graph as it was, or adds one node as above.
pub data Growth (g : KeyGraph) (p coord : ℕ) : KeyGraph × KgResult ℕ → Type 0 where
  same : {e : KgError} → Growth g p coord (g, err e)
  grown :
      (n : Node)
      → Dict.get p g.nodes ≡ some n
      → is_full g n ≡ false
      → Growth g p coord (with_child g p n coord, ok g.next_id)

pub add_child_cases :
    (g : KeyGraph) → IsTree g → (p coord : ℕ) → Growth g p coord (add_child g p coord)
unfolding add_child
add_child_cases g t p coord = elim (Option-cases (Dict.get p g.nodes)) [
  | inl gone ↦ rw (add_child, gone) same
  | inr (n, found) ↦
      rw (add_child, found)
        (elim (Option-cases (checked_add n.layer 1)) [
          | inl high ↦ rw high same
          | inr (layer, low) ↦ rw low (elim (Bool-cases (is_full g n)) [
            | inl full ↦ rw full same
            | inr room ↦ rw room (elim (Bool-cases (ltb (g.next_id + 1) u64_size)) [
              | inl small ↦ rw (small, push_child_lem g t p n coord found room) (grown n found room)
              | inr large ↦ rw large same
            ])
          ])
        ])
]

Growth-IsTree :
    (g : KeyGraph)
    → IsTree g
    → (p coord : ℕ) (r : KeyGraph × KgResult ℕ) → Growth g p coord r
    → IsTree r.0
Growth-IsTree g t p coord _ same = t
Growth-IsTree g t p coord _ (grown n found room) = added-IsTree g t p n coord found room

pub add_child-IsTree : (g : KeyGraph) → IsTree g → (p coord : ℕ) → IsTree (add_child g p coord).0
add_child-IsTree g t p coord =
    Growth-IsTree g t p coord (add_child g p coord) (add_child_cases g t p coord)
