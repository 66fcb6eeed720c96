-- ===== src/Broadcast/Keyed.antt =====
-- What the methods of crates/broadcast/src/graph.rs keep of a broadcast graph.
use overlay_broadcast.Base.{
  ℕ, ◌+◌, ◌<◌, some, List, length, ◌≡◌, sym, ◌∙◌, inl, inr, Bool-cases, ◌==◌, ==_iff, Option-cases,
  some_inj, none-some,
}
use overlay_broadcast.Base.Dict
use overlay_broadcast.Base.Dict.{nat_eq, get-insert_same, get-insert_other}
use overlay_broadcast.Base.Entries.{Distinct, Distinct-insert, get-insert_cases}
use overlay_broadcast.Bsv.Cursor.{u64_size}
use overlay_broadcast.Keygraph.Graph.{Node, KeyGraph, parent}
use overlay_broadcast.Keygraph.Graph.Tree.{IsTree}
use overlay_broadcast.Keygraph.Graph.Ascent.{root_lem}
use overlay_broadcast.Broadcast.Graph.{Keys, BroadcastGraph}

-- Each node has a key, and each key has 32 bytes.
pub record IsKeyed (g : KeyGraph) (keys : Keys) : Type 0 where
  pub distinct : Distinct keys
  pub sized : (i : ℕ) (k : List ℕ) → Dict.get i keys ≡ some k → length k ≡ 32
  pub keyed :
      (i : ℕ) (n : Node) → Dict.get i g.nodes ≡ some n → (k : List ℕ) × (Dict.get i keys ≡ some k)

pub record IsBroadcast (g : BroadcastGraph) : Type 0 where
  pub tree : IsTree g.graph
  pub is_keyed : IsKeyed g.graph g.keys
  pub few : g.graph.bounds.max_nodes + 1 < u64_size
  pub shallow : g.graph.bounds.max_depth + 2 < u64_size

-- Every key of the dictionary has 32 bytes.
abbrev pub Sized : Keys → Type 0
Sized keys = (i : ℕ) (k : List ℕ) → Dict.get i keys ≡ some k → length k ≡ 32

pub insert-Sized :
    (keys : Keys) (node : ℕ) (key : List ℕ)
    → Sized keys
    → length key ≡ 32
    → Sized (Dict.insert node key keys)
insert-Sized keys node key s size i k found = elim (get-insert_cases node i key k keys found) [
  | inl same ↦ rw (← same.1) size
  | inr other ↦ s i k other.1
]

-- A key that is there stays there, anew or as it was.
pub insert_has :
    (keys : Keys) (node : ℕ) (key : List ℕ) (i : ℕ)
    → (k : List ℕ) × (Dict.get i keys ≡ some k)
    → (k : List ℕ) × (Dict.get i (Dict.insert node key keys) ≡ some k)
insert_has keys node key i (k, has) = elim (Bool-cases (node == i)) [
  | inl same ↦ (key, rw ((==_iff node i).0 same) (get-insert_same i key keys))
  | inr other ↦ (k, get-insert_other node i key keys other ∙ has)
]

pub insert-IsKeyed :
    (g : KeyGraph) (keys : Keys) (node : ℕ) (key : List ℕ)
    → IsKeyed g keys
    → length key ≡ 32
    → IsKeyed g (Dict.insert node key keys)
insert-IsKeyed g keys node key h size = record {
  distinct = Distinct-insert node key keys h.distinct;
  sized = insert-Sized keys node key h.sized size;
  keyed = λ i n found. insert_has keys node key i (h.keyed i n found);
}

-- A node with a parent is present, and so is its parent.
pub parent_lem :
    (g : KeyGraph)
    → IsTree g
    → (i p : ℕ) → parent g i ≡ some p
    → (n : Node) × (Dict.get p g.nodes ≡ some n)
unfolding parent
parent_lem g t i p h = elim (Option-cases (Dict.get i g.nodes)) [
  | inl away ↦ absurd (none-some (rw (parent, away) at h))
  | inr (n, found) ↦
      let edge = rw (parent, found) at h in
      elim (t.linked i n found) [
        | inl root ↦ absurd (none-some (sym (root_lem g t n (rw (← root) found)).0 ∙ edge))
        | inr up ↦ rw (some_inj (sym edge ∙ up.edge)) (up.node, up.present)
      ]
]

pub child_lem :
    (g : KeyGraph) (i p : ℕ) → parent g i ≡ some p → (n : Node) × (Dict.get i g.nodes ≡ some n)
unfolding parent
child_lem g i p h = elim (Option-cases (Dict.get i g.nodes)) [
  | inl away ↦ absurd (none-some (rw (parent, away) at h))
  | inr found ↦ found
]
