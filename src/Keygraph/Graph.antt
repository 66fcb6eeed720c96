-- ===== src/Keygraph/Graph.antt =====
-- crates/keygraph/src/graph.rs and error.rs. A `NodeId` is its number, and `nodes` a dictionary. A
-- method of `&mut self` returns the graph that it leaves, also with an error.
pub mod Tree
pub mod Erasure
pub mod Built
pub mod Subtree
pub mod Cut
pub mod Removal
pub mod Checks
pub mod Ascent
pub mod Growth
use overlay_broadcast.Base.{
  ℕ, zero, suc, ◌+◌, Bool, true, false, Option, none, some, List, [], ◌∷◌, ◌++◌, Result, ok, err,
  ok_or, ◌>>=◌, ltb, leb, ◌==◌, not, ◌||◌, length, elem, without, max, if◌then◌else◌,
}
use overlay_broadcast.Base
use overlay_broadcast.Base.Dict
use overlay_broadcast.Base.Dict.{nat_eq}
use overlay_broadcast.Bsv.Cursor.{checked_add}
use mathlib.Core.List.{reverse}

pub data KgError : Type 0 where
  no_such_node bound_exceeded invariant cycle cannot_remove_root : KgError

abbrev pub KgResult : Type 0 → Type 0
KgResult A = Result KgError A

pub record Bounds : Type 0 where
  pub max_depth : ℕ
  pub max_breadth : ℕ
  pub max_nodes : ℕ

pub record Node : Type 0 where
  pub position : List ℕ
  pub layer : ℕ
  pub parent : Option ℕ
  pub children : List ℕ
  pub key_epoch : ℕ

abbrev pub Nodes : Type 0
Nodes = List (ℕ × Node)

pub record KeyGraph : Type 0 where
  pub nodes : Nodes
  pub root : ℕ
  pub next_id : ℕ
  pub bounds : Bounds

abbrev pub root_node : Node
root_node = record { position = []; layer = 0; parent = none; children = []; key_epoch = 0 }

unfoldable pub with_root : Bounds → KeyGraph
with_root bounds = record {
  nodes = Dict.insert 0 root_node [];
  root = 0;
  next_id = 1;
  bounds = bounds;
}

unfoldable pub node_count : KeyGraph → ℕ
node_count g = length g.nodes

-- `max` over the layers, 0 for no node.
unfoldable pub depth_of : Nodes → ℕ
depth_of [] = 0
depth_of ((_, n) ∷ m) = max n.layer (depth_of m)

unfoldable pub depth : KeyGraph → ℕ
unfolding depth_of
depth g = depth_of g.nodes

abbrev position_of : Option Node → Option (List ℕ)
position_of none = none
position_of (some n) = some n.position

unfoldable pub position : KeyGraph → ℕ → Option (List ℕ)
position g id = position_of (Dict.get id g.nodes)

abbrev pub parent_of : Option Node → Option ℕ
parent_of none = none
parent_of (some n) = n.parent

unfoldable pub parent : KeyGraph → ℕ → Option ℕ
parent g id = parent_of (Dict.get id g.nodes)

abbrev epoch_of : Option Node → ℕ
epoch_of none = 0
epoch_of (some n) = n.key_epoch

unfoldable pub root_epoch : KeyGraph → ℕ
root_epoch g = epoch_of (Dict.get g.root g.nodes)

-- The node that `add_child` inserts.
abbrev pub child_of : ℕ → Node → ℕ → Node
child_of parent_id parent coord = record {
  position = parent.position ++ (coord ∷ []);
  layer = parent.layer + 1;
  parent = some parent_id;
  children = [];
  key_epoch = 0;
}

-- The push to the children of the parent, if it is there.
unfoldable pub push_child : Nodes → ℕ → ℕ → Nodes
push_child m parent_id id = elim (Dict.get parent_id m) [
  | none ↦ m
  | some p ↦ Dict.insert parent_id (record p { children = p.children ++ (id ∷ []) }) m
]

unfoldable pub is_full : KeyGraph → Node → Bool
is_full g parent =
    ltb g.bounds.max_depth (parent.layer + 1)
    || leb g.bounds.max_breadth (length parent.children)
    || leb g.bounds.max_nodes (length g.nodes)

unfoldable pub add_child : KeyGraph → ℕ → ℕ → KeyGraph × KgResult ℕ
unfolding push_child is_full
add_child g parent_id coord = elim (Dict.get parent_id g.nodes) [
  | none ↦ (g, err no_such_node)
  | some parent ↦ elim (checked_add parent.layer 1) [
    | none ↦ (g, err bound_exceeded)
    | some layer ↦
        if is_full g parent then (g, err bound_exceeded) else (elim (checked_add g.next_id 1) [
          | none ↦ (g, err bound_exceeded)
          | some next_id ↦ (
            record g {
              nodes =
                  push_child (Dict.insert g.next_id (child_of parent_id parent coord) g.nodes)
                    parent_id g.next_id;
              next_id = next_id;
            },
            ok g.next_id,
          )
        ])
  ]
]

unfoldable pub replace_root : KeyGraph → KeyGraph × KgResult ℕ
replace_root g = elim (Dict.get g.root g.nodes) [
  | none ↦ (g, err no_such_node)
  | some root ↦ elim (checked_add root.key_epoch 1) [
    | none ↦ (g, err bound_exceeded)
    | some epoch ↦ (
      record g { nodes = Dict.insert g.root (record root { key_epoch = epoch }) g.nodes },
      ok epoch,
    )
  ]
]

-- The `retain` on the children of the parent, if it is there.
unfoldable pub unlink : Nodes → Option ℕ → ℕ → Nodes
unlink m none id = m
unlink m (some parent_id) id = elim (Dict.get parent_id m) [
  | none ↦ m
  | some p ↦ Dict.insert parent_id (record p { children = without id p.children }) m
]

-- The loop of `remove_subtree`. `left` is what `guard` lacks of `limit`, which is `max_nodes + 1`,
-- and the top of the stack stands first. At the limit, the next `guard` is an error, whether it
-- passes 64 bits or not.
unfoldable pub drain : ℕ → ℕ → List ℕ → Nodes → Nodes × KgResult (Unit {0})
drain limit left [] m = (m, ok tt)
drain limit zero (current ∷ stack) m =
    (m, err (elim (checked_add limit 1) [ none ↦ bound_exceeded | some _ ↦ cycle ]))
drain limit (suc left) (current ∷ stack) m = elim (Dict.get current m) [
  | none ↦ drain limit left stack m
  | some n ↦ drain limit left (reverse n.children ++ stack) (Dict.remove current m)
]

unfoldable pub remove_subtree : KeyGraph → ℕ → KeyGraph × KgResult (Unit {0})
unfolding unlink drain
remove_subtree g id =
    if id == g.root then (g, err cannot_remove_root) else (elim (Dict.get id g.nodes) [
      | none ↦ (g, err no_such_node)
      | some n ↦
          (let m = unlink g.nodes n.parent id in
            elim (checked_add g.bounds.max_nodes 1) [
              | none ↦ (record g { nodes = m }, err bound_exceeded)
              | some limit ↦
                  (let drained = drain limit limit (id ∷ []) m in
                    (record g { nodes = drained.0 }, drained.1))
            ])
    ])

-- The loop of `leaf_to_root`. `left` is what the length of the path lacks of `max_steps + 1`.
unfoldable pub climb : Nodes → ℕ → List ℕ → Option ℕ → KgResult (List ℕ)
climb m left path none = ok path
climb m zero path (some id) = err cycle
climb m (suc left) path (some id) = elim (Dict.get id m) [
  | none ↦ err no_such_node
  | some n ↦ climb m left (path ++ (id ∷ [])) n.parent
]

unfoldable pub leaf_to_root : KeyGraph → ℕ → KgResult (List ℕ)
unfolding climb
leaf_to_root g id =
    Base.◌>>=◌ (ok_or (checked_add g.bounds.max_depth 2) bound_exceeded)
      λ max_steps. climb g.nodes (max_steps + 1) [] (some id)

unfoldable pub reachable_set : KeyGraph → ℕ → KgResult (List ℕ)
reachable_set g id = leaf_to_root g id

-- The list is extended up to the layer, and the node pushed there.
unfoldable pub push_layer : ℕ → ℕ → List (List ℕ) → List (List ℕ)
push_layer zero id [] = (id ∷ []) ∷ []
push_layer zero id (l ∷ layers) = (l ++ (id ∷ [])) ∷ layers
push_layer (suc n) id [] = [] ∷ push_layer n id []
push_layer (suc n) id (l ∷ layers) = l ∷ push_layer n id layers

-- The loop of `layers` over the nodes that are left.
unfoldable pub layers_from : List (List ℕ) → Nodes → List (List ℕ)
unfolding push_layer
layers_from layers [] = layers
layers_from layers ((id, n) ∷ m) = layers_from (push_layer n.layer id layers) m

unfoldable pub layers : KeyGraph → List (List ℕ)
unfolding layers_from
layers g = layers_from [] g.nodes

-- The checks of `verify_invariants` on one entry; the result is the count of the roots.
unfoldable pub check_node : KeyGraph → ℕ → ℕ × Node → KgResult ℕ
check_node g roots (id, node) = elim node.parent [
  | none ↦
      Base.◌>>=◌ (ok_or (checked_add roots 1) invariant)
        λ roots. if not (id == g.root) then err invariant else ok roots
  | some parent_id ↦
      Base.◌>>=◌ (ok_or (Dict.get parent_id g.nodes) invariant)
        λ parent. if not (elem id parent.children) then err invariant else ok roots
]

unfoldable pub check_nodes : KeyGraph → ℕ → Nodes → KgResult ℕ
unfolding check_node
check_nodes g roots [] = ok roots
check_nodes g roots (x ∷ m) = Base.◌>>=◌ (check_node g roots x) λ roots. check_nodes g roots m

unfoldable pub verify_invariants : KeyGraph → KgResult (Unit {0})
unfolding check_nodes
verify_invariants g =
    Base.◌>>=◌ (check_nodes g 0 g.nodes) λ roots. if roots == 1 then ok tt else err invariant
