-- ===== src/Keygraph/Examples.antt =====
-- Concrete runs on crates/keygraph/src/graph.rs.
use overlay_broadcast.Base.{
  ℕ, none, some, List, [], ◌∷◌, ok, ◌≡◌, refl, ◌⊎◌, length, arith, ◌==◌, false,
}
use overlay_broadcast.Base.Dict
use overlay_broadcast.Base.Dict.{nat_eq}
use overlay_broadcast.Keygraph.Graph.{
  Bounds, Node, KeyGraph, with_root, add_child, remove_subtree, leaf_to_root, verify_invariants,
}
use overlay_broadcast.Keygraph.Graph.Ascent.{IsAscent}
use overlay_broadcast.Keygraph.Graph.Cut.{Alike}
use overlay_broadcast.Keygraph.Graph.Subtree.{IsBelow}
use overlay_broadcast.Keygraph.Graph.Built.{
  Built, start, add, Built-verify_invariants, leaf_to_root-Built, remove_subtree-Built,
}

abbrev bounds : Bounds
bounds = record { max_depth = 3; max_breadth = 2; max_nodes = 6 }

-- The root 0 with the children 1 and 2, and 3 under 1.
unfoldable graph : KeyGraph
graph = (add_child (add_child (add_child (with_root bounds) 0 7).0 0 8).0 1 9).0

graph-Built : Built bounds graph
unfolding graph
graph-Built = add (add (add start 0 7) 0 8) 1 9

abbrev leaf : Node
leaf = record { position = 7 ∷ 9 ∷ []; layer = 2; parent = some 1; children = []; key_epoch = 0 }

abbrev inner : Node
inner = record { position = 7 ∷ []; layer = 1; parent = some 0; children = 3 ∷ []; key_epoch = 0 }

leaf_found : Dict.get 3 graph.nodes ≡ some leaf
unfolding graph with_root add_child Dict.get Dict.insert
leaf_found = refl

inner_found : Dict.get 1 graph.nodes ≡ some inner
unfolding graph with_root add_child Dict.get Dict.insert
inner_found = refl

path_test : leaf_to_root graph 3 ≡ ok (3 ∷ 1 ∷ 0 ∷ [])
unfolding graph with_root add_child leaf_to_root Dict.get Dict.insert
path_test = refl

root_test : (1 == graph.root) ≡ false
unfolding graph with_root add_child Dict.get Dict.insert
root_test = refl

Built-verify_invariants_example : verify_invariants graph ≡ ok tt
Built-verify_invariants_example = Built-verify_invariants bounds graph (omega arith) graph-Built

leaf_to_root-Built_example :
    (path : List ℕ) × (leaf_to_root graph 3 ≡ ok path)
    × IsAscent graph.nodes 3 path
    × (length path ≡ 3)
leaf_to_root-Built_example =
    leaf_to_root-Built bounds graph 3 leaf (omega arith) (omega arith) graph-Built leaf_found

remove_subtree-Built_example :
    ((remove_subtree graph 1).1 ≡ ok tt)
    × ((IsBelow graph.nodes 1 3 × (Dict.get 3 (remove_subtree graph 1).0.nodes ≡ none))
        ⊎ ((¬ IsBelow graph.nodes 1 3)
            × ((y : Node) × (Dict.get 3 (remove_subtree graph 1).0.nodes ≡ some y) × Alike y leaf)))
remove_subtree-Built_example =
    remove_subtree-Built bounds graph 1 inner (omega arith) graph-Built inner_found root_test 3 leaf
      leaf_found
