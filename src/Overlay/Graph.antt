-- ===== src/Overlay/Graph.antt =====
-- crates/overlay/src/graph.rs. A `Position` is its coordinates, a name its bytes.
use overlay_broadcast.Base.{ℕ, List, ok_or, map_err}
use overlay_broadcast.Keygraph.Graph.{Bounds, KeyGraph, with_root, add_child, position}
use overlay_broadcast.Overlay.Keys.{OverlayResult, graph, unknown_position}

pub data OverlayNetwork : Type 0 where
  metanet : OverlayNetwork
  generic : List ℕ → OverlayNetwork

pub record OverlayGraph : Type 0 where
  pub keygraph : KeyGraph
  pub network : OverlayNetwork

unfoldable pub new : OverlayNetwork → Bounds → OverlayGraph
new network bounds = record { keygraph = with_root bounds; network = network }

unfoldable pub root : OverlayGraph → ℕ
root o = o.keygraph.root

unfoldable pub add_node : OverlayGraph → ℕ → ℕ → OverlayGraph × OverlayResult ℕ
add_node o parent coord =
    let added = add_child o.keygraph parent coord in
    (record o { keygraph = added.0 }, map_err graph added.1)

unfoldable pub position_of : OverlayGraph → ℕ → OverlayResult (List ℕ)
position_of o id = ok_or (position o.keygraph id) unknown_position
