-- ===== src/Broadcast/Build.antt =====
-- crates/broadcast/src/graph.rs: `build`.
use overlay_broadcast.Base.{
  ℕ, zero, suc, ◌+◌, ◌*◌, ◌≤◌, Bool, true, false, Option, none, some, List, [], ◌∷◌, ◌++◌, Result,
  ok, err, ok_or, ◌>>=◌, ltb, leb, ◌==◌, not, ◌&&◌, ◌||◌, length, elem, map_err, then_with, drop,
  get_elem?, ◌^◌, if◌then◌else◌, ◌/◌, ◌%◌, map,
}
use overlay_broadcast.Base
use overlay_broadcast.Base.Dict
use overlay_broadcast.Base.Dict.{nat_eq}
use overlay_broadcast.Bsv.Cursor.{u64_size}
use overlay_broadcast.Keygraph.Graph.{KgResult, KeyGraph, with_root, add_child, layers}
use overlay_broadcast.Cipher.Primitives.{Primitives}
use overlay_broadcast.Broadcast.Graph.{
  BcsResult, Keys, BroadcastGraph, bad_structure, graph_error, random_key,
}

-- The lists one after the other.
abbrev pub flatten : List (List ℕ) → List ℕ
flatten [] = []
flatten (l ∷ ls) = l ++ flatten ls

-- The two children of a node, and those of a level.
unfoldable pub grow_node : KeyGraph → ℕ → KeyGraph × KgResult (List ℕ)
grow_node g node =
    then_with (add_child g node 0)
      λ first g. then_with (add_child g node 1) λ second g. (g, ok (first ∷ second ∷ []))

unfoldable pub grow_level : KeyGraph → List ℕ → KeyGraph × KgResult (List ℕ)
unfolding grow_node
grow_level g [] = (g, ok [])
grow_level g (node ∷ nodes) =
    then_with (grow_node g node)
      λ first g. then_with (grow_level g nodes) λ rest g. (g, ok (first ++ rest))

-- The loop of `build_binary` over the levels that are left.
unfoldable pub grow_levels : ℕ → KeyGraph → List ℕ → KeyGraph × KgResult (List ℕ)
unfolding grow_level
grow_levels zero g current = (g, ok current)
grow_levels (suc depth) g current =
    then_with (grow_level g current) λ next g. grow_levels depth g next

-- `usize::trailing_zeros`, which looks at 64 bits.
unfoldable pub trailing_zeros : ℕ → ℕ → ℕ
trailing_zeros zero n = 0
trailing_zeros (suc bits) n =
    let rest = trailing_zeros bits (n / 2) in if n % 2 == 1 then 0 else suc rest

unfoldable pub build_binary : KeyGraph → ℕ → KeyGraph × KgResult (List ℕ)
unfolding grow_levels trailing_zeros
build_binary g n_users = grow_levels (trailing_zeros 64 n_users) g (g.root ∷ [])

-- `usize::is_power_of_two`
abbrev pub is_power_of_two : ℕ → Bool
is_power_of_two n = 2 ^ trailing_zeros 64 n == n

-- The loop over the users that are left, the first of which has the given index.
unfoldable pub leaves_of : List ℕ → ℕ → List ℕ → List (ℕ × ℕ) → BcsResult (List (ℕ × ℕ))
leaves_of leaves index [] user_leaves = ok user_leaves
leaves_of leaves index (user ∷ users) user_leaves =
    Base.◌>>=◌ (ok_or (get_elem? leaves index) bad_structure)
      λ leaf. leaves_of leaves (suc index) users (Dict.insert user leaf user_leaves)

module _ {Point : Type 0} (p : Primitives Point) where
  -- The keys of the nodes, drawn one by one.
  unfoldable pub keys_for : List ℕ → Keys → ℕ → ℕ × BcsResult Keys
  unfolding random_key
  keys_for [] keys i = (i, ok keys)
  keys_for (node ∷ nodes) keys i =
      then_with (random_key p i) λ key i. keys_for nodes (Dict.insert node key keys) i

  -- `build` after its check of the count of the users.
  unfoldable pub build_of : List ℕ → ℕ → ℕ → ℕ × BcsResult BroadcastGraph
  unfolding build_binary keys_for leaves_of
  build_of user_ids max_nodes i =
      let built =
        build_binary (with_root (record { max_depth = 64; max_breadth = 8; max_nodes = max_nodes }))
          (length user_ids) in
      then_with (i, map_err graph_error built.1)
        λ leaves i. then_with (keys_for (flatten (layers built.0)) [] i) λ keys i. (
          i,
          Base.◌>>=◌ (leaves_of leaves 0 user_ids []) λ user_leaves.
              ok (record { graph = built.0; keys = keys; user_leaves = user_leaves }),
        )

  unfoldable pub build : List ℕ → ℕ → ℕ × BcsResult BroadcastGraph
  unfolding build_of
  build user_ids i =
      let n = length user_ids in
      if n == 0 || not (is_power_of_two n)
      then (i, err bad_structure)
      else if ltb (n * 4) u64_size
      then build_of user_ids (n * 4) i
      else (i, err bad_structure)
