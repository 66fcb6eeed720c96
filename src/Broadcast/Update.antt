-- ===== src/Broadcast/Update.antt =====
-- crates/broadcast/src/graph.rs: `leave` and `join`.
use overlay_broadcast.Base.{
  ℕ, none, some, List, [], ◌∷◌, ◌++◌, ok, err, ok_or, ltb, length, map_err, then_with, ◌^◌,
  if◌then◌else◌,
}
use overlay_broadcast.Base.Dict
use overlay_broadcast.Base.Dict.{nat_eq}
use overlay_broadcast.Keygraph.Graph.{add_child, remove_subtree}
use overlay_broadcast.Cipher.Primitives.{Primitives}
use overlay_broadcast.Cipher.Keywrap.{wrap}
use overlay_broadcast.Broadcast.Graph.{
  BcsResult, Keys, BroadcastGraph, RekeyMessage, RekeyResult, bad_structure, missing_key,
  not_eligible, graph_error, children_of, ancestors_of, random_key, cipher_of,
}

-- A draw beside the graph.
abbrev pub lifted :
    {A : Type 0} → BroadcastGraph → ℕ × BcsResult A → (BroadcastGraph × ℕ) × BcsResult A
lifted g (i, r) = ((g, i), r)

module _ {Point : Type 0} (p : Primitives Point) where
  -- The messages of one rotated node, over its children that are left.
  unfoldable pub messages_of : Keys → ℕ → List ℕ → List ℕ → ℕ → ℕ × BcsResult (List RekeyMessage)
  messages_of keys node new_key [] i = (i, ok [])
  messages_of keys node new_key (child ∷ children) i = elim (Dict.get child keys) [
    | none ↦ (i, err missing_key)
    | some under ↦ then_with (cipher_of (wrap p under new_key i)) λ wrapped i.
        then_with (messages_of keys node new_key children i) λ rest i.
          (i, ok (record { new_key_node = node; under_node = child; wrapped = wrapped } ∷ rest))
  ]

  -- The loop of `rotate_and_rekey`. The keys that are rotated before an error stay so.
  unfoldable pub rotate :
      BroadcastGraph → List ℕ → ℕ → (BroadcastGraph × ℕ) × BcsResult (List RekeyMessage)
  unfolding children_of messages_of
  rotate g [] i = ((g, i), ok [])
  rotate g (node ∷ ancestors) i = then_with (lifted g (random_key p i)) λ new_key s.
      then_with (lifted g (messages_of g.keys node new_key (children_of g node) s.1)) λ first s.
        then_with (rotate (record g { keys = Dict.insert node new_key g.keys }) ancestors s.1)
          λ rest s. (s, ok (first ++ rest))

  unfoldable pub rotate_and_rekey :
      BroadcastGraph → List ℕ → ℕ → (BroadcastGraph × ℕ) × BcsResult RekeyResult
  unfolding rotate
  rotate_and_rekey g ancestors i =
      then_with (rotate g ancestors i)
        λ messages s. (s, ok (record { replaced = ancestors; messages = messages }))

  -- `leave` after the path is found.
  unfoldable pub leave_at :
      BroadcastGraph → ℕ → ℕ → List ℕ → ℕ → (BroadcastGraph × ℕ) × BcsResult RekeyResult
  unfolding rotate_and_rekey
  leave_at g user leaf ancestors i =
      let removed = remove_subtree g.graph leaf in
      then_with ((record g { graph = removed.0 }, i), map_err graph_error removed.1)
        λ _ s.
          rotate_and_rekey
            (record s.0 {
              user_leaves = Dict.remove user g.user_leaves;
              keys = Dict.remove leaf g.keys;
            })
            ancestors s.1

  unfoldable pub leave : BroadcastGraph → ℕ → ℕ → (BroadcastGraph × ℕ) × BcsResult RekeyResult
  unfolding leave_at ancestors_of
  leave g user i =
      then_with ((g, i), ok_or (Dict.get user g.user_leaves) not_eligible)
        λ leaf s.
          then_with (s, ancestors_of g leaf) λ ancestors s. leave_at g user leaf ancestors s.1

  -- `join` after the leaf is added.
  unfoldable pub join_at :
      BroadcastGraph → ℕ → ℕ → ℕ → (BroadcastGraph × ℕ) × BcsResult (RekeyResult × List ℕ)
  unfolding rotate_and_rekey ancestors_of
  join_at g user leaf i = then_with (lifted g (random_key p i)) λ leaf_key s.
      let g = record g {
        keys = Dict.insert leaf leaf_key g.keys;
        user_leaves = Dict.insert user leaf g.user_leaves;
      } in
      then_with ((g, s.1), ancestors_of g leaf)
        λ ancestors s.
          then_with (rotate_and_rekey g ancestors s.1) λ result s. (s, ok (result, leaf_key))

  unfoldable pub join :
      BroadcastGraph → ℕ → ℕ → ℕ → (BroadcastGraph × ℕ) × BcsResult (RekeyResult × List ℕ)
  unfolding join_at children_of
  join g user sponsor i =
      let coord = length (children_of g sponsor) in
      if ltb coord (2 ^ 32)
      then (let added = add_child g.graph sponsor coord in
          then_with ((record g { graph = added.0 }, i), map_err graph_error added.1)
            λ leaf s. join_at s.0 user leaf s.1)
      else ((g, i), err bad_structure)
