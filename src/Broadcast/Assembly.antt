-- ===== src/Broadcast/Assembly.antt =====
-- `build` of crates/broadcast/src/graph.rs.
use overlay_broadcast.Base.{
  ℕ, zero, suc, ◌+◌, ◌*◌, ◌<◌, true, false, some, List, [], ◌∷◌, ◌++◌, ok, map_err, then_with_keeps,
  then_with-eq-ok, >>=-eq-ok, ok_inj, err_ok, none-some, ltb, ltb→lt, not, ◌||◌, length, elem, ◌≡◌,
  refl, ap, ◌∙◌, inl, inr, arith, Bool-cases, ==_iff, ◌==◌,
}
use overlay_broadcast.Base.Dict
use overlay_broadcast.Base.Dict.{nat_eq, get-insert_same, get-insert_other}
use overlay_broadcast.Base.Elems.{elem-append}
use overlay_broadcast.Base.Entries.{Distinct, Distinct-insert}
use overlay_broadcast.Bsv.Cursor.{u64_size}
use overlay_broadcast.Keygraph.Graph.{
  Bounds, Node, Nodes, KeyGraph, add_child, with_root, push_layer, layers_from, layers,
}
use overlay_broadcast.Keygraph.Graph.Tree.{IsTree, with_root-IsTree}
use overlay_broadcast.Keygraph.Graph.Growth.{add_child-IsTree}
use overlay_broadcast.Keygraph.Graph.Erasure.{add_child-bounds}
use overlay_broadcast.Cipher.Primitives.{Primitives, Available}
use overlay_broadcast.Broadcast.Graph.{Keys, BroadcastGraph, graph_error, random_key}
use overlay_broadcast.Broadcast.Build.{
  flatten, grow_node, grow_level, grow_levels, trailing_zeros, build_binary, leaves_of, keys_for,
  build_of, build, is_power_of_two,
}
use overlay_broadcast.Broadcast.Keyed.{IsBroadcast, Sized, insert-Sized, insert_has}
use overlay_broadcast.Broadcast.Rotation.{random_key_size}

-- `layers` has each node.
elem-push_layer :
    (i n id : ℕ) (ls : List (List ℕ))
    → elem i (flatten (push_layer n id ls)) ≡ (elem i (flatten ls) || id == i)
unfolding push_layer
elem-push_layer i zero id [] = ground arith
elem-push_layer i zero id (l ∷ ls) = ground (
  arith,
  elem-append i (l ++ (id ∷ [])) (flatten ls),
  elem-append i l (id ∷ []),
  elem-append i l (flatten ls),
)
elem-push_layer i (suc n) id [] = elem-push_layer i n id []
elem-push_layer i (suc n) id (l ∷ ls) = ground (
  arith,
  elem-append i l (flatten (push_layer n id ls)),
  elem-append i l (flatten ls),
  elem-push_layer i n id ls,
)

layers_keep :
    (i : ℕ) (ls : List (List ℕ)) (m : Nodes)
    → elem i (flatten ls) ≡ true
    → elem i (flatten (layers_from ls m)) ≡ true
unfolding layers_from
layers_keep i ls [] h = h
layers_keep i ls ((id, n) ∷ m) h =
    layers_keep i (push_layer n.layer id ls) m (ground (arith, elem-push_layer i n.layer id ls, h))

elem-layers_from :
    (i : ℕ) (n : Node) (ls : List (List ℕ)) (m : Nodes)
    → Dict.get i m ≡ some n
    → elem i (flatten (layers_from ls m)) ≡ true
unfolding layers_from Dict.get
elem-layers_from i n ls [] h = absurd (none-some h)
elem-layers_from i n ls ((id, x) ∷ m) h = elim (Bool-cases (id == i)) [
  | inl same ↦
      layers_keep i (push_layer x.layer id ls) m
        (ground (arith, elem-push_layer i x.layer id ls, same))
  | inr other ↦ elem-layers_from i n (push_layer x.layer id ls) m (rw other at h)
]

-- A tree with the given bounds.
abbrev TreeIn : Bounds → KeyGraph → Type 0
TreeIn b g = IsTree g × (g.bounds ≡ b)

add_child-TreeIn :
    (b : Bounds) (g : KeyGraph) (q coord : ℕ) → TreeIn b g → TreeIn b (add_child g q coord).0
add_child-TreeIn b g q coord t = (add_child-IsTree g t.0 q coord, add_child-bounds g q coord ∙ t.1)

grow_node-TreeIn :
    (b : Bounds) (g : KeyGraph) (node : ℕ) → TreeIn b g → TreeIn b (grow_node g node).0
unfolding grow_node
grow_node-TreeIn b g node t =
    then_with_keeps (TreeIn b) (add_child g node 0) _ (add_child-TreeIn b g node 0 t) λ first h e k.
      then_with_keeps (TreeIn b) (add_child h node 1) _ (add_child-TreeIn b h node 1 k)
        λ second h e k. k

grow_level-TreeIn :
    (b : Bounds) (g : KeyGraph) (nodes : List ℕ) → TreeIn b g → TreeIn b (grow_level g nodes).0
unfolding grow_level
grow_level-TreeIn b g [] t = t
grow_level-TreeIn b g (node ∷ nodes) t =
    then_with_keeps (TreeIn b) (grow_node g node) _ (grow_node-TreeIn b g node t) λ first h e k.
      then_with_keeps (TreeIn b) (grow_level h nodes) _ (grow_level-TreeIn b h nodes k)
        λ rest h e k. k

grow_levels-TreeIn :
    (b : Bounds) (depth : ℕ) (g : KeyGraph) (current : List ℕ)
    → TreeIn b g
    → TreeIn b (grow_levels depth g current).0
unfolding grow_levels
grow_levels-TreeIn b zero g current t = t
grow_levels-TreeIn b (suc depth) g current t =
    then_with_keeps (TreeIn b) (grow_level g current) _ (grow_level-TreeIn b g current t)
      λ next h e k. grow_levels-TreeIn b depth h next k

build_binary-TreeIn : (b : Bounds) (n : ℕ) → TreeIn b (build_binary (with_root b) n).0
unfolding build_binary with_root
build_binary-TreeIn b n =
    grow_levels-TreeIn b (trailing_zeros 64 n) (with_root b) (0 ∷ []) (with_root-IsTree b, refl)

module _ {Point : Type 0} (p : Primitives Point) (a : Available p) where
  record Assigned (nodes : List ℕ) (keys out : Keys) : Type 0 where
    pub distinct : Distinct out
    pub sized : Sized out
    pub old :
        (i : ℕ)
        → (k : List ℕ) × (Dict.get i keys ≡ some k)
        → (k' : List ℕ) × (Dict.get i out ≡ some k')
    pub new : (i : ℕ) → elem i nodes ≡ true → (k : List ℕ) × (Dict.get i out ≡ some k)

  keys_for_lem :
      (nodes : List ℕ) (keys : Keys) (i j : ℕ) (out : Keys)
      → Distinct keys
      → Sized keys
      → keys_for p nodes keys i ≡ (j, ok out)
      → Assigned nodes keys out
  unfolding keys_for
  keys_for_lem [] keys i j out d s h =
      rw (← ok_inj (ap (λ r. r.1) h))
        (record { distinct = d; sized = s; old = λ i has. has; new = λ i e. absurd (nothing e) })
    where
      nothing : false ≡ true → ⊥
      nothing h = cc
  keys_for_lem (node ∷ nodes) keys i j out d s h =
      let first = then_with-eq-ok (random_key p i) _ h in
      let key = first.0 in
      let rest =
        keys_for_lem nodes (Dict.insert node key keys) first.1 j out
          (Distinct-insert node key keys d)
          (insert-Sized keys node key s (random_key_size p a i first.1 key first.2)) first.3 in
      record {
        distinct = rest.distinct;
        sized = rest.sized;
        old = λ i has. rest.old i (insert_has keys node key i has);
        new = λ i e. elim (Bool-cases (node == i)) [
          | inl same ↦ rest.old i (key, rw ((==_iff node i).0 same) (get-insert_same i key keys))
          | inr other ↦ rest.new i (rw other at e)
        ];
      }

  build_of-IsBroadcast :
      (user_ids : List ℕ) (max_nodes i j : ℕ) (g : BroadcastGraph)
      → max_nodes + 1 < u64_size
      → build_of p user_ids max_nodes i ≡ (j, ok g)
      → IsBroadcast g
  unfolding build_of layers Distinct
  build_of-IsBroadcast user_ids max_nodes i j g small h =
      let b : Bounds = record { max_depth = 64; max_breadth = 8; max_nodes = max_nodes } in
      let built = build_binary (with_root b) (length user_ids) in
      let tree = build_binary-TreeIn b (length user_ids) in
      let first = then_with-eq-ok (i, map_err graph_error built.1) _ h in
      let second = then_with-eq-ok (keys_for p (flatten (layers built.0)) [] first.1) _ first.3 in
      let keys =
        keys_for_lem (flatten (layers built.0)) [] first.1 second.1 second.0 tt
          (λ i k found. absurd (none-some found)) second.2 in
      let third = >>=-eq-ok (leaves_of first.0 0 user_ids []) _ (ap (λ r. r.1) second.3) in
      rw (← ok_inj third.2) (record {
        tree = tree.0;
        is_keyed = record {
          distinct = keys.distinct;
          sized = keys.sized;
          keyed = λ i n found. keys.new i (elem-layers_from i n [] built.0.nodes found);
        };
        few = rw tree.1 small;
        shallow = rw tree.1 (omega arith);
      })

  pub build-IsBroadcast :
      (user_ids : List ℕ) (i j : ℕ) (g : BroadcastGraph)
      → build p user_ids i ≡ (j, ok g)
      → IsBroadcast g
  unfolding build
  build-IsBroadcast user_ids i j g h =
      let n = length user_ids in
      elim (Bool-cases (n == 0 || not (is_power_of_two n))) [
        | inl odd ↦ absurd (err_ok (ap (λ r. r.1) (rw (build, odd) at h)))
        | inr fine ↦ elim (Bool-cases (ltb (n * 4) u64_size)) [
          | inr large ↦ absurd (err_ok (ap (λ r. r.1) (rw (build, fine, large) at h)))
          | inl small ↦
              build_of-IsBroadcast user_ids (n * 4) i j g
                (omega (arith, ltb→lt (n * 4) u64_size small)) (rw (build, fine, small) at h)
        ]
      ]
