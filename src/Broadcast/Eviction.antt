-- ===== src/Broadcast/Eviction.antt =====
-- `leave` of crates/broadcast/src/graph.rs where it returns a rekeying.
use overlay_broadcast.Base.{
  ℕ, zero, suc, ◌+◌, ◌<◌, true, false, Option, none, some, List, [], ◌∷◌, ok, err, ok_or, >>=-eq-ok,
  map_err, then_with-eq-ok, then_with-state, lt→ltb, ok_inj, err_ok, none-some, some_inj, drop,
  elem, All, ◌≡◌, refl, sym, ap, ◌∙◌, inl, inr, arith, Bool-cases, Option-cases, ◌==◌,
}
use overlay_broadcast.Base.Dict
use overlay_broadcast.Base.Dict.{nat_eq}
use overlay_broadcast.Bsv.Cursor.{u64_size}
use overlay_broadcast.Keygraph.Graph.{
  KgResult, Node, Nodes, KeyGraph, parent, remove_subtree, leaf_to_root, climb,
}
use overlay_broadcast.Keygraph.Graph.Tree.{IsTree}
use overlay_broadcast.Keygraph.Graph.Ascent.{IsAscent, root_lem, leaf_to_root-IsAscent}
use overlay_broadcast.Keygraph.Graph.Erasure.{
  remove_subtree_old, remove_subtree_gone, remove_subtree-root,
}
use overlay_broadcast.Cipher.Primitives.{Primitives, IsCipher, Available}
use overlay_broadcast.Broadcast.Graph.{
  BcsResult, BroadcastGraph, RekeyMessage, RekeyResult, graph_error, not_eligible, ancestors_of,
}
use overlay_broadcast.Broadcast.Update.{rotate, rotate_and_rekey, leave_at, leave}
use overlay_broadcast.Broadcast.Keyed.{IsKeyed, IsBroadcast, child_lem}
use overlay_broadcast.Broadcast.Rotation.{removed-IsBroadcast, forgotten-IsKeyed}
use overlay_broadcast.Broadcast.Draws.{Drawn}
use overlay_broadcast.Broadcast.Messages.{
  Current, Rotated, has_message, IsRank, Falling, rotate_lem,
}

abbrev layer_of : Option Node → ℕ
layer_of none = 0
layer_of (some n) = n.layer

-- The layer of a node, 0 for none.
abbrev rank_in : KeyGraph → ℕ → ℕ
rank_in g i = layer_of (Dict.get i g.nodes)

climb_absent :
    (m : Nodes) (left : ℕ) (path out : List ℕ) (i : ℕ)
    → Dict.get i m ≡ none
    → climb m left path (some i) ≡ ok out
    → ⊥
unfolding climb
climb_absent m zero path out i away h = err_ok h
climb_absent m (suc left) path out i away h = err_ok (rw (climb, away) at h)

module _ (g : KeyGraph) (t : IsTree g) where
  edge-rank :
      (i q : ℕ) (n : Node)
      → Dict.get i g.nodes ≡ some n
      → n.parent ≡ some q
      → rank_in g i ≡ suc (rank_in g q)
  edge-rank i q n found edge = elim (t.linked i n found) [
    | inl root ↦ absurd (none-some (sym (root_lem g t n (rw (← root) found)).0 ∙ edge))
    | inr up ↦ rw (found, some_inj (sym edge ∙ up.edge), up.present) (omega (arith, up.below))
  ]

  ascent-Falling :
      (i : ℕ) (path : List ℕ)
      → IsAscent g.nodes i path
      → Falling (rank_in g) (suc (rank_in g i)) path
  unfolding IsAscent
  ascent-Falling i [] up = absurd up
  ascent-Falling i (x ∷ xs) up = elim (Option-cases up.1.0.parent) [
    | inl top ↦ rw (up.0, rw top at up.1.2) (omega arith, tt)
    | inr (q, edge) ↦ rw up.0 (
      omega arith,
      rw (edge-rank i q up.1.0 up.1.1 edge) (ascent-Falling q xs (rw edge at up.1.2)),
    )
  ]

  -- The way ends at the root.
  ascent_root : (i : ℕ) (path : List ℕ) → IsAscent g.nodes i path → elem g.root path ≡ true
  unfolding IsAscent
  ascent_root i [] up = absurd up
  ascent_root i (x ∷ xs) up = elim (Option-cases up.1.0.parent) [
    | inl top ↦ elim (t.linked i up.1.0 up.1.1) [
      | inl root ↦ ground (arith, up.0, root)
      | inr p ↦ absurd (none-some (sym top ∙ p.edge))
    ]
    | inr (q, edge) ↦ ground (arith, ascent_root q xs (rw edge at up.1.2))
  ]

  -- The ancestors of a node other than the root.
  record Ancestors (leaf : ℕ) (above : List ℕ) : Type 0 where
    pub falling : Falling (rank_in g) (rank_in g leaf) above
    pub rooted : (leaf == g.root) ≡ false → elem g.root above ≡ true

  ancestors_lem :
      (leaf : ℕ) (path : List ℕ) → IsAscent g.nodes leaf path → Ancestors leaf (drop 1 path)
  unfolding IsAscent
  ancestors_lem leaf [] up = record { falling = tt; rooted = λ below. ascent_root leaf [] up }
  ancestors_lem leaf (x ∷ xs) up =
      let fall = ascent-Falling leaf (x ∷ xs) up in
      record {
        falling = rw up.0 at fall.1;
        rooted = λ below. ground (arith, ascent_root leaf (x ∷ xs) up, below, up.0);
      }

  -- The layers before a removal rank the nodes that are left.
  removed-IsRank :
      (leaf : ℕ) → g.bounds.max_nodes + 1 < u64_size → IsRank (rank_in g) (remove_subtree g leaf).0
  unfolding parent
  removed-IsRank leaf small i q h =
      let x = child_lem (remove_subtree g leaf).0 i q h in
      let y = remove_subtree_old g small t leaf i x.0 x.1 in
      edge-rank i q y.0 y.1 (sym y.2.parent ∙ rw (parent, x.1) at h)

-- What a rekeying after a removal has.
pub record Rekeyed {Point : Type 0} (p : Primitives Point) (c : IsCipher p) (g : BroadcastGraph)
    (i j : ℕ) (r : RekeyResult) : Type 0 where
  pub rooted : elem g.graph.root r.replaced ≡ true
  pub drawn : Drawn p i r.replaced g.keys j
  pub current : All (Current p c g.keys) r.messages
  pub covered :
      (node child : ℕ)
      → elem node r.replaced ≡ true
      → parent g.graph child ≡ some node
      → has_message child node r.messages ≡ true

module _ {Point : Type 0} (p : Primitives Point) (c : IsCipher p) (a : Available p)
    (g : BroadcastGraph) (b : IsBroadcast g) where
  -- The graph that the rotation starts from.
  abbrev left_graph : ℕ → ℕ → BroadcastGraph
  left_graph user leaf = record g {
    graph = (remove_subtree g.graph leaf).0;
    user_leaves = Dict.remove user g.user_leaves;
    keys = Dict.remove leaf g.keys;
  }

  left-IsKeyed :
      (user leaf : ℕ)
      → (remove_subtree g.graph leaf).1 ≡ ok tt
      → IsKeyed (remove_subtree g.graph leaf).0 (Dict.remove leaf g.keys)
  left-IsKeyed user leaf done =
      forgotten-IsKeyed p a (remove_subtree g.graph leaf).0 g.keys leaf
        (remove_subtree_gone g.graph b.few b.tree leaf done)
        (removed-IsBroadcast p a g leaf b).is_keyed

  not_top : (leaf : ℕ) → (remove_subtree g.graph leaf).1 ≡ ok tt → (leaf == g.graph.root) ≡ false
  unfolding remove_subtree
  not_top leaf done = elim (Bool-cases (leaf == g.graph.root)) [
    | inr below ↦ below
    | inl root ↦ absurd (err_ok (rw (remove_subtree, root) at done))
  ]

  child_keyed :
      (user leaf child node : ℕ)
      → (remove_subtree g.graph leaf).1 ≡ ok tt
      → parent (remove_subtree g.graph leaf).0 child ≡ some node
      → (k : List ℕ) × (Dict.get child (Dict.remove leaf g.keys) ≡ some k)
  child_keyed user leaf child node done edge =
      let x = child_lem (remove_subtree g.graph leaf).0 child node edge in
      (left-IsKeyed user leaf done).keyed child x.0 x.1

  rotated_lem :
      (user leaf : ℕ) (above : List ℕ) (i : ℕ) (s : BroadcastGraph × ℕ) (ms : List RekeyMessage)
      → (remove_subtree g.graph leaf).1 ≡ ok tt
      → Ancestors g.graph b.tree leaf above
      → Rotated p c (rank_in g.graph) (left_graph user leaf) (rank_in g.graph leaf) i above s ms
      → Rekeyed p c s.0 i s.1 (record { replaced = above; messages = ms })
  rotated_lem user leaf above i s ms done anc rot = record {
    rooted =
        rw (ap (λ (x : KeyGraph). x.root) rot.same_graph ∙ remove_subtree-root g.graph leaf)
          (anc.rooted (not_top leaf done));
    drawn = rot.drawn;
    current = rot.current;
    covered = λ node child e edge.
        let old = rw rot.same_graph at edge in
        rot.covered node child e old (child_keyed user leaf child node done old);
  }

  leave_at-Rekeyed :
      (user leaf : ℕ) (above : List ℕ) (i : ℕ) (s : BroadcastGraph × ℕ) (r : RekeyResult)
      → Ancestors g.graph b.tree leaf above
      → leave_at p g user leaf above i ≡ (s, ok r)
      → Rekeyed p c s.0 i s.1 r
  unfolding leave_at rotate_and_rekey
  leave_at-Rekeyed user leaf above i s r anc h =
      let removed = remove_subtree g.graph leaf in
      let first =
        then_with-state (record g { graph = removed.0 }, i) (map_err graph_error removed.1) _ h in
      let second = then_with-eq-ok (rotate p (left_graph user leaf) above i) _ first.2 in
      moved second.1 s second.0 r second.3 (
        rotated_lem user leaf above i second.1 second.0 (ok_lem removed.1 first.1) anc (
          rotate_lem p c (rank_in g.graph) above (left_graph user leaf) (rank_in g.graph leaf) i
            second.1 second.0 (removed-IsRank g.graph b.tree leaf b.few) anc.falling second.2))
    where
      ok_lem : {u : Unit {0}} (r : KgResult (Unit {0})) → map_err graph_error r ≡ ok u → r ≡ ok tt
      ok_lem (ok tt) h = refl
      ok_lem (err e) h = absurd (err_ok h)

      moved :
          (t s : BroadcastGraph × ℕ) (ms : List RekeyMessage) (r : RekeyResult)
          → ◌≡◌ {A = (BroadcastGraph × ℕ) × BcsResult RekeyResult}
              (t, ok (record { replaced = above; messages = ms }))
              (s, ok r)
          → Rekeyed p c t.0 i t.1 (record { replaced = above; messages = ms })
          → Rekeyed p c s.0 i s.1 r
      moved t s ms r h x = rw (← ap (λ x. x.0) h, ← ok_inj (ap (λ x. x.1) h)) x

  path_lem :
      (leaf : ℕ) (path : List ℕ)
      → leaf_to_root g.graph leaf ≡ ok path
      → IsAscent g.graph.nodes leaf path
  unfolding leaf_to_root climb
  path_lem leaf path h = elim (Option-cases (Dict.get leaf g.graph.nodes)) [
    | inl away ↦ absurd (
        climb_absent g.graph.nodes (g.graph.bounds.max_depth + 2 + 1) [] path leaf away
          (rw (leaf_to_root, lt→ltb (g.graph.bounds.max_depth + 2) u64_size b.shallow) at h))
    | inr (n, found) ↦
        let up = leaf_to_root-IsAscent g.graph b.tree leaf n found b.shallow in
        rw (ok_inj (sym h ∙ up.1)) up.2
  ]

  ancestors_of_lem :
      (leaf : ℕ) (above : List ℕ)
      → ancestors_of g leaf ≡ ok above
      → Ancestors g.graph b.tree leaf above
  unfolding ancestors_of
  ancestors_of_lem leaf above h =
      let first = >>=-eq-ok (map_err graph_error (leaf_to_root g.graph leaf)) _ h in
      rw (← ok_inj first.2) (
        ancestors_lem g.graph b.tree leaf first.0
          (path_lem leaf first.0 (settled (leaf_to_root g.graph leaf) first.0 first.1)))
    where
      settled :
          (r : KgResult (List ℕ)) (path : List ℕ) → map_err graph_error r ≡ ok path → r ≡ ok path
      settled (ok x) path h = ap ok (ok_inj h)
      settled (err e) path h = absurd (err_ok h)

  pub leave-Rekeyed :
      (user i : ℕ) (s : BroadcastGraph × ℕ) (r : RekeyResult)
      → leave p g user i ≡ (s, ok r)
      → Rekeyed p c s.0 i s.1 r
  unfolding leave
  leave-Rekeyed user i s r h =
      let first = then_with-state (g, i) (ok_or (Dict.get user g.user_leaves) not_eligible) _ h in
      let second = then_with-state (g, i) (ancestors_of g first.0) _ first.2 in
      leave_at-Rekeyed user first.0 second.0 i s r (ancestors_of_lem first.0 second.0 second.1)
        second.2
