-- ===== src/Broadcast/Rotation.antt =====
-- `leave` and `join` of crates/broadcast/src/graph.rs, on every branch.
use overlay_broadcast.Base.{
  ℕ, suc, ◌^◌, false, none, some, List, [], ◌∷◌, ok, err, ok_or, map_err, then_with,
  then_with_keeps, ok_inj, err_ok, ltb, none-some, length, ◌≡◌, refl, sym, ap, ◌∙◌, ◌⊎◌, inl, inr,
  Bool-cases, ==_iff, ◌==◌,
}
use overlay_broadcast.Base.Dict
use overlay_broadcast.Base.Dict.{nat_eq, get-insert_same, get-insert_other}
use overlay_broadcast.Base.Entries.{Distinct-remove, get-remove_cases, get-remove_other}
use overlay_broadcast.Keygraph.Graph.{KgResult, Node, KeyGraph, add_child, remove_subtree}
use overlay_broadcast.Keygraph.Graph.Tree.{IsTree}
use overlay_broadcast.Keygraph.Graph.Growth.{
  Growth, same, grown, with_child, with_child_old, add_child_cases, added-IsTree,
}
use overlay_broadcast.Keygraph.Graph.Erasure.{
  remove_subtree-bounds, remove_subtree-IsTree, remove_subtree_old, remove_subtree_gone,
}
use overlay_broadcast.Cipher.Primitives.{Primitives, Available}
use overlay_broadcast.Cipher.Keywrap.{draw}
use overlay_broadcast.Broadcast.Graph.{
  BcsResult, Keys, BroadcastGraph, graph_error, not_eligible, random_key, children_of, ancestors_of,
}
use overlay_broadcast.Broadcast.Update.{
  lifted, messages_of, rotate, rotate_and_rekey, leave_at, leave, join_at, join,
}
use overlay_broadcast.Broadcast.Keyed.{IsKeyed, IsBroadcast, insert-IsKeyed}

module _ {Point : Type 0} (p : Primitives Point) (a : Available p) where
  pub random_key_size : (i j : ℕ) (key : List ℕ) → random_key p i ≡ (j, ok key) → length key ≡ 32
  unfolding random_key draw
  random_key_size i j key h =
      let f = a.fills i 32 in rw (← ok_inj (ap (λ r. r.1) (rw (random_key, draw, f.1) at h))) f.2

  -- What the state is after a step.
  abbrev Stays : BroadcastGraph × ℕ → Type 0
  Stays s = IsBroadcast s.0

  rotate-IsBroadcast :
      (g : BroadcastGraph) (ancestors : List ℕ) (i : ℕ)
      → IsBroadcast g
      → IsBroadcast (rotate p g ancestors i).0.0
  unfolding rotate
  rotate-IsBroadcast g [] i b = b
  rotate-IsBroadcast g (node ∷ ancestors) i b =
      then_with_keeps Stays (lifted g (random_key p i)) _ b λ key s drawn _.
        then_with_keeps Stays (lifted g (messages_of p g.keys node key (children_of g node) s.1)) _
          b
          λ first t sent _.
            then_with_keeps Stays
              (rotate p (record g { keys = Dict.insert node key g.keys }) ancestors t.1) _
              (rotate-IsBroadcast (record g { keys = Dict.insert node key g.keys }) ancestors t.1
                (record {
                  tree = b.tree;
                  is_keyed =
                      insert-IsKeyed g.graph g.keys node key b.is_keyed (
                        random_key_size i (random_key p i).0 key
                          (drawn_lem (random_key p i) drawn));
                  few = b.few;
                  shallow = b.shallow;
                }))
              λ rest u done k. k
    where
      drawn_lem :
          {k : List ℕ} {s : BroadcastGraph × ℕ} (m : ℕ × BcsResult (List ℕ))
          → lifted g m ≡ (s, ok k)
          → m ≡ (m.0, ok k)
      drawn_lem (j, r) h = ap (λ r. (j, r)) (ap (λ x. x.1) h)

  rotate_and_rekey-IsBroadcast :
      (g : BroadcastGraph) (ancestors : List ℕ) (i : ℕ)
      → IsBroadcast g
      → IsBroadcast (rotate_and_rekey p g ancestors i).0.0
  unfolding rotate_and_rekey
  rotate_and_rekey-IsBroadcast g ancestors i b =
      then_with_keeps Stays (rotate p g ancestors i) _ (rotate-IsBroadcast g ancestors i b)
        λ messages s e k. k

  -- Any leaf, after `remove_subtree` has returned anything.
  pub removed-IsBroadcast :
      (g : BroadcastGraph) (leaf : ℕ)
      → IsBroadcast g
      → IsBroadcast (record g { graph = (remove_subtree g.graph leaf).0 })
  removed-IsBroadcast g leaf b = record {
    tree = remove_subtree-IsTree g.graph b.few b.tree leaf;
    is_keyed = record {
      distinct = b.is_keyed.distinct;
      sized = b.is_keyed.sized;
      keyed = λ i n found.
          let was = remove_subtree_old g.graph b.few b.tree leaf i n found in
          b.is_keyed.keyed i was.0 was.1;
    };
    few = rw (remove_subtree-bounds g.graph leaf) b.few;
    shallow = rw (remove_subtree-bounds g.graph leaf) b.shallow;
  }

  pub forgotten-IsKeyed :
      (g : KeyGraph) (keys : Keys) (leaf : ℕ)
      → Dict.get leaf g.nodes ≡ none
      → IsKeyed g keys
      → IsKeyed g (Dict.remove leaf keys)
  forgotten-IsKeyed g keys leaf gone k = record {
    distinct = Distinct-remove leaf keys k.distinct;
    sized = λ i key found. k.sized i key (get-remove_cases leaf i key keys found).1;
    keyed = λ i n found.
        let key = k.keyed i n found in
        (key.0, get-remove_other leaf i keys (other i n found) ∙ key.1);
  }
    where
      other : (i : ℕ) (n : Node) → Dict.get i g.nodes ≡ some n → (leaf == i) ≡ false
      other i n found = elim (Bool-cases (leaf == i)) [
        | inr away ↦ away
        | inl here ↦ absurd (none-some (sym gone ∙ rw (← (==_iff leaf i).0 here) at found))
      ]

  leave_at-IsBroadcast :
      (g : BroadcastGraph) (user leaf : ℕ) (ancestors : List ℕ) (i : ℕ)
      → IsBroadcast g
      → IsBroadcast (leave_at p g user leaf ancestors i).0.0
  unfolding leave_at
  leave_at-IsBroadcast g user leaf ancestors i b =
      let removed = remove_subtree g.graph leaf in
      let left = removed-IsBroadcast g leaf b in
      then_with_keeps Stays ((record g { graph = removed.0 }, i), map_err graph_error removed.1) _
        left
        λ _ s e _.
          rotate_and_rekey-IsBroadcast
            (record s.0 {
              user_leaves = Dict.remove user g.user_leaves;
              keys = Dict.remove leaf g.keys;
            })
            ancestors s.1
            (rw (← ap (λ x. x.0) e) (record {
              tree = left.tree;
              is_keyed =
                  forgotten-IsKeyed removed.0 g.keys leaf
                    (remove_subtree_gone g.graph b.few b.tree leaf
                      (ok_lem removed.1 (ap (λ x. x.1) e)))
                    left.is_keyed;
              few = left.few;
              shallow = left.shallow;
            }))
    where
      ok_lem : {u : Unit {0}} (r : KgResult (Unit {0})) → map_err graph_error r ≡ ok u → r ≡ ok tt
      ok_lem (ok tt) h = refl
      ok_lem (err e) h = absurd (err_ok h)

  pub leave-IsBroadcast :
      (g : BroadcastGraph) (user i : ℕ) → IsBroadcast g → IsBroadcast (leave p g user i).0.0
  unfolding leave
  leave-IsBroadcast g user i b =
      then_with_keeps Stays ((g, i), ok_or (Dict.get user g.user_leaves) not_eligible) _ b
        λ leaf s e k.
          then_with_keeps Stays (s, ancestors_of g leaf) _ k
            λ ancestors t e' _. leave_at-IsBroadcast g user leaf ancestors t.1 b

  -- A graph that has one more node than keys.
  record IsShort (g : BroadcastGraph) (leaf : ℕ) : Type 0 where
    pub old : BroadcastGraph
    pub kept : IsBroadcast old
    pub same_keys : g.keys ≡ old.keys
    pub tree : IsTree g.graph
    pub bounds : g.graph.bounds ≡ old.graph.bounds
    pub nodes :
        (i : ℕ) (n : Node)
        → Dict.get i g.graph.nodes ≡ some n
        → (leaf ≡ i) ⊎ ((m : Node) × (Dict.get i old.graph.nodes ≡ some m))

  keyed_again :
      (g : BroadcastGraph) (leaf user : ℕ) (key : List ℕ)
      → IsShort g leaf
      → length key ≡ 32
      → IsBroadcast (record g {
        keys = Dict.insert leaf key g.keys;
        user_leaves = Dict.insert user leaf g.user_leaves;
      })
  keyed_again g leaf user key s size =
      let again = insert-IsKeyed s.old.graph s.old.keys leaf key s.kept.is_keyed size in
      record {
        tree = s.tree;
        is_keyed = record {
          distinct = rw s.same_keys again.distinct;
          sized = rw s.same_keys again.sized;
          keyed = λ i n found. rw s.same_keys (elim (s.nodes i n found) [
            | inl new ↦ (key, rw (← new) (get-insert_same leaf key s.old.keys))
            | inr was ↦ again.keyed i was.0 was.1
          ]);
        };
        few = rw s.bounds s.kept.few;
        shallow = rw s.bounds s.kept.shallow;
      }

  join_at-IsBroadcast :
      (g : BroadcastGraph) (user leaf i : ℕ)
      → IsShort g leaf
      → IsBroadcast (join_at p g user leaf i).0.0
  unfolding join_at random_key draw
  join_at-IsBroadcast g user leaf i s =
      let f = a.fills i 32 in
      let b = keyed_again g leaf user f.0 s f.2 in
      let made = record g {
        keys = Dict.insert leaf f.0 g.keys;
        user_leaves = Dict.insert user leaf g.user_leaves;
      } in
      rw (join_at, random_key, draw, f.1)
        (then_with_keeps Stays ((made, suc i), ancestors_of made leaf) _ b
          λ ancestors t e _.
            then_with_keeps Stays (rotate_and_rekey p made ancestors t.1) _
              (rotate_and_rekey-IsBroadcast made ancestors t.1 b) λ result u e' k. k)

  joined :
      (g : BroadcastGraph) (user sponsor coord i : ℕ) (r : KeyGraph × KgResult ℕ)
      → IsBroadcast g
      → Growth g.graph sponsor coord r
      → IsBroadcast
          (then_with
            ((record g { graph = r.0 }, i), map_err graph_error r.1)
            λ leaf s. join_at p s.0 user leaf s.1).0.0
  joined g user sponsor coord i _ b same = b
  joined g user sponsor coord i _ b (grown n found room) =
      let next = with_child g.graph sponsor n coord in
      join_at-IsBroadcast (record g { graph = next }) user g.graph.next_id i
        (record {
          old = g;
          kept = b;
          same_keys = refl;
          tree = added-IsTree g.graph b.tree sponsor n coord found room;
          bounds = refl;
          nodes = with_child_old g.graph b.tree sponsor n coord found room;
        })

  pub join-IsBroadcast :
      (g : BroadcastGraph) (user sponsor i : ℕ)
      → IsBroadcast g
      → IsBroadcast (join p g user sponsor i).0.0
  unfolding join
  join-IsBroadcast g user sponsor i b =
      elim (Bool-cases (ltb (length (children_of g sponsor)) (2 ^ 32))) [
        | inr many ↦ rw (join, many) b
        | inl some_children ↦
            rw (join, some_children)
              (joined g user sponsor (length (children_of g sponsor)) i
                (add_child g.graph sponsor (length (children_of g sponsor))) b
                (add_child_cases g.graph b.tree sponsor (length (children_of g sponsor))))
      ]
