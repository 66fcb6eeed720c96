-- ===== src/Broadcast/Messages.antt =====
-- The rekey messages of `rotate_and_rekey` of crates/broadcast/src/graph.rs.
use overlay_broadcast.Base.{
  ℕ, suc, ◌≤◌, ◌<◌, Bool, true, false, Option, none, some, List, [], ◌∷◌, ◌++◌, ok, err,
  then_with-eq-ok, ok_inj, err_ok, none-some, false-true, ◌==◌, ◌&&◌, ◌||◌, elem, All, All-append,
  All-imp, ◌≡◌, refl, ap, ◌∙◌, inl, inr, arith, Bool-cases, Option-cases, ==_iff,
}
use overlay_broadcast.Base.Dict
use overlay_broadcast.Base.Dict.{nat_eq, get-insert_same, get-insert_other}
use overlay_broadcast.Keygraph.Graph.{KeyGraph, parent}
use overlay_broadcast.Cipher.Primitives.{Primitives, IsCipher}
use overlay_broadcast.Cipher.Aead.{CipherResult}
use overlay_broadcast.Cipher.Keywrap.{wrap, unwrap}
use overlay_broadcast.Cipher.RoundTrip.{unwrap-wrap}
use overlay_broadcast.Broadcast.Graph.{
  BcsResult, Keys, BroadcastGraph, RekeyMessage, cipher_of, children_among, children_of, is_parent,
  random_key,
}
use overlay_broadcast.Broadcast.Update.{lifted, messages_of, rotate}
use overlay_broadcast.Broadcast.Keyed.{insert_has}
use overlay_broadcast.Broadcast.Draws.{Drawn, Drawn-le, random_key_lem, messages_of_next}

-- Whether a message carries the new key of a node under the key of another.
unfoldable pub has_message : ℕ → ℕ → List RekeyMessage → Bool
has_message under node [] = false
has_message under node (m ∷ ms) =
    m.under_node == under && m.new_key_node == node || has_message under node ms

has_message-append :
    (u n : ℕ) (xs ys : List RekeyMessage)
    → has_message u n (xs ++ ys) ≡ (has_message u n xs || has_message u n ys)
unfolding has_message
has_message-append u n [] ys = refl
has_message-append u n (x ∷ xs) ys = ground (arith, has_message-append u n xs ys)

-- A child that has a key is among the children.
children_among_has :
    (g : KeyGraph) (node child : ℕ) (keys : Keys) (k : List ℕ)
    → parent g child ≡ some node
    → Dict.get child keys ≡ some k
    → elem child (children_among g node keys) ≡ true
unfolding children_among Dict.get
children_among_has g node child [] k edge h = absurd (none-some h)
children_among_has g node child ((i, x) ∷ keys) k edge h = elim (Bool-cases (i == child)) [
  | inl same ↦
      let e = (==_iff i child).0 same in
      rw (children_among, e, edge, (==_iff node node).1 refl, (==_iff child child).1 refl) refl
  | inr other ↦ elim (Bool-cases (is_parent (parent g i) node)) [
    | inl mine ↦
        rw (children_among, mine, other)
          (children_among_has g node child keys k edge (rw other at h))
    | inr alien ↦
        rw (children_among, alien) (children_among_has g node child keys k edge (rw other at h))
  ]
]

-- Each of the children has the node as its parent.
children_among_parent :
    (g : KeyGraph) (node child : ℕ) (keys : Keys)
    → elem child (children_among g node keys) ≡ true
    → parent g child ≡ some node
unfolding children_among
children_among_parent g node child [] h = absurd (false-true refl h)
children_among_parent g node child ((i, x) ∷ keys) h =
    elim (Bool-cases (is_parent (parent g i) node)) [
      | inr alien ↦ children_among_parent g node child keys (rw (children_among, alien) at h)
      | inl mine ↦ elim (Bool-cases (i == child)) [
        | inl same ↦ rw (← (==_iff i child).0 same) (parent_is (parent g i) mine)
        | inr other ↦
            children_among_parent g node child keys (rw (children_among, mine, other) at h)
      ]
    ]
  where
    parent_is : (o : Option ℕ) → is_parent o node ≡ true → o ≡ some node
    parent_is none h = absurd (false-true refl h)
    parent_is (some q) h = ap some ((==_iff q node).0 h)

module _ {Point : Type 0} (p : Primitives Point) (c : IsCipher p) where
  -- The message opens with the key of its under node to the new key.
  pub record Current (keys : Keys) (m : RekeyMessage) : Type 0 where
    pub under : List ℕ
    pub new : List ℕ
    pub has_under : Dict.get m.under_node keys ≡ some under
    pub has_new : Dict.get m.new_key_node keys ≡ some new
    pub opens : unwrap p under m.wrapped ≡ ok new

  -- The same before the new key is stored.
  record Made (keys : Keys) (node : ℕ) (key : List ℕ) (children : List ℕ) (m : RekeyMessage)
      : Type 0 where
    pub under : List ℕ
    pub is_new : m.new_key_node ≡ node
    pub is_child : elem m.under_node children ≡ true
    pub has_under : Dict.get m.under_node keys ≡ some under
    pub opens : unwrap p under m.wrapped ≡ ok key

  cipher_of_lem :
      {A : Type 0} (m : ℕ × CipherResult A) (j : ℕ) (x : A)
      → cipher_of m ≡ (j, ok x)
      → m ≡ (m.0, ok x)
  cipher_of_lem (i, ok y) j x h = ap (λ y. (i, ok y)) (ok_inj (ap (λ r. r.1) h))
  cipher_of_lem (i, err e) j x h = absurd (err_ok (ap (λ r. r.1) h))

  messages_of_lem :
      (keys : Keys) (node : ℕ) (key : List ℕ) (children : List ℕ) (i j : ℕ) (ms : List RekeyMessage)
      → messages_of p keys node key children i ≡ (j, ok ms)
      → All (Made keys node key children) ms
        × ((child : ℕ) → elem child children ≡ true → has_message child node ms ≡ true)
  unfolding messages_of has_message
  messages_of_lem keys node key [] i j ms h = rw (← ok_inj (ap (λ r. r.1) h)) (tt, λ child e. e)
  messages_of_lem keys node key (child ∷ children) i j ms h =
      elim (Option-cases (Dict.get child keys)) [
        | inl away ↦ absurd (err_ok (ap (λ r. r.1) (rw (messages_of, away) at h)))
        | inr (under, has) ↦
            let first =
              then_with-eq-ok (cipher_of (wrap p under key i)) _ (rw (messages_of, has) at h) in
            let rest = then_with-eq-ok (messages_of p keys node key children first.1) _ first.3 in
            let tail = messages_of_lem keys node key children first.1 rest.1 rest.0 rest.2 in
            rw (← ok_inj (ap (λ r. r.1) rest.3)) (
              (
                record {
                  under = under;
                  is_new = refl;
                  is_child = ground (arith, ==_iff child child);
                  has_under = has;
                  opens =
                      unwrap-wrap p c under key i (wrap p under key i).0 first.0
                        (cipher_of_lem (wrap p under key i) first.1 first.0 first.2);
                },
                All-imp (Made keys node key children) (Made keys node key (child ∷ children)) rest.0
                    (λ m made. record {
                      under = made.under;
                      is_new = made.is_new;
                      is_child = ground (arith, made.is_child);
                      has_under = made.has_under;
                      opens = made.opens;
                    })
                    tail.0,
              ),
              λ other e. ground (arith, e, tail.1 other, ==_iff child other, ==_iff node node),
            )
      ]

-- A number for each node that goes up by one from a parent to its children.
abbrev pub IsRank : (ℕ → ℕ) → KeyGraph → Type 0
IsRank rank g = (i q : ℕ) → parent g i ≡ some q → rank i ≡ suc (rank q)

-- Nodes below a rank, each of a lower rank than the one before.
abbrev pub Falling : (ℕ → ℕ) → ℕ → List ℕ → Type 0
Falling rank r [] = Unit
Falling rank r (x ∷ xs) = (rank x < r) × Falling rank (rank x) xs

module _ {Point : Type 0} (p : Primitives Point) (c : IsCipher p) (rank : ℕ → ℕ) where
  -- A rotation of the ancestors has left the state with these messages.
  pub record Rotated (g : BroadcastGraph) (r i : ℕ) (ancestors : List ℕ) (s : BroadcastGraph × ℕ)
      (messages : List RekeyMessage) : Type 0 where
    pub same_graph : s.0.graph ≡ g.graph
    pub unchanged : (i : ℕ) → r ≤ rank i → Dict.get i s.0.keys ≡ Dict.get i g.keys
    pub drawn : Drawn p i ancestors s.0.keys s.1
    pub current : All (Current p c s.0.keys) messages
    pub covered :
        (node child : ℕ)
        → elem node ancestors ≡ true
        → parent g.graph child ≡ some node
        → (k : List ℕ) × (Dict.get child g.keys ≡ some k)
        → has_message child node messages ≡ true

  module _ (g : BroadcastGraph) (hr : IsRank rank g.graph) (node : ℕ) (key : List ℕ) where
    abbrev turned : BroadcastGraph
    turned = record g { keys = Dict.insert node key g.keys }

    other_rank : (i r : ℕ) → r ≤ rank i → rank node < r → (node == i) ≡ false
    other_rank i r le lt = elim (Bool-cases (node == i)) [
      | inr other ↦ other
      | inl same ↦ absurd (omega (arith, le, lt, ap rank ((==_iff node i).0 same)))
    ]

    Made-Current :
        (i : ℕ) (ancestors : List ℕ) (s : BroadcastGraph × ℕ) (rest : List RekeyMessage)
        (m : RekeyMessage)
        → Rotated turned (rank node) i ancestors s rest
        → Made p c g.keys node key (children_of g node) m
        → Current p c s.0.keys m
    unfolding children_of
    Made-Current i ancestors s rest m ih made = record {
      under = made.under;
      new = key;
      has_under =
          ih.unchanged m.under_node (omega (arith, above))
          ∙ get-insert_other node m.under_node key g.keys
              (other_rank m.under_node (suc (rank node)) (omega (arith, above)) (omega arith))
          ∙ made.has_under;
      has_new = rw made.is_new (ih.unchanged node (omega arith) ∙ get-insert_same node key g.keys);
      opens = made.opens;
    }
      where
        above : rank m.under_node ≡ suc (rank node)
        above =
            hr m.under_node node
              (children_among_parent g.graph node m.under_node g.keys made.is_child)

    Rotated-cons :
        (ancestors : List ℕ) (r i k : ℕ) (s : BroadcastGraph × ℕ) (first rest : List RekeyMessage)
        → rank node < r
        → suc i ≤ k
        → p.fill i 32 ≡ some key
        → All (Made p c g.keys node key (children_of g node)) first
          × ((child : ℕ)
              → elem child (children_of g node) ≡ true
              → has_message child node first ≡ true)
        → Rotated turned (rank node) k ancestors s rest
        → Rotated g r i (node ∷ ancestors) s (first ++ rest)
    unfolding children_of
    Rotated-cons ancestors r i k s first rest lt later drew made ih = record {
      same_graph = ih.same_graph;
      drawn = (
        i,
        omega arith,
        key,
        drew,
        ih.unchanged node (omega arith) ∙ get-insert_same node key g.keys,
        Drawn-le p (suc i) k ancestors s.0.keys s.1 later ih.drawn,
      );
      unchanged = λ i le.
          ih.unchanged i (omega (arith, lt, le))
          ∙ get-insert_other node i key g.keys (other_rank i r le lt);
      current =
          All-append (Current p c s.0.keys) first rest
            (All-imp (Made p c g.keys node key (children_of g node)) (Current p c s.0.keys) first
              (λ m x. Made-Current k ancestors s rest m ih x) made.0)
            ih.current;
      covered = λ top child e edge has. elim (Bool-cases (node == top)) [
        | inl same ↦
            let parent_is = rw (← (==_iff node top).0 same) at edge in
            let mine =
              made.1 child (children_among_has g.graph node child g.keys has.0 parent_is has.1) in
            ground (
              arith,
              has_message-append child top first rest,
              rw ((==_iff node top).0 same) at mine,
            )
        | inr other ↦ ground (
          arith,
          has_message-append child top first rest,
          ih.covered top child (rw other at e) edge (insert_has g.keys node key child has),
        )
      ];
    }

  Rotated-at :
      (g : BroadcastGraph) (r i : ℕ) (ancestors : List ℕ) (s t : BroadcastGraph × ℕ)
      (ms ns : List RekeyMessage)
      → ◌≡◌ {A = (BroadcastGraph × ℕ) × BcsResult (List RekeyMessage)} (s, ok ms) (t, ok ns)
      → Rotated g r i ancestors s ms
      → Rotated g r i ancestors t ns
  Rotated-at g r i ancestors s t ms ns h x = rw (← ap (λ x. x.0) h, ← ok_inj (ap (λ x. x.1) h)) x

  lifted_lem :
      {A : Type 0} (g : BroadcastGraph) (m : ℕ × BcsResult A) (s : BroadcastGraph × ℕ) (x : A)
      → lifted g m ≡ (s, ok x)
      → m ≡ (m.0, ok x)
  lifted_lem g (j, r) s x h = ap (λ r. (j, r)) (ap (λ y. y.1) h)

  lifted_at :
      {A : Type 0} (g : BroadcastGraph) (m : ℕ × BcsResult A) (s : BroadcastGraph × ℕ) (x : A)
      → lifted g m ≡ (s, ok x)
      → m ≡ (s.1, ok x)
  lifted_at g (j, r) s x h = ap (λ y. (y.0.1, y.1)) h

  pub rotate_lem :
      (ancestors : List ℕ) (g : BroadcastGraph) (r i : ℕ) (s : BroadcastGraph × ℕ)
      (messages : List RekeyMessage)
      → IsRank rank g.graph
      → Falling rank r ancestors
      → rotate p g ancestors i ≡ (s, ok messages)
      → Rotated g r i ancestors s messages
  unfolding rotate children_of
  rotate_lem [] g r i s messages hr fall h =
      rw (← ap (λ x. x.0) h, ← ok_inj (ap (λ x. x.1) h))
        (record {
          same_graph = refl;
          drawn = omega arith;
          unchanged = λ i le. refl;
          current = tt;
          covered = λ node child e edge has. absurd (false-true refl e);
        })
  rotate_lem (node ∷ ancestors) g r i s messages hr fall h =
      let first = then_with-eq-ok (lifted g (random_key p i)) _ h in
      let key = first.0 in
      let second =
        then_with-eq-ok (lifted g (messages_of p g.keys node key (children_of g node) first.1.1)) _
          first.3 in
      let third =
        then_with-eq-ok (rotate p (turned g hr node key) ancestors second.1.1) _ second.3 in
      let sent = messages_of p g.keys node key (children_of g node) first.1.1 in
      let made =
        messages_of_lem p c g.keys node key (children_of g node) first.1.1 sent.0 second.0
          (lifted_lem g sent second.1 second.0 second.2) in
      let ih =
        rotate_lem ancestors (turned g hr node key) (rank node) second.1.1 third.1 third.0 hr fall.1
          third.2 in
      let sending = messages_of_next p g.keys node key (children_of g node) first.1.1 in
      let later = sending second.1.1 second.0 (lifted_at g sent second.1 second.0 second.2) in
      let drew =
        random_key_lem p i first.1.1 key (lifted_at g (random_key p i) first.1 key first.2) in
      Rotated-at g r i (node ∷ ancestors) third.1 s (second.0 ++ third.0) messages third.3 (
        Rotated-cons g hr node key ancestors r i second.1.1 third.1 second.0 third.0 fall.0
          (omega (arith, drew.0, later)) drew.1 made ih)
