-- ===== src/Broadcast/Runs.antt =====
-- The broadcast graphs that `build`, `leave` and `join` of crates/broadcast/src/graph.rs make, in any
-- order and with any results.
use overlay_broadcast.Base.{
  ℕ, Option, none, List, [], true, some, ok, elem, All, false-true, Option-cases, inl, inr, refl,
  ap, ◌≡◌,
}
use overlay_broadcast.Base.Elems.{All-elem}
use overlay_broadcast.Keygraph.Graph.Tree.{IsTree}
use overlay_broadcast.Broadcast.Draws.{Drawn}
use overlay_broadcast.Base.Dict
use overlay_broadcast.Base.Dict.{nat_eq}
use overlay_broadcast.Keygraph.Graph.{Node, Nodes, KeyGraph, parent}
use overlay_broadcast.Cipher.Primitives.{Primitives, IsCipher, Available}
use overlay_broadcast.Cipher.Ecies.{SealedMessage}
use overlay_broadcast.Broadcast.Graph.{
  BroadcastGraph, EncryptedDataItem, RekeyResult, user_leaf_key, encrypted_data_items,
  encrypt_message, user_decrypt,
}
use overlay_broadcast.Broadcast.Build.{build}
use overlay_broadcast.Broadcast.Update.{leave, join}
use overlay_broadcast.Broadcast.Keyed.{IsBroadcast}
use overlay_broadcast.Broadcast.Assembly.{build-IsBroadcast}
use overlay_broadcast.Broadcast.Rotation.{leave-IsBroadcast, join-IsBroadcast}
use overlay_broadcast.Broadcast.Messages.{Current, has_message}
use overlay_broadcast.Broadcast.Eviction.{leave-Rekeyed}
use overlay_broadcast.Broadcast.Reach.{user_decrypt_lem}

-- The children that a node lists, none for no node.
abbrev pub children_in : Nodes → ℕ → List ℕ
children_in nodes node = listed (Dict.get node nodes)
  where
    listed : Option Node → List ℕ
    listed none = []
    listed (some n) = n.children

children_in-parent :
    (g : KeyGraph)
    → IsTree g
    → (node child : ℕ) → elem child (children_in g.nodes node) ≡ true
    → parent g child ≡ some node
unfolding parent
children_in-parent g t node child e = elim (Option-cases (Dict.get node g.nodes)) [
  | inl away ↦ absurd (false-true refl (rw away at e))
  | inr (n, found) ↦ let x = t.owned node n found child (rw found at e) in rw (parent, x.1) x.2
]

module _ {Point : Type 0} (p : Primitives Point) where
  pub data Run : BroadcastGraph → Type 0 where
    built :
        (user_ids : List ℕ) (i j : ℕ) (g : BroadcastGraph) → build p user_ids i ≡ (j, ok g) → Run g
    left : {g : BroadcastGraph} → Run g → (user i : ℕ) → Run (leave p g user i).0.0
    joined : {g : BroadcastGraph} → Run g → (user sponsor i : ℕ) → Run (join p g user sponsor i).0.0

  pub Run-IsBroadcast : Available p → (g : BroadcastGraph) → Run g → IsBroadcast g
  Run-IsBroadcast a _ (built user_ids i j g h) = build-IsBroadcast p a user_ids i j g h
  Run-IsBroadcast a _ (left {g = g} r user i) =
      leave-IsBroadcast p a g user i (Run-IsBroadcast a g r)
  Run-IsBroadcast a _ (joined {g = g} r user sponsor i) =
      join-IsBroadcast p a g user sponsor i (Run-IsBroadcast a g r)

  -- Where AES-GCM encrypts short texts under keys of 32 bytes and decrypts what it encrypted, and
  -- randomness never fails: on any graph that `build`, `leave` and `join` make, for a user whose leaf
  -- is still in the graph, `encrypted_data_items` returns items with which `user_decrypt` opens, with
  -- the user's leaf key, what `encrypt_message` sealed on that graph.
  pub user_decrypt-Run :
      IsCipher p
      → Available p
      → (g : BroadcastGraph) (user leaf : ℕ) (n : Node) (key text : List ℕ) (sealed : SealedMessage)
        (i j k : ℕ)
      → Run g
      → Dict.get user g.user_leaves ≡ some leaf
      → Dict.get leaf g.graph.nodes ≡ some n
      → user_leaf_key g user ≡ some key
      → encrypt_message p g text i ≡ (j, ok sealed)
      → (next : ℕ) × (items : List EncryptedDataItem) × (encrypted_data_items p g k
          ≡ (next, ok items))
        × (user_decrypt p g user key items sealed ≡ ok text)
  user_decrypt-Run c a g user leaf n key text sealed i j k r =
      user_decrypt_lem p c a g (Run-IsBroadcast a g r) user leaf n key text sealed i j k

  -- Where AES-GCM encrypts short texts under keys of 32 bytes and decrypts what it encrypted, and
  -- randomness never fails: when `leave` on a graph that `build`, `leave` and `join` make returns a
  -- rekeying, the root is among the replaced nodes; their new keys are draws of 32 bytes that this
  -- call made, each a later draw than that of the node before; each message opens, with the key that
  -- its under node now has, to the key that its new node now has; and each child that a replaced node
  -- still has gets a message with the node's new key.
  pub leave_messages :
      (c : IsCipher p)
      → Available p
      → (g : BroadcastGraph) (user i : ℕ) (s : BroadcastGraph × ℕ) (r : RekeyResult) → Run g
      → leave p g user i ≡ (s, ok r)
      → (elem s.0.graph.root r.replaced ≡ true)
        × Drawn p i r.replaced s.0.keys s.1
        × All (Current p c s.0.keys) r.messages
        × All
            (λ node.
              All
                (λ child. has_message child node r.messages ≡ true)
                (children_in s.0.graph.nodes node))
            r.replaced
  leave_messages c a g user i s r run h =
      let b = Run-IsBroadcast a g run in
      let k = leave-Rekeyed p c a g b user i s r h in
      let after : IsBroadcast s.0 = rw (← ap (λ x. x.0.0) h) (leave-IsBroadcast p a g user i b) in
      (
        k.rooted,
        k.drawn,
        k.current,
        All-elem _ r.replaced λ node e. All-elem _ (children_in s.0.graph.nodes node) λ child f.
            k.covered node child e (children_in-parent s.0.graph after.tree node child f),
      )
