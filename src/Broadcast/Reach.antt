-- ===== src/Broadcast/Reach.antt =====
-- `user_decrypt` of crates/broadcast/src/graph.rs: the way from a leaf up to the message key.
use overlay_broadcast.Base.{
  ℕ, none, some, List, [], ◌∷◌, ok, err, ok_inj, err_ok, ◌≡◌, refl, sym, ap, ◌∙◌, inl, inr,
  Option-cases, some_inj, none-some,
}
use overlay_broadcast.Base.Dict
use overlay_broadcast.Base.Dict.{nat_eq}
use overlay_broadcast.Keygraph.Graph.{Node, parent}
use overlay_broadcast.Keygraph.Graph.Ascent.{IsAscent, leaf_to_root-IsAscent}
use overlay_broadcast.Cipher.Primitives.{Primitives, IsCipher, Available}
use overlay_broadcast.Cipher.Aead.{CipherResult}
use overlay_broadcast.Cipher.Keywrap.{unwrap}
use overlay_broadcast.Cipher.Ecies.{SealedMessage, seal_for, open_for, symmetric}
use overlay_broadcast.Cipher.RoundTrip.{open_for-seal_for, by_key}
use overlay_broadcast.Broadcast.Graph.{
  BcsResult, BroadcastGraph, EncryptedDataItem, cipher_of, message_aad, message_key, user_leaf_key,
  find_item, encrypted_data_items, encrypt_message, climb_keys, user_decrypt,
}
use overlay_broadcast.Broadcast.Keyed.{IsBroadcast}
use overlay_broadcast.Broadcast.Items.{Good, items_lem}

module _ {Point : Type 0} (p : Primitives Point) (c : IsCipher p) (a : Available p)
    (g : BroadcastGraph) (b : IsBroadcast g) where
  -- A node without a parent is the root.
  top_lem :
      (i : ℕ) (n : Node) → Dict.get i g.graph.nodes ≡ some n → n.parent ≡ none → i ≡ g.graph.root
  top_lem i n found top = elim (b.tree.linked i n found) [
    | inl root ↦ root
    | inr up ↦ absurd (none-some (sym top ∙ up.edge))
  ]

  climb_keys_step :
      (items : List EncryptedDataItem) (x y : ℕ) (path : List ℕ) (key above : List ℕ)
      (it : EncryptedDataItem)
      → find_item x y items ≡ some it
      → unwrap p key it.wrapped_parent_key ≡ ok above
      → climb_keys p items (x ∷ y ∷ path) key ≡ climb_keys p items (y ∷ path) above
  unfolding climb_keys
  climb_keys_step items x y path key above it found opens = rw (climb_keys, found, opens) refl

  -- Each step of the way finds its item, which opens with the key so far.
  climb_keys_lem :
      (items : List EncryptedDataItem) (key top : List ℕ) (i : ℕ) (path : List ℕ)
      → ((child q : ℕ)
          → parent g.graph child ≡ some q
          → (it : EncryptedDataItem) × (find_item child q items ≡ some it)
            × Good p c a g b it
            × (it.node ≡ child)
            × (it.parent ≡ q))
      → IsAscent g.graph.nodes i path
      → Dict.get i g.keys ≡ some key
      → Dict.get g.graph.root g.keys ≡ some top
      → climb_keys p items path key ≡ ok top
  unfolding climb_keys IsAscent parent
  climb_keys_lem items key top i [] all up has root = absurd up
  climb_keys_lem items key top i (x ∷ []) all up has root = elim (Option-cases up.1.0.parent) [
    | inl away ↦ ap ok (some_inj (sym has ∙ rw (top_lem i up.1.0 up.1.1 away) root))
    | inr (q, edge) ↦ absurd (rw edge at up.1.2)
  ]
  climb_keys_lem items key top i (x ∷ y ∷ path) all up has root =
      elim (Option-cases up.1.0.parent) [
        | inl away ↦ absurd (longer (rw away at up.1.2))
        | inr (q, edge) ↦
            let rest = rw edge at up.1.2 in
            let step = all i q (rw (parent, up.1.1) edge) in
            let good = step.2 in
            let same = some_inj (sym good.has_key ∙ rw (← step.3) at has) in
            climb_keys_step items x y path key good.above step.0 (rw (up.0, rest.0) step.1)
              (rw same at good.opens)
            ∙ climb_keys_lem items good.above top q (y ∷ path) all rest
                (rw step.4 at good.has_above) root
      ]
    where
      longer : ◌≡◌ {A = List ℕ} (y ∷ path) [] → ⊥
      longer h = cc

  -- The message opens with the root's key.
  opened :
      (text : List ℕ) (i j : ℕ) (sealed : SealedMessage) (top : List ℕ)
      → Dict.get g.graph.root g.keys ≡ some top
      → encrypt_message p g text i ≡ (j, ok sealed)
      → open_for p (some top) none sealed message_aad ≡ ok text
  unfolding encrypt_message message_key
  opened text i j sealed top root h =
      open_for-seal_for p c (symmetric top) (some top) none text message_aad i
        (seal_for p (symmetric top) text message_aad i).0 sealed (by_key top)
        (seal_lem (seal_for p (symmetric top) text message_aad i)
          (rw (encrypt_message, message_key, root) at h))
    where
      seal_lem :
          (m : ℕ × CipherResult SealedMessage)
          → ◌≡◌ {A = ℕ × BcsResult SealedMessage} (cipher_of m) (j, ok sealed)
          → m ≡ (m.0, ok sealed)
      seal_lem (k, ok s) h = ap (λ x. (k, ok x)) (ok_inj (ap (λ r. r.1) h))
      seal_lem (k, err e) h = absurd (err_ok (ap (λ r. r.1) h))

  pub user_decrypt_lem :
      (user leaf : ℕ) (n : Node) (key text : List ℕ) (sealed : SealedMessage) (i j k : ℕ)
      → Dict.get user g.user_leaves ≡ some leaf
      → Dict.get leaf g.graph.nodes ≡ some n
      → user_leaf_key g user ≡ some key
      → encrypt_message p g text i ≡ (j, ok sealed)
      → (next : ℕ) × (items : List EncryptedDataItem) × (encrypted_data_items p g k
          ≡ (next, ok items))
        × (user_decrypt p g user key items sealed ≡ ok text)
  unfolding user_decrypt user_leaf_key
  user_decrypt_lem user leaf n key text sealed i j k at_leaf found has sent =
      let l = items_lem p c a g b k in
      let up = leaf_to_root-IsAscent g.graph b.tree leaf n found b.shallow in
      let top = b.is_keyed.keyed g.graph.root b.tree.top b.tree.top_present in
      (
        l.0,
        l.1,
        l.2,
        rw
            (
              user_decrypt,
              at_leaf,
              up.1,
              climb_keys_lem l.1 key top.0 leaf up.0 l.3 up.2 (rw (user_leaf_key, at_leaf) at has)
                  top.1,
              opened text i j sealed top.0 top.1 sent,
            )
            refl,
      )
