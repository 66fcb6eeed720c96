-- ===== src/Broadcast/Rekey.antt =====
-- crates/broadcast/src/rekey.rs, and of graph.rs the packaging of a rekeying into communiques.
use overlay_broadcast.Base.{
  ℕ, Bool, true, false, Option, none, some, List, [], ◌∷◌, ◌++◌, Result, ok, err, ok_or, ◌>>=◌,
  elem, map_err, then_with, if◌then◌else◌, map,
}
use overlay_broadcast.Base
use overlay_broadcast.Base.Dict
use overlay_broadcast.Base.Dict.{nat_eq}
use overlay_broadcast.Keygraph.Graph.{leaf_to_root}
use overlay_broadcast.Cipher.Primitives.{Primitives}
use overlay_broadcast.Cipher.Aead.{CipherResult}
use overlay_broadcast.Cipher.Keywrap.{WrappedKey, wrap, unwrap}
use overlay_broadcast.Broadcast.Graph.{
  BcsResult, BroadcastGraph, RekeyMessage, RekeyResult, missing_key, graph_error, cipher,
}

pub data Strategy : Type 0 where
  user_oriented key_oriented group_oriented : Strategy

pub data EncryptionRef : Type 0 where
  node user_leaf : ℕ → EncryptionRef

pub record Communique : Type 0 where
  pub encrypted_under : EncryptionRef
  pub keys : List (ℕ × WrappedKey)

abbrev single : RekeyMessage → Communique
single m = record { encrypted_under = node m.under_node; keys = (m.new_key_node, m.wrapped) ∷ [] }

unfoldable pub communiques_key_oriented : RekeyResult → List Communique
communiques_key_oriented result = map single result.messages

abbrev pub Groups : Type 0
Groups = List (ℕ × List (ℕ × WrappedKey))

abbrev or_empty : Option (List (ℕ × WrappedKey)) → List (ℕ × WrappedKey)
or_empty none = []
or_empty (some l) = l

-- The loop over the messages that are left: `entry`, `or_default` and `push`.
unfoldable pub grouped : Groups → List RekeyMessage → Groups
grouped groups [] = groups
grouped groups (m ∷ messages) =
    grouped
      (Dict.insert m.under_node
        (or_empty (Dict.get m.under_node groups) ++ ((m.new_key_node, m.wrapped) ∷ [])) groups)
      messages

abbrev group : ℕ × List (ℕ × WrappedKey) → Communique
group (under, keys) = record { encrypted_under = node under; keys = keys }

unfoldable pub communiques_group_oriented : RekeyResult → List Communique
unfolding grouped
communiques_group_oriented result = map group (grouped [] result.messages)

abbrev communique_unless_empty : ℕ → List (ℕ × WrappedKey) → List Communique
communique_unless_empty user [] = []
communique_unless_empty user (k ∷ keys) =
    record { encrypted_under = user_leaf user; keys = k ∷ keys } ∷ []

module _ {Point : Type 0} (p : Primitives Point) where
  -- The wrap of one new key under the key of a leaf.
  unfoldable pub wrap_key : BroadcastGraph → List ℕ → ℕ → ℕ → ℕ × BcsResult (ℕ × WrappedKey)
  wrap_key g leaf_key id i =
      then_with (i, ok_or (Dict.get id g.keys) missing_key)
        λ new_key i.
          let w = wrap p leaf_key new_key i in
          then_with (w.0, map_err cipher w.1) λ wrapped i. (i, ok (id, wrapped))

  -- The loop over the nodes that are left of a user's path.
  unfoldable pub keyset :
      BroadcastGraph → List ℕ → List ℕ → List ℕ → ℕ → ℕ × BcsResult (List (ℕ × WrappedKey))
  unfolding wrap_key
  keyset g replaced leaf_key [] i = (i, ok [])
  keyset g replaced leaf_key (id ∷ path) i = elim (elem id replaced) [
    | false ↦ keyset g replaced leaf_key path i
    | true ↦
        then_with (wrap_key g leaf_key id i)
          λ first i. then_with (keyset g replaced leaf_key path i) λ rest i. (i, ok (first ∷ rest))
  ]

  -- The loop over the users that are left.
  unfoldable pub user_communiques :
      BroadcastGraph → List ℕ → List (ℕ × ℕ) → ℕ → ℕ × BcsResult (List Communique)
  unfolding keyset
  user_communiques g replaced [] i = (i, ok [])
  user_communiques g replaced ((user, leaf) ∷ users) i =
      then_with (i, map_err graph_error (leaf_to_root g.graph leaf))
        λ path i.
          then_with (i, ok_or (Dict.get leaf g.keys) missing_key)
            λ leaf_key i. then_with (keyset g replaced leaf_key path i) λ keys i.
              then_with (user_communiques g replaced users i)
                λ rest i. (i, ok (communique_unless_empty user keys ++ rest))

  unfoldable pub communiques_user_oriented :
      BroadcastGraph → RekeyResult → ℕ → ℕ × BcsResult (List Communique)
  unfolding user_communiques
  communiques_user_oriented g result i = user_communiques g result.replaced g.user_leaves i

  unfoldable pub communiques :
      BroadcastGraph → RekeyResult → Strategy → ℕ → ℕ × BcsResult (List Communique)
  unfolding communiques_user_oriented communiques_key_oriented communiques_group_oriented
  communiques g result key_oriented i = (i, ok (communiques_key_oriented result))
  communiques g result group_oriented i = (i, ok (communiques_group_oriented result))
  communiques g result user_oriented i = communiques_user_oriented g result i

  -- The loop of `open_user_communique`.
  unfoldable pub open_keys : List ℕ → List (ℕ × WrappedKey) → CipherResult (List (ℕ × List ℕ))
  open_keys leaf_key [] = ok []
  open_keys leaf_key ((id, wrapped) ∷ keys) =
      Base.◌>>=◌ (unwrap p leaf_key wrapped)
        λ key. Base.◌>>=◌ (open_keys leaf_key keys) λ rest. ok ((id, key) ∷ rest)

  unfoldable pub open_user_communique : Communique → List ℕ → BcsResult (List (ℕ × List ℕ))
  unfolding open_keys
  open_user_communique communique leaf_key = map_err cipher (open_keys leaf_key communique.keys)
