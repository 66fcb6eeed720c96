-- ===== src/Broadcast/Graph.antt =====
-- crates/broadcast/src/graph.rs, rekey.rs and error.rs. A method that draws randomness takes the
-- number of the next draw with its state, and returns both; one of `&self` takes and returns only
-- the number.
use overlay_broadcast.Base.{
  ℕ, zero, suc, ◌+◌, ◌*◌, ◌≤◌, Bool, true, false, Option, none, some, List, [], ◌∷◌, ◌++◌, Result,
  ok, err, ok_or, ◌>>=◌, ltb, leb, ◌==◌, not, ◌&&◌, ◌||◌, length, elem, map_err, then_with, drop,
  get_elem?, ◌^◌, if◌then◌else◌, ◌/◌, ◌%◌, map,
}
use overlay_broadcast.Base
use overlay_broadcast.Base.Dict
use overlay_broadcast.Base.Dict.{nat_eq}
use overlay_broadcast.Keygraph.Graph.{KgError, KeyGraph, leaf_to_root, parent}
use overlay_broadcast.Cipher.Primitives.{Primitives}
use overlay_broadcast.Cipher.Aead.{CipherError, CipherResult}
use overlay_broadcast.Cipher.Keywrap.{WrappedKey, draw, wrap, unwrap}
use overlay_broadcast.Cipher.Ecies.{SealedMessage, seal_for, open_for, symmetric}

-- `b"broadcast/message/v1"`
abbrev pub message_aad : List ℕ
message_aad =
    98 ∷ 114 ∷ 111 ∷ 97 ∷ 100 ∷ 99 ∷ 97 ∷ 115 ∷ 116 ∷ 47 ∷ 109 ∷ 101 ∷ 115 ∷ 115 ∷ 97 ∷ 103 ∷ 101
    ∷ 47 ∷ 118 ∷ 49 ∷ []

pub data BcsError : Type 0 where
  bad_structure missing_key not_eligible : BcsError
  cipher : CipherError → BcsError
  graph_error : KgError → BcsError
  random : BcsError

abbrev pub BcsResult : Type 0 → Type 0
BcsResult A = Result BcsError A

pub record EncryptedDataItem : Type 0 where
  pub node : ℕ
  pub parent : ℕ
  pub wrapped_parent_key : WrappedKey

abbrev pub Keys : Type 0
Keys = List (ℕ × List ℕ)

pub record BroadcastGraph : Type 0 where
  pub graph : KeyGraph
  pub keys : Keys
  pub user_leaves : List (ℕ × ℕ)

pub record RekeyMessage : Type 0 where
  pub new_key_node : ℕ
  pub under_node : ℕ
  pub wrapped : WrappedKey

pub record RekeyResult : Type 0 where
  pub replaced : List ℕ
  pub messages : List RekeyMessage

unfoldable pub user_count : BroadcastGraph → ℕ
user_count g = length g.user_leaves

unfoldable pub message_key : BroadcastGraph → BcsResult (List ℕ)
message_key g = ok_or (Dict.get g.graph.root g.keys) missing_key

unfoldable pub user_leaf_key : BroadcastGraph → ℕ → Option (List ℕ)
user_leaf_key g user = elim (Dict.get user g.user_leaves) [
  | none ↦ none
  | some leaf ↦ Dict.get leaf g.keys
]

abbrev pub is_parent : Option ℕ → ℕ → Bool
is_parent none p = false
is_parent (some q) p = q == p

-- The filter of `children_of` over the keys that are left.
unfoldable pub children_among : KeyGraph → ℕ → Keys → List ℕ
children_among g p [] = []
children_among g p ((n, _) ∷ keys) =
    let rest = children_among g p keys in if is_parent (parent g n) p then n ∷ rest else rest

unfoldable pub children_of : BroadcastGraph → ℕ → List ℕ
unfolding children_among
children_of g p = children_among g.graph p g.keys

unfoldable pub ancestors_of : BroadcastGraph → ℕ → BcsResult (List ℕ)
ancestors_of g leaf =
    Base.◌>>=◌ (map_err graph_error (leaf_to_root g.graph leaf)) λ path. ok (drop 1 path)

-- The search of `user_decrypt`.
unfoldable pub find_item : ℕ → ℕ → List EncryptedDataItem → Option EncryptedDataItem
find_item child parent [] = none
find_item child parent (it ∷ items) =
    if it.node == child && it.parent == parent then some it else find_item child parent items

abbrev pub cipher_of : {A : Type 0} → ℕ × CipherResult A → ℕ × BcsResult A
cipher_of (i, r) = (i, map_err cipher r)

module _ {Point : Type 0} (p : Primitives Point) where
  unfoldable pub random_key : ℕ → ℕ × BcsResult (List ℕ)
  random_key i = draw p random 32 i

  -- The item of one key, if its node has a parent.
  unfoldable pub item_of : BroadcastGraph → ℕ → List ℕ → ℕ → ℕ × BcsResult (List EncryptedDataItem)
  item_of g node node_key i = elim (parent g.graph node) [
    | none ↦ (i, ok [])
    | some parent ↦ elim (Dict.get parent g.keys) [
      | none ↦ (i, err missing_key)
      | some parent_key ↦ then_with (cipher_of (wrap p node_key parent_key i)) λ wrapped i.
          (i, ok (record { node = node; parent = parent; wrapped_parent_key = wrapped } ∷ []))
    ]
  ]

  -- The loop of `encrypted_data_items` over the keys that are left.
  unfoldable pub items_of : BroadcastGraph → Keys → ℕ → ℕ × BcsResult (List EncryptedDataItem)
  unfolding item_of
  items_of g [] i = (i, ok [])
  items_of g ((node, node_key) ∷ keys) i =
      then_with (item_of g node node_key i)
        λ first i. then_with (items_of g keys i) λ rest i. (i, ok (first ++ rest))

  unfoldable pub encrypted_data_items : BroadcastGraph → ℕ → ℕ × BcsResult (List EncryptedDataItem)
  unfolding items_of
  encrypted_data_items g i = items_of g g.keys i

  unfoldable pub encrypt_message : BroadcastGraph → List ℕ → ℕ → ℕ × BcsResult SealedMessage
  unfolding message_key
  encrypt_message g plaintext i =
      then_with (i, message_key g)
        λ key i. cipher_of (seal_for p (symmetric key) plaintext message_aad i)

  -- The loop of `user_decrypt` over the windows of the path.
  unfoldable pub climb_keys : List EncryptedDataItem → List ℕ → List ℕ → BcsResult (List ℕ)
  unfolding find_item
  climb_keys items [] current = ok current
  climb_keys items (child ∷ []) current = ok current
  climb_keys items (child ∷ parent ∷ path) current =
      Base.◌>>=◌ (ok_or (find_item child parent items) not_eligible) λ item.
        Base.◌>>=◌ (map_err (λ _. not_eligible) (unwrap p current item.wrapped_parent_key))
          λ next. climb_keys items (parent ∷ path) next

  unfoldable pub user_decrypt :
      BroadcastGraph → ℕ → List ℕ → List EncryptedDataItem → SealedMessage → BcsResult (List ℕ)
  unfolding climb_keys
  user_decrypt g user leaf_key items sealed =
      Base.◌>>=◌ (ok_or (Dict.get user g.user_leaves) not_eligible) λ leaf.
        Base.◌>>=◌ (map_err graph_error (leaf_to_root g.graph leaf)) λ path.
          Base.◌>>=◌ (climb_keys items path leaf_key)
            λ key. map_err cipher (open_for p (some key) none sealed message_aad)

  unfoldable pub decrypt_with_key : List ℕ → SealedMessage → BcsResult (List ℕ)
  decrypt_with_key key sealed = map_err cipher (open_for p (some key) none sealed message_aad)
