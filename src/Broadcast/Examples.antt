-- ===== src/Broadcast/Examples.antt =====
-- Concrete runs on crates/broadcast.
use overlay_broadcast.Base.{
  elem, true, All, ℕ, some, List, [], ◌∷◌, ◌++◌, replicate, ok, err, ◌≡◌, refl,
}
use overlay_broadcast.Base.Dict
use overlay_broadcast.Base.Dict.{nat_eq}
use overlay_broadcast.Keygraph.Graph.{
  Bounds, Node, with_root, add_child, layers, remove_subtree, leaf_to_root, parent,
}
use overlay_broadcast.Cipher.Aead.{seal}
use overlay_broadcast.Cipher.Keywrap.{draw, wrap}
use overlay_broadcast.Cipher.Ecies.{SealedMessage, sealed_symmetric, seal_for}
use overlay_broadcast.Cipher.Sample.{sample, sample-IsCipher, sample-Available}
use overlay_broadcast.Broadcast.Graph.{
  BcsResult, BroadcastGraph, EncryptedDataItem, RekeyResult, user_leaf_key, encrypted_data_items,
  encrypt_message, user_decrypt,
}
use overlay_broadcast.Broadcast.Build.{build}
use overlay_broadcast.Broadcast.Update.{leave}
use overlay_broadcast.Broadcast.Draws.{Drawn}
use overlay_broadcast.Broadcast.Messages.{Current, has_message}
use overlay_broadcast.Broadcast.Runs.{
  Run, built, left, user_decrypt-Run, children_in, leave_messages,
}

abbrev bounds : Bounds
bounds = record { max_depth = 64; max_breadth = 8; max_nodes = 8 }

abbrev or_nothing : BcsResult BroadcastGraph → BroadcastGraph
or_nothing (ok g) = g
or_nothing (err e) = record { graph = with_root bounds; keys = []; user_leaves = [] }

-- Two users, and the second leaves.
unfoldable pair : BroadcastGraph
pair = or_nothing (build sample (10 ∷ 20 ∷ []) 0).1

unfoldable alone : BroadcastGraph
unfolding pair
alone = (leave sample pair 20 3).0.0

build_test : build sample (10 ∷ 20 ∷ []) 0 ≡ (3, ok pair)
unfolding build pair add_child Dict.get with_root Dict.insert layers draw
build_test = refl

alone_Run : Run sample alone
unfolding alone
alone_Run = left (built (10 ∷ 20 ∷ []) 0 3 pair build_test) 20 3

abbrev text : List ℕ
text = 104 ∷ 105 ∷ []

abbrev leaf_key : List ℕ
leaf_key = 1 ∷ replicate 31 0

abbrev leaf : Node
leaf = record { position = 0 ∷ []; layer = 1; parent = some 0; children = []; key_epoch = 0 }

-- The message under the key that the root has after the leave.
abbrev sealed : SealedMessage
sealed =
    sealed_symmetric (record { nonce = 7 ∷ replicate 11 0; bytes = 3 ∷ replicate 31 0 ++ text })

leaf_test : Dict.get 10 alone.user_leaves ≡ some 1
unfolding alone leave build pair add_child Dict.get with_root Dict.insert layers draw remove_subtree
    leaf_to_root parent Dict.remove wrap seal
leaf_test = refl

node_test : Dict.get 1 alone.graph.nodes ≡ some leaf
unfolding alone leave build pair add_child Dict.get with_root Dict.insert layers draw remove_subtree
    leaf_to_root parent Dict.remove wrap seal
node_test = refl

key_test : user_leaf_key alone 10 ≡ some leaf_key
unfolding user_leaf_key alone leave build pair add_child Dict.get with_root Dict.insert layers draw
    remove_subtree leaf_to_root parent Dict.remove wrap seal
key_test = refl

seal_test : encrypt_message sample alone text 7 ≡ (8, ok sealed)
unfolding encrypt_message seal_for alone leave build pair add_child Dict.get with_root Dict.insert
    layers draw remove_subtree leaf_to_root parent Dict.remove wrap seal
seal_test = refl

user_decrypt-Run_example :
    (next : ℕ) × (items : List EncryptedDataItem) × (encrypted_data_items sample alone 9
      ≡ (next, ok items))
    × (user_decrypt sample alone 10 leaf_key items sealed ≡ ok text)
user_decrypt-Run_example =
    user_decrypt-Run sample sample-IsCipher sample-Available alone 10 1 leaf leaf_key text sealed 7
      8 9 alone_Run leaf_test node_test key_test seal_test

abbrev rekeying : BcsResult RekeyResult → RekeyResult
rekeying (ok r) = r
rekeying (err e) = record { replaced = []; messages = [] }

unfoldable rekeyed : RekeyResult
rekeyed = rekeying (leave sample pair 20 3).1

leave_test : leave sample pair 20 3 ≡ ((alone, 5), ok rekeyed)
unfolding rekeyed alone leave build pair add_child Dict.get with_root Dict.insert layers draw
    remove_subtree leaf_to_root parent Dict.remove wrap seal
leave_test = refl

leave_messages_example :
    (elem alone.graph.root rekeyed.replaced ≡ true)
    × Drawn sample 3 rekeyed.replaced alone.keys 5
    × All (Current sample sample-IsCipher alone.keys) rekeyed.messages
    × All
        (λ node.
          All
            (λ child. has_message child node rekeyed.messages ≡ true)
            (children_in alone.graph.nodes node))
        rekeyed.replaced
leave_messages_example =
    leave_messages sample sample-IsCipher sample-Available pair 20 3 (alone, 5) rekeyed
      (built (10 ∷ 20 ∷ []) 0 3 pair build_test) leave_test
