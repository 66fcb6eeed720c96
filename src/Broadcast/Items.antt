-- ===== src/Broadcast/Items.antt =====
-- The items that `encrypted_data_items` of crates/broadcast/src/graph.rs publishes.
use overlay_broadcast.Base.{
  ℕ, suc, none, some, List, [], ◌∷◌, ◌++◌, ok, ◌==◌, ◌&&◌, length, All, All-append, ◌≡◌, refl, sym,
  ◌∙◌, ◌⊎◌, inl, inr, arith, Bool-cases, Option-cases, ==_iff, some_inj, none-some,
}
use overlay_broadcast.Base.Dict
use overlay_broadcast.Base.Dict.{nat_eq}
use overlay_broadcast.Base.Entries.{All-entries}
use overlay_broadcast.Keygraph.Graph.{parent}
use overlay_broadcast.Cipher.Primitives.{Primitives, IsCipher, Available}
use overlay_broadcast.Cipher.Aead.{seal}
use overlay_broadcast.Cipher.Keywrap.{WrappedKey, keywrap_aad, draw, wrap, unwrap}
use overlay_broadcast.Cipher.RoundTrip.{unwrap-wrap}
use overlay_broadcast.Broadcast.Graph.{
  Keys, BroadcastGraph, EncryptedDataItem, item_of, items_of, encrypted_data_items, find_item,
}
use mathlib.Core.Path.{subst}
use overlay_broadcast.Broadcast.Keyed.{IsBroadcast, parent_lem, child_lem}

find_item-append :
    (c q : ℕ) (xs ys : List EncryptedDataItem)
    → find_item c q (xs ++ ys)
      ≡ (elim (find_item c q xs) [ none ↦ find_item c q ys | some it ↦ some it ])
unfolding find_item
find_item-append c q [] ys = refl
find_item-append c q (x ∷ xs) ys = ground (arith, find_item-append c q xs ys)

module _ {Point : Type 0} (p : Primitives Point) (c : IsCipher p) (a : Available p) where
  -- A wrap of a key of 32 bytes under another returns, and opens.
  pub wraps :
      (key secret : List ℕ) (i : ℕ)
      → length key ≡ 32
      → length secret ≡ 32
      → (j : ℕ) × (w : WrappedKey) × (wrap p key secret i ≡ (j, ok w))
        × (unwrap p key w ≡ ok secret)
  unfolding wrap draw seal
  wraps key secret i size size' =
      (done.0, done.1, done.2, unwrap-wrap p c key secret i done.0 done.1 done.2)
    where
      done : (j : ℕ) × (w : WrappedKey) × (wrap p key secret i ≡ (j, ok w))
      done =
          let nonce = a.fills i 12 in
          let out = a.encrypts key nonce.0 secret keywrap_aad size (omega (arith, size')) in
          (
            suc i,
            record { nonce = nonce.0; bytes = out.0 },
            rw (wrap, draw, nonce.1, seal, size, out.1) refl,
          )

  module _ (g : BroadcastGraph) (b : IsBroadcast g) where
    -- The item's wrap opens with the key of its node to the key of its parent.
    pub record Good (it : EncryptedDataItem) : Type 0 where
      pub key : List ℕ
      pub above : List ℕ
      pub has_key : Dict.get it.node g.keys ≡ some key
      pub has_above : Dict.get it.parent g.keys ≡ some above
      pub opens : unwrap p key it.wrapped_parent_key ≡ ok above

    record Listed (m : Keys) (i : ℕ) : Type 0 where
      pub next : ℕ
      pub items : List EncryptedDataItem
      pub result : items_of p g m i ≡ (next, ok items)
      pub good : All Good items
      pub found :
          (child q : ℕ) (k : List ℕ)
          → Dict.get child m ≡ some k
          → parent g.graph child ≡ some q
          → (it : EncryptedDataItem) × (find_item child q items ≡ some it)

    -- The item of one key, if its node has a parent.
    record Single (node : ℕ) (k : List ℕ) (i : ℕ) : Type 0 where
      pub next : ℕ
      pub items : List EncryptedDataItem
      pub result : item_of p g node k i ≡ (next, ok items)
      pub good : All Good items
      pub found :
          (q : ℕ)
          → parent g.graph node ≡ some q
          → (it : EncryptedDataItem) × (find_item node q items ≡ some it)

    single : (node : ℕ) (k : List ℕ) (i : ℕ) → Dict.get node g.keys ≡ some k → Single node k i
    unfolding item_of find_item
    single node k i has = elim (Option-cases (parent g.graph node)) [
      | inl top ↦ record {
        next = i;
        items = [];
        result = rw (item_of, top) refl;
        good = tt;
        found = λ q h. absurd (none-some (sym top ∙ h));
      }
      | inr (q, edge) ↦
          let up = parent_lem g.graph b.tree node q edge in
          let above = b.is_keyed.keyed q up.0 up.1 in
          let w =
            wraps k above.0 i (b.is_keyed.sized node k has) (b.is_keyed.sized q above.0 above.1) in
          let it : EncryptedDataItem = record {
            node = node;
            parent = q;
            wrapped_parent_key = w.1;
          } in
          record {
            next = w.0;
            items = it ∷ [];
            result = rw (item_of, edge, above.1, w.2) refl;
            good = (
              record { key = k; above = above.0; has_key = has; has_above = above.1; opens = w.3 },
              tt,
            );
            found = λ r h. (
              it,
              rw (some_inj (sym h ∙ edge), (==_iff node node).1 refl, (==_iff q q).1 refl) refl,
            );
          }
    ]

    found_either :
        (child q : ℕ) (xs ys : List EncryptedDataItem)
        → ((it : EncryptedDataItem) × (find_item child q xs ≡ some it))
          ⊎ ((it : EncryptedDataItem) × (find_item child q ys ≡ some it))
        → (it : EncryptedDataItem) × (find_item child q (xs ++ ys) ≡ some it)
    found_either child q xs ys (inl here) =
        (here.0, find_item-append child q xs ys ∙ rw here.1 refl)
    found_either child q xs ys (inr there) = elim (Option-cases (find_item child q xs)) [
      | inl away ↦ (there.0, find_item-append child q xs ys ∙ rw away there.1)
      | inr (it, here) ↦ (it, find_item-append child q xs ys ∙ rw here refl)
    ]

    listed :
        (m : Keys) (i : ℕ) → All (λ (x : ℕ × List ℕ). Dict.get x.0 g.keys ≡ some x.1) m → Listed m i
    unfolding items_of Dict.get
    listed [] i all = record {
      next = i;
      items = [];
      result = refl;
      good = tt;
      found = λ child q k h. absurd (none-some h);
    }
    listed ((node, k) ∷ m) i all =
        let first = single node k i all.0 in
        let rest = listed m first.next all.1 in
        record {
          next = rest.next;
          items = first.items ++ rest.items;
          result = rw (items_of, first.result, rest.result) refl;
          good = All-append Good first.items rest.items first.good rest.good;
          found = λ child q key h edge.
              found_either child q first.items rest.items (elim (Bool-cases (node == child)) [
                | inl same ↦
                    let e = (==_iff node child).0 same in
                    inl (
                      subst (λ x. (it : EncryptedDataItem) × (find_item x q first.items ≡ some it))
                        e (first.found q (rw (← e) at edge)))
                | inr other ↦ inr (rest.found child q key (rw other at h) edge)
              ]);
        }

    found-Good :
        (child q : ℕ) (items : List EncryptedDataItem) (it : EncryptedDataItem)
        → All Good items
        → find_item child q items ≡ some it
        → Good it × (it.node ≡ child) × (it.parent ≡ q)
    unfolding find_item
    found-Good child q [] it all h = absurd (none-some h)
    found-Good child q (x ∷ xs) it all h = elim (Bool-cases (x.node == child && x.parent == q)) [
      | inl same ↦
          rw (← some_inj (rw (find_item, same) at h))
            (all.0, ground (arith, same), ground (arith, same))
      | inr other ↦ found-Good child q xs it all.1 (rw (find_item, other) at h)
    ]

    -- `encrypted_data_items` returns; each item it finds for a node and its parent is good.
    pub items_lem :
        (i : ℕ)
        → (next : ℕ) × (items : List EncryptedDataItem) × (encrypted_data_items p g i
            ≡ (next, ok items))
          × ((child q : ℕ)
              → parent g.graph child ≡ some q
              → (it : EncryptedDataItem) × (find_item child q items ≡ some it)
                × Good it
                × (it.node ≡ child)
                × (it.parent ≡ q))
    unfolding encrypted_data_items
    items_lem i =
        let all =
          All-entries (λ n k. Dict.get n g.keys ≡ some k) g.keys b.is_keyed.distinct (λ n k h. h) in
        let l = listed g.keys i all in
        (
          l.next,
          l.items,
          l.result,
          λ child q edge.
              let it = l.found child q (key_of child q edge).0 (key_of child q edge).1 edge in
              let what = found-Good child q l.items it.0 l.good it.1 in
              (it.0, it.1, what.0, what.1, what.2),
        )
      where
        key_of :
            (child q : ℕ)
            → parent g.graph child ≡ some q
            → (k : List ℕ) × (Dict.get child g.keys ≡ some k)
        key_of child q edge =
            let n = child_lem g.graph child q edge in b.is_keyed.keyed child n.0 n.1
