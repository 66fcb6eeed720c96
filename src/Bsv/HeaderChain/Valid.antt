-- ===== src/Bsv/HeaderChain/Valid.antt =====
-- The invariant of the chain of crates/bsv/src/headerchain.rs.
use overlay_broadcast.Base.{
  ℕ, zero, suc, ◌+◌, ◌-◌, ◌^◌, ◌≤◌, ◌<◌, ◌≡◌, refl, some, List, [], ◌∷◌, ◌++◌, arith, length,
  length-append, get_elem?, get_last?, get_elem?-append_length, All, All-append, All-imp, ap, ap₂,
  ◌∙◌, true, ok, if◌then◌else◌, Bool-cases, inl, inr,
}
use overlay_broadcast.Base.Dict
use overlay_broadcast.Base.Dict.{◌==◌, nat_eq, list_eq, list_beq_iff, get-insert}
use overlay_broadcast.Bsv.Header.{BlockHeader, block_hash, meets_target}
use overlay_broadcast.Bsv.HeaderChain.{
  HeaderChain, new, root_at, merkle_root_at_height, contains_merkle_root, check_link, add,
}

root_at-append :
    (hs : List BlockHeader) (h : BlockHeader) (i : ℕ) (root : List ℕ)
    → root_at (get_elem? hs i) ≡ some root
    → root_at (get_elem? (hs ++ (h ∷ [])) i) ≡ some root
unfolding root_at
root_at-append [] h i root e = cc
root_at-append (x ∷ hs) h zero root e = e
root_at-append (x ∷ hs) h (suc i) root e = root_at-append hs h i root e

module _ (digest : List ℕ → List ℕ) where
  -- Each header names the hash of the one before it.
  abbrev pub Linked : List BlockHeader → Type 0
  Linked [] = Unit
  Linked (a ∷ []) = Unit
  Linked (a ∷ b ∷ hs) = (b.prev_block_hash ≡ block_hash digest a) × Linked (b ∷ hs)

  pub record IsValid (c : HeaderChain) : Type 0 where
    pub linked : Linked c.headers
    pub pow : All (λ h. meets_target digest h ≡ true) c.headers
    pub room : c.start_height + length c.headers ≤ 2 ^ 64
    pub sound :
        (root : List ℕ) (n : ℕ)
        → contains_merkle_root c root ≡ some n
        → merkle_root_at_height c n ≡ some root
    pub complete : All (λ h. (n : ℕ) × (contains_merkle_root c h.merkle_root ≡ some n)) c.headers

  Linked-append :
      (hs : List BlockHeader) (h : BlockHeader)
      → Linked hs
      → check_link digest (get_last? hs) h ≡ ok tt
      → Linked (hs ++ (h ∷ []))
  unfolding check_link
  Linked-append [] h l e = tt
  Linked-append (a ∷ []) h l e =
      ground (arith, list_beq_iff h.prev_block_hash (block_hash digest a))
  Linked-append (a ∷ b ∷ hs) h l e = (l.0, Linked-append (b ∷ hs) h l.1 e)

  -- What `add` returns, when it returns.
  pub record Added (c : HeaderChain) (h : BlockHeader) (c' : HeaderChain) : Type 0 where
    pub link : check_link digest (get_last? c.headers) h ≡ ok tt
    pub pow : meets_target digest h ≡ true
    pub room : c.start_height + length c.headers < 2 ^ 64
    pub headers : c'.headers ≡ c.headers ++ (h ∷ [])
    pub start_height : c'.start_height ≡ c.start_height
    pub by_root :
        c'.by_root ≡ Dict.insert h.merkle_root (c.start_height + length c.headers) c.by_root

  add-Added : (c c' : HeaderChain) (h : BlockHeader) → add digest c h ≡ ok c' → Added c h c'
  unfolding add
  add-Added c c' h e = ground arith

  module _ (c c' : HeaderChain) (h : BlockHeader) (a : Added c h c') where
    root_at_next :
        (n : ℕ)
        → n ≡ c.start_height + length c.headers
        → merkle_root_at_height c' n ≡ some h.merkle_root
    unfolding merkle_root_at_height
    root_at_next n e =
        let idx : n - c'.start_height ≡ length c.headers = omega (arith, a.start_height) in
        let at : get_elem? c'.headers (n - c'.start_height) ≡ some h =
          ap₂ get_elem? a.headers idx ∙ get_elem?-append_length c.headers h [] in
        ground (arith, at, a.start_height)

    root_at_old :
        (n : ℕ) (root : List ℕ)
        → merkle_root_at_height c n ≡ some root
        → merkle_root_at_height c' n ≡ some root
    unfolding merkle_root_at_height
    root_at_old n root e =
        rw a.start_height
          (rw a.headers (ground (arith, root_at-append c.headers h (n - c.start_height) root)))

    indexed :
        (root : List ℕ)
        → contains_merkle_root c' root ≡ (
            if h.merkle_root == root
            then some (c.start_height + length c.headers)
            else contains_merkle_root c root)
    unfolding contains_merkle_root
    indexed root = rw a.by_root (get-insert h.merkle_root root _ c.by_root)

    sound_next :
        IsValid c
        → (root : List ℕ) (n : ℕ) → contains_merkle_root c' root ≡ some n
        → merkle_root_at_height c' n ≡ some root
    sound_next v root n e = elim (Bool-cases (h.merkle_root == root)) [
      | inl t ↦
          let last : n ≡ c.start_height + length c.headers = ground (arith, indexed root) in
          root_at_next n last ∙ ap some ((list_beq_iff h.merkle_root root).0 t)
      | inr f ↦
          let old : contains_merkle_root c root ≡ some n = ground (arith, indexed root) in
          root_at_old n root (v.sound root n old)
    ]

    complete_next :
        (root : List ℕ)
        → ((n : ℕ) × (contains_merkle_root c root ≡ some n))
        → (n : ℕ) × (contains_merkle_root c' root ≡ some n)
    complete_next root (n, e) = elim (Bool-cases (h.merkle_root == root)) [
      | inl t ↦ (c.start_height + length c.headers, ground (arith, indexed root))
      | inr f ↦ (n, ground (arith, indexed root))
    ]

    complete_last : (n : ℕ) × (contains_merkle_root c' h.merkle_root ≡ some n)
    complete_last =
        let same = (list_beq_iff h.merkle_root h.merkle_root).1 refl in
        (c.start_height + length c.headers, ground (arith, indexed h.merkle_root, same))

    Added-IsValid : IsValid c → IsValid c'
    unfolding contains_merkle_root
    Added-IsValid v = record {
      linked = rw a.headers (Linked-append c.headers h v.linked a.link);
      pow =
          rw a.headers
            (All-append (λ x. meets_target digest x ≡ true) c.headers (h ∷ []) v.pow (a.pow, tt));
      room =
          rw a.start_height
            (rw a.headers (omega (arith, a.room, length-append c.headers (h ∷ []))));
      sound = sound_next v;
      complete = rw a.headers (
          All-append _ c.headers (h ∷ [])
            (All-imp _ _ c.headers (λ x. complete_next x.merkle_root) v.complete)
            (complete_last, tt));
    }

  pub add-IsValid :
      (c c' : HeaderChain) (h : BlockHeader) → IsValid c → add digest c h ≡ ok c' → IsValid c'
  add-IsValid c c' h v e = Added-IsValid c c' h (add-Added c c' h e) v

  pub IsValid-new : (start : ℕ) → start ≤ 2 ^ 64 → IsValid (new start)
  unfolding new
  IsValid-new start fits = record {
    linked = tt;
    pow = tt;
    room = omega arith;
    sound = λ root n e. unfold contains_merkle_root Dict.get in cc;
    complete = tt;
  }

  -- The chains that `add` builds from an empty one.
  pub data Built (start : ℕ) : HeaderChain → Type 0 where
    empty : Built start (new start)
    step :
        {c c' : HeaderChain} (h : BlockHeader)
        → Built start c
        → add digest c h ≡ ok c'
        → Built start c'

-- In a chain that `add` builds from an empty one with a start of 64 bits, each header names the hash of the one before
-- it, and every header meets its target; a root that `contains_merkle_root` finds is committed at
-- the height that it gives, and every header's root is found.
pub Built-IsValid :
    (digest : List ℕ → List ℕ) (start : ℕ) (c : HeaderChain)
    → start ≤ 2 ^ 64
    → Built digest start c
    → IsValid digest c
Built-IsValid digest start c fits b = go fits b
  where
    go : {c : HeaderChain} → start ≤ 2 ^ 64 → Built digest start c → IsValid digest c
    go f empty = IsValid-new digest start f
    go f (step {c} {c'} h b e) = add-IsValid digest c c' h (go f b) e
