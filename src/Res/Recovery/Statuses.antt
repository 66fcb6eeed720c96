-- ===== src/Res/Recovery/Statuses.antt =====
-- The statuses that `rebuild_from_chain` of crates/res/src/recovery.rs lists.
use overlay_broadcast.Base.{
  ℕ, ◌≤◌, ◌<◌, ◌≡◌, ◌↔◌, refl, sym, ap, ap₂, ◌⊎◌, true, false, List, [], ◌∷◌, map, arith, leb, ltb,
  ltb→lt, Bool-cases, inl, inr,
}
use mathlib.Core.List.{Memᴰ, Perm}
use mathlib.Core.List.Perm
use mathlib.Core.List.Memᴰ
use mathlib.Core.List.Memᴰ.{head, tail}
use overlay_broadcast.Res.Recovery.{
  MemberRecord, LedgerSnapshot, MemberStatus, renewed, active, revoked, status_of, place,
  sort_by_key, rebuild_from_chain,
}

-- Identifiers in ascending order.
unfoldable pub IsSorted : {A : Type 0} → List (ℕ × A) → Type 0
IsSorted [] = Unit
IsSorted (x ∷ []) = Unit
IsSorted (x ∷ y ∷ l) = (x.0 ≤ y.0) × IsSorted (y ∷ l)

place-IsSorted : {A : Type 0} (x : ℕ × A) (l : List (ℕ × A)) → IsSorted l → IsSorted (place x l)
unfolding place IsSorted
place-IsSorted x [] h = tt
place-IsSorted x (y ∷ []) h = ground arith
place-IsSorted x (y ∷ z ∷ l) h = ground (arith, place-IsSorted x (z ∷ l) h.1)

sort_by_key-IsSorted : {A : Type 0} (l : List (ℕ × A)) → IsSorted (sort_by_key l)
unfolding sort_by_key IsSorted
sort_by_key-IsSorted [] = tt
sort_by_key-IsSorted (x ∷ l) = place-IsSorted x (sort_by_key l) (sort_by_key-IsSorted l)

-- What a status says of a record at a time: spent, unspent in time, unspent past the expiry.
abbrev pub HasStatus : MemberRecord → ℕ → MemberStatus → Type 0
HasStatus m now renewed = m.output_spent ≡ true
HasStatus m now active = (m.output_spent ≡ false) × (now ≤ m.expiry)
HasStatus m now revoked = (m.output_spent ≡ false) × (m.expiry < now)

status_of-HasStatus : (m : MemberRecord) (now : ℕ) → HasStatus m now (status_of m now)
unfolding status_of
status_of-HasStatus m now = elim (Bool-cases m.output_spent) [
  | inl spent ↦ rw spent refl
  | inr unspent ↦ elim (Bool-cases (ltb m.expiry now)) [
    | inl late ↦ rw (unspent, late) (refl, omega (arith, ltb→lt m.expiry now late))
    | inr early ↦ rw (unspent, early) (refl, ground (arith, early))
  ]
]

HasStatus-status_of :
    (m : MemberRecord) (now : ℕ) (st : MemberStatus) → HasStatus m now st → status_of m now ≡ st
unfolding status_of
HasStatus-status_of m now renewed h = ground (arith, h)
HasStatus-status_of m now active h = ground (arith, h)
HasStatus-status_of m now revoked h = ground (arith, h)

abbrev ids : {A : Type 0} → List (ℕ × A) → List ℕ
ids l = map (λ x. x.0) l

place-Perm : {A : Type 0} (x : ℕ × A) (l : List (ℕ × A)) → Perm (ids (place x l)) (x.0 ∷ ids l)
unfolding place
place-Perm x [] = Perm.refl (x.0 ∷ [])
place-Perm x (y ∷ l) = elim (Bool-cases (leb x.0 y.0)) [
  | inl first ↦ rw first (Perm.refl (x.0 ∷ y.0 ∷ ids l))
  | inr later ↦ rw later (Perm.trans (Perm.cons y.0 (place-Perm x l)) (Perm.swap x.0 y.0 (ids l)))
]

sort_by_key-Perm : {A : Type 0} (l : List (ℕ × A)) → Perm (ids (sort_by_key l)) (ids l)
unfolding sort_by_key
sort_by_key-Perm [] = Perm.refl []
sort_by_key-Perm (x ∷ l) =
    Perm.trans (place-Perm x (sort_by_key l)) (Perm.cons x.0 (sort_by_key-Perm l))

place-Mem : {A : Type 0} (e x : ℕ × A) (l : List (ℕ × A)) → Memᴰ e (place x l) ↔ Memᴰ e (x ∷ l)
unfolding place
place-Mem e x [] = (λ m. m, λ m. m)
place-Mem e x (y ∷ l) = elim (Bool-cases (leb x.0 y.0)) [
  | inl first ↦ rw first (λ m. m, λ m. m)
  | inr later ↦
      let below = place-Mem e x l in
      rw later (λ m. down (Memᴰ.cases_cons m) below.0, λ m. up (Memᴰ.cases_cons m) below.1)
]
  where
    down : (e ≡ y) ⊎ Memᴰ e (place x l) → (Memᴰ e (place x l) → Memᴰ e (x ∷ l)) → Memᴰ e (x ∷ y ∷ l)
    down (inl same) f = tail (head same)
    down (inr m) f = again (Memᴰ.cases_cons (f m))
      where
        again : (e ≡ x) ⊎ Memᴰ e l → Memᴰ e (x ∷ y ∷ l)
        again (inl same) = head same
        again (inr m) = tail (tail m)

    up : (e ≡ x) ⊎ Memᴰ e (y ∷ l) → (Memᴰ e (x ∷ l) → Memᴰ e (place x l)) → Memᴰ e (y ∷ place x l)
    up (inl same) f = tail (f (head same))
    up (inr m) f = again (Memᴰ.cases_cons m)
      where
        again : (e ≡ y) ⊎ Memᴰ e l → Memᴰ e (y ∷ place x l)
        again (inl same) = head same
        again (inr m) = tail (f (tail m))

sort_by_key-Mem : {A : Type 0} (e : ℕ × A) (l : List (ℕ × A)) → Memᴰ e (sort_by_key l) ↔ Memᴰ e l
unfolding sort_by_key
sort_by_key-Mem e [] = (λ m. m, λ m. m)
sort_by_key-Mem e (x ∷ l) =
    let here = place-Mem e x (sort_by_key l) in
    let below = sort_by_key-Mem e l in
    (λ m. move (Memᴰ.cases_cons (here.0 m)) below.0, λ m. here.1 (move (Memᴰ.cases_cons m) below.1))
  where
    move : {m n : List _} → (e ≡ x) ⊎ Memᴰ e m → (Memᴰ e m → Memᴰ e n) → Memᴰ e (x ∷ n)
    move (inl same) f = head same
    move (inr d) f = tail (f d)

module _ (now : ℕ) where
  abbrev entry : MemberRecord → ℕ × MemberStatus
  entry m = (m.member_id, status_of m now)

  ids-entry :
      (l : List MemberRecord) → ids (map entry l) ≡ map (λ (m : MemberRecord). m.member_id) l
  ids-entry [] = refl
  ids-entry (m ∷ l) = ap (λ r. m.member_id ∷ r) (ids-entry l)

  entry-Mem :
      (id : ℕ) (st : MemberStatus) (l : List MemberRecord)
      → Memᴰ (id, st) (map entry l)
        ↔ ((m : MemberRecord) × Memᴰ m l × (m.member_id ≡ id) × HasStatus m now st)
  entry-Mem id st l = (
    λ d.
        let (m, there, e) = Memᴰ.of_map entry l d in
        (m, there, ap (λ x. x.0) e, rw (← ap (λ x. x.1) e) (status_of-HasStatus m now)),
    λ (m, there, is_id, has).
        let e : entry m ≡ (id, st) = ap₂ (λ a b. (a, b)) is_id (HasStatus-status_of m now st has) in
        Memᴰ.cast (sym e) (Memᴰ.map entry there),
  )

-- The rebuilt state lists its statuses in ascending order of the identifiers; the identifiers are
-- those of the snapshot's members, each as often as there; it lists a status for an identifier
-- exactly when the snapshot has a member with that identifier whose output is spent (renewed), is
-- unspent and not past its expiry (active), or is unspent and past it (revoked); and it keeps the
-- snapshot's root.
pub rebuild_from_chain_lem :
    (s : LedgerSnapshot) (id : ℕ) (st : MemberStatus)
    → IsSorted (rebuild_from_chain s).statuses
      × Perm
          (map (λ (e : ℕ × MemberStatus). e.0) (rebuild_from_chain s).statuses)
          (map (λ (m : MemberRecord). m.member_id) s.members)
      × (Memᴰ (id, st) (rebuild_from_chain s).statuses
          ↔ ((m : MemberRecord) × Memᴰ m s.members × (m.member_id ≡ id) × HasStatus m s.now st))
      × ((rebuild_from_chain s).graph_root ≡ s.graph_root)
unfolding rebuild_from_chain
rebuild_from_chain_lem s id st =
    let l = map (entry s.now) s.members in
    let sorted = sort_by_key-Mem (id, st) l in
    let listed = entry-Mem s.now id st s.members in
    (
      sort_by_key-IsSorted l,
      rw (← ids-entry s.now s.members) (sort_by_key-Perm l),
      (λ d. listed.0 (sorted.0 d), λ x. sorted.1 (listed.1 x)),
      refl,
    )
