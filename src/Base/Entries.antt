-- ===== src/Base/Entries.antt =====
-- The entries of a `HashMap`: no key has two, so that a loop over the entries and a lookup agree.
use Prim.Native.Nat.{suc}
use mathlib.Core.Path.{◌≡◌, refl, sym, ◌∙◌}
use mathlib.Core.Logic.{◌⊎◌, inl, inr}
use mathlib.Core.Bool.{false}
use mathlib.Core.Option.{Option, none, some}
use mathlib.Core.List.{List, [], ◌∷◌}
use native.Mathlib.Omega.{arith}
use overlay_broadcast.Base.Tests.{Bool-cases}
use overlay_broadcast.Base.Lists.{length, All}
use overlay_broadcast.Base.Dict.{Equality, ◌==◌, get, insert, remove, get-insert, get-remove}

module _ {ℓ} {K : Type ℓ} ⦃e : Equality K⦄ where
  pub key_sym : (j k : K) → (j == k) ≡ false → (k == j) ≡ false
  key_sym j k h = ground (arith, h, e.equal_iff j k, e.equal_iff k j)

module _ {ℓ κ} {K : Type ℓ} ⦃e : Equality K⦄ {V : Type κ} where
  -- Each key stands once.
  unfoldable pub Distinct : List (K × V) → Type κ
  unfolding get
  Distinct [] = Unit
  Distinct ((k, v) ∷ m) = (get k m ≡ none) × Distinct m

  later_lem :
      (k : K) (v : V) (j : K) (w : V) (m : List (K × V))
      → Distinct ((k, v) ∷ m)
      → get j m ≡ some w
      → get j ((k, v) ∷ m) ≡ some w
  unfolding Distinct get
  later_lem k v j w m d found = elim (Bool-cases (k == j)) [
    | inl same ↦ absurd (clash (sym (rw ((e.equal_iff k j).0 same) at d.0) ∙ found))
    | inr other ↦ rw other found
  ]
    where
      clash : {x : V} → ◌≡◌ {A = Option V} none (some x) → ⊥
      clash h = cc

  -- What holds of every lookup holds of every entry.
  pub All-entries {μ} :
      (P : K → V → Type μ) (m : List (K × V))
      → Distinct m
      → ((k : K) (v : V) → get k m ≡ some v → P k v)
      → All (λ (x : K × V). P x.0 x.1) m
  unfolding Distinct get
  All-entries P [] d h = tt
  All-entries P ((k, v) ∷ m) d h = (
    h k v (rw ((e.equal_iff k k).1 refl) refl),
    All-entries P m d.1 (λ j w found. h j w (later_lem k v j w m d found)),
  )

  pub length-insert_new :
      (k : K) (v : V) (m : List (K × V)) → get k m ≡ none → length (insert k v m) ≡ suc (length m)
  unfolding get insert
  length-insert_new k v [] h = omega arith
  length-insert_new k v ((j, w) ∷ m) h = ground (arith, length-insert_new k v m)

  pub length-insert_old :
      (k : K) (v w : V) (m : List (K × V)) → get k m ≡ some w → length (insert k v m) ≡ length m
  unfolding get insert
  length-insert_old k v w [] h = absurd (cc)
  length-insert_old k v w ((j, x) ∷ m) h = ground (arith, length-insert_old k v w m)

  remove_absent : (k : K) (m : List (K × V)) → get k m ≡ none → remove k m ≡ m
  unfolding get remove
  remove_absent k [] h = refl
  remove_absent k ((j, x) ∷ m) h = ground (arith, remove_absent k m)

  pub length-remove :
      (k : K) (w : V) (m : List (K × V))
      → Distinct m
      → get k m ≡ some w
      → suc (length (remove k m)) ≡ length m
  unfolding get remove Distinct
  length-remove k w [] d h = absurd (cc)
  length-remove k w ((j, x) ∷ m) d h =
      ground (arith, length-remove k w m d.1, remove_absent k m, e.equal_iff j k, d.0)

  pub Distinct-insert : (k : K) (v : V) (m : List (K × V)) → Distinct m → Distinct (insert k v m)
  unfolding get insert Distinct
  Distinct-insert k v [] d = (refl, tt)
  Distinct-insert k v ((j, x) ∷ m) d = elim (Bool-cases (j == k)) [
    | inl same ↦ rw same (rw ((e.equal_iff j k).0 same) at d.0, d.1)
    | inr other ↦
        rw other (get-insert k j v m ∙ rw (key_sym j k other) d.0, Distinct-insert k v m d.1)
  ]

  pub Distinct-remove : (k : K) (m : List (K × V)) → Distinct m → Distinct (remove k m)
  unfolding get remove Distinct
  Distinct-remove k [] d = tt
  Distinct-remove k ((j, x) ∷ m) d = elim (Bool-cases (j == k)) [
    | inl same ↦ rw same (Distinct-remove k m d.1)
    | inr other ↦ rw other (get-remove k j m ∙ rw (key_sym j k other) d.0, Distinct-remove k m d.1)
  ]

  -- Where an entry of an insertion or of a removal comes from.
  pub get-insert_cases :
      (k j : K) (v w : V) (m : List (K × V))
      → get j (insert k v m) ≡ some w
      → ((k ≡ j) × (v ≡ w)) ⊎ (((k == j) ≡ false) × (get j m ≡ some w))
  get-insert_cases k j v w m h = elim (Bool-cases (k == j)) [
    | inl same ↦ inl ((e.equal_iff k j).0 same, inner (rw (get-insert k j v m, same) at h))
    | inr other ↦ inr (other, rw (get-insert k j v m, other) at h)
  ]
    where
      inner : ◌≡◌ {A = Option V} (some v) (some w) → v ≡ w
      inner h = cc

  pub get-remove_cases :
      (k j : K) (w : V) (m : List (K × V))
      → get j (remove k m) ≡ some w
      → ((k == j) ≡ false) × (get j m ≡ some w)
  get-remove_cases k j w m h = elim (Bool-cases (k == j)) [
    | inl same ↦ absurd (clash (rw (get-remove k j m, same) at h))
    | inr other ↦ (other, rw (get-remove k j m, other) at h)
  ]
    where
      clash : ◌≡◌ {A = Option V} none (some w) → ⊥
      clash h = cc

  pub get-remove_other :
      (k j : K) (m : List (K × V)) → (k == j) ≡ false → get j (remove k m) ≡ get j m
  get-remove_other k j m h = ground (arith, get-remove k j m, h)

  pub get-remove_same : (k : K) (m : List (K × V)) → get k (remove k m) ≡ none
  get-remove_same k m = ground (arith, get-remove k k m, (e.equal_iff k k).1 refl)
