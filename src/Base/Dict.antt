-- ===== src/Base/Dict.antt =====
-- Rust's `HashMap` and `HashSet`: an association list over a type of keys with a Boolean equality.
-- The order of the list stands for the unspecified order of iteration.
use Prim.Native.Nat.{ℕ}
use mathlib.Core.Path.{◌≡◌, refl}
use mathlib.Core.Logic.{◌↔◌}
use mathlib.Core.Bool.{Bool, true, false, ◌&&◌}
use mathlib.Core.Option.{Option, none, some}
use mathlib.Core.List.{List, [], ◌∷◌}
use native.Mathlib.Omega.{arith}
use overlay_broadcast.Base.Tests.{if◌then◌else◌, ==_iff}
use overlay_broadcast.Base.Tests.{◌==◌ as nat_beq}

pub record Equality {ℓ} (A : Type ℓ) : Type ℓ where
  pub equal : A → A → Bool
  pub equal_iff : (a b : A) → (equal a b ≡ true) ↔ (a ≡ b)

infix 50 ◌==◌
abbrev pub ◌==◌ {ℓ} : {A : Type ℓ} ⦃e : Equality A⦄ → A → A → Bool
◌==◌ ⦃e⦄ = e.equal

instance abbrev pub nat_eq : Equality ℕ
nat_eq = record { equal = nat_beq; equal_iff = ==_iff }

unfoldable pub list_beq {ℓ} : {A : Type ℓ} ⦃e : Equality A⦄ → List A → List A → Bool
list_beq [] [] = true
list_beq (x ∷ xs) (y ∷ ys) = x == y && list_beq xs ys
list_beq _ _ = false

pub list_beq_iff {ℓ} :
    {A : Type ℓ} ⦃e : Equality A⦄ (xs ys : List A) → (list_beq xs ys ≡ true) ↔ (xs ≡ ys)
unfolding list_beq
list_beq_iff [] [] = ground arith
list_beq_iff [] (y ∷ ys) = ground arith
list_beq_iff (x ∷ xs) [] = ground arith
list_beq_iff ⦃e⦄ (x ∷ xs) (y ∷ ys) = ground (arith, e.equal_iff x y, list_beq_iff xs ys)

instance abbrev pub list_eq {ℓ} : {A : Type ℓ} ⦃e : Equality A⦄ → Equality (List A)
list_eq = record { equal = list_beq; equal_iff = list_beq_iff }

unfoldable pub pair_beq {ℓ κ} :
    {A : Type ℓ} {B : Type κ} ⦃e : Equality A⦄ ⦃f : Equality B⦄ → A × B → A × B → Bool
pair_beq p q = p.0 == q.0 && p.1 == q.1

pub pair_beq_iff {ℓ κ} :
    {A : Type ℓ} {B : Type κ} ⦃e : Equality A⦄ ⦃f : Equality B⦄ (p q : A × B)
    → (pair_beq p q ≡ true) ↔ (p ≡ q)
unfolding pair_beq
pair_beq_iff ⦃e⦄ ⦃f⦄ (a, b) (c, d) = ground (arith, e.equal_iff a c, f.equal_iff b d)

instance abbrev pub pair_eq {ℓ κ} :
    {A : Type ℓ} {B : Type κ} ⦃e : Equality A⦄ ⦃f : Equality B⦄ → Equality (A × B)
pair_eq = record { equal = pair_beq; equal_iff = pair_beq_iff }

module _ {ℓ κ} {K : Type ℓ} ⦃e : Equality K⦄ {V : Type κ} where
  unfoldable pub get : K → List (K × V) → Option V
  get k [] = none
  get k ((j, v) ∷ m) = if j == k then some v else get k m

  unfoldable pub insert : K → V → List (K × V) → List (K × V)
  insert k v [] = (k, v) ∷ []
  insert k v ((j, w) ∷ m) = if j == k then (k, v) ∷ m else (j, w) ∷ insert k v m

  -- Every entry of the key goes.
  unfoldable pub remove : K → List (K × V) → List (K × V)
  remove k [] = []
  remove k ((j, w) ∷ m) = let rest = remove k m in if j == k then rest else (j, w) ∷ rest

  pub get-insert :
      (k j : K) (v : V) (m : List (K × V))
      → get j (insert k v m) ≡ (if k == j then some v else get j m)
  unfolding get insert
  get-insert k j v [] = refl
  get-insert k j v ((i, w) ∷ m) =
      ground (arith, e.equal_iff k j, e.equal_iff i k, e.equal_iff i j, get-insert k j v m)

  pub get-remove :
      (k j : K) (m : List (K × V)) → get j (remove k m) ≡ (if k == j then none else get j m)
  unfolding get remove
  get-remove k j [] = ground arith
  get-remove k j ((i, w) ∷ m) =
      ground (arith, get-remove k j m, e.equal_iff i k, e.equal_iff i j, e.equal_iff k j)

module _ {ℓ κ} {K : Type ℓ} ⦃e : Equality K⦄ {V : Type κ} where
  pub get-insert_same : (k : K) (v : V) (m : List (K × V)) → get k (insert k v m) ≡ some v
  get-insert_same k v m = ground (arith, get-insert k k v m, (e.equal_iff k k).1 refl)

  pub get-insert_other :
      (k j : K) (v : V) (m : List (K × V)) → (k == j) ≡ false → get j (insert k v m) ≡ get j m
  get-insert_other k j v m h = ground (arith, get-insert k j v m, h)

-- `HashSet`: a dictionary into the unit type.
abbrev pub Set {ℓ} : Type ℓ → Type ℓ
Set K = List (K × Unit {0})

module _ {ℓ} {K : Type ℓ} ⦃e : Equality K⦄ where
  unfoldable pub contains : K → Set K → Bool
  contains x s = elim (get x s) [ none ↦ false | some _ ↦ true ]

  pub contains-insert :
      (x y : K) (s : Set K) → contains x (insert y tt s) ≡ (if y == x then true else contains x s)
  unfolding contains
  contains-insert x y s = rw (contains, get-insert y x tt s) (ground arith)

  pub contains-remove :
      (x y : K) (s : Set K) → contains x (remove y s) ≡ (if y == x then false else contains x s)
  unfolding contains
  contains-remove x y s = rw (contains, get-remove y x s) (ground arith)
