-- ===== src/Base/Elems.antt =====
-- Membership in lists of numbers, and lists in which no number stands twice.
use Prim.Native.Nat.{ℕ, ◌≤◌}
use mathlib.Core.Path.{◌≡◌, refl}
use mathlib.Core.Logic.{inl, inr}
use mathlib.Core.Bool.{true, false, ◌||◌}
use mathlib.Core.List.{List, [], ◌∷◌, ◌++◌, reverse, reverse_aux, reverse_aux-eq}
use native.Mathlib.Omega.{arith}
use overlay_broadcast.Base.Tests.{◌==◌, if◌then◌else◌, Bool-cases, ==_iff}
use overlay_broadcast.Base.Lists.{length, elem, without, All}

abbrev pub Unique : List ℕ → Type 0
Unique [] = Unit
Unique (x ∷ xs) = (elem x xs ≡ false) × Unique xs

pub elem-append : (a : ℕ) (xs ys : List ℕ) → elem a (xs ++ ys) ≡ (elem a xs || elem a ys)
elem-append a [] ys = refl
elem-append a (x ∷ xs) ys = ground (arith, elem-append a xs ys)

pub elem-without :
    (a b : ℕ) (xs : List ℕ) → elem a (without b xs) ≡ (if b == a then false else elem a xs)
elem-without a b [] = ground arith
elem-without a b (x ∷ xs) = ground (arith, elem-without a b xs, ==_iff x b, ==_iff b a, ==_iff x a)

pub without-Unique : (b : ℕ) (xs : List ℕ) → Unique xs → Unique (without b xs)
without-Unique b [] u = tt
without-Unique b (x ∷ xs) u = elim (Bool-cases (x == b)) [
  | inl same ↦ rw same (without-Unique b xs u.1)
  | inr other ↦ rw other (ground (arith, elem-without x b xs, u.0), without-Unique b xs u.1)
]

pub length-without : (b : ℕ) (xs : List ℕ) → length (without b xs) ≤ length xs
length-without b [] = omega arith
length-without b (x ∷ xs) = ground (arith, length-without b xs)

elem-reverse_aux : (a : ℕ) (xs ys : List ℕ) → elem a (reverse_aux xs ys) ≡ (elem a xs || elem a ys)
elem-reverse_aux a [] ys = refl
elem-reverse_aux a (x ∷ xs) ys = ground (arith, elem-reverse_aux a xs (x ∷ ys))

-- The elements that a stack pops after `xs` has been pushed onto `ys`.
pub elem-pushed : (a : ℕ) (xs ys : List ℕ) → elem a (reverse xs ++ ys) ≡ (elem a xs || elem a ys)
elem-pushed a xs ys = rw (← reverse_aux-eq xs ys) (elem-reverse_aux a xs ys)

abbrev pub Disjoint : List ℕ → List ℕ → Type 0
Disjoint xs ys = (a : ℕ) → elem a xs ≡ true → elem a ys ≡ false

reverse_aux-Unique :
    (xs ys : List ℕ) → Unique xs → Unique ys → Disjoint xs ys → Unique (reverse_aux xs ys)
reverse_aux-Unique [] ys u v d = v
reverse_aux-Unique (x ∷ xs) ys u v d =
    reverse_aux-Unique xs (x ∷ ys) u.1 (d x (ground (arith, ==_iff x x)), v)
      λ a h. ground (arith, h, d a, u.0, ==_iff x a)

pub pushed-Unique :
    (xs ys : List ℕ) → Unique xs → Unique ys → Disjoint xs ys → Unique (reverse xs ++ ys)
pushed-Unique xs ys u v d = rw (← reverse_aux-eq xs ys) (reverse_aux-Unique xs ys u v d)

pub elem-last : (a : ℕ) (xs : List ℕ) → elem a (xs ++ (a ∷ [])) ≡ true
elem-last a xs = ground (arith, elem-append a xs (a ∷ []), ==_iff a a)

pub push-Unique : (a : ℕ) (xs : List ℕ) → Unique xs → elem a xs ≡ false → Unique (xs ++ (a ∷ []))
push-Unique a [] u f = (refl, tt)
push-Unique a (x ∷ xs) u f = (
  ground (arith, elem-append x xs (a ∷ []), f, u.0, ==_iff x a, ==_iff a x),
  push-Unique a xs u.1 (ground (arith, f)),
)

pub All-elem {ℓ} : (P : ℕ → Type ℓ) (xs : List ℕ) → ((x : ℕ) → elem x xs ≡ true → P x) → All P xs
All-elem P [] f = tt
All-elem P (x ∷ xs) f =
    (f x (ground (arith, ==_iff x x)), All-elem P xs (λ y e. f y (ground (arith, e))))
