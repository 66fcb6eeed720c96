-- ===== src/Base/Outcome.antt =====
-- Rust's `Result<A, E>`, with `?` as the bind of a `do` block.
use mathlib.Core.Path.{◌≡◌, refl}
use mathlib.Core.Option.{Option, none, some}

pub data Result {ℓ κ} (E : Type κ) (A : Type ℓ) : Type (ℓ ⊔ κ) where
  ok : A → Result E A
  err : E → Result E A

-- `abbrev`, so that `ok a >>= f` computes wherever it stands.
infixl 5 ◌>>=◌ ◌>>◌
abbrev pub ◌>>=◌ {ℓ μ κ} :
    {E : Type κ} {A : Type ℓ} {B : Type μ} → Result E A → (A → Result E B) → Result E B
ok a >>= f = f a
err e >>= f = err e

abbrev pub ◌>>◌ {ℓ κ} : {E : Type κ} {B : Type ℓ} → Result E (Unit {0}) → Result E B → Result E B
m >> k = m >>= λ _. k

-- `Option::ok_or`
abbrev pub ok_or {ℓ κ} : {E : Type κ} {A : Type ℓ} → Option A → E → Result E A
ok_or none e = err e
ok_or (some a) e = ok a

-- `Result::map_err`, and the conversion that `?` makes.
abbrev pub map_err {ℓ κ μ} :
    {E : Type κ} {F : Type μ} {A : Type ℓ} → (E → F) → Result E A → Result F A
map_err f (ok a) = ok a
map_err f (err e) = err (f e)

-- A method of `&mut self` that returns a `Result`, followed, if it did not fail, by another.
abbrev pub and_then {ℓ μ κ ν} :
    {S : Type ν} {E : Type κ} {A : Type ℓ} {B : Type μ}
    → S × Result E A
    → (S → S × Result E B)
    → S × Result E B
and_then (s, ok a) f = f s
and_then (s, err e) f = (s, err e)

-- The same, where the next one also takes the result.
abbrev pub then_with {ℓ μ κ ν} :
    {S : Type ν} {E : Type κ} {A : Type ℓ} {B : Type μ}
    → S × Result E A
    → (A → S → S × Result E B)
    → S × Result E B
then_with (s, ok a) f = f a s
then_with (s, err e) f = (s, err e)

module _ {ℓ μ κ} {E : Type κ} {A : Type ℓ} {B : Type μ} where
  -- What a chain that did not fail went through.
  pub >>=-eq-ok :
      (first : Result E A) (next : A → Result E B) {out : B}
      → (first >>= next) ≡ ok out
      → (mid : A) × (first ≡ ok mid) × (next mid ≡ ok out)
  >>=-eq-ok (err e) next done = cc
  >>=-eq-ok (ok mid) next done = (mid, refl, done)

  pub >>=-cong :
      (m : Result E A) (f g : A → Result E B) → ((a : A) → f a ≡ g a) → (m >>= f) ≡ (m >>= g)
  >>=-cong (ok a) f g h = h a
  >>=-cong (err e) f g h = refl

-- What holds of the state before holds after each result.
module _ {ℓ μ κ ν π} {S : Type ν} {E : Type κ} {A : Type ℓ} {B : Type μ} where
  pub then_with_keeps :
      (P : S → Type π) (m : S × Result E A) (f : A → S → S × Result E B)
      → P m.0
      → ((a : A) (s : S) → m ≡ (s, ok a) → P s → P (f a s).0)
      → P (then_with m f).0
  then_with_keeps P (s, ok a) f start next = next a s refl start
  then_with_keeps P (s, err e) f start next = start

module _ {ℓ μ κ ν} {S : Type ν} {E : Type κ} {A : Type ℓ} {B : Type μ} where
  -- What a chain that did not fail went through.
  pub then_with-eq-ok :
      (m : S × Result E A) (f : A → S → S × Result E B) {s : S} {b : B}
      → then_with m f ≡ (s, ok b)
      → (mid : A) × (t : S) × (m ≡ (t, ok mid)) × (f mid t ≡ (s, ok b))
  then_with-eq-ok (t, err e) f done = cc
  then_with-eq-ok (t, ok mid) f done = (mid, t, refl, done)

module _ {ℓ μ κ ν} {S : Type ν} {E : Type κ} {A : Type ℓ} {B : Type μ} where
  -- The same, where the state before the result is known.
  pub then_with-state :
      (start : S) (r : Result E A) (f : A → S → S × Result E B) {s : S} {b : B}
      → then_with (start, r) f ≡ (s, ok b)
      → (mid : A) × (r ≡ ok mid) × (f mid start ≡ (s, ok b))
  then_with-state start (err e) f done = cc
  then_with-state start (ok mid) f done = (mid, refl, done)

pub ok_inj {ℓ κ} : {E : Type κ} {A : Type ℓ} {x y : A} → ◌≡◌ {A = Result E A} (ok x) (ok y) → x ≡ y
ok_inj h = cc

pub err_ok {ℓ κ} :
    {E : Type κ} {A : Type ℓ} {e : E} {x : A} → ◌≡◌ {A = Result E A} (err e) (ok x) → ⊥
err_ok h = cc

pub ok_or-eq-ok {ℓ κ} :
    {E : Type κ} {A : Type ℓ} (e : E) (o : Option A) {x : A} → ok_or o e ≡ ok x → o ≡ some x
ok_or-eq-ok e none h = cc
ok_or-eq-ok e (some a) h = cc

pub map_err-eq-ok {ℓ κ μ} :
    {E : Type κ} {F : Type μ} {A : Type ℓ} (f : E → F) (r : Result E A) {x : A}
    → map_err f r ≡ ok x
    → r ≡ ok x
map_err-eq-ok f (ok y) h = cc
map_err-eq-ok f (err e) h = cc
