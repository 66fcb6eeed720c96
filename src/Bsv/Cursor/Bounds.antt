-- ===== src/Bsv/Cursor/Bounds.antt =====
-- Where the reads of crates/bsv/src/bytes.rs leave the cursor.
use overlay_broadcast.Base.{
  ℕ, ◌+◌, ◌≤◌, ◌≡◌, Bool, true, false, if◌then◌else◌, length, Result, ok, err, arith, ◌∙◌,
  >>=-eq-ok,
}
use overlay_broadcast.Bsv.Error.{BsvError}
use overlay_broadcast.Bsv.Cursor.{Cursor, Parser, ◌>>=◌, pure, lift, take, u8}

-- The cursor stands in its input.
abbrev pub InBounds : Cursor → Type 0
InBounds c = c.off ≤ length c.bytes

-- `c'` is `c` after at least `n` bytes were read.
pub record Forward (n : ℕ) (c c' : Cursor) : Type 0 where
  pub same : c'.bytes ≡ c.bytes
  pub moved : c.off + n ≤ c'.off
  pub within : InBounds c'

-- A successful run of `p` reads at least `n` bytes and stays in the input.
pub record Advances {ℓ} {A : Type ℓ} (n : ℕ) (p : Parser A) : Type ℓ where
  pub step : (c c' : Cursor) (a : A) → InBounds c → p c ≡ ok (a, c') → Forward n c c'

Forward-trans : {m n : ℕ} {a b c : Cursor} → Forward m a b → Forward n b c → Forward (m + n) a c
Forward-trans f g = record {
  same = g.same ∙ f.same;
  moved = omega (arith, f.moved, g.moved);
  within = g.within;
}

module _ {ℓ} {A : Type ℓ} where
  pub Advances-lift : (r : Result BsvError A) → Advances 0 (lift r)
  Advances-lift (ok a) = record { step = λ c c' b h e. ground arith }
  Advances-lift (err x) = record { step = λ c c' b h e. cc }

pub Advances-take : (n : ℕ) → Advances n (take n)
unfolding take
Advances-take n = record { step = λ c c' b h e. ground arith }

module _ {ℓ κ} {A : Type ℓ} {B : Type κ} where
  pub Advances-bind :
      {m n : ℕ} {p : Parser A} {f : A → Parser B}
      → Advances m p
      → ((a : A) → Advances n (f a))
      → Advances (m + n) (p >>= f)
  Advances-bind {m} {n} {p} {f} hp hf = record {
    step = λ c c' b h e.
        let ((a, c1), e1, e2) = >>=-eq-ok (p c) (λ (a, c1). f a c1) e in
        let first = hp.step c c1 a h e1 in
        Forward-trans first ((hf a).step c1 c' b first.within e2);
  }

module _ {ℓ} {A : Type ℓ} where
  pub Advances-weaken : {m n : ℕ} {p : Parser A} → n ≤ m → Advances m p → Advances n p
  Advances-weaken le hp = record {
    step = λ c c' b h e.
        let f = hp.step c c' b h e in
        record { same = f.same; moved = omega (arith, f.moved); within = f.within };
  }

  pub Advances-pure : (a : A) → Advances 0 (pure a)
  Advances-pure a = Advances-lift (ok a)

  pub Advances-if :
      {n : ℕ} (b : Bool) {p q : Parser A}
      → Advances n p
      → Advances n q
      → Advances n (if b then p else q)
  Advances-if true hp hq = hp
  Advances-if false hp hq = hq

pub Advances-u8 : Advances 1 u8
unfolding u8
Advances-u8 = Advances-bind (Advances-take 1) (λ s. Advances-lift _)
