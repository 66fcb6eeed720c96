-- ===== src/Bsv/Cursor/Sizes.antt =====
-- How far the reads of crates/bsv/src/bytes.rs move the cursor.
use overlay_broadcast.Base
use overlay_broadcast.Base.{
  ℕ, zero, suc, ◌+◌, ◌-◌, ◌≤◌, ◌≡◌, refl, sym, ap, ◌∙◌, Bool, true, false, Option, none, some, List,
  [], ◌∷◌, ◌==◌, if◌then◌else◌, length, length-take, length-drop, get_elem?, Result, ok, err, ok_or,
  ok_or-eq-ok, ok_inj, arith, >>=-eq-ok,
}
use overlay_broadcast.Bsv.Error.{BsvError, truncated}
use overlay_broadcast.Bsv.Cursor.{
  Cursor, Parser, ◌>>=◌, pure, lift, take, u8, u32_le, i32_le, u64_le, hash256, uint, varint,
  varint_rest, varint_bytes,
}
use overlay_broadcast.Bsv.Cursor.Bounds.{InBounds}

-- `c'` is `c` after just `n` bytes were read.
pub record Moved (n : ℕ) (c c' : Cursor) : Type 0 where
  pub same : c'.bytes ≡ c.bytes
  pub moved : c'.off ≡ c.off + n
  pub within : InBounds c'

-- A successful run of `p` reads as many bytes as `size` has for the cursor before it and the result.
pub record Moves {ℓ} {A : Type ℓ} (size : Cursor → A → ℕ) (p : Parser A) : Type ℓ where
  pub step : (c c' : Cursor) (a : A) → InBounds c → p c ≡ ok (a, c') → Moved (size c a) c c'

-- The same where the number of bytes is fixed.
abbrev pub Takes {ℓ} : {A : Type ℓ} → ℕ → Parser A → Type ℓ
Takes n p = Moves (λ _ _. n) p

Moved-trans : (m n : ℕ) {a b c : Cursor} → Moved m a b → Moved n b c → Moved (m + n) a c
Moved-trans m n f g = record {
  same = g.same ∙ f.same;
  moved = omega (arith, f.moved, g.moved);
  within = g.within;
}

Moved-cast : {m n : ℕ} {a b : Cursor} → m ≡ n → Moved m a b → Moved n a b
Moved-cast {a = a} {b = b} e f = rw e at f

module _ {ℓ} {A : Type ℓ} where
  Takes-lift : (r : Result BsvError A) → Takes 0 (lift r)
  Takes-lift (ok a) = record {
    step = λ c c' b h e. record {
      same = sym (ap (λ (x : Cursor). x.bytes) (ap (λ z. z.1) (ok_inj e)));
      moved = omega (arith, ap (λ (x : Cursor). x.off) (ap (λ z. z.1) (ok_inj e)));
      within = rw (ap (λ z. z.1) (ok_inj e)) at h;
    };
  }
  Takes-lift (err x) = record { step = λ c c' b h e. cc }

  Takes-pure : (a : A) → Takes 0 (pure a)
  Takes-pure a = Takes-lift (ok a)

  Takes-if :
      {m n : ℕ} (b : Bool) {p q : Parser A}
      → Takes m p
      → Takes n q
      → Takes (if b then m else n) (if b then p else q)
  Takes-if true hp hq = hp
  Takes-if false hp hq = hq

module _ {ℓ κ} {A : Type ℓ} {B : Type κ} where
  Takes-bind :
      (m n : ℕ) {p : Parser A} {f : A → Parser B}
      → Takes m p
      → ((a : A) → Takes n (f a))
      → Takes (m + n) (p >>= f)
  Takes-bind m n {p} {f} hp hf = record {
    step = λ c c' b h e.
        let ((a, c1), e1, e2) = >>=-eq-ok (p c) (λ (a, c1). f a c1) e in
        let first = hp.step c c1 a h e1 in
        Moved-trans m n first ((hf a).step c1 c' b first.within e2);
  }

Takes-take : (n : ℕ) → Takes n (take n)
unfolding take
Takes-take n = record {
  step = λ c c' b h e. record {
    same = ground (arith, e);
    moved = ground (arith, e);
    within = ground (arith, e);
  };
}

Takes-u8 : Takes 1 u8
unfolding u8
Takes-u8 = Takes-bind 1 0 (Takes-take 1) (λ s. Takes-lift _)

Takes-u32_le : Takes 4 u32_le
unfolding u32_le
Takes-u32_le =
    Takes-bind 4 0 (Takes-take 4) (λ s. Takes-bind 0 0 (Takes-lift _) (λ b. Takes-pure _))

Takes-i32_le : Takes 4 i32_le
unfolding i32_le
Takes-i32_le =
    Takes-bind 4 0 (Takes-take 4) (λ s. Takes-bind 0 0 (Takes-lift _) (λ b. Takes-pure _))

Takes-u64_le : Takes 8 u64_le
unfolding u64_le
Takes-u64_le =
    Takes-bind 8 0 (Takes-take 8) (λ s. Takes-bind 0 0 (Takes-lift _) (λ b. Takes-pure _))

Takes-hash256 : Takes 32 hash256
unfolding hash256
Takes-hash256 = Takes-bind 32 0 (Takes-take 32) (λ s. Takes-lift _)

Takes-uint : (n : ℕ) → Takes n (uint n)
unfolding uint
Takes-uint n = record {
  step = λ c c' a h e.
      Moved-cast (omega arith)
        ((Takes-bind n 0 (Takes-take n) (λ s. Takes-lift _)).step c c' a h e);
}

-- The byte at the cursor.
abbrev pub next_byte : Cursor → Option ℕ
next_byte c = get_elem? c.bytes c.off

-- The bytes that follow the first byte of a number.
abbrev tail_size : ℕ → ℕ
tail_size b = if b == 0xff then 8 else if b == 0xfe then 4 else if b == 0xfd then 2 else 0

-- The bytes of a number in Bitcoin's format, by its first byte.
abbrev pub varint_size : Option ℕ → ℕ
varint_size none = 0
varint_size (some b) = 1 + tail_size b

-- The number that a read returned, 0 for an error.
abbrev pub number_of : Result BsvError (ℕ × Cursor) → ℕ
number_of (ok (n, c)) = n
number_of (err e) = 0

Takes-varint_rest : (b : ℕ) → Takes (tail_size b) (varint_rest b)
unfolding varint_rest
Takes-varint_rest b =
    Takes-if _ (Takes-uint 8) (Takes-if _ (Takes-uint 4) (Takes-if _ (Takes-uint 2) (Takes-pure b)))

first-drop : (n : ℕ) (xs : List ℕ) → get_elem? (Base.take 1 (Base.drop n xs)) 0 ≡ get_elem? xs n
first-drop zero [] = refl
first-drop zero (x ∷ xs) = refl
first-drop (suc n) [] = refl
first-drop (suc n) (x ∷ xs) = first-drop n xs

take_slice :
    (n : ℕ) (c c' : Cursor) (a : List ℕ)
    → take n c ≡ ok (a, c')
    → (a ≡ Base.take n (Base.drop c.off c.bytes)) × (c.off + n ≤ length c.bytes)
unfolding take
take_slice n c c' a e =
    let d : c.off + n - c.off ≡ n = omega arith in
    ground (arith, e, ap (λ k. Base.take k (Base.drop c.off c.bytes)) d)

u8_byte : (c c' : Cursor) (b : ℕ) → u8 c ≡ ok (b, c') → next_byte c ≡ some b
unfolding u8
u8_byte c c' b e =
    let ((s, c1), e1, e2) = >>=-eq-ok (take 1 c) _ e in
    let slice = (take_slice 1 c c1 s e1).0 in
    sym (first-drop c.off c.bytes)
    ∙ ap (λ l. get_elem? l 0) (sym slice)
    ∙ read (get_elem? s 0) c1 e2
  where
    read : (o : Option ℕ) (c1 : Cursor) → lift (ok_or o truncated) c1 ≡ ok (b, c') → o ≡ some b
    read none c1 e = cc
    read (some x) c1 e = ap (λ z. some z) (ap (λ z. z.0) (ok_inj e))

Moves-varint : Moves (λ c _. varint_size (next_byte c)) varint
unfolding varint
Moves-varint = record {
  step = λ c c' a h e.
      let ((b, c1), e1, e2) = >>=-eq-ok (u8 c) (λ (b, c1). varint_rest b c1) e in
      let first = Takes-u8.step c c1 b h e1 in
      let rest = (Takes-varint_rest b).step c1 c' a first.within e2 in
      Moved-cast (ap varint_size (sym (u8_byte c c1 b e1)))
        (Moved-trans 1 (tail_size b) first rest);
}

-- The number of bytes of the run, and its length.
varint_bytes_lem :
    (c c' : Cursor) (a : List ℕ)
    → InBounds c
    → varint_bytes c ≡ ok (a, c')
    → Moved (varint_size (next_byte c) + number_of (varint c)) c c'
      × (length a ≡ number_of (varint c))
unfolding varint_bytes
varint_bytes_lem c c' a h e =
    let ((n, c1), e1, e2) = >>=-eq-ok (varint c) (λ (n, c1). take n c1) e in
    let first = Moves-varint.step c c1 n h e1 in
    let rest = (Takes-take n).step c1 c' a first.within e2 in
    let slice = take_slice n c1 c' a e2 in
    rw e1 (
      Moved-trans (varint_size (next_byte c)) n first rest,
      rw slice.0 (
          length-take n (Base.drop c1.off c1.bytes)
          ∙ omega (arith, slice.1, length-drop c1.off c1.bytes)),
    )

-- Every read that succeeds, with the cursor in its input, leaves the bytes as they are, stands at most
-- at their end, and moves on by just the bytes of what it reads: `take` by its number; u8, u32_le and
-- i32_le, u64_le, hash256 by 1, 4, 8, 32; varint by 1, 3, 5 or 9, as the byte at the cursor says;
-- varint_bytes by that and the number that varint reads there, which is also the length of the run.
pub reads_advance :
    ((n : ℕ) → Takes n (take n))
    × Takes 1 u8
    × Takes 4 u32_le
    × Takes 4 i32_le
    × Takes 8 u64_le
    × Takes 32 hash256
    × Moves (λ c _. varint_size (next_byte c)) varint
    × Moves (λ c _. varint_size (next_byte c) + number_of (varint c)) varint_bytes
    × Moves (λ c run. varint_size (next_byte c) + length run) varint_bytes
reads_advance = (
  Takes-take,
  Takes-u8,
  Takes-u32_le,
  Takes-i32_le,
  Takes-u64_le,
  Takes-hash256,
  Moves-varint,
  record { step = λ c c' a h e. (varint_bytes_lem c c' a h e).0 },
  record {
    step = λ c c' a h e.
        let (m, l) = varint_bytes_lem c c' a h e in
        Moved-cast (ap (λ n. varint_size (next_byte c) + n) (sym l)) m;
  },
)
