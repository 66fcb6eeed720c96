-- ===== src/Bsv/Cursor/Reads.antt =====
-- Reads of crates/bsv/src/bytes.rs on an input that begins with known bytes.
use overlay_broadcast.Base
use overlay_broadcast.Base.{
  ℕ, suc, ◌+◌, ◌-◌, ◌*◌, ◌^◌, ◌≤◌, ◌<◌, ◌≡◌, refl, sym, ap, ◌∙◌, List, [], ◌∷◌, ◌++◌, arith, length,
  length-append, append_assoc, append-nil, ok, take-append, drop-append, drop-drop, length-drop,
}
use overlay_broadcast.Base.LittleEndian.{
  to_le_bytes, from_le_bytes, length-to_le_bytes, from_le_bytes-to_le_bytes,
}
use overlay_broadcast.Bsv.Cursor.{
  Cursor, Parser, ◌>>=◌, pure, lift, take, u8, u32_le, i32_le, u64_le, hash256, to_array, new,
  u64_size, remaining,
}

-- What the cursor `c` has not read is `r`.
pub record Rest (c : Cursor) (r : List ℕ) : Type 0 where
  pub count : c.off + length r ≡ length c.bytes
  pub fits : length c.bytes < u64_size
  pub rest : Base.drop c.off c.bytes ≡ r

-- On every input that begins with `xs`, `p` reads just `xs` and returns `a`.
pub record Parses {ℓ} {A : Type ℓ} (p : Parser A) (xs : List ℕ) (a : A) : Type ℓ where
  pub run :
      (c : Cursor) (r : List ℕ) → Rest c (xs ++ r) → (c' : Cursor) × (p c ≡ ok (a, c')) × Rest c' r

pub Rest-new : (xs : List ℕ) → length xs < u64_size → Rest (new xs) xs
unfolding new
Rest-new xs h = record { count = omega arith; fits = h; rest = refl }

pub remaining-Rest : {c : Cursor} {r : List ℕ} → Rest c r → remaining c ≡ length r
unfolding remaining
remaining-Rest h = omega (arith, h.count)

module _ {ℓ κ} {A : Type ℓ} {B : Type κ} where
  pub Parses-bind :
      {p : Parser A} (f : A → Parser B) {xs ys : List ℕ} {a : A} {b : B}
      → Parses p xs a
      → Parses (f a) ys b
      → Parses (p >>= f) (xs ++ ys) b
  Parses-bind {p} f {xs} {ys} {a} {b} hp hf = record {
    run = λ c r h.
        let (c1, e1, h1) = hp.run c (ys ++ r) (rw (← append_assoc xs ys r) h) in
        let (c2, e2, h2) = hf.run c1 r h1 in (c2, rw e1 e2, h2);
  }

module _ {ℓ} {A : Type ℓ} where
  pub Parses-pure : (a : A) → Parses (pure a) [] a
  Parses-pure a = record { run = λ c r h. (c, refl, h) }

  -- The last bind of a block, which reads nothing more.
  pub Parses-cast :
      {p : Parser A} {xs ys : List ℕ} {a : A} → xs ≡ ys → Parses p xs a → Parses p ys a
  Parses-cast {p} {xs} {ys} {a} e h = rw e at h

take-slice :
    (n o : ℕ) (b xs r : List ℕ)
    → length xs ≡ n
    → Base.drop o b ≡ xs ++ r
    → Base.take (o + n - o) (Base.drop o b) ≡ xs
take-slice n o b xs r e h =
    let count : o + n - o ≡ length xs = omega arith in rw (h, count) (take-append xs r)

drop-more :
    (n o : ℕ) (b xs r : List ℕ) → length xs ≡ n → Base.drop o b ≡ xs ++ r → Base.drop (o + n) b ≡ r
drop-more n o b xs r e h = drop-drop o n b ∙ rw (h, ← e) (drop-append xs r)

pub Parses-take : (n : ℕ) (xs : List ℕ) → length xs ≡ n → Parses (take n) xs xs
unfolding take
Parses-take n xs e = record {
  run = λ c r h. (
    record c { off = c.off + n },
    ground (arith, h.count, h.fits, length-append xs r, take-slice n c.off c.bytes xs r e h.rest),
    record {
      count = omega (arith, h.count, length-append xs r);
      fits = h.fits;
      rest = drop-more n c.off c.bytes xs r e h.rest;
    },
  );
}

pub Parses-u8 : (b : ℕ) → Parses u8 (b ∷ []) b
unfolding u8
Parses-u8 b = Parses-bind _ (Parses-take 1 (b ∷ []) refl) (Parses-pure b)

to_array_lem : (n : ℕ) (xs : List ℕ) → length xs ≡ n → to_array n xs ≡ ok xs
unfolding to_array
to_array_lem n xs e = ground arith

Parses-array :
    (n : ℕ) (xs : List ℕ) → length xs ≡ n → Parses (take n >>= λ b. lift (to_array n b)) xs xs
Parses-array n xs e =
    Parses-cast (append-nil xs)
      (Parses-bind _ (Parses-take n xs e) (rw (to_array_lem n xs e) (Parses-pure xs)))

Parses-le_bytes :
    (n v : ℕ)
    → v < 256 ^ n
    → Parses
        (take n >>= λ b. lift (to_array n b) >>= λ a. pure (from_le_bytes a))
        (to_le_bytes n v)
        v
Parses-le_bytes n v h =
    let e : length (to_le_bytes n v) ≡ n = length-to_le_bytes n v in
    Parses-cast (append-nil _) (
      Parses-bind _ (Parses-take n (to_le_bytes n v) e) (
        rw (to_array_lem n (to_le_bytes n v) e)
          (rw (from_le_bytes-to_le_bytes n v h) (Parses-pure v))))

pub Parses-hash256 : (h : List ℕ) → length h ≡ 32 → Parses hash256 h h
unfolding hash256
Parses-hash256 h e = Parses-array 32 h e

pub Parses-u32_le : (v : ℕ) → v < 2 ^ 32 → Parses u32_le (to_le_bytes 4 v) v
unfolding u32_le
Parses-u32_le v h = Parses-le_bytes 4 v h

pub Parses-i32_le : (v : ℕ) → v < 2 ^ 32 → Parses i32_le (to_le_bytes 4 v) v
unfolding i32_le
Parses-i32_le v h = Parses-le_bytes 4 v h

pub Parses-u64_le : (v : ℕ) → v < 2 ^ 64 → Parses u64_le (to_le_bytes 8 v) v
unfolding u64_le
Parses-u64_le v h = Parses-le_bytes 8 v h
