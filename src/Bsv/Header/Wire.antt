-- ===== src/Bsv/Header/Wire.antt =====
-- The layout of the 80 bytes in crates/bsv/src/header.rs.
use Prim.Native.Nat.add
use overlay_broadcast.Base
use overlay_broadcast.Base.{
  ℕ, zero, suc, ◌+◌, ◌-◌, ◌^◌, ◌≤◌, ◌<◌, ◌≡◌, refl, sym, ap, ◌∙◌, List, [], ◌∷◌, ◌++◌, arith,
  length, length-append, append-nil, append_assoc, ok, All, replicate, length-replicate,
  take-append, drop-append, drop-drop, leb, ◌==◌, true,
}
use overlay_broadcast.Base.LittleEndian.{to_le_bytes, length-to_le_bytes, from_le_bytes-to_le_bytes}
use overlay_broadcast.Bsv.Cursor.{to_array}
use overlay_broadcast.Bsv.Header.{BlockHeader, parse, read, serialize, write_at}

-- The ranges of the fields.
pub record IsHeader (h : BlockHeader) : Type 0 where
  pub version : h.version < 2 ^ 32
  pub prev : length h.prev_block_hash ≡ 32
  pub root : length h.merkle_root ≡ 32
  pub time : h.time < 2 ^ 32
  pub bits : h.bits < 2 ^ 32
  pub nonce : h.nonce < 2 ^ 32

-- The fields one after the other.
abbrev pub header_bytes : BlockHeader → List ℕ
header_bytes h =
    to_le_bytes 4 h.version
    ++ (h.prev_block_hash
        ++ (h.merkle_root
            ++ (to_le_bytes 4 h.time ++ (to_le_bytes 4 h.bits ++ (to_le_bytes 4 h.nonce ++ [])))))

drop-replicate : (n k : ℕ) → Base.drop {A = ℕ} n (replicate (n + k) 0) ≡ replicate k 0
drop-replicate zero k = ap (λ (m : ℕ). replicate m 0) (omega arith)
drop-replicate (suc n) k = rw (add.suc n k) (drop-replicate n k)

-- A write behind what has been written, into zeros.
write_at_next :
    (done src : List ℕ) (off n k : ℕ)
    → length done ≡ off
    → length src ≡ n
    → write_at (done ++ replicate (n + k) 0) off src ≡ (done ++ src) ++ replicate k 0
unfolding write_at
write_at_next done src off n k hd hs =
    ground (arith, kept, behind, room, append_assoc done src (replicate k 0))
  where
    kept : Base.take off (done ++ replicate (n + k) 0) ≡ done
    kept = rw (← hd) (take-append done _)

    behind : Base.drop (off + length src) (done ++ replicate (n + k) 0) ≡ replicate k 0
    behind =
        drop-drop off (length src) _
        ∙ rw (← hd) (rw (drop-append done (replicate (n + k) 0)) (rw hs (drop-replicate n k)))

    room : length (done ++ replicate (n + k) 0) ≡ off + (n + k)
    room = omega (arith, length-append done (replicate (n + k) 0), length-replicate (n + k) zero)

read_at :
    (n off : ℕ) (raw xs post : List ℕ)
    → length xs ≡ n
    → off + n < 2 ^ 64
    → off + length (xs ++ post) ≡ length raw
    → Base.drop off raw ≡ xs ++ post
    → read n raw off ≡ ok xs
unfolding read to_array
read_at n off raw xs post hx fits hl hd = ground (arith, slice, length-append xs post)
  where
    count : off + n - off ≡ length xs
    count = omega arith

    slice : Base.take (off + n - off) (Base.drop off raw) ≡ xs
    slice = rw (hd, count) (take-append xs post)

-- `out` holds `done` up to `off`, and `k` zeros.
record Written (out : List ℕ) (off k : ℕ) (done : List ℕ) : Type 0 where
  now : out ≡ done ++ replicate k 0
  size : length done ≡ off

Written-write_at :
    {out done : List ℕ} (off n k : ℕ) (src : List ℕ)
    → Written out off (n + k) done
    → length src ≡ n
    → Written (write_at out off src) (off + n) k (done ++ src)
Written-write_at {out} {done} off n k src w e = record {
  now = rw w.now (write_at_next done src off n k w.size e);
  size = omega (arith, length-append done src, w.size);
}

regroup :
    (a b c d e f : List ℕ)
    → (((((([] ++ a) ++ b) ++ c) ++ d) ++ e) ++ f) ++ []
      ≡ a ++ (b ++ (c ++ (d ++ (e ++ (f ++ [])))))
regroup a b c d e f = simp (append_assoc, append-nil)

pub serialize_lem : (h : BlockHeader) → IsHeader h → serialize h ≡ header_bytes h
unfolding serialize
serialize_lem h v =
    let l4 = length-to_le_bytes 4 in
    let start : Written (replicate 80 0) 0 80 [] = record { now = refl; size = refl } in
    let w1 = Written-write_at 0 4 76 (to_le_bytes 4 h.version) start (l4 h.version) in
    let w2 = Written-write_at 4 32 44 h.prev_block_hash w1 v.prev in
    let w3 = Written-write_at 36 32 12 h.merkle_root w2 v.root in
    let w4 = Written-write_at 68 4 8 (to_le_bytes 4 h.time) w3 (l4 h.time) in
    let w5 = Written-write_at 72 4 4 (to_le_bytes 4 h.bits) w4 (l4 h.bits) in
    let w6 = Written-write_at 76 4 0 (to_le_bytes 4 h.nonce) w5 (l4 h.nonce) in
    w6.now
    ∙ regroup (to_le_bytes 4 h.version) h.prev_block_hash h.merkle_root (to_le_bytes 4 h.time)
        (to_le_bytes 4 h.bits) (to_le_bytes 4 h.nonce)

-- What `raw` holds from `off` on.
record Holds (raw : List ℕ) (off : ℕ) (xs : List ℕ) : Type 0 where
  from : Base.drop off raw ≡ xs
  size : off + length xs ≡ length raw

Holds-next :
    {raw : List ℕ} (off n : ℕ) (xs : List ℕ) {post : List ℕ}
    → Holds raw off (xs ++ post)
    → length xs ≡ n
    → Holds raw (off + n) post
Holds-next {raw} off n xs {post} h e = record {
  from = drop-drop off n raw ∙ rw h.from (rw (← e) (drop-append xs post));
  size = omega (arith, h.size, length-append xs post);
}

Holds-read :
    {raw : List ℕ} (off n : ℕ) (xs post : List ℕ)
    → Holds raw off (xs ++ post)
    → length xs ≡ n
    → off + n < 2 ^ 64
    → read n raw off ≡ ok xs
Holds-read {raw} off n xs post h e fits = read_at n off raw xs post e fits h.size h.from

pub parse-header_bytes : (h : BlockHeader) → IsHeader h → parse (header_bytes h) ≡ ok h
unfolding parse
parse-header_bytes h v =
    let l4 = length-to_le_bytes 4 in
    let raw = header_bytes h in
    let h1 : Holds raw 0 raw = record { from = refl; size = omega arith } in
    let h2 = Holds-next 0 4 (to_le_bytes 4 h.version) h1 (l4 h.version) in
    let h3 = Holds-next 4 32 h.prev_block_hash h2 v.prev in
    let h4 = Holds-next 36 32 h.merkle_root h3 v.root in
    let h5 = Holds-next 68 4 (to_le_bytes 4 h.time) h4 (l4 h.time) in
    let h6 = Holds-next 72 4 (to_le_bytes 4 h.bits) h5 (l4 h.bits) in
    let h7 = Holds-next 76 4 (to_le_bytes 4 h.nonce) h6 (l4 h.nonce) in
    let len : (length raw == 80) ≡ true = ground (arith, h7.size) in
    rw (Holds-read 0 4 (to_le_bytes 4 h.version) _ h1 (l4 h.version) (omega arith)) (
      rw (Holds-read 4 32 h.prev_block_hash _ h2 v.prev (omega arith)) (
        rw (Holds-read 36 32 h.merkle_root _ h3 v.root (omega arith)) (
          rw (Holds-read 68 4 (to_le_bytes 4 h.time) _ h4 (l4 h.time) (omega arith)) (
            rw (Holds-read 72 4 (to_le_bytes 4 h.bits) _ h5 (l4 h.bits) (omega arith)) (
              rw (Holds-read 76 4 (to_le_bytes 4 h.nonce) _ h6 (l4 h.nonce) (omega arith)) (
                rw len (
                  rw (from_le_bytes-to_le_bytes 4 h.version v.version) (
                    rw (from_le_bytes-to_le_bytes 4 h.time v.time) (
                      rw (from_le_bytes-to_le_bytes 4 h.bits v.bits)
                        (rw (from_le_bytes-to_le_bytes 4 h.nonce v.nonce) refl))))))))))
