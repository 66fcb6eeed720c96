-- ===== src/Bsv/Header.antt =====
-- crates/bsv/src/header.rs: the 80-byte block header and its proof-of-work target.
-- `digest` is `Sha256::digest`; an `i32` is held as its 32-bit pattern.
pub mod Wire
pub mod RoundTrip
use mathlib.Core.List.{reverse}
use overlay_broadcast.Base
use overlay_broadcast.Base.{
  ℕ, zero, suc, ◌+◌, ◌-◌, ◌/◌, ◌%◌, ◌^◌, ◌&&◌, Bool, true, false, List, [], ◌∷◌, ◌++◌, none, some,
  Option, bit_and, length, ltb, leb, ◌==◌, if◌then◌else◌, ok, err, ok_or, replicate, get_elem?,
}
use overlay_broadcast.Base.LittleEndian.{to_le_bytes, from_le_bytes}
use overlay_broadcast.Bsv.Error.{BsvResult, truncated, out_of_range, wrong_length}
use overlay_broadcast.Bsv.Cursor.{checked_add, get_range, to_array}
use overlay_broadcast.Bsv.Hash.{double_sha256}

abbrev pub header_len : ℕ
header_len = 80

pub record BlockHeader : Type 0 where
  pub version : ℕ
  pub prev_block_hash : List ℕ
  pub merkle_root : List ℕ
  pub time : ℕ
  pub bits : ℕ
  pub nonce : ℕ

-- `read4` and `read32` for `n` of 4 and 32.
unfoldable pub read : ℕ → List ℕ → ℕ → BsvResult (List ℕ)
read n raw off =
    Base.◌>>=◌ (ok_or (checked_add off n) out_of_range)
      λ end. Base.◌>>=◌ (ok_or (get_range raw off end) truncated) λ slice. to_array n slice

unfoldable pub parse : List ℕ → BsvResult BlockHeader
parse raw =
    if length raw == header_len
    then (Base.◌>>=◌ (read 4 raw 0) λ version. Base.◌>>=◌ (read 32 raw 4) λ prev.
        Base.◌>>=◌ (read 32 raw 36) λ root. Base.◌>>=◌ (read 4 raw 68) λ time.
          Base.◌>>=◌ (read 4 raw 72) λ bits. Base.◌>>=◌ (read 4 raw 76) λ nonce. ok (record {
            version = from_le_bytes version;
            prev_block_hash = prev;
            merkle_root = root;
            time = from_le_bytes time;
            bits = from_le_bytes bits;
            nonce = from_le_bytes nonce;
          }))
    else err (wrong_length header_len (length raw))

-- `copy_from_slice` into a range that exists; a range that does not is left alone.
unfoldable pub write_at : List ℕ → ℕ → List ℕ → List ℕ
write_at out off src =
    if leb (off + length src) (length out)
    then Base.take off out ++ (src ++ Base.drop (off + length src) out)
    else out

unfoldable pub serialize : BlockHeader → List ℕ
serialize h =
    let out = replicate header_len 0 in
    let out = write_at out 0 (to_le_bytes 4 h.version) in
    let out = write_at out 4 h.prev_block_hash in
    let out = write_at out 36 h.merkle_root in
    let out = write_at out 68 (to_le_bytes 4 h.time) in
    let out = write_at out 72 (to_le_bytes 4 h.bits) in write_at out 76 (to_le_bytes 4 h.nonce)

-- One round of the loop of `target_from_bits`: the byte at `32 - exponent + k`, an index that
-- is computed over the integers and is skipped outside of the array.
unfoldable pub set_target_byte : ℕ → ℕ → ℕ → List ℕ → List ℕ
set_target_byte exponent k byte be =
    if leb exponent (32 + k) && ltb (32 + k - exponent) 32
    then write_at be (32 + k - exponent) (byte ∷ [])
    else be

unfoldable pub target_from_bits : ℕ → List ℕ
unfolding write_at set_target_byte
target_from_bits bits =
    let exponent = bit_and (bits / 2 ^ 24) 0xff in
    let mantissa = bit_and bits 0x007f_ffff in
    let be = set_target_byte exponent 0 (mantissa / 2 ^ 16 % 256) (replicate 32 0) in
    let be = set_target_byte exponent 1 (mantissa / 2 ^ 8 % 256) be in
    set_target_byte exponent 2 (mantissa % 256) be

-- `<=` on byte arrays is the order of dictionaries.
unfoldable pub le_bytes : List ℕ → List ℕ → Bool
le_bytes [] ys = true
le_bytes (x ∷ xs) [] = false
le_bytes (x ∷ xs) (y ∷ ys) = if x == y then le_bytes xs ys else ltb x y

module _ (digest : List ℕ → List ℕ) where
  unfoldable pub block_hash : BlockHeader → List ℕ
  block_hash h = double_sha256 digest (serialize h)

  unfoldable pub meets_target : BlockHeader → Bool
  unfolding le_bytes target_from_bits
  meets_target h = le_bytes (reverse (block_hash h)) (target_from_bits h.bits)
