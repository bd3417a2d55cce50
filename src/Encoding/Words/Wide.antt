-- ===== src/Encoding/Words/Wide.antt =====
-- Five to eight bytes: a low part and a 32-bit part.
use peeroxide.Common.{
  ℕ, ◌+◌, ◌*◌, ◌/◌, ◌%◌, ◌^◌, ◌<◌, ◌≡◌, ap, ◌∙◌, [], ◌∷◌, ◌++◌, arith, bit_and, bit_or,
}
use peeroxide.Common.Bits.{bit_or_shifted, bit_and_ones}
use native.Mathlib.Nat.{mod-eq_of_lt, div-add-mod}
use peeroxide.Encoding.State.Laws.{Reads-check}
use peeroxide.Encoding.Laws.{
  Reads, Writes, Reads-val, Reads-eq, Writes-eq, Reads-bind, Reads-return, Writes-bind,
}
use peeroxide.Encoding.Words.{
  to_le_bytes, cast, shl, shr, encode_uint40, decode_uint40, encode_uint48, decode_uint48,
  encode_uint56, decode_uint56, encode_uint64, decode_uint64,
}
use peeroxide.Encoding.Words.Narrow.{
  Writes-uint8, Writes-uint16, Writes-uint24, Writes-uint32, Reads-uint8, Reads-uint16,
  Reads-uint24, Reads-uint32,
}

-- The two parts of a word, put together again by `<<` and `|`.
join :
    (k v : ℕ)
    → v / 2 ^ k * 2 ^ k < 2 ^ 64
    → v % 2 ^ k < 2 ^ k
    → bit_or (v % 2 ^ k) (shl 64 (v / 2 ^ k) k) ≡ v
join k v h r =
    let kept : shl 64 (v / 2 ^ k) k ≡ v / 2 ^ k * 2 ^ k = mod-eq_of_lt h in
    rw (kept, bit_or_shifted k (v % 2 ^ k) (v / 2 ^ k) r) (omega (arith, div-add-mod v (2 ^ k)))

masked : (v : ℕ) → bit_and (cast 32 v) 0xFFFFFF ≡ v % 2 ^ 24
masked v =
    let e : cast 32 v ≡ cast 32 v / 2 ^ 24 * 2 ^ 24 + v % 2 ^ 24 = omega arith in
    ap (λ x. bit_and x 0xFFFFFF) e ∙ bit_and_ones 24 (cast 32 v / 2 ^ 24) (v % 2 ^ 24) (omega arith)

pub Writes-uint40 : (v : ℕ) → Writes (encode_uint40 v) (to_le_bytes 5 v)
unfolding encode_uint40
Writes-uint40 v =
    let e : ((cast 8 v) ∷ []) ++ to_le_bytes 4 (cast 32 (shr v 8)) ≡ to_le_bytes 5 v =
      ground arith in
    Writes-eq e (Writes-bind (Writes-uint8 (cast 8 v)) (Writes-uint32 (cast 32 (shr v 8))))

pub Reads-uint40 : (v : ℕ) → v < 2 ^ 40 → Reads decode_uint40 (to_le_bytes 5 v) v
unfolding decode_uint40
Reads-uint40 v h =
    let e : ((v % 2 ^ 8) ∷ []) ++ to_le_bytes 4 (v / 2 ^ 8) ≡ to_le_bytes 5 v = ground arith in
    let parts =
      Reads-bind _ (Reads-uint8 (v % 2 ^ 8))
        (Reads-return _ (Reads-uint32 (v / 2 ^ 8) (omega arith))) in
    Reads-val (join 8 v (omega arith) (omega arith))
      (Reads-eq e (Reads-check 5 (omega arith) parts))

pub Writes-uint48 : (v : ℕ) → Writes (encode_uint48 v) (to_le_bytes 6 v)
unfolding encode_uint48
Writes-uint48 v =
    let e : (to_le_bytes 2 (cast 16 v)) ++ to_le_bytes 4 (cast 32 (shr v 16)) ≡ to_le_bytes 6 v =
      ground arith in
    Writes-eq e (Writes-bind (Writes-uint16 (cast 16 v)) (Writes-uint32 (cast 32 (shr v 16))))

pub Reads-uint48 : (v : ℕ) → v < 2 ^ 48 → Reads decode_uint48 (to_le_bytes 6 v) v
unfolding decode_uint48
Reads-uint48 v h =
    let e : (to_le_bytes 2 (v % 2 ^ 16)) ++ to_le_bytes 4 (v / 2 ^ 16) ≡ to_le_bytes 6 v =
      ground arith in
    let parts =
      Reads-bind _ (Reads-uint16 (v % 2 ^ 16) (omega arith))
        (Reads-return _ (Reads-uint32 (v / 2 ^ 16) (omega arith))) in
    Reads-val (join 16 v (omega arith) (omega arith))
      (Reads-eq e (Reads-check 6 (omega arith) parts))

pub Writes-uint56 : (v : ℕ) → Writes (encode_uint56 v) (to_le_bytes 7 v)
unfolding encode_uint56
Writes-uint56 v =
    let e : (to_le_bytes 3 (v % 2 ^ 24)) ++ to_le_bytes 4 (cast 32 (shr v 24)) ≡ to_le_bytes 7 v =
      ground arith in
    Writes-eq e (
      Writes-bind {xs = to_le_bytes 3 (v % 2 ^ 24)} (rw masked (Writes-uint24 (v % 2 ^ 24)))
        (Writes-uint32 (cast 32 (shr v 24))))

pub Reads-uint56 : (v : ℕ) → v < 2 ^ 56 → Reads decode_uint56 (to_le_bytes 7 v) v
unfolding decode_uint56
Reads-uint56 v h =
    let e : (to_le_bytes 3 (v % 2 ^ 24)) ++ to_le_bytes 4 (v / 2 ^ 24) ≡ to_le_bytes 7 v =
      ground arith in
    let parts =
      Reads-bind _ (Reads-uint24 (v % 2 ^ 24) (omega arith))
        (Reads-return _ (Reads-uint32 (v / 2 ^ 24) (omega arith))) in
    Reads-val (join 24 v (omega arith) (omega arith))
      (Reads-eq e (Reads-check 7 (omega arith) parts))

pub Writes-uint64 : (v : ℕ) → Writes (encode_uint64 v) (to_le_bytes 8 v)
unfolding encode_uint64
Writes-uint64 v =
    let e : (to_le_bytes 4 (cast 32 v)) ++ to_le_bytes 4 (cast 32 (shr v 32)) ≡ to_le_bytes 8 v =
      ground arith in
    Writes-eq e (Writes-bind (Writes-uint32 (cast 32 v)) (Writes-uint32 (cast 32 (shr v 32))))

pub Reads-uint64 : (v : ℕ) → v < 2 ^ 64 → Reads decode_uint64 (to_le_bytes 8 v) v
unfolding decode_uint64
Reads-uint64 v h =
    let e : (to_le_bytes 4 (v % 2 ^ 32)) ++ to_le_bytes 4 (v / 2 ^ 32) ≡ to_le_bytes 8 v =
      ground arith in
    let parts =
      Reads-bind _ (Reads-uint32 (v % 2 ^ 32) (omega arith))
        (Reads-return _ (Reads-uint32 (v / 2 ^ 32) (omega arith))) in
    Reads-val (join 32 v (omega arith) (omega arith))
      (Reads-eq e (Reads-check 8 (omega arith) parts))
