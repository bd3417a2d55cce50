-- ===== src/Encoding/Signed/Laws.antt =====
-- Signed integers: size, writer and reader, on the bytes of the zigzag word.
use peeroxide.Common.{ℕ, ◌^◌, ◌<◌, ◌≡◌, [], ◌∷◌, arith}
use native.Mathlib.Nat.{mod-eq_of_lt}
use peeroxide.Encoding.Laws.{Codes, Reads-return, Reads-val, Safe, Safe-bind, Safe-pure}
use peeroxide.Encoding.Words.{to_le_bytes, cast}
use peeroxide.Encoding.Words.Agree.{Codes-uint8, Codes-uint16, Codes-uint32, Codes-uint64}
use peeroxide.Encoding.Words.Safety.{Safe-uint8, Safe-uint16, Safe-uint32, Safe-uint64}
use peeroxide.Encoding.Words.{preencode_uint8, preencode_uint16, preencode_uint32, preencode_uint64}
use peeroxide.Encoding.Uint.Laws.{Codes-uint, Safe-uint, uint_bytes}
use peeroxide.Encoding.Signed.Zigzag.{
  zigzag, zigzag_encode-eq, zigzag_encode-lt, zigzag_decode-zigzag_encode,
}
use peeroxide.Encoding.Signed.{
  sign_extend, zigzag_encode, zigzag_decode, preencode_int, encode_int, decode_int, preencode_int8,
  encode_int8, decode_int8, preencode_int16, encode_int16, decode_int16, preencode_int32,
  encode_int32, decode_int32, preencode_int64, encode_int64, decode_int64,
}

pub Codes-int :
    (n : ℕ) → n < 2 ^ 64 → Codes preencode_int encode_int decode_int n n (uint_bytes (zigzag n))
unfolding preencode_int encode_int decode_int
Codes-int n h = rw (← zigzag_encode-eq n h) (
    let c = Codes-uint (zigzag_encode n) (zigzag_encode-lt n h) in
    record {
      sized = c.sized;
      written = c.written;
      read = Reads-val (zigzag_decode-zigzag_encode n h) (Reads-return zigzag_decode c.read);
    })

pub Safe-int : Safe decode_int
unfolding decode_int
Safe-int = Safe-bind _ Safe-uint (λ n. Safe-pure _)

extend_8 :
    (v : ℕ)
    → v < 2 ^ 8
    → (sign_extend 8 v < 2 ^ 64)
      × (zigzag_encode (sign_extend 8 v) < 2 ^ 8)
      × (cast 8 (sign_extend 8 v) ≡ v)
extend_8 v h =
    let x : ℕ = sign_extend 8 v in (ground arith, ground (arith, zigzag_encode-eq x), ground arith)

pub Codes-int8 :
    (v : ℕ)
    → v < 2 ^ 8
    → Codes preencode_int8 encode_int8 decode_int8 v v
        (cast 8 (zigzag_encode (sign_extend 8 v)) ∷ [])
unfolding preencode_int8 encode_int8 decode_int8 preencode_uint8
Codes-int8 v h =
    let (wide, fits, back) = extend_8 v h in
    let c = Codes-uint8 (cast 8 (zigzag_encode (sign_extend 8 v))) in
    let e : cast 8 (zigzag_decode (cast 8 (zigzag_encode (sign_extend 8 v)))) ≡ v =
      rw (mod-eq_of_lt fits, zigzag_decode-zigzag_encode (sign_extend 8 v) wide) back in
    record {
      sized = c.sized;
      written = c.written;
      read = Reads-val e (Reads-return (λ n. cast 8 (zigzag_decode n)) c.read);
    }

pub Safe-int8 : Safe decode_int8
unfolding decode_int8
Safe-int8 = Safe-bind _ Safe-uint8 (λ n. Safe-pure _)

extend_16 :
    (v : ℕ)
    → v < 2 ^ 16
    → (sign_extend 16 v < 2 ^ 64)
      × (zigzag_encode (sign_extend 16 v) < 2 ^ 16)
      × (cast 16 (sign_extend 16 v) ≡ v)
extend_16 v h =
    let x : ℕ = sign_extend 16 v in (ground arith, ground (arith, zigzag_encode-eq x), ground arith)

pub Codes-int16 :
    (v : ℕ)
    → v < 2 ^ 16
    → Codes preencode_int16 encode_int16 decode_int16 v v
        (to_le_bytes 2 (cast 16 (zigzag_encode (sign_extend 16 v))))
unfolding preencode_int16 encode_int16 decode_int16 preencode_uint16
Codes-int16 v h =
    let (wide, fits, back) = extend_16 v h in
    let c = Codes-uint16 (cast 16 (zigzag_encode (sign_extend 16 v))) (omega arith) in
    let e : cast 16 (zigzag_decode (cast 16 (zigzag_encode (sign_extend 16 v)))) ≡ v =
      rw (mod-eq_of_lt fits, zigzag_decode-zigzag_encode (sign_extend 16 v) wide) back in
    record {
      sized = c.sized;
      written = c.written;
      read = Reads-val e (Reads-return (λ n. cast 16 (zigzag_decode n)) c.read);
    }

pub Safe-int16 : Safe decode_int16
unfolding decode_int16
Safe-int16 = Safe-bind _ Safe-uint16 (λ n. Safe-pure _)

extend_32 :
    (v : ℕ)
    → v < 2 ^ 32
    → (sign_extend 32 v < 2 ^ 64)
      × (zigzag_encode (sign_extend 32 v) < 2 ^ 32)
      × (cast 32 (sign_extend 32 v) ≡ v)
extend_32 v h =
    let x : ℕ = sign_extend 32 v in (ground arith, ground (arith, zigzag_encode-eq x), ground arith)

pub Codes-int32 :
    (v : ℕ)
    → v < 2 ^ 32
    → Codes preencode_int32 encode_int32 decode_int32 v v
        (to_le_bytes 4 (cast 32 (zigzag_encode (sign_extend 32 v))))
unfolding preencode_int32 encode_int32 decode_int32 preencode_uint32
Codes-int32 v h =
    let (wide, fits, back) = extend_32 v h in
    let c = Codes-uint32 (cast 32 (zigzag_encode (sign_extend 32 v))) (omega arith) in
    let e : cast 32 (zigzag_decode (cast 32 (zigzag_encode (sign_extend 32 v)))) ≡ v =
      rw (mod-eq_of_lt fits, zigzag_decode-zigzag_encode (sign_extend 32 v) wide) back in
    record {
      sized = c.sized;
      written = c.written;
      read = Reads-val e (Reads-return (λ n. cast 32 (zigzag_decode n)) c.read);
    }

pub Safe-int32 : Safe decode_int32
unfolding decode_int32
Safe-int32 = Safe-bind _ Safe-uint32 (λ n. Safe-pure _)

pub Codes-int64 :
    (v : ℕ)
    → v < 2 ^ 64
    → Codes preencode_int64 encode_int64 decode_int64 v v (to_le_bytes 8 (zigzag_encode v))
unfolding preencode_int64 encode_int64 decode_int64 preencode_uint64
Codes-int64 v h =
    let c = Codes-uint64 (zigzag_encode v) (zigzag_encode-lt v h) in
    record {
      sized = c.sized;
      written = c.written;
      read = Reads-val (zigzag_decode-zigzag_encode v h) (Reads-return zigzag_decode c.read);
    }

pub Safe-int64 : Safe decode_int64
unfolding decode_int64
Safe-int64 = Safe-bind _ Safe-uint64 (λ n. Safe-pure _)
