-- ===== src/Encoding/Signed.antt =====
-- Signed integers of compact_encoding.rs, by zigzag. An `iN` is its bit pattern, below 2 ^ N.
pub mod Zigzag
pub mod Laws
use peeroxide.Common.{ℕ, ◌+◌, ◌*◌, ◌/◌, ◌%◌, ◌^◌, ◌-◌, ltb, if◌then◌else◌, bit_and, bit_xor}
use peeroxide.Encoding.State.{State, M, ◌>>=◌, ◌>>◌, pure, reserve}
use peeroxide.Encoding.Words.{
  cast, shl, shr, encode_uint8, decode_uint8, encode_uint16, decode_uint16, encode_uint32,
  decode_uint32, encode_uint64, decode_uint64,
}
use peeroxide.Encoding.Uint.{preencode_uint, encode_uint, decode_uint}

-- `n >> 63` of an i64 copies the sign into every bit.
abbrev pub sign_mask : ℕ → ℕ
sign_mask n = if ltb n (2 ^ 63) then 0 else 2 ^ 64 - 1

-- `-x` of an i64.
abbrev pub negate : ℕ → ℕ
negate x = (2 ^ 64 - x) % 2 ^ 64

-- `x as i64` from an i-bit pattern of `w` bits: the sign is copied into the upper bits.
abbrev pub sign_extend : ℕ → ℕ → ℕ
sign_extend w x = if ltb x (2 ^ (w - 1)) then x else x + (2 ^ 64 - 2 ^ w)

unfoldable pub zigzag_encode : ℕ → ℕ
zigzag_encode n = bit_xor (shl 64 n 1) (sign_mask n)

unfoldable pub zigzag_decode : ℕ → ℕ
zigzag_decode n = bit_xor (shr n 1) (negate (bit_and n 1))

unfoldable pub preencode_int : ℕ → State → State
preencode_int n = preencode_uint (zigzag_encode n)

unfoldable pub encode_int : ℕ → M (Unit {0})
encode_int n = encode_uint (zigzag_encode n)

unfoldable pub decode_int : M ℕ
decode_int = do n ← decode_uint; pure (zigzag_decode n)

unfoldable pub preencode_int8 : ℕ → State → State
preencode_int8 v s = reserve 1 s

unfoldable pub encode_int8 : ℕ → M (Unit {0})
encode_int8 v = encode_uint8 (cast 8 (zigzag_encode (sign_extend 8 v)))

unfoldable pub decode_int8 : M ℕ
decode_int8 = do n ← decode_uint8; pure (cast 8 (zigzag_decode n))

unfoldable pub preencode_int16 : ℕ → State → State
preencode_int16 v s = reserve 2 s

unfoldable pub encode_int16 : ℕ → M (Unit {0})
encode_int16 v = encode_uint16 (cast 16 (zigzag_encode (sign_extend 16 v)))

unfoldable pub decode_int16 : M ℕ
decode_int16 = do n ← decode_uint16; pure (cast 16 (zigzag_decode n))

unfoldable pub preencode_int32 : ℕ → State → State
preencode_int32 v s = reserve 4 s

unfoldable pub encode_int32 : ℕ → M (Unit {0})
encode_int32 v = encode_uint32 (cast 32 (zigzag_encode (sign_extend 32 v)))

unfoldable pub decode_int32 : M ℕ
decode_int32 = do n ← decode_uint32; pure (cast 32 (zigzag_decode n))

unfoldable pub preencode_int64 : ℕ → State → State
preencode_int64 v s = reserve 8 s

unfoldable pub encode_int64 : ℕ → M (Unit {0})
encode_int64 v = encode_uint64 (zigzag_encode v)

unfoldable pub decode_int64 : M ℕ
decode_int64 = do n ← decode_uint64; pure (zigzag_decode n)
