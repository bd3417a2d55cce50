-- ===== src/Encoding/Words.antt =====
-- Fixed-width unsigned integers of compact_encoding.rs, least significant byte first.
pub mod Narrow
pub mod Wide
pub mod Safety
pub mod Agree
use peeroxide.Common.{ℕ, zero, suc, ◌+◌, ◌*◌, ◌/◌, ◌%◌, ◌^◌, List, [], ◌∷◌, bit_and, bit_or, length}
use peeroxide.Encoding.State.{
  State, M, ◌>>=◌, ◌>>◌, pure, reserve, advance, load, store, load_slice, store_slice,
  check_remaining,
}

-- `to_le_bytes` of an integer of `n` bytes, and `from_le_bytes`.
abbrev pub to_le_bytes : ℕ → ℕ → List ℕ
to_le_bytes zero v = []
to_le_bytes (suc n) v = (v % 256) ∷ to_le_bytes n (v / 256)

abbrev pub from_le_bytes : List ℕ → ℕ
from_le_bytes [] = 0
from_le_bytes (b ∷ bs) = b + 256 * from_le_bytes bs

-- `x as uN`, `x << k` on N bits, and `x >> k`.
abbrev pub cast : ℕ → ℕ → ℕ
cast w x = x % 2 ^ w

abbrev pub shl : ℕ → ℕ → ℕ → ℕ
shl w x k = x * 2 ^ k % 2 ^ w

abbrev pub shr : ℕ → ℕ → ℕ
shr x k = x / 2 ^ k

unfoldable pub preencode_uint8 : ℕ → State → State
preencode_uint8 v s = reserve 1 s

unfoldable pub encode_uint8 : ℕ → M (Unit {0})
encode_uint8 v = do store 0 v; advance 1

unfoldable pub decode_uint8 : M ℕ
decode_uint8 = do check_remaining 1; b ← load 0; advance 1; pure b

unfoldable pub preencode_uint16 : ℕ → State → State
preencode_uint16 v s = reserve 2 s

unfoldable pub encode_uint16 : ℕ → M (Unit {0})
encode_uint16 v = do store 0 (v % 256); store 1 (v / 256 % 256); advance 2

unfoldable pub decode_uint16 : M ℕ
decode_uint16 = do
  check_remaining 2
  b0 ← load 0
  b1 ← load 1
  advance 2
  pure (from_le_bytes (b0 ∷ b1 ∷ []))

unfoldable pub preencode_uint24 : ℕ → State → State
preencode_uint24 v s = reserve 3 s

unfoldable pub encode_uint24 : ℕ → M (Unit {0})
encode_uint24 v = do
  store 0 (cast 8 v)
  store 1 (cast 8 (shr v 8))
  store 2 (cast 8 (shr v 16))
  advance 3

unfoldable pub decode_uint24 : M ℕ
decode_uint24 = do
  check_remaining 3
  b0 ← load 0
  b1 ← load 1
  b2 ← load 2
  advance 3
  pure (bit_or (bit_or b0 (shl 32 b1 8)) (shl 32 b2 16))

unfoldable pub preencode_uint32 : ℕ → State → State
preencode_uint32 v s = reserve 4 s

unfoldable pub encode_uint32 : ℕ → M (Unit {0})
encode_uint32 v = do store_slice (to_le_bytes 4 v); advance 4

unfoldable pub decode_uint32 : M ℕ
decode_uint32 = do
  check_remaining 4
  b0 ← load 0
  b1 ← load 1
  b2 ← load 2
  b3 ← load 3
  advance 4
  pure (from_le_bytes (b0 ∷ b1 ∷ b2 ∷ b3 ∷ []))

unfoldable pub preencode_uint40 : ℕ → State → State
preencode_uint40 v s = reserve 5 s

unfoldable pub encode_uint40 : ℕ → M (Unit {0})
encode_uint40 v = do encode_uint8 (cast 8 v); encode_uint32 (cast 32 (shr v 8))

unfoldable pub decode_uint40 : M ℕ
decode_uint40 = do
  check_remaining 5
  lo ← decode_uint8
  hi ← decode_uint32
  pure (bit_or lo (shl 64 hi 8))

unfoldable pub preencode_uint48 : ℕ → State → State
preencode_uint48 v s = reserve 6 s

unfoldable pub encode_uint48 : ℕ → M (Unit {0})
encode_uint48 v = do encode_uint16 (cast 16 v); encode_uint32 (cast 32 (shr v 16))

unfoldable pub decode_uint48 : M ℕ
decode_uint48 = do
  check_remaining 6
  lo ← decode_uint16
  hi ← decode_uint32
  pure (bit_or lo (shl 64 hi 16))

unfoldable pub preencode_uint56 : ℕ → State → State
preencode_uint56 v s = reserve 7 s

unfoldable pub encode_uint56 : ℕ → M (Unit {0})
encode_uint56 v = do
  encode_uint24 (bit_and (cast 32 v) 0xFFFFFF)
  encode_uint32 (cast 32 (shr v 24))

unfoldable pub decode_uint56 : M ℕ
decode_uint56 = do
  check_remaining 7
  lo ← decode_uint24
  hi ← decode_uint32
  pure (bit_or lo (shl 64 hi 24))

unfoldable pub preencode_uint64 : ℕ → State → State
preencode_uint64 v s = reserve 8 s

unfoldable pub encode_uint64 : ℕ → M (Unit {0})
encode_uint64 v = do encode_uint32 (cast 32 v); encode_uint32 (cast 32 (shr v 32))

unfoldable pub decode_uint64 : M ℕ
decode_uint64 = do
  check_remaining 8
  lo ← decode_uint32
  hi ← decode_uint32
  pure (bit_or lo (shl 64 hi 32))
