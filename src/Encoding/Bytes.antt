-- ===== src/Encoding/Bytes.antt =====
-- Booleans, floats, byte buffers, strings and fixed buffers of compact_encoding.rs.
-- A float is its bit pattern. A `&str` is its UTF-8 bytes.
pub mod Laws
use peeroxide.Common.{
  ℕ, ◌+◌, Bool, true, false, not, ◌==◌, if◌then◌else◌, Option, none, some, List, [], ◌∷◌, length,
}
use peeroxide.Encoding.State.{
  State, ok, err, M, ◌>>=◌, ◌>>◌, pure, raise, reserve, advance, load, store, load_slice,
  store_slice, check_remaining, incorrect_buffer_size,
}
use peeroxide.Encoding.Words.{to_le_bytes, from_le_bytes, encode_uint8, decode_uint8}
use peeroxide.Encoding.Uint.{preencode_uint, encode_uint, decode_uint}

unfoldable pub preencode_bool : Bool → State → State
preencode_bool v s = reserve 1 s

unfoldable pub encode_bool : Bool → M (Unit {0})
encode_bool v = encode_uint8 (if v then 1 else 0)

unfoldable pub decode_bool : M Bool
decode_bool = do b ← decode_uint8; pure (not (b == 0))

unfoldable pub preencode_float32 : ℕ → State → State
preencode_float32 v s = reserve 4 s

unfoldable pub encode_float32 : ℕ → M (Unit {0})
encode_float32 v = do store_slice (to_le_bytes 4 v); advance 4

unfoldable pub decode_float32 : M ℕ
decode_float32 = do
  check_remaining 4
  b0 ← load 0
  b1 ← load 1
  b2 ← load 2
  b3 ← load 3
  advance 4
  pure (from_le_bytes (b0 ∷ b1 ∷ b2 ∷ b3 ∷ []))

unfoldable pub preencode_float64 : ℕ → State → State
preencode_float64 v s = reserve 8 s

unfoldable pub encode_float64 : ℕ → M (Unit {0})
encode_float64 v = do store_slice (to_le_bytes 8 v); advance 8

unfoldable pub decode_float64 : M ℕ
decode_float64 = do
  check_remaining 8
  b0 ← load 0
  b1 ← load 1
  b2 ← load 2
  b3 ← load 3
  b4 ← load 4
  b5 ← load 5
  b6 ← load 6
  b7 ← load 7
  advance 8
  pure (from_le_bytes (b0 ∷ b1 ∷ b2 ∷ b3 ∷ b4 ∷ b5 ∷ b6 ∷ b7 ∷ []))

unfoldable pub preencode_buffer : Option (List ℕ) → State → State
preencode_buffer (some b) s = reserve (length b) (preencode_uint (length b) s)
preencode_buffer none s = reserve 1 s

unfoldable pub encode_buffer : Option (List ℕ) → M (Unit {0})
encode_buffer (some b) = do encode_uint (length b); store_slice b; advance (length b)
encode_buffer none = do store 0 0; advance 1

-- `n` bytes, checked and copied.
unfoldable pub take_bytes : ℕ → M (List ℕ)
take_bytes n = do check_remaining n; b ← load_slice n; advance n; pure b

unfoldable pub buffer_of_length : ℕ → M (Option (List ℕ))
buffer_of_length len = if len == 0 then pure none else (do b ← take_bytes len; pure (some b))

unfoldable pub decode_buffer : M (Option (List ℕ))
unfolding buffer_of_length
decode_buffer = do len ← decode_uint; buffer_of_length len

unfoldable pub preencode_string : List ℕ → State → State
preencode_string t s = reserve (length t) (preencode_uint (length t) s)

unfoldable pub encode_string : List ℕ → M (Unit {0})
encode_string t = do encode_uint (length t); store_slice t; advance (length t)

-- `lossy` is `String::from_utf8_lossy`.
unfoldable pub decode_string : (List ℕ → List ℕ) → M (List ℕ)
decode_string lossy = do len ← decode_uint; b ← take_bytes len; pure (lossy b)

unfoldable pub preencode_fixed : ℕ → List ℕ → M (Unit {0})
preencode_fixed n buf s =
    if length buf == n then ok tt (reserve n s) else err (incorrect_buffer_size n (length buf)) s

unfoldable pub encode_fixed : List ℕ → M (Unit {0})
encode_fixed buf = do store_slice buf; advance (length buf)

unfoldable pub decode_fixed : ℕ → M (List ℕ)
decode_fixed n = take_bytes n

unfoldable pub preencode_fixed32 : List ℕ → M (Unit {0})
preencode_fixed32 buf = preencode_fixed 32 buf

unfoldable pub encode_fixed32 : List ℕ → M (Unit {0})
encode_fixed32 buf = encode_fixed buf

unfoldable pub decode_fixed32 : M (List ℕ)
decode_fixed32 = take_bytes 32

unfoldable pub preencode_fixed64 : List ℕ → M (Unit {0})
preencode_fixed64 buf = preencode_fixed 64 buf

unfoldable pub encode_fixed64 : List ℕ → M (Unit {0})
encode_fixed64 buf = encode_fixed buf

unfoldable pub decode_fixed64 : M (List ℕ)
decode_fixed64 = take_bytes 64
