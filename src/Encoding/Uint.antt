-- ===== src/Encoding/Uint.antt =====
-- The variable-length unsigned integer of compact_encoding.rs: one byte up to 0xfc, else a tag
-- byte and two, four or eight bytes.
pub mod Laws
pub mod Shape
use peeroxide.Common.{ℕ, ◌+◌, leb, ◌==◌, if◌then◌else◌, List, ◌∷◌, []}
use peeroxide.Encoding.State.{State, M, ◌>>=◌, ◌>>◌, pure, reserve, advance, store}
use peeroxide.Encoding.Words.{
  cast, to_le_bytes, encode_uint8, decode_uint8, encode_uint16, decode_uint16, encode_uint32,
  decode_uint32, encode_uint64, decode_uint64,
}

unfoldable pub preencode_uint : ℕ → State → State
preencode_uint n s =
    if leb n 0xfc
    then reserve 1 s
    else if leb n 0xffff
    then reserve 3 s
    else if leb n 0xffffffff
    then reserve 5 s
    else reserve 9 s

-- A tag byte is stored by hand, not by `encode_uint8`.
unfoldable pub store_tag : ℕ → M (Unit {0})
store_tag t = do store 0 t; advance 1

unfoldable pub encode_uint : ℕ → M (Unit {0})
unfolding store_tag
encode_uint n =
    if leb n 0xfc
    then encode_uint8 (cast 8 n)
    else if leb n 0xffff
    then (do store_tag 0xfd; encode_uint16 (cast 16 n))
    else if leb n 0xffffffff
    then (do store_tag 0xfe; encode_uint32 (cast 32 n))
    else (do store_tag 0xff; encode_uint64 n)

-- What follows the first byte.
unfoldable pub decode_tagged : ℕ → M ℕ
decode_tagged a =
    if leb a 0xfc
    then pure a
    else if a == 0xfd
    then decode_uint16
    else if a == 0xfe
    then decode_uint32
    else decode_uint64

unfoldable pub decode_uint : M ℕ
unfolding decode_tagged
decode_uint = do a ← decode_uint8; decode_tagged a
