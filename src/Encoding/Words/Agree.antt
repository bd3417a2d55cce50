-- ===== src/Encoding/Words/Agree.antt =====
-- Fixed-width integers: size, writer and reader, on the little-endian bytes.
use peeroxide.Common.{ℕ, ◌^◌, ◌<◌, refl, [], ◌∷◌}
use peeroxide.Encoding.Laws.{Codes}
use peeroxide.Encoding.Words.{
  to_le_bytes, preencode_uint8, encode_uint8, decode_uint8, preencode_uint16, encode_uint16,
  decode_uint16, preencode_uint24, encode_uint24, decode_uint24, preencode_uint32, encode_uint32,
  decode_uint32, preencode_uint40, encode_uint40, decode_uint40, preencode_uint48, encode_uint48,
  decode_uint48, preencode_uint56, encode_uint56, decode_uint56, preencode_uint64, encode_uint64,
  decode_uint64,
}
use peeroxide.Encoding.Words.Narrow.{
  Writes-uint8, Writes-uint16, Writes-uint24, Writes-uint32, Reads-uint8, Reads-uint16,
  Reads-uint24, Reads-uint32,
}
use peeroxide.Encoding.Words.Wide.{
  Writes-uint40, Writes-uint48, Writes-uint56, Writes-uint64, Reads-uint40, Reads-uint48,
  Reads-uint56, Reads-uint64,
}

pub Codes-uint8 : (v : ℕ) → Codes preencode_uint8 encode_uint8 decode_uint8 v v (v ∷ [])
unfolding preencode_uint8
Codes-uint8 v = record { sized = λ s. refl; written = Writes-uint8 v; read = Reads-uint8 v }

pub Codes-uint16 :
    (v : ℕ) → v < 2 ^ 16 → Codes preencode_uint16 encode_uint16 decode_uint16 v v (to_le_bytes 2 v)
unfolding preencode_uint16
Codes-uint16 v h = record { sized = λ s. refl; written = Writes-uint16 v; read = Reads-uint16 v h }

pub Codes-uint24 :
    (v : ℕ) → v < 2 ^ 24 → Codes preencode_uint24 encode_uint24 decode_uint24 v v (to_le_bytes 3 v)
unfolding preencode_uint24
Codes-uint24 v h = record { sized = λ s. refl; written = Writes-uint24 v; read = Reads-uint24 v h }

pub Codes-uint32 :
    (v : ℕ) → v < 2 ^ 32 → Codes preencode_uint32 encode_uint32 decode_uint32 v v (to_le_bytes 4 v)
unfolding preencode_uint32
Codes-uint32 v h = record { sized = λ s. refl; written = Writes-uint32 v; read = Reads-uint32 v h }

pub Codes-uint40 :
    (v : ℕ) → v < 2 ^ 40 → Codes preencode_uint40 encode_uint40 decode_uint40 v v (to_le_bytes 5 v)
unfolding preencode_uint40
Codes-uint40 v h = record { sized = λ s. refl; written = Writes-uint40 v; read = Reads-uint40 v h }

pub Codes-uint48 :
    (v : ℕ) → v < 2 ^ 48 → Codes preencode_uint48 encode_uint48 decode_uint48 v v (to_le_bytes 6 v)
unfolding preencode_uint48
Codes-uint48 v h = record { sized = λ s. refl; written = Writes-uint48 v; read = Reads-uint48 v h }

pub Codes-uint56 :
    (v : ℕ) → v < 2 ^ 56 → Codes preencode_uint56 encode_uint56 decode_uint56 v v (to_le_bytes 7 v)
unfolding preencode_uint56
Codes-uint56 v h = record { sized = λ s. refl; written = Writes-uint56 v; read = Reads-uint56 v h }

pub Codes-uint64 :
    (v : ℕ) → v < 2 ^ 64 → Codes preencode_uint64 encode_uint64 decode_uint64 v v (to_le_bytes 8 v)
unfolding preencode_uint64
Codes-uint64 v h = record { sized = λ s. refl; written = Writes-uint64 v; read = Reads-uint64 v h }
