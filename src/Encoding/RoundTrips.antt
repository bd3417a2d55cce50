-- ===== src/Encoding/RoundTrips.antt =====
-- What each kind of value of compact_encoding.rs comes back as, after it was measured, written and
-- read again.
use peeroxide.Common.{ℕ, ◌^◌, ◌<◌, ◌≤◌, Option, List, All, length, map}
use peeroxide.Encoding.Laws.{RoundTrips, Codes-RoundTrips}
use peeroxide.Encoding.Words.{
  preencode_uint24, encode_uint24, decode_uint24, preencode_uint56, encode_uint56, decode_uint56,
  preencode_uint64, encode_uint64, decode_uint64,
}
use peeroxide.Encoding.Words.Agree.{Codes-uint24, Codes-uint56, Codes-uint64}
use peeroxide.Encoding.Uint.{preencode_uint, encode_uint, decode_uint}
use peeroxide.Encoding.Uint.Laws.{Codes-uint}
use peeroxide.Encoding.Signed.{
  preencode_int, encode_int, decode_int, preencode_int8, encode_int8, decode_int8, preencode_int32,
  encode_int32, decode_int32,
}
use peeroxide.Encoding.Signed.Laws.{Codes-int, Codes-int8, Codes-int32}
use peeroxide.Encoding.Bytes.{
  preencode_buffer, encode_buffer, decode_buffer, preencode_string, encode_string, decode_string,
}
use peeroxide.Encoding.Bytes.Laws.{normal, option_length, Codes-buffer, Codes-string}
use peeroxide.Encoding.Ip.{dotted, preencode_ipv4_address, encode_ipv4_address, decode_ipv4_address}
use peeroxide.Encoding.Ip.Laws.{IsIpv4, Codes-ipv4_address}
use peeroxide.Encoding.Arrays.{
  max_array_length, preencode_buffer_array, encode_buffer_array, decode_buffer_array,
  preencode_string_array, encode_string_array, decode_string_array,
}
use peeroxide.Encoding.Arrays.Laws.{Codes-buffer_array, Codes-string_array}

-- A number below 2^64, written as a variable-length integer, fills exactly the bytes reserved
-- for it, and is read back from them.
pub uint_round_trip : (n : ℕ) → n < 2 ^ 64 → RoundTrips preencode_uint encode_uint decode_uint n n
uint_round_trip n h = Codes-RoundTrips (Codes-uint n h)

-- A signed 64-bit word, given by its bits and written as a variable-length zigzag integer, fills
-- exactly the bytes reserved for it, and is read back from them.
pub int_round_trip : (n : ℕ) → n < 2 ^ 64 → RoundTrips preencode_int encode_int decode_int n n
int_round_trip n h = Codes-RoundTrips (Codes-int n h)

-- A signed 8-bit word, given by its bits, fills its byte as zigzag and is read back from it.
pub int8_round_trip : (v : ℕ) → v < 2 ^ 8 → RoundTrips preencode_int8 encode_int8 decode_int8 v v
int8_round_trip v h = Codes-RoundTrips (Codes-int8 v h)

-- A signed 32-bit word, given by its bits, fills its four bytes as zigzag and is read back from
-- them.
pub int32_round_trip :
    (v : ℕ) → v < 2 ^ 32 → RoundTrips preencode_int32 encode_int32 decode_int32 v v
int32_round_trip v h = Codes-RoundTrips (Codes-int32 v h)

-- A number below 2^24 fills its three bytes and is read back from them.
pub uint24_round_trip :
    (v : ℕ) → v < 2 ^ 24 → RoundTrips preencode_uint24 encode_uint24 decode_uint24 v v
uint24_round_trip v h = Codes-RoundTrips (Codes-uint24 v h)

-- A number below 2^56, written as a word of 32 bits and one of 24, fills its seven bytes and is
-- read back from them.
pub uint56_round_trip :
    (v : ℕ) → v < 2 ^ 56 → RoundTrips preencode_uint56 encode_uint56 decode_uint56 v v
uint56_round_trip v h = Codes-RoundTrips (Codes-uint56 v h)

-- A number below 2^64 fills its eight bytes and is read back from them.
pub uint64_round_trip :
    (v : ℕ) → v < 2 ^ 64 → RoundTrips preencode_uint64 encode_uint64 decode_uint64 v v
uint64_round_trip v h = Codes-RoundTrips (Codes-uint64 v h)

-- A buffer of less than 2^64 bytes, or none, fills exactly the bytes reserved for it, and comes
-- back as it was, save that an empty buffer comes back as none.
pub buffer_round_trip :
    (b : Option (List ℕ))
    → option_length b < 2 ^ 64
    → RoundTrips preencode_buffer encode_buffer decode_buffer b (normal b)
buffer_round_trip b h = Codes-RoundTrips (Codes-buffer b h)

-- A string of less than 2^64 bytes fills exactly the bytes reserved for it, and comes back as
-- the lossy conversion from bytes, a parameter, makes it.
pub string_round_trip :
    (lossy : List ℕ → List ℕ) (t : List ℕ)
    → length t < 2 ^ 64
    → RoundTrips preencode_string encode_string (decode_string lossy) t (lossy t)
string_round_trip lossy t h = Codes-RoundTrips (Codes-string lossy t h)

-- An IPv4 address whose text splits into four parts that parse to bytes, with a port below 2^16,
-- fills exactly the six bytes reserved for it, and comes back with the address in plain dotted
-- form.
pub ipv4_address_round_trip :
    (addr : List ℕ) (a b c d port : ℕ)
    → IsIpv4 addr a b c d
    → port < 2 ^ 16
    → RoundTrips preencode_ipv4_address encode_ipv4_address decode_ipv4_address
        (addr, port)
        (dotted a b c d, port)
ipv4_address_round_trip addr a b c d port v h =
    Codes-RoundTrips (Codes-ipv4_address addr a b c d port v h)

-- An array of at most 1048576 buffers of less than 2^64 bytes each fills exactly the bytes
-- reserved for it, and comes back with each buffer as it was, save that an empty buffer comes
-- back as none.
pub buffer_array_round_trip :
    (xs : List (Option (List ℕ)))
    → length xs ≤ max_array_length
    → All (λ b. option_length b < 2 ^ 64) xs
    → RoundTrips preencode_buffer_array encode_buffer_array decode_buffer_array xs (map normal xs)
buffer_array_round_trip xs n h = Codes-RoundTrips (Codes-buffer_array xs n h)

-- An array of at most 1048576 strings of less than 2^64 bytes each fills exactly the bytes
-- reserved for it, and comes back with each string as the lossy conversion, a parameter, makes
-- it.
pub string_array_round_trip :
    (lossy : List ℕ → List ℕ) (xs : List (List ℕ))
    → length xs ≤ max_array_length
    → All (λ t. length t < 2 ^ 64) xs
    → RoundTrips preencode_string_array encode_string_array
        (decode_string_array lossy)
        xs
        (map lossy xs)
string_array_round_trip lossy xs n h = Codes-RoundTrips (Codes-string_array lossy xs n h)
