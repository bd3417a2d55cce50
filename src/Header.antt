-- ===== src/Header.antt =====
-- libudx/src/native/header.rs: the fixed UDX packet header and its SACK ranges.
pub mod Laws
pub mod Sack
use peeroxide.Common.{
  ℕ, zero, suc, ◌+◌, ◌*◌, ◌%◌, Bool, not, ltb, ◌==◌, if◌then◌else◌, Option, none, some, List, [],
  ◌∷◌, length, get_elem?, write_at, replicate, bit_and,
}
use peeroxide.Encoding.Words.{to_le_bytes, from_le_bytes}

abbrev pub header_size : ℕ
header_size = 20

abbrev pub magic : ℕ
magic = 0xFF

abbrev pub version : ℕ
version = 1

abbrev pub flag_data : ℕ
flag_data = 0x01

abbrev pub flag_end : ℕ
flag_end = 0x02

abbrev pub flag_sack : ℕ
flag_sack = 0x04

abbrev pub flag_message : ℕ
flag_message = 0x08

abbrev pub flag_destroy : ℕ
flag_destroy = 0x10

abbrev pub flag_heartbeat : ℕ
flag_heartbeat = 0x20

pub data HeaderError : Type 0 where
  too_short : ℕ → HeaderError
  bad_magic : ℕ → HeaderError
  bad_version : ℕ → HeaderError
  invalid_sack : ℕ → HeaderError

pub record Header : Type 0 where
  pub type_flags : ℕ
  pub data_offset : ℕ
  pub remote_id : ℕ
  pub recv_window : ℕ
  pub seq : ℕ
  pub ack : ℕ

-- What a parser ends in; `crashed` is an index out of the buffer.
pub data Parsed (A : Type 0) : Type 0 where
  parsed : A → Parsed A
  rejected : HeaderError → Parsed A
  crashed : Parsed A

infixl 5 ◌>>=◌ ◌>=>◌
abbrev pub ◌>>=◌ : {A B : Type 0} → Parsed A → (A → Parsed B) → Parsed B
◌>>=◌ (parsed a) f = f a
◌>>=◌ (rejected e) f = rejected e
◌>>=◌ crashed f = crashed

abbrev pub in_bounds : {A : Type 0} → Option A → Parsed A
in_bounds none = crashed
in_bounds (some a) = parsed a

-- Two writes to the buffer, one after the other; `none` is an index out of it.
abbrev pub ◌>=>◌ :
    (List ℕ → Option (List ℕ)) → (List ℕ → Option (List ℕ)) → List ℕ → Option (List ℕ)
◌>=>◌ f g buf = elim (f buf) [ none ↦ none | some b ↦ g b ]

-- `buf[i] = v`, and `buf[i..i + 4].copy_from_slice(&v.to_le_bytes())`.
abbrev pub put_u8 : ℕ → ℕ → List ℕ → Option (List ℕ)
put_u8 i v = write_at i (v ∷ [])

abbrev pub put_u32 : ℕ → ℕ → List ℕ → Option (List ℕ)
put_u32 i v = write_at i (to_le_bytes 4 v)

unfoldable pub encode_into : Header → List ℕ → Option (List ℕ)
encode_into h =
    put_u8 0 magic
    >=> put_u8 1 version
    >=> put_u8 2 h.type_flags
    >=> put_u8 3 h.data_offset
    >=> put_u32 4 h.remote_id
    >=> put_u32 8 h.recv_window
    >=> put_u32 12 h.seq
    >=> put_u32 16 h.ack

unfoldable pub encode : Header → Option (List ℕ)
unfolding encode_into
encode h = encode_into h (replicate header_size 0)

-- `u32::from_le_bytes([buf[i], buf[i + 1], buf[i + 2], buf[i + 3]])`
abbrev pub read_u32 : ℕ → List ℕ → Parsed ℕ
read_u32 i buf = do
  b0 ← in_bounds (get_elem? buf i)
  b1 ← in_bounds (get_elem? buf (i + 1))
  b2 ← in_bounds (get_elem? buf (i + 2))
  b3 ← in_bounds (get_elem? buf (i + 3))
  parsed (from_le_bytes (b0 ∷ b1 ∷ b2 ∷ b3 ∷ []))

unfoldable pub decode_fields : List ℕ → Parsed Header
decode_fields buf = do
  type_flags ← in_bounds (get_elem? buf 2)
  data_offset ← in_bounds (get_elem? buf 3)
  remote_id ← read_u32 4 buf
  recv_window ← read_u32 8 buf
  seq ← read_u32 12 buf
  ack ← read_u32 16 buf
  parsed (record {
    type_flags = type_flags;
    data_offset = data_offset;
    remote_id = remote_id;
    recv_window = recv_window;
    seq = seq;
    ack = ack;
  })

-- `if b { return Err(e); }`, and the rest.
abbrev pub reject_if : {A : Type 0} → Bool → HeaderError → Parsed A → Parsed A
reject_if b e rest = if b then rejected e else rest

unfoldable pub decode : List ℕ → Parsed Header
unfolding decode_fields
decode buf = reject_if (ltb (length buf) header_size) (too_short (length buf)) (do
  b0 ← in_bounds (get_elem? buf 0)
  reject_if (not (b0 == magic)) (bad_magic b0) (do
    b1 ← in_bounds (get_elem? buf 1)
    reject_if (not (b1 == version)) (bad_version b1) (decode_fields buf)))

unfoldable pub payload_offset : Header → ℕ
payload_offset h = header_size + h.data_offset

unfoldable pub has_flag : Header → ℕ → Bool
has_flag h flag = not (bit_and h.type_flags flag == 0)

pub record SackRange : Type 0 where
  pub start : ℕ
  pub end : ℕ

-- The loop of `encode_sack` from range `i` on.
unfoldable pub encode_ranges : ℕ → List SackRange → List ℕ → Option (List ℕ)
encode_ranges i [] = some
encode_ranges i (range ∷ rs) =
    put_u32 (i * 8) range.start >=> put_u32 (i * 8 + 4) range.end >=> encode_ranges (i + 1) rs

-- The buffer afterwards, and the number of bytes written.
unfoldable pub encode_sack : List SackRange → List ℕ → Option (List ℕ × ℕ)
unfolding encode_ranges
encode_sack ranges buf = elim (encode_ranges 0 ranges buf) [
  | none ↦ none
  | some out ↦ some (out, length ranges * 8)
]

-- The ranges of `chunks_exact(8)`.
unfoldable pub decode_chunks : List ℕ → List SackRange
decode_chunks (b0 ∷ b1 ∷ b2 ∷ b3 ∷ b4 ∷ b5 ∷ b6 ∷ b7 ∷ bs) =
    record {
      start = from_le_bytes (b0 ∷ b1 ∷ b2 ∷ b3 ∷ []);
      end = from_le_bytes (b4 ∷ b5 ∷ b6 ∷ b7 ∷ []);
    }
    ∷ decode_chunks bs
decode_chunks _ = []

unfoldable pub decode_sack : List ℕ → Parsed (List SackRange)
unfolding decode_chunks
decode_sack buf =
    if not (length buf % 8 == 0)
    then rejected (invalid_sack (length buf))
    else parsed (decode_chunks buf)
