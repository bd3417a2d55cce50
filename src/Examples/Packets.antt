-- ===== src/Examples/Packets.antt =====
-- header.rs on concrete packets.
use peeroxide.Common.{
  ℕ, ◌≤◌, ◌≡◌, ◌↔◌, refl, some, List, [], ◌∷◌, replicate, arith, length, get_elem?,
}
use peeroxide.Header.{
  Header, SackRange, header_size, magic, version, parsed, encode_into, decode, encode_sack,
  decode_sack,
}
use peeroxide.Header.Laws.{
  header_bytes, encode_into-decode, decode-accepts, decode-encode_into, IsBytes,
}
use peeroxide.Header.Sack.{decode_sack-encode_sack}

abbrev probe : Header
probe = record {
  type_flags = 5;
  data_offset = 16;
  remote_id = 42;
  recv_window = 4194304;
  seq = 0xFFFFFFFF;
  ack = 7;
}

abbrev packet : List ℕ
packet = header_bytes probe

abbrev ranges : List SackRange
ranges = record { start = 5; end = 10 } ∷ record { start = 15; end = 0xFFFFFFFF } ∷ []

decode-encode_into_example :
    (out : List ℕ) × (encode_into probe (replicate 30 0) ≡ some out) × (decode out ≡ parsed probe)
decode-encode_into_example =
    decode-encode_into probe (replicate 30 0)
      (record {
        remote_id = omega arith;
        recv_window = omega arith;
        seq = omega arith;
        ack = omega arith;
      })
      (omega arith)

packet-IsBytes : IsBytes packet
packet-IsBytes = ground arith

packet_read : decode packet ≡ parsed probe
unfolding decode
packet_read = refl

encode_into-decode_example : encode_into probe packet ≡ some packet
encode_into-decode_example = encode_into-decode packet probe packet-IsBytes packet_read

decode-accepts_example : ((h : Header) × (decode packet ≡ parsed h)) ↔ (
    (header_size ≤ length packet)
    × (get_elem? packet 0 ≡ some magic)
    × (get_elem? packet 1 ≡ some version))
decode-accepts_example = decode-accepts packet

decode_sack-encode_sack_example :
    (out : List ℕ) × (encode_sack ranges (replicate 16 0) ≡ some (out, 16))
    × (decode_sack out ≡ parsed ranges)
decode_sack-encode_sack_example =
    decode_sack-encode_sack ranges (replicate 16 0)
      ((omega arith, omega arith), ((omega arith, omega arith), tt)) (omega arith)
