-- ===== src/HyperMessages/Announce/Laws.antt =====
-- Peers, announcements and replies to lookups on the wire.
use peeroxide.Common.{
  ℕ, ◌-◌, ◌*◌, ◌^◌, ◌<◌, ◌≡◌, Bool, false, not, ltb, lt→ltb, ◌==◌, List, length, All, arith,
}
use peeroxide.Encoding.State.{State, M, ◌>>=◌, ◌>>◌}
use peeroxide.Encoding.Fields.{Field, Field-then, Field-last, Field-uint, Field-small}
use peeroxide.Encoding.Laws.{Reads}
use peeroxide.Encoding.Uint.{preencode_uint, encode_uint}
use peeroxide.Encoding.Uint.Laws.{Codes-uint, uint_bytes}
use peeroxide.Messages.{is_some, done}
use peeroxide.HyperMessages.Flags.{
  announce_peer, announce_refresh, announce_signature, announce_bump, announce_small,
}
use peeroxide.HyperMessages.Parts.{
  Given, Field-some, Field-nonzero, Field-fixed32, Field-fixed64, ArePeers, Field-addresses,
  Field-each, survives,
}
use peeroxide.HyperMessages.Announce.{
  HyperPeer, preencode_hyper_peer, encode_hyper_peer, decode_hyper_peer, encode_hyper_peer_to_bytes,
  decode_hyper_peer_from_bytes, AnnounceMessage, announce_flags, preencode_announce,
  encode_announce, decode_announce, encode_announce_to_bytes, decode_announce_from_bytes,
  LookupRawReply, preencode_lookup_raw_reply, encode_lookup_raw_reply, decode_lookup_raw_reply,
  encode_lookup_raw_reply_to_bytes, decode_lookup_raw_reply_from_bytes, hyper_peer_size,
  with_capacity, decode_trailing,
}

-- A key of 32 bytes, and addresses that an array holds.
pub record IsHyperPeer (p : HyperPeer) : Type 0 where
  pub key : length p.public_key ≡ 32
  pub relays : ArePeers p.relay_addresses

Field-hyper_peer :
    (p : HyperPeer)
    → IsHyperPeer p
    → Field (preencode_hyper_peer p) (encode_hyper_peer p) decode_hyper_peer p
unfolding preencode_hyper_peer encode_hyper_peer decode_hyper_peer
Field-hyper_peer p v =
    Field-then _ (Field-fixed32 p.public_key v.key)
      (Field-last _ (Field-addresses p.relay_addresses v.relays))

pub hyper_peer_survives :
    (p : HyperPeer)
    → IsHyperPeer p
    → (bs : List ℕ) × (encode_hyper_peer_to_bytes p ≡ done bs)
      × (decode_hyper_peer_from_bytes bs ≡ done p)
unfolding encode_hyper_peer_to_bytes decode_hyper_peer_from_bytes
hyper_peer_survives p v = survives preencode_hyper_peer encode_hyper_peer (Field-hyper_peer p v)

abbrev pub Is32 : List ℕ → Type 0
Is32 k = length k ≡ 32

abbrev pub Is64 : List ℕ → Type 0
Is64 k = length k ≡ 64

-- The values the fields can hold.
pub record IsAnnounce (m : AnnounceMessage) : Type 0 where
  pub who : Given IsHyperPeer m.peer
  pub refresh_key : Given Is32 m.refresh
  pub signed : Given Is64 m.signature
  pub bump_fits : m.bump < 2 ^ 64

-- An announcement with a key and refresh of 32 bytes, a signature of 64, a bump below 2^64 and
-- at most 1048576 relay addresses, in plain dotted form with 16-bit ports, is written by
-- encode_announce_to_bytes, and decode_announce_from_bytes makes the same announcement of the
-- bytes.
pub announce_survives :
    (m : AnnounceMessage)
    → IsAnnounce m
    → (bs : List ℕ) × (encode_announce_to_bytes m ≡ done bs)
      × (decode_announce_from_bytes bs ≡ done m)
unfolding preencode_announce encode_announce decode_announce encode_announce_to_bytes
    decode_announce_from_bytes
announce_survives m v =
    let a : Bool = is_some m.peer in
    let b : Bool = is_some m.refresh in
    let c : Bool = is_some m.signature in
    let d : Bool = not (m.bump == 0) in
    survives preencode_announce encode_announce (
      Field-then _ (Field-small (announce_flags a b c d) (announce_small a b c d)) (
        Field-then _ (Field-some IsHyperPeer Field-hyper_peer m.peer v.who (announce_peer a b c d))
          (Field-then _
            (Field-some Is32 Field-fixed32 m.refresh v.refresh_key (announce_refresh a b c d))
            (Field-then _
              (Field-some Is64 Field-fixed64 m.signature v.signed (announce_signature a b c d))
              (Field-last _ (Field-nonzero m.bump v.bump_fits (announce_bump a b c d)))))))

-- The capacity of the peers is what memory can hold.
pub record IsReply (m : LookupRawReply) : Type 0 where
  pub few : length m.peers * hyper_peer_size < 2 ^ 63
  pub each : All IsHyperPeer m.peers
  pub bump_fits : m.bump < 2 ^ 64

length-uint_bytes : (n : ℕ) → 0 < length (uint_bytes n)
length-uint_bytes n = ground arith

-- The bump is read since its bytes are there.
Field-trailing : (n : ℕ) → n < 2 ^ 64 → Field (preencode_uint n) (encode_uint n) decode_trailing n
unfolding decode_trailing
Field-trailing n h =
    let c = Codes-uint n h in
    record {
      bytes = uint_bytes n;
      sized = c.sized;
      written = c.written;
      read = record {
        at = λ s pre post hs hb he.
            rw (lt→ltb s.start s.end (omega (arith, length-uint_bytes n)))
              (c.read.at s pre post hs hb he);
      };
    }

-- A capacity that memory can hold reads nothing.
with_capacity-pass :
    {A : Type 0} (n : ℕ) (k : M A) {bs : List ℕ} {a : A}
    → n * hyper_peer_size < 2 ^ 63
    → Reads k bs a
    → Reads (with_capacity hyper_peer_size n >> k) bs a
unfolding with_capacity
with_capacity-pass n k h r = record {
  at = λ s pre post hs hb he.
      let fits : ltb (2 ^ 63 - 1) (n * hyper_peer_size) ≡ false = ground arith in
      rw (fits, ◌>>=◌, ◌>>◌) (r.at s pre post hs hb he);
}

Field-capacity :
    {A : Type 0} (n : ℕ) {p : State → State} {w : M (Unit {0})} {k : M A} {a : A}
    → n * hyper_peer_size < 2 ^ 63
    → Field p w k a
    → Field p w (with_capacity hyper_peer_size n >> k) a
Field-capacity n {k} h x = record {
  bytes = x.bytes;
  sized = x.sized;
  written = x.written;
  read = with_capacity-pass n k h x.read;
}

-- A lookup reply whose peers take less than 2^63 bytes of memory, each with a key of 32 bytes
-- and addresses in plain dotted form, and with a bump below 2^64, is written by
-- encode_lookup_raw_reply_to_bytes, and decode_lookup_raw_reply_from_bytes makes the same reply
-- of the bytes.
pub lookup_raw_reply_survives :
    (m : LookupRawReply)
    → IsReply m
    → (bs : List ℕ) × (encode_lookup_raw_reply_to_bytes m ≡ done bs)
      × (decode_lookup_raw_reply_from_bytes bs ≡ done m)
unfolding preencode_lookup_raw_reply encode_lookup_raw_reply decode_lookup_raw_reply
    encode_lookup_raw_reply_to_bytes decode_lookup_raw_reply_from_bytes
lookup_raw_reply_survives m v = survives preencode_lookup_raw_reply encode_lookup_raw_reply (
    Field-then _ (Field-uint (length m.peers) (omega (arith, v.few))) (
      Field-capacity (length m.peers) v.few (
        Field-then _
          (Field-each preencode_hyper_peer encode_hyper_peer decode_hyper_peer IsHyperPeer
            Field-hyper_peer m.peers v.each)
          (Field-last _ (Field-trailing m.bump v.bump_fits)))))
