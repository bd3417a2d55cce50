-- ===== src/HyperMessages/Announce.antt =====
-- hyperdht_messages.rs: peers, announcements and the replies to lookups.
pub mod Laws
pub mod Safety
use peeroxide.Common.{
  ℕ, zero, suc, ◌-◌, ◌*◌, ◌^◌, Bool, not, ltb, ◌==◌, if◌then◌else◌, Option, List, [], length,
  bit_or,
}
use peeroxide.Encoding.State.{State, M, ◌>>=◌, ◌>>◌, pure, reserve, ok, panic}
use peeroxide.Encoding.Uint.{preencode_uint, encode_uint, decode_uint}
use peeroxide.Encoding.Bytes.{encode_fixed32, decode_fixed32, encode_fixed64, decode_fixed64}
use peeroxide.Encoding.Arrays.{preencode_each, encode_each, decode_times}
use peeroxide.Messages.{Ipv4Peer, Result, is_some, has_flag}
use peeroxide.Messages.Codec.{
  preencode_error as preencode_nonzero, encode_error as encode_nonzero,
  decode_error as decode_nonzero,
}
use peeroxide.HyperMessages.{
  preencode_some, encode_some, decode_some, to_bytes, from_bytes, preencode_ipv4_peer_array,
  encode_ipv4_peer_array, decode_ipv4_peer_array,
}

pub record HyperPeer : Type 0 where
  pub public_key : List ℕ
  pub relay_addresses : List Ipv4Peer

unfoldable pub preencode_hyper_peer : HyperPeer → State → State
preencode_hyper_peer peer s = preencode_ipv4_peer_array peer.relay_addresses (reserve 32 s)

unfoldable pub encode_hyper_peer : HyperPeer → M (Unit {0})
encode_hyper_peer peer = do
  encode_fixed32 peer.public_key
  encode_ipv4_peer_array peer.relay_addresses

unfoldable pub decode_hyper_peer : M HyperPeer
decode_hyper_peer = do
  public_key ← decode_fixed32
  relay_addresses ← decode_ipv4_peer_array
  pure (record { public_key = public_key; relay_addresses = relay_addresses })

unfoldable pub encode_hyper_peer_to_bytes : HyperPeer → Result (List ℕ)
encode_hyper_peer_to_bytes peer = to_bytes preencode_hyper_peer encode_hyper_peer peer

unfoldable pub decode_hyper_peer_from_bytes : List ℕ → Result HyperPeer
decode_hyper_peer_from_bytes buf = from_bytes decode_hyper_peer buf

abbrev pub flag_peer : ℕ
flag_peer = 0x1

abbrev pub flag_refresh : ℕ
flag_refresh = 0x2

abbrev pub flag_signature : ℕ
flag_signature = 0x4

abbrev pub flag_bump : ℕ
flag_bump = 0x8

pub record AnnounceMessage : Type 0 where
  pub peer : Option HyperPeer
  pub refresh : Option (List ℕ)
  pub signature : Option (List ℕ)
  pub bump : ℕ

unfoldable pub preencode_announce : AnnounceMessage → State → State
preencode_announce m s = preencode_nonzero m.bump (
    preencode_some (λ sig. reserve 64) m.signature
      (preencode_some (λ refresh. reserve 32) m.refresh
        (preencode_some preencode_hyper_peer m.peer (reserve 1 s))))

-- `if b { F } else { 0 }`
abbrev pub flag_if : Bool → ℕ → ℕ
flag_if b f = if b then f else 0

unfoldable pub announce_flags : Bool → Bool → Bool → Bool → ℕ
announce_flags peer refresh signature bump =
    bit_or
      (bit_or (bit_or (flag_if peer flag_peer) (flag_if refresh flag_refresh))
        (flag_if signature flag_signature))
      (flag_if bump flag_bump)

unfoldable pub encode_announce : AnnounceMessage → M (Unit {0})
encode_announce m = do
  encode_uint (
      announce_flags (is_some m.peer) (is_some m.refresh) (is_some m.signature) (not (m.bump == 0)))
  encode_some encode_hyper_peer m.peer
  encode_some encode_fixed32 m.refresh
  encode_some encode_fixed64 m.signature
  encode_nonzero m.bump

unfoldable pub decode_announce : M AnnounceMessage
decode_announce = do
  flags ← decode_uint
  peer ← decode_some decode_hyper_peer (has_flag flags flag_peer)
  refresh ← decode_some decode_fixed32 (has_flag flags flag_refresh)
  signature ← decode_some decode_fixed64 (has_flag flags flag_signature)
  bump ← decode_nonzero (has_flag flags flag_bump)
  pure (record { peer = peer; refresh = refresh; signature = signature; bump = bump })

unfoldable pub encode_announce_to_bytes : AnnounceMessage → Result (List ℕ)
encode_announce_to_bytes m = to_bytes preencode_announce encode_announce m

unfoldable pub decode_announce_from_bytes : List ℕ → Result AnnounceMessage
decode_announce_from_bytes buf = from_bytes decode_announce buf

pub record LookupRawReply : Type 0 where
  pub peers : List HyperPeer
  pub bump : ℕ

unfoldable pub preencode_lookup_raw_reply : LookupRawReply → State → State
preencode_lookup_raw_reply m s =
    preencode_uint m.bump
      (preencode_each preencode_hyper_peer m.peers (preencode_uint (length m.peers) s))

unfoldable pub encode_lookup_raw_reply : LookupRawReply → M (Unit {0})
encode_lookup_raw_reply m = do
  encode_uint (length m.peers)
  encode_each encode_hyper_peer m.peers
  encode_uint m.bump

-- A `HyperPeer` is 56 bytes on a 64-bit machine, and `Vec::with_capacity` panics on a capacity of
-- more than `isize::MAX` bytes.
abbrev pub hyper_peer_size : ℕ
hyper_peer_size = 56

unfoldable pub with_capacity : ℕ → ℕ → M (Unit {0})
with_capacity size count s = if ltb (2 ^ 63 - 1) (count * size) then panic else ok tt s

-- `if state.start < state.end { decode_uint(state)? } else { 0 }`
unfoldable pub decode_trailing : M ℕ
decode_trailing s = if ltb s.start s.end then decode_uint s else ok 0 s

unfoldable pub decode_lookup_raw_reply : M LookupRawReply
unfolding with_capacity decode_trailing
decode_lookup_raw_reply = do
  count ← decode_uint
  with_capacity hyper_peer_size count
  peers ← decode_times decode_hyper_peer count
  bump ← decode_trailing
  pure (record { peers = peers; bump = bump })

unfoldable pub encode_lookup_raw_reply_to_bytes : LookupRawReply → Result (List ℕ)
encode_lookup_raw_reply_to_bytes m = to_bytes preencode_lookup_raw_reply encode_lookup_raw_reply m

unfoldable pub decode_lookup_raw_reply_from_bytes : List ℕ → Result LookupRawReply
decode_lookup_raw_reply_from_bytes buf = from_bytes decode_lookup_raw_reply buf
