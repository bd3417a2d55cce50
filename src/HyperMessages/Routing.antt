-- ===== src/HyperMessages/Routing.antt =====
-- hyperdht_messages.rs: the handshake and holepunch messages that relays pass on.
pub mod Laws
use peeroxide.Common.{ℕ, Bool, if◌then◌else◌, Option, some, List, bit_or}
use peeroxide.Encoding.State.{State, M, ◌>>=◌, ◌>>◌, pure}
use peeroxide.Encoding.Uint.{preencode_uint, encode_uint, decode_uint}
use peeroxide.Encoding.Bytes.{preencode_buffer, encode_buffer}
use peeroxide.Messages.{Ipv4Peer, Result, is_some, has_flag}
use peeroxide.HyperMessages.{
  preencode_some, encode_some, decode_some, to_bytes, from_bytes, decode_bytes, preencode_address,
  encode_address, decode_address,
}

pub record HandshakeMessage : Type 0 where
  pub mode : ℕ
  pub noise : List ℕ
  pub peer_address : Option Ipv4Peer
  pub relay_address : Option Ipv4Peer

unfoldable pub preencode_handshake : HandshakeMessage → State → State
preencode_handshake m s = preencode_some preencode_address m.relay_address (
    preencode_some preencode_address m.peer_address
      (preencode_buffer (some m.noise) (preencode_uint m.mode (preencode_uint 0 s))))

unfoldable pub handshake_flags : Bool → Bool → ℕ
handshake_flags peer relay = bit_or (if peer then 1 else 0) (if relay then 2 else 0)

unfoldable pub encode_handshake : HandshakeMessage → M (Unit {0})
encode_handshake m = do
  encode_uint (handshake_flags (is_some m.peer_address) (is_some m.relay_address))
  encode_uint m.mode
  encode_buffer (some m.noise)
  encode_some encode_address m.peer_address
  encode_some encode_address m.relay_address

unfoldable pub decode_handshake : M HandshakeMessage
decode_handshake = do
  flags ← decode_uint
  mode ← decode_uint
  noise ← decode_bytes
  peer_address ← decode_some decode_address (has_flag flags 1)
  relay_address ← decode_some decode_address (has_flag flags 2)
  pure (record {
    mode = mode;
    noise = noise;
    peer_address = peer_address;
    relay_address = relay_address;
  })

unfoldable pub encode_handshake_to_bytes : HandshakeMessage → Result (List ℕ)
encode_handshake_to_bytes m = to_bytes preencode_handshake encode_handshake m

unfoldable pub decode_handshake_from_bytes : List ℕ → Result HandshakeMessage
decode_handshake_from_bytes buf = from_bytes decode_handshake buf

pub record HolepunchMessage : Type 0 where
  pub mode : ℕ
  pub id : ℕ
  pub payload : List ℕ
  pub peer_address : Option Ipv4Peer

unfoldable pub preencode_holepunch_msg : HolepunchMessage → State → State
preencode_holepunch_msg m s = preencode_some preencode_address m.peer_address (
    preencode_buffer (some m.payload)
      (preencode_uint m.id (preencode_uint m.mode (preencode_uint 0 s))))

unfoldable pub encode_holepunch_msg : HolepunchMessage → M (Unit {0})
encode_holepunch_msg m = do
  encode_uint (if is_some m.peer_address then 1 else 0)
  encode_uint m.mode
  encode_uint m.id
  encode_buffer (some m.payload)
  encode_some encode_address m.peer_address

unfoldable pub decode_holepunch_msg : M HolepunchMessage
decode_holepunch_msg = do
  flags ← decode_uint
  mode ← decode_uint
  id ← decode_uint
  payload ← decode_bytes
  peer_address ← decode_some decode_address (has_flag flags 1)
  pure (record { mode = mode; id = id; payload = payload; peer_address = peer_address })

unfoldable pub encode_holepunch_msg_to_bytes : HolepunchMessage → Result (List ℕ)
encode_holepunch_msg_to_bytes m = to_bytes preencode_holepunch_msg encode_holepunch_msg m

unfoldable pub decode_holepunch_msg_from_bytes : List ℕ → Result HolepunchMessage
decode_holepunch_msg_from_bytes buf = from_bytes decode_holepunch_msg buf
