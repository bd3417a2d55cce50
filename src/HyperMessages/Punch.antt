-- ===== src/HyperMessages/Punch.antt =====
-- hyperdht_messages.rs: the payload of a round of hole punching.
pub mod Laws
use peeroxide.Common.{ℕ, Bool, Option, List}
use peeroxide.Encoding.State.{State, M, ◌>>=◌, ◌>>◌, pure, reserve}
use peeroxide.Encoding.Uint.{encode_uint, decode_uint}
use peeroxide.Encoding.Bytes.{encode_fixed32, decode_fixed32}
use peeroxide.Messages.{Ipv4Peer, Result, is_some, add_flag, has_flag}
use peeroxide.HyperMessages.{
  preencode_some, encode_some, decode_some, to_bytes, from_bytes, preencode_address, encode_address,
  decode_address, preencode_ipv4_peer_array, encode_ipv4_peer_array, decode_ipv4_peer_array,
}

pub record HolepunchPayload : Type 0 where
  pub error : ℕ
  pub firewall : ℕ
  pub round : ℕ
  pub connected : Bool
  pub punching : Bool
  pub addresses : Option (List Ipv4Peer)
  pub remote_address : Option Ipv4Peer
  pub token : Option (List ℕ)
  pub remote_token : Option (List ℕ)

abbrev pub hp_flag_connected : ℕ
hp_flag_connected = 1

abbrev pub hp_flag_punching : ℕ
hp_flag_punching = 2

abbrev pub hp_flag_addresses : ℕ
hp_flag_addresses = 4

abbrev pub hp_flag_remote_address : ℕ
hp_flag_remote_address = 8

abbrev pub hp_flag_token : ℕ
hp_flag_token = 16

abbrev pub hp_flag_remote_token : ℕ
hp_flag_remote_token = 32

unfoldable pub preencode_holepunch_payload : HolepunchPayload → State → State
preencode_holepunch_payload m s =
    preencode_some (λ t. reserve 32) m.remote_token
      (preencode_some (λ t. reserve 32) m.token
        (preencode_some preencode_address m.remote_address
          (preencode_some preencode_ipv4_peer_array m.addresses (reserve 4 s))))

-- The six flags, added in the order of the source.
unfoldable pub punch_flags : Bool → Bool → Bool → Bool → Bool → Bool → ℕ
punch_flags connected punching addresses remote_address token remote_token =
    add_flag remote_token hp_flag_remote_token (
      add_flag token hp_flag_token (
        add_flag remote_address hp_flag_remote_address (
          add_flag addresses hp_flag_addresses
            (add_flag punching hp_flag_punching (add_flag connected hp_flag_connected 0)))))

unfoldable pub round_flags : HolepunchPayload → ℕ
unfolding punch_flags
round_flags m =
    punch_flags m.connected m.punching (is_some m.addresses) (is_some m.remote_address)
      (is_some m.token) (is_some m.remote_token)

unfoldable pub encode_holepunch_payload : HolepunchPayload → M (Unit {0})
encode_holepunch_payload m = do
  encode_uint (round_flags m)
  encode_uint m.error
  encode_uint m.firewall
  encode_uint m.round
  encode_some encode_ipv4_peer_array m.addresses
  encode_some encode_address m.remote_address
  encode_some encode_fixed32 m.token
  encode_some encode_fixed32 m.remote_token

unfoldable pub decode_holepunch_payload : M HolepunchPayload
decode_holepunch_payload = do
  flags ← decode_uint
  error ← decode_uint
  firewall ← decode_uint
  round ← decode_uint
  addresses ← decode_some decode_ipv4_peer_array (has_flag flags hp_flag_addresses)
  remote_address ← decode_some decode_address (has_flag flags hp_flag_remote_address)
  token ← decode_some decode_fixed32 (has_flag flags hp_flag_token)
  remote_token ← decode_some decode_fixed32 (has_flag flags hp_flag_remote_token)
  pure (record {
    error = error;
    firewall = firewall;
    round = round;
    connected = has_flag flags hp_flag_connected;
    punching = has_flag flags hp_flag_punching;
    addresses = addresses;
    remote_address = remote_address;
    token = token;
    remote_token = remote_token;
  })

unfoldable pub encode_holepunch_payload_to_bytes : HolepunchPayload → Result (List ℕ)
encode_holepunch_payload_to_bytes m =
    to_bytes preencode_holepunch_payload encode_holepunch_payload m

unfoldable pub decode_holepunch_payload_from_bytes : List ℕ → Result HolepunchPayload
decode_holepunch_payload_from_bytes buf = from_bytes decode_holepunch_payload buf
