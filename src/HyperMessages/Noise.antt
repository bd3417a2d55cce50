-- ===== src/HyperMessages/Noise.antt =====
-- hyperdht_messages.rs: the payload that travels inside the Noise handshake, and its parts.
pub mod Laws
pub mod Safety
use peeroxide.Common.{
  ℕ, Bool, true, false, not, ◌==◌, if◌then◌else◌, Option, none, some, List, [], ◌∷◌, length,
  bit_and,
}
use peeroxide.Encoding.State.{State, M, ◌>>=◌, ◌>>◌, pure, reserve}
use peeroxide.Encoding.Uint.{preencode_uint, encode_uint, decode_uint}
use peeroxide.Encoding.Bytes.{encode_fixed32, decode_fixed32}
use peeroxide.Encoding.Arrays.{preencode_each, encode_each, decode_count}
use peeroxide.Messages.{Ipv4Peer, Result, is_some, is_empty, add_flag, has_flag}
use peeroxide.HyperMessages.{
  preencode_some, encode_some, decode_some, preencode_filled, encode_filled, decode_filled,
  to_bytes, from_bytes, encode_address, decode_address, preencode_ipv4_peer_array,
  encode_ipv4_peer_array, decode_ipv4_peer_array, preencode_ipv6_peer_array, encode_ipv6_peer_array,
  decode_ipv6_peer_array,
}

pub record RelayInfo : Type 0 where
  pub relay_address : Ipv4Peer
  pub peer_address : Ipv4Peer

unfoldable pub preencode_relay_info : RelayInfo → State → State
preencode_relay_info m s = reserve 12 s

unfoldable pub encode_relay_info : RelayInfo → M (Unit {0})
encode_relay_info m = do encode_address m.relay_address; encode_address m.peer_address

unfoldable pub decode_relay_info : M RelayInfo
decode_relay_info = do
  relay ← decode_address
  peer ← decode_address
  pure (record { relay_address = relay; peer_address = peer })

unfoldable pub preencode_relay_info_array : List RelayInfo → State → State
preencode_relay_info_array arr s =
    preencode_each preencode_relay_info arr (preencode_uint (length arr) s)

unfoldable pub encode_relay_info_array : List RelayInfo → M (Unit {0})
encode_relay_info_array arr = do encode_uint (length arr); encode_each encode_relay_info arr

unfoldable pub decode_relay_info_array : M (List RelayInfo)
decode_relay_info_array = do len ← decode_uint; decode_count decode_relay_info len

pub record HolepunchInfo : Type 0 where
  pub id : ℕ
  pub relays : List RelayInfo

unfoldable pub preencode_holepunch_info : HolepunchInfo → State → State
preencode_holepunch_info m s = preencode_relay_info_array m.relays (preencode_uint m.id s)

unfoldable pub encode_holepunch_info : HolepunchInfo → M (Unit {0})
encode_holepunch_info m = do encode_uint m.id; encode_relay_info_array m.relays

unfoldable pub decode_holepunch_info : M HolepunchInfo
decode_holepunch_info = do
  id ← decode_uint
  relays ← decode_relay_info_array
  pure (record { id = id; relays = relays })

pub record UdxInfo : Type 0 where
  pub version : ℕ
  pub reusable_socket : Bool
  pub id : ℕ
  pub seq : ℕ

unfoldable pub preencode_udx_info : UdxInfo → State → State
preencode_udx_info m s = preencode_uint m.seq (preencode_uint m.id (reserve 2 s))

unfoldable pub encode_udx_info : UdxInfo → M (Unit {0})
encode_udx_info m = do
  encode_uint 1
  encode_uint (if m.reusable_socket then 1 else 0)
  encode_uint m.id
  encode_uint m.seq

unfoldable pub decode_udx_info : M UdxInfo
decode_udx_info = do
  version ← decode_uint
  features ← decode_uint
  id ← decode_uint
  seq ← decode_uint
  pure (record { version = version; reusable_socket = has_flag features 1; id = id; seq = seq })

pub record SecretStreamInfo : Type 0 where
  pub version : ℕ

unfoldable pub preencode_secret_stream_info : SecretStreamInfo → State → State
preencode_secret_stream_info m s = preencode_uint 1 s

unfoldable pub encode_secret_stream_info : SecretStreamInfo → M (Unit {0})
encode_secret_stream_info m = encode_uint 1

unfoldable pub decode_secret_stream_info : M SecretStreamInfo
decode_secret_stream_info = do version ← decode_uint; pure (record { version = version })

pub record RelayThroughInfo : Type 0 where
  pub version : ℕ
  pub public_key : List ℕ
  pub token : List ℕ

unfoldable pub preencode_relay_through_info : RelayThroughInfo → State → State
preencode_relay_through_info m s = reserve 64 (preencode_uint 0 (preencode_uint 1 s))

unfoldable pub encode_relay_through_info : RelayThroughInfo → M (Unit {0})
encode_relay_through_info m = do
  encode_uint 1
  encode_uint 0
  encode_fixed32 m.public_key
  encode_fixed32 m.token

unfoldable pub decode_relay_through_info : M RelayThroughInfo
decode_relay_through_info = do
  version ← decode_uint
  flags ← decode_uint
  public_key ← decode_fixed32
  token ← decode_fixed32
  pure (record { version = version; public_key = public_key; token = token })

pub record NoisePayload : Type 0 where
  pub version : ℕ
  pub error : ℕ
  pub firewall : ℕ
  pub holepunch : Option HolepunchInfo
  pub addresses4 : List Ipv4Peer
  pub addresses6 : List Ipv4Peer
  pub udx : Option UdxInfo
  pub secret_stream : Option SecretStreamInfo
  pub relay_through : Option RelayThroughInfo
  pub relay_addresses : Option (List Ipv4Peer)

abbrev pub np_flag_holepunch : ℕ
np_flag_holepunch = 1

abbrev pub np_flag_addresses4 : ℕ
np_flag_addresses4 = 2

abbrev pub np_flag_addresses6 : ℕ
np_flag_addresses6 = 4

abbrev pub np_flag_udx : ℕ
np_flag_udx = 8

abbrev pub np_flag_secret_stream : ℕ
np_flag_secret_stream = 16

abbrev pub np_flag_relay_through : ℕ
np_flag_relay_through = 32

abbrev pub np_flag_relay_addresses : ℕ
np_flag_relay_addresses = 64

unfoldable pub preencode_noise_payload : NoisePayload → State → State
preencode_noise_payload m s = preencode_some preencode_ipv4_peer_array m.relay_addresses (
    preencode_some preencode_relay_through_info m.relay_through (
      preencode_some preencode_secret_stream_info m.secret_stream (
        preencode_some preencode_udx_info m.udx (
          preencode_filled preencode_ipv6_peer_array m.addresses6 (
            preencode_filled preencode_ipv4_peer_array m.addresses4
              (preencode_some preencode_holepunch_info m.holepunch (reserve 4 s)))))))

-- The seven flags, added in the order of the source.
unfoldable pub noise_flags : Bool → Bool → Bool → Bool → Bool → Bool → Bool → ℕ
noise_flags holepunch addresses4 addresses6 udx secret_stream relay_through relay_addresses =
    add_flag relay_addresses np_flag_relay_addresses (
      add_flag relay_through np_flag_relay_through (
        add_flag secret_stream np_flag_secret_stream (
          add_flag udx np_flag_udx (
            add_flag addresses6 np_flag_addresses6
              (add_flag addresses4 np_flag_addresses4 (add_flag holepunch np_flag_holepunch 0))))))

unfoldable pub payload_flags : NoisePayload → ℕ
unfolding noise_flags
payload_flags m =
    noise_flags (is_some m.holepunch) (not (is_empty m.addresses4)) (not (is_empty m.addresses6))
      (is_some m.udx) (is_some m.secret_stream) (is_some m.relay_through)
      (is_some m.relay_addresses)

-- What is returned for a version other than 1.
abbrev pub unknown_version : ℕ → NoisePayload
unknown_version version = record {
  version = version;
  error = 0;
  firewall = 0;
  holepunch = none;
  addresses4 = [];
  addresses6 = [];
  udx = none;
  secret_stream = none;
  relay_through = none;
  relay_addresses = none;
}

module _ (parse6 : List ℕ → Option (List ℕ)) where
  unfoldable pub encode_noise_payload : NoisePayload → M (Unit {0})
  encode_noise_payload m = do
    encode_uint 1
    encode_uint (payload_flags m)
    encode_uint m.error
    encode_uint m.firewall
    encode_some encode_holepunch_info m.holepunch
    encode_filled encode_ipv4_peer_array m.addresses4
    encode_filled (encode_ipv6_peer_array parse6) m.addresses6
    encode_some encode_udx_info m.udx
    encode_some encode_secret_stream_info m.secret_stream
    encode_some encode_relay_through_info m.relay_through
    encode_some encode_ipv4_peer_array m.relay_addresses

  unfoldable pub encode_noise_payload_to_bytes : NoisePayload → Result (List ℕ)
  encode_noise_payload_to_bytes m = to_bytes preencode_noise_payload encode_noise_payload m

module _ (show6 : List ℕ → List ℕ) where
  -- What follows the version.
  unfoldable pub decode_noise_rest : ℕ → M NoisePayload
  decode_noise_rest version = do
    flags ← decode_uint
    error ← decode_uint
    firewall ← decode_uint
    holepunch ← decode_some decode_holepunch_info (has_flag flags np_flag_holepunch)
    addresses4 ← decode_filled decode_ipv4_peer_array (has_flag flags np_flag_addresses4)
    addresses6 ← decode_filled (decode_ipv6_peer_array show6) (has_flag flags np_flag_addresses6)
    udx ← decode_some decode_udx_info (has_flag flags np_flag_udx)
    secret_stream ← decode_some decode_secret_stream_info (has_flag flags np_flag_secret_stream)
    relay_through ← decode_some decode_relay_through_info (has_flag flags np_flag_relay_through)
    relay_addresses ← decode_some decode_ipv4_peer_array (has_flag flags np_flag_relay_addresses)
    pure (record {
      version = version;
      error = error;
      firewall = firewall;
      holepunch = holepunch;
      addresses4 = addresses4;
      addresses6 = addresses6;
      udx = udx;
      secret_stream = secret_stream;
      relay_through = relay_through;
      relay_addresses = relay_addresses;
    })

  unfoldable pub decode_versioned : ℕ → M NoisePayload
  unfolding decode_noise_rest
  decode_versioned version =
      if version == 1 then decode_noise_rest version else pure (unknown_version version)

  unfoldable pub decode_noise_payload : M NoisePayload
  unfolding decode_versioned
  decode_noise_payload = do version ← decode_uint; decode_versioned version

  unfoldable pub decode_noise_payload_from_bytes : List ℕ → Result NoisePayload
  decode_noise_payload_from_bytes buf = from_bytes decode_noise_payload buf
