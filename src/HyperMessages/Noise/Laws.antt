-- ===== src/HyperMessages/Noise/Laws.antt =====
-- The payload of the Noise handshake on the wire.
use peeroxide.Common.{
  ℕ, ◌^◌, ◌<◌, ◌≤◌, ◌≡◌, refl, sym, ap, Bool, true, false, not, if◌then◌else◌, Option, List, length,
  All, arith,
}
use peeroxide.Encoding.Fields.{
  Field, Field-then, Field-last, Field-size, Field-val, Field-uint, Field-small,
}
use peeroxide.Encoding.Uint.{preencode_uint}
use peeroxide.Encoding.Arrays.{max_array_length}
use peeroxide.Messages.{is_some, is_empty, has_flag, done}
use peeroxide.Messages.Peers.{IsPeer}
use peeroxide.HyperMessages.{
  preencode_some, preencode_filled, preencode_address, preencode_ipv4_peer_array,
  preencode_ipv6_peer_array,
}
use peeroxide.HyperMessages.Flags.{
  noise_holepunch, noise_addresses4, noise_addresses6, noise_udx, noise_secret_stream,
  noise_relay_through, noise_relay_addresses, noise_small,
}
use peeroxide.HyperMessages.Parts.{
  Given, Field-some, Field-filled, Field-fixed32, Field-address, Field-array, ArePeers,
  Field-addresses, ArePeers6, Field-addresses6, survives, reserve_two, reserve_four,
}
use peeroxide.HyperMessages.Noise.{
  RelayInfo, preencode_relay_info, encode_relay_info, decode_relay_info, preencode_relay_info_array,
  encode_relay_info_array, decode_relay_info_array, HolepunchInfo, preencode_holepunch_info,
  encode_holepunch_info, decode_holepunch_info, UdxInfo, preencode_udx_info, encode_udx_info,
  decode_udx_info, SecretStreamInfo, preencode_secret_stream_info, encode_secret_stream_info,
  decode_secret_stream_info, RelayThroughInfo, preencode_relay_through_info,
  encode_relay_through_info, decode_relay_through_info, NoisePayload, preencode_noise_payload,
  noise_flags, payload_flags, encode_noise_payload, encode_noise_payload_to_bytes,
  decode_noise_rest, decode_versioned, decode_noise_payload, decode_noise_payload_from_bytes,
}

pub record IsRelayInfo (m : RelayInfo) : Type 0 where
  pub relay : IsPeer m.relay_address
  pub peer : IsPeer m.peer_address

Field-relay_info :
    (m : RelayInfo)
    → IsRelayInfo m
    → Field (preencode_relay_info m) (encode_relay_info m) decode_relay_info m
unfolding preencode_relay_info encode_relay_info decode_relay_info preencode_address
Field-relay_info m v =
    Field-size (λ s. reserve_two 6 6 s)
      (Field-then _ (Field-address m.relay_address v.relay)
        (Field-last _ (Field-address m.peer_address v.peer)))

pub record IsHolepunchInfo (m : HolepunchInfo) : Type 0 where
  pub id_fits : m.id < 2 ^ 64
  pub few : length m.relays ≤ max_array_length
  pub each : All IsRelayInfo m.relays

Field-holepunch_info :
    (m : HolepunchInfo)
    → IsHolepunchInfo m
    → Field (preencode_holepunch_info m) (encode_holepunch_info m) decode_holepunch_info m
unfolding preencode_holepunch_info encode_holepunch_info decode_holepunch_info
    preencode_relay_info_array encode_relay_info_array decode_relay_info_array
Field-holepunch_info m v = Field-then _ (Field-uint m.id v.id_fits) (
    Field-last _ (
      Field-array preencode_relay_info encode_relay_info decode_relay_info IsRelayInfo
        Field-relay_info m.relays v.few v.each))

-- The writer always states version 1.
pub record IsUdxInfo (m : UdxInfo) : Type 0 where
  pub first : m.version ≡ 1
  pub id_fits : m.id < 2 ^ 64
  pub seq_fits : m.seq < 2 ^ 64

feature : (b : Bool) → has_flag (if b then 1 else 0) 1 ≡ b
feature true = refl
feature false = refl

feature_small : (b : Bool) → (if b then 1 else 0) ≤ 0xfc
feature_small b = ground arith

Field-udx_info :
    (m : UdxInfo) → IsUdxInfo m → Field (preencode_udx_info m) (encode_udx_info m) decode_udx_info m
unfolding preencode_udx_info encode_udx_info decode_udx_info
Field-udx_info m v =
    let b : Bool = m.reusable_socket in
    Field-size (λ s. ap (λ t. preencode_uint m.seq (preencode_uint m.id t)) (reserve_two 1 1 s))
      (Field-val
        (λ i. record {
          version = sym v.first i;
          reusable_socket = feature b i;
          id = m.id;
          seq = m.seq;
        })
        (Field-then _ (Field-small 1 (omega arith)) (
          Field-then _ (Field-small (if b then 1 else 0) (feature_small b)) (
            Field-then _ (Field-uint m.id v.id_fits) (
              Field-last
                (λ q. record {
                  version = 1;
                  reusable_socket = has_flag (if b then 1 else 0) 1;
                  id = m.id;
                  seq = q;
                })
                (Field-uint m.seq v.seq_fits))))))

abbrev pub IsSecretStreamInfo : SecretStreamInfo → Type 0
IsSecretStreamInfo m = m.version ≡ 1

Field-secret_stream_info :
    (m : SecretStreamInfo)
    → IsSecretStreamInfo m
    → Field
        (preencode_secret_stream_info m)
        (encode_secret_stream_info m)
        decode_secret_stream_info
        m
unfolding preencode_secret_stream_info encode_secret_stream_info decode_secret_stream_info
Field-secret_stream_info m v =
    Field-val (λ i. record { version = sym v i })
      (Field-last (λ q. record { version = q }) (Field-uint 1 (omega arith)))

pub record IsRelayThroughInfo (m : RelayThroughInfo) : Type 0 where
  pub first : m.version ≡ 1
  pub key : length m.public_key ≡ 32
  pub token_key : length m.token ≡ 32

Field-relay_through_info :
    (m : RelayThroughInfo)
    → IsRelayThroughInfo m
    → Field
        (preencode_relay_through_info m)
        (encode_relay_through_info m)
        decode_relay_through_info
        m
unfolding preencode_relay_through_info encode_relay_through_info decode_relay_through_info
Field-relay_through_info m v =
    Field-size (λ s. reserve_two 32 32 (preencode_uint 0 (preencode_uint 1 s)))
      (Field-val
        (λ i. record { version = sym v.first i; public_key = m.public_key; token = m.token })
        (Field-then _ (Field-uint 1 (omega arith)) (
          Field-then _ (Field-uint 0 (omega arith)) (
            Field-then _ (Field-fixed32 m.public_key v.key) (
              Field-last (λ t. record { version = 1; public_key = m.public_key; token = t })
                (Field-fixed32 m.token v.token_key))))))

module _ (parse6 : List ℕ → Option (List ℕ)) (show6 : List ℕ → List ℕ) where
  -- The values the fields can hold. The size takes `error` and `firewall` for one byte each.
  pub record IsNoisePayload (m : NoisePayload) : Type 0 where
    pub first : m.version ≡ 1
    pub error_small : m.error ≤ 0xfc
    pub firewall_small : m.firewall ≤ 0xfc
    pub punch : Given IsHolepunchInfo m.holepunch
    pub peers4 : ArePeers m.addresses4
    pub peers6 : ArePeers6 parse6 show6 m.addresses6
    pub udx_info : Given IsUdxInfo m.udx
    pub stream_info : Given IsSecretStreamInfo m.secret_stream
    pub through_info : Given IsRelayThroughInfo m.relay_through
    pub relays : Given ArePeers m.relay_addresses

  -- A handshake payload of version 1, whose UDX, secret stream and relay-through parts, where
  -- present, are of version 1 too, whose fields are in the ranges of their types, with error and
  -- firewall at most 0xfc, at most 1048576 addresses in each of its lists and as many relays in
  -- its holepunch part, a relay-through key and token of 32 bytes, addresses in plain dotted
  -- form and IPv6 hosts that the two text conversions, which are parameters, take to 16 octets
  -- and back, is written by encode_noise_payload_to_bytes, and decode_noise_payload_from_bytes
  -- makes the same payload of the bytes.
  pub noise_payload_survives :
      (m : NoisePayload)
      → IsNoisePayload m
      → (bs : List ℕ) × (encode_noise_payload_to_bytes parse6 m ≡ done bs)
        × (decode_noise_payload_from_bytes show6 bs ≡ done m)
  unfolding preencode_noise_payload encode_noise_payload decode_noise_payload
      encode_noise_payload_to_bytes decode_noise_payload_from_bytes payload_flags decode_versioned
      decode_noise_rest
  noise_payload_survives m v =
      let a : Bool = is_some m.holepunch in
      let b : Bool = not (is_empty m.addresses4) in
      let c : Bool = not (is_empty m.addresses6) in
      let d : Bool = is_some m.udx in
      let e : Bool = is_some m.secret_stream in
      let f : Bool = is_some m.relay_through in
      let g : Bool = is_some m.relay_addresses in
      survives preencode_noise_payload (encode_noise_payload parse6) {a = m} (
        Field-size
          (λ s.
            ap
              (λ t. preencode_some preencode_ipv4_peer_array m.relay_addresses (
                preencode_some preencode_relay_through_info m.relay_through (
                  preencode_some preencode_secret_stream_info m.secret_stream (
                    preencode_some preencode_udx_info m.udx (
                      preencode_filled preencode_ipv6_peer_array m.addresses6 (
                        preencode_filled preencode_ipv4_peer_array m.addresses4
                          (preencode_some preencode_holepunch_info m.holepunch t)))))))
              (reserve_four s))
          (Field-val (λ i. record m { version = sym v.first i })
            (Field-then _ (Field-small 1 (omega arith)) (
              Field-then _ (Field-small (noise_flags a b c d e f g) (noise_small a b c d e f g)) (
                Field-then _ (Field-small m.error v.error_small) (
                  Field-then _ (Field-small m.firewall v.firewall_small) (
                    Field-then _
                      (Field-some IsHolepunchInfo Field-holepunch_info m.holepunch v.punch
                        (noise_holepunch a b c d e f g))
                      (Field-then _
                        (Field-filled ArePeers Field-addresses m.addresses4 v.peers4
                          (noise_addresses4 a b c d e f g))
                        (Field-then _
                          (Field-filled (ArePeers6 parse6 show6) (Field-addresses6 parse6 show6)
                            m.addresses6 v.peers6 (noise_addresses6 a b c d e f g))
                          (Field-then _
                            (Field-some IsUdxInfo Field-udx_info m.udx v.udx_info
                              (noise_udx a b c d e f g))
                            (Field-then _
                              (Field-some IsSecretStreamInfo Field-secret_stream_info
                                m.secret_stream v.stream_info (noise_secret_stream a b c d e f g))
                              (Field-then _
                                (Field-some IsRelayThroughInfo Field-relay_through_info
                                  m.relay_through v.through_info
                                  (noise_relay_through a b c d e f g))
                                (Field-last _ (
                                  Field-some ArePeers Field-addresses m.relay_addresses v.relays
                                    (noise_relay_addresses a b c d e f g)))))))))))))))
