-- ===== src/HyperMessages/Punch/Laws.antt =====
-- The payload of a round of hole punching on the wire.
use peeroxide.Common.{ℕ, ◌≤◌, ◌≡◌, ◌≢◌, ap, Bool, List, length}
use peeroxide.Encoding.State.{reserve}
use peeroxide.Encoding.Fields.{Field-then, Field-last, Field-size, Field-val, Field-small}
use peeroxide.Encoding.Laws.{Safe, Safe-bind, Safe-pure}
use peeroxide.Encoding.Uint.Laws.{Safe-uint}
use peeroxide.Encoding.Bytes.Laws.{Safe-fixed32}
use peeroxide.Messages.{is_some, has_flag, done, panicked}
use peeroxide.Messages.Peers.{IsPeer}
use peeroxide.HyperMessages.{preencode_some, preencode_address, preencode_ipv4_peer_array}
use peeroxide.HyperMessages.Flags.{
  punch_connected, punch_punching, punch_addresses, punch_remote_address, punch_token,
  punch_remote_token, punch_small,
}
use peeroxide.HyperMessages.Parts.{
  Given, Field-some, Field-fixed32, Field-address, ArePeers, Field-addresses, Safe-some,
  Safe-address, Safe-addresses, survives, reserve_four, from_bytes-ne-panicked,
}
use peeroxide.HyperMessages.Punch.{
  HolepunchPayload, punch_flags, round_flags, hp_flag_addresses, hp_flag_remote_address,
  hp_flag_token, hp_flag_remote_token, preencode_holepunch_payload, encode_holepunch_payload,
  decode_holepunch_payload, encode_holepunch_payload_to_bytes, decode_holepunch_payload_from_bytes,
}

abbrev pub IsWide : List ℕ → Type 0
IsWide k = length k ≡ 32

-- The values the fields can hold. The size takes `error`, `firewall` and `round` for one byte each.
pub record IsRound (m : HolepunchPayload) : Type 0 where
  pub error_small : m.error ≤ 0xfc
  pub firewall_small : m.firewall ≤ 0xfc
  pub round_small : m.round ≤ 0xfc
  pub peers : Given ArePeers m.addresses
  pub remote : Given IsPeer m.remote_address
  pub token_key : Given IsWide m.token
  pub remote_key : Given IsWide m.remote_token

-- A hole punching payload with error, firewall and round at most 0xfc, tokens of 32 bytes and at
-- most 1048576 addresses, these and the remote address in plain dotted form with 16-bit ports,
-- is written by encode_holepunch_payload_to_bytes, and decode_holepunch_payload_from_bytes makes
-- the same payload of the bytes.
pub holepunch_payload_survives :
    (m : HolepunchPayload)
    → IsRound m
    → (bs : List ℕ) × (encode_holepunch_payload_to_bytes m ≡ done bs)
      × (decode_holepunch_payload_from_bytes bs ≡ done m)
unfolding preencode_holepunch_payload encode_holepunch_payload decode_holepunch_payload
    encode_holepunch_payload_to_bytes decode_holepunch_payload_from_bytes round_flags
holepunch_payload_survives m v =
    let a : Bool = m.connected in
    let b : Bool = m.punching in
    let c : Bool = is_some m.addresses in
    let d : Bool = is_some m.remote_address in
    let e : Bool = is_some m.token in
    let f : Bool = is_some m.remote_token in
    let flags : ℕ = punch_flags a b c d e f in
    survives preencode_holepunch_payload encode_holepunch_payload {a = m} (
      Field-size
        (λ s.
          ap
            (λ t.
              preencode_some (λ k. reserve 32) m.remote_token
                (preencode_some (λ k. reserve 32) m.token
                  (preencode_some preencode_address m.remote_address
                    (preencode_some preencode_ipv4_peer_array m.addresses t))))
            (reserve_four s))
        (Field-val
          (λ i. record m {
            connected = punch_connected a b c d e f i;
            punching = punch_punching a b c d e f i;
          })
          (Field-then _ (Field-small flags (punch_small a b c d e f)) (
            Field-then _ (Field-small m.error v.error_small) (
              Field-then _ (Field-small m.firewall v.firewall_small) (
                Field-then _ (Field-small m.round v.round_small) (
                  Field-then _
                    (Field-some ArePeers Field-addresses m.addresses v.peers
                      (punch_addresses a b c d e f))
                    (Field-then _
                      (Field-some IsPeer Field-address m.remote_address v.remote
                        (punch_remote_address a b c d e f))
                      (Field-then _
                        (Field-some IsWide Field-fixed32 m.token v.token_key
                          (punch_token a b c d e f))
                        (Field-last _ (
                          Field-some IsWide Field-fixed32 m.remote_token v.remote_key
                            (punch_remote_token a b c d e f))))))))))))

Safe-holepunch_payload : Safe decode_holepunch_payload
unfolding decode_holepunch_payload
Safe-holepunch_payload = Safe-bind _ Safe-uint (λ flags. Safe-bind _ Safe-uint (λ error.
    Safe-bind _ Safe-uint (λ firewall. Safe-bind _ Safe-uint (λ round.
      Safe-bind _ (Safe-some Safe-addresses (has_flag flags hp_flag_addresses)) (λ a.
        Safe-bind _ (Safe-some Safe-address (has_flag flags hp_flag_remote_address)) (λ r.
          Safe-bind _ (Safe-some Safe-fixed32 (has_flag flags hp_flag_token)) (λ t.
            Safe-bind _ (Safe-some Safe-fixed32 (has_flag flags hp_flag_remote_token))
              (λ u. Safe-pure _))))))))

pub holepunch_payload-ne-panicked :
    (bs : List ℕ) → decode_holepunch_payload_from_bytes bs ≢ panicked
unfolding decode_holepunch_payload_from_bytes
holepunch_payload-ne-panicked bs = from_bytes-ne-panicked Safe-holepunch_payload bs
