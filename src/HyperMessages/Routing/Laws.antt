-- ===== src/HyperMessages/Routing/Laws.antt =====
-- Handshake and holepunch messages on the wire.
use peeroxide.Common.{
  ℕ, ◌^◌, ◌<◌, ◌≤◌, ◌≡◌, ◌≢◌, refl, Bool, true, false, if◌then◌else◌, List, length, arith,
}
use peeroxide.Encoding.Fields.{Field-then, Field-last, Field-uint, Field-small}
use peeroxide.Encoding.Laws.{Safe, Safe-bind, Safe-pure}
use peeroxide.Encoding.Uint.{preencode_uint}
use peeroxide.Encoding.Uint.Laws.{Safe-uint}
use peeroxide.Messages.{is_some, has_flag, done, panicked}
use peeroxide.Messages.Peers.{IsPeer}
use peeroxide.HyperMessages.Flags.{handshake_peer, handshake_relay, handshake_small}
use peeroxide.HyperMessages.Parts.{
  Given, Field-some, Field-bytes, Field-address, Safe-bytes, Safe-some, Safe-address, survives,
  from_bytes-ne-panicked,
}
use peeroxide.HyperMessages.Routing.{
  HandshakeMessage, handshake_flags, preencode_handshake, encode_handshake, decode_handshake,
  encode_handshake_to_bytes, decode_handshake_from_bytes, HolepunchMessage, preencode_holepunch_msg,
  encode_holepunch_msg, decode_holepunch_msg, encode_holepunch_msg_to_bytes,
  decode_holepunch_msg_from_bytes,
}

-- The values the fields can hold, and addresses in plain dotted form.
pub record IsHandshake (m : HandshakeMessage) : Type 0 where
  pub mode_fits : m.mode < 2 ^ 64
  pub noise_fits : length m.noise < 2 ^ 64
  pub peer : Given IsPeer m.peer_address
  pub relay : Given IsPeer m.relay_address

-- A handshake message whose mode and noise length are below 2^64, with addresses in plain dotted
-- form, is written by encode_handshake_to_bytes, and decode_handshake_from_bytes makes the same
-- message of the bytes.
pub handshake_survives :
    (m : HandshakeMessage)
    → IsHandshake m
    → (bs : List ℕ) × (encode_handshake_to_bytes m ≡ done bs)
      × (decode_handshake_from_bytes bs ≡ done m)
unfolding preencode_handshake encode_handshake decode_handshake encode_handshake_to_bytes
    decode_handshake_from_bytes preencode_uint
handshake_survives m v =
    let a : Bool = is_some m.peer_address in
    let b : Bool = is_some m.relay_address in
    survives preencode_handshake encode_handshake (
      Field-then _ (Field-small (handshake_flags a b) (handshake_small a b)) (
        Field-then _ (Field-uint m.mode v.mode_fits) (
          Field-then _ (Field-bytes m.noise v.noise_fits) (
            Field-then _
              (Field-some IsPeer Field-address m.peer_address v.peer (handshake_peer a b))
              (Field-last _
                (Field-some IsPeer Field-address m.relay_address v.relay (handshake_relay a b)))))))

pub record IsHolepunch (m : HolepunchMessage) : Type 0 where
  pub mode_fits : m.mode < 2 ^ 64
  pub id_fits : m.id < 2 ^ 64
  pub payload_fits : length m.payload < 2 ^ 64
  pub peer : Given IsPeer m.peer_address

one_flag : (b : Bool) → has_flag (if b then 1 else 0) 1 ≡ b
one_flag true = refl
one_flag false = refl

one_small : (b : Bool) → (if b then 1 else 0) ≤ 0xfc
one_small b = ground arith

pub holepunch_msg_survives :
    (m : HolepunchMessage)
    → IsHolepunch m
    → (bs : List ℕ) × (encode_holepunch_msg_to_bytes m ≡ done bs)
      × (decode_holepunch_msg_from_bytes bs ≡ done m)
unfolding preencode_holepunch_msg encode_holepunch_msg decode_holepunch_msg
    encode_holepunch_msg_to_bytes decode_holepunch_msg_from_bytes preencode_uint
holepunch_msg_survives m v =
    let a : Bool = is_some m.peer_address in
    survives preencode_holepunch_msg encode_holepunch_msg (
      Field-then _ (Field-small (if a then 1 else 0) (one_small a)) (
        Field-then _ (Field-uint m.mode v.mode_fits) (
          Field-then _ (Field-uint m.id v.id_fits) (
            Field-then _ (Field-bytes m.payload v.payload_fits) (
              Field-last _ (Field-some IsPeer Field-address m.peer_address v.peer (one_flag a)))))))

Safe-handshake : Safe decode_handshake
unfolding decode_handshake
Safe-handshake = Safe-bind _ Safe-uint (λ flags. Safe-bind _ Safe-uint (λ mode.
    Safe-bind _ Safe-bytes (λ noise.
      Safe-bind _ (Safe-some Safe-address (has_flag flags 1))
        (λ p. Safe-bind _ (Safe-some Safe-address (has_flag flags 2)) (λ r. Safe-pure _)))))

pub handshake-ne-panicked : (bs : List ℕ) → decode_handshake_from_bytes bs ≢ panicked
unfolding decode_handshake_from_bytes
handshake-ne-panicked bs = from_bytes-ne-panicked Safe-handshake bs

Safe-holepunch_msg : Safe decode_holepunch_msg
unfolding decode_holepunch_msg
Safe-holepunch_msg = Safe-bind _ Safe-uint (λ flags. Safe-bind _ Safe-uint (λ mode.
    Safe-bind _ Safe-uint (λ id.
      Safe-bind _ Safe-bytes
        (λ payload. Safe-bind _ (Safe-some Safe-address (has_flag flags 1)) (λ p. Safe-pure _)))))

pub holepunch_msg-ne-panicked : (bs : List ℕ) → decode_holepunch_msg_from_bytes bs ≢ panicked
unfolding decode_holepunch_msg_from_bytes
holepunch_msg-ne-panicked bs = from_bytes-ne-panicked Safe-holepunch_msg bs
