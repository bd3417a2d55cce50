-- ===== src/Examples/Hyper.antt =====
-- hyperdht_messages.rs on concrete messages.
use peeroxide.Common.{
  ℕ, ◌*◌, ◌^◌, ◌≤◌, ◌≡◌, ◌≢◌, ◌↔◌, ◌++◌, length, refl, true, false, some, none, List, [], ◌∷◌,
  replicate, arith,
}
use peeroxide.Encoding.Words.{from_le_bytes}
use peeroxide.Encoding.Ip.{dotted}
use peeroxide.Messages.{Ipv4Peer, done, panicked}
use peeroxide.Messages.Peers.{IsPeer}
use peeroxide.HyperMessages.Announce.{
  HyperPeer, AnnounceMessage, LookupRawReply, encode_announce_to_bytes, decode_announce_from_bytes,
  decode_lookup_raw_reply_from_bytes, hyper_peer_size,
}
use peeroxide.HyperMessages.Announce.Laws.{IsHyperPeer, announce_survives}
use peeroxide.HyperMessages.Announce.Safety.{lookup_raw_reply_panics}
use peeroxide.HyperMessages.Mutable.{MutablePutRequest}
use peeroxide.HyperMessages.Routing.{HandshakeMessage}
use peeroxide.HyperMessages.Noise.{
  NoisePayload, encode_noise_payload_to_bytes, decode_noise_payload_from_bytes,
}
use peeroxide.HyperMessages.Noise.Laws.{noise_payload_survives}
use peeroxide.HyperMessages.Noise.Safety.{noise_payload-ne-panicked}
use peeroxide.HyperMessages.Punch.{
  HolepunchPayload, encode_holepunch_payload_to_bytes, decode_holepunch_payload_from_bytes,
}
use peeroxide.HyperMessages.Punch.Laws.{holepunch_payload_survives}

abbrev relay : Ipv4Peer
relay = record { host = dotted 10 0 0 7; port = 49737 }

relay-IsPeer : IsPeer relay
relay-IsPeer = record {
  a = 10;
  b = 0;
  c = 0;
  d = 7;
  byte_a = omega arith;
  byte_b = omega arith;
  byte_c = omega arith;
  byte_d = omega arith;
  spelled = refl;
  short = omega arith;
}

abbrev key : List ℕ
key = replicate 32 7

abbrev peer : HyperPeer
peer = record { public_key = key; relay_addresses = relay ∷ [] }

peer-IsHyperPeer : IsHyperPeer peer
peer-IsHyperPeer = record { key = refl; relays = (omega arith, (relay-IsPeer, tt)) }

abbrev announcement : AnnounceMessage
announcement = record {
  peer = some peer;
  refresh = none;
  signature = some (replicate 64 9);
  bump = 300;
}

announce_survives_example :
    (bs : List ℕ) × (encode_announce_to_bytes announcement ≡ done bs)
    × (decode_announce_from_bytes bs ≡ done announcement)
announce_survives_example =
    announce_survives announcement
      (record { who = peer-IsHyperPeer; refresh_key = tt; signed = refl; bump_fits = omega arith })

abbrev reply : LookupRawReply
reply = record { peers = peer ∷ peer ∷ []; bump = 5 }

-- Nine bytes: the tag of an eight-byte number, and 2^60.
abbrev huge_count : List ℕ
huge_count = 255 ∷ 0 ∷ 0 ∷ 0 ∷ 0 ∷ 0 ∷ 0 ∷ 0 ∷ 16 ∷ []

lookup_raw_reply_panics_example : (decode_lookup_raw_reply_from_bytes huge_count ≡ panicked) ↔ (
    (word : List ℕ) × (rest : List ℕ) × (huge_count ≡ 255 ∷ (word ++ rest))
    × (length word ≡ 8)
    × (2 ^ 63 ≤ from_le_bytes word * hyper_peer_size))
lookup_raw_reply_panics_example = lookup_raw_reply_panics huge_count (ground arith)

huge_count_panics : decode_lookup_raw_reply_from_bytes huge_count ≡ panicked
huge_count_panics =
    (lookup_raw_reply_panics huge_count (ground arith)).1
      (0 ∷ 0 ∷ 0 ∷ 0 ∷ 0 ∷ 0 ∷ 0 ∷ 16 ∷ [], [], refl, refl, omega arith)

abbrev put : MutablePutRequest
put = record { public_key = key; seq = 2; value = 104 ∷ 105 ∷ []; signature = replicate 64 1 }

abbrev handshake : HandshakeMessage
handshake = record {
  mode = 1;
  noise = 1 ∷ 2 ∷ 3 ∷ [];
  peer_address = some relay;
  relay_address = none;
}

abbrev payload : NoisePayload
payload = record {
  version = 1;
  error = 0;
  firewall = 2;
  holepunch =
      some
        (record { id = 4; relays = record { relay_address = relay; peer_address = relay } ∷ [] });
  addresses4 = relay ∷ [];
  addresses6 = [];
  udx = some (record { version = 1; reusable_socket = true; id = 9; seq = 0 });
  secret_stream = some (record { version = 1 });
  relay_through = none;
  relay_addresses = some (relay ∷ []);
}

noise_payload_survives_example :
    (bs : List ℕ) × (encode_noise_payload_to_bytes (λ h. some h) payload ≡ done bs)
    × (decode_noise_payload_from_bytes (λ o. o) bs ≡ done payload)
noise_payload_survives_example =
    noise_payload_survives (λ h. some h) (λ o. o) payload
      (record {
        first = refl;
        error_small = omega arith;
        firewall_small = omega arith;
        punch = record {
          id_fits = omega arith;
          few = omega arith;
          each = (record { relay = relay-IsPeer; peer = relay-IsPeer }, tt);
        };
        peers4 = (omega arith, (relay-IsPeer, tt));
        peers6 = (omega arith, tt);
        udx_info = record { first = refl; id_fits = omega arith; seq_fits = omega arith };
        stream_info = refl;
        through_info = tt;
        relays = (omega arith, (relay-IsPeer, tt));
      })

noise_payload-ne-panicked_example :
    decode_noise_payload_from_bytes (λ o. o) (1 ∷ 127 ∷ 0 ∷ []) ≢ panicked
noise_payload-ne-panicked_example = noise_payload-ne-panicked (λ o. o) (1 ∷ 127 ∷ 0 ∷ [])

abbrev round : HolepunchPayload
round = record {
  error = 0;
  firewall = 3;
  round = 7;
  connected = false;
  punching = true;
  addresses = some (relay ∷ []);
  remote_address = none;
  token = some key;
  remote_token = none;
}

holepunch_payload_survives_example :
    (bs : List ℕ) × (encode_holepunch_payload_to_bytes round ≡ done bs)
    × (decode_holepunch_payload_from_bytes bs ≡ done round)
holepunch_payload_survives_example = holepunch_payload_survives round (record {
  error_small = omega arith;
  firewall_small = omega arith;
  round_small = omega arith;
  peers = (omega arith, (relay-IsPeer, tt));
  remote = tt;
  token_key = refl;
  remote_key = tt;
})
