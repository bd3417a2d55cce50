-- ===== src/Examples/Wire.antt =====
-- messages.rs on concrete messages.
use peeroxide.Common.{ℕ, ◌≡◌, ◌≢◌, refl, true, some, none, List, [], ◌∷◌, replicate, arith}
use peeroxide.Encoding.Ip.{dotted}
use peeroxide.Messages.{Request, Response, Ipv4Peer, request, response, done, panicked}
use peeroxide.Messages.Codec.{encode_request_to_bytes, encode_response_to_bytes, decode_message}
use peeroxide.Messages.Peers.{IsPeer}
use peeroxide.Messages.Requests.{decode_message-encode_request}
use peeroxide.Messages.Responses.{decode_message-encode_response}
use peeroxide.Messages.Safety.{decode_message-ne-panicked}

abbrev someone : Ipv4Peer
someone = record { host = dotted 192 168 1 20; port = 49737 }

someone-IsPeer : IsPeer someone
someone-IsPeer = record {
  a = 192;
  b = 168;
  c = 1;
  d = 20;
  byte_a = omega arith;
  byte_b = omega arith;
  byte_c = omega arith;
  byte_d = omega arith;
  spelled = refl;
  short = omega arith;
}

abbrev key : List ℕ
key = replicate 32 7

abbrev lookup : Request
lookup = record {
  tid = 513;
  to = someone;
  id = some key;
  token = none;
  internal = true;
  command = 2;
  target = some key;
  value = some (1 ∷ 2 ∷ []);
}

abbrev answer : Response
answer = record {
  tid = 513;
  to = someone;
  id = none;
  token = some key;
  closer_nodes = someone ∷ someone ∷ [];
  error = 300;
  value = some [];
}

decode_message-encode_request_example :
    (bs : List ℕ) × (encode_request_to_bytes lookup ≡ done bs)
    × (decode_message bs ≡ done (request lookup))
decode_message-encode_request_example = decode_message-encode_request lookup (record {
  tid_fits = omega arith;
  peer = someone-IsPeer;
  id_key = refl;
  token_key = tt;
  command_fits = omega arith;
  target_key = refl;
  value_fits = omega arith;
})

decode_message-encode_response_example :
    (bs : List ℕ) × (encode_response_to_bytes answer ≡ done bs)
    × (decode_message bs ≡ done (response (record answer { value = none })))
decode_message-encode_response_example = decode_message-encode_response answer (record {
  tid_fits = omega arith;
  peer = someone-IsPeer;
  id_key = tt;
  token_key = refl;
  closer_fits = omega arith;
  closer_peers = (someone-IsPeer, (someone-IsPeer, tt));
  error_fits = omega arith;
  value_fits = omega arith;
})

decode_message-ne-panicked_example : decode_message (3 ∷ 31 ∷ 0 ∷ []) ≢ panicked
decode_message-ne-panicked_example = decode_message-ne-panicked (3 ∷ 31 ∷ 0 ∷ [])
