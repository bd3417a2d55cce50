-- ===== src/Messages/Codec.antt =====
-- Requests and responses of messages.rs, field by field, and the calls on whole buffers.
use peeroxide.Common.{
  ℕ, Bool, true, false, not, ◌==◌, if◌then◌else◌, Option, List, [], ◌∷◌, bit_and,
}
use peeroxide.Encoding.State.{
  State, out_of_bounds, invalid_ip_family, M, ◌>>=◌, ◌>>◌, pure, new, from_buffer, alloc, reserve,
}
use peeroxide.Encoding.Words.{encode_uint8, decode_uint8, encode_uint16, decode_uint16}
use peeroxide.Encoding.Uint.{preencode_uint, encode_uint, decode_uint}
use peeroxide.Messages.{
  version, request_id, response_id, flag_id, flag_token, flag_internal_or_closer,
  flag_target_or_error, flag_value, Ipv4Peer, Request, Response, Message, Result, result,
  preencode_ipv4_peer, encode_ipv4_peer, decode_ipv4_peer, preencode_ipv4_array, encode_ipv4_array,
  decode_ipv4_array, is_some, is_empty, has_flag, preencode_present, encode_present, decode_present,
  preencode_value, encode_value, decode_value, pack_flags, request, response, failed,
}

unfoldable pub preencode_request : Request → State → State
preencode_request req s = preencode_value req.value (
    preencode_present req.target (
      preencode_uint req.command (
        preencode_present req.token (
          preencode_present req.id
            (preencode_ipv4_peer req.to (reserve 2 (reserve 1 (reserve 1 s))))))))

unfoldable pub request_flags : Request → ℕ
unfolding pack_flags
request_flags req =
    pack_flags (is_some req.id) (is_some req.token) req.internal (is_some req.target)
      (is_some req.value)

unfoldable pub encode_request : Request → M (Unit {0})
encode_request req = do
  encode_uint8 request_id
  encode_uint8 (request_flags req)
  encode_uint16 req.tid
  encode_ipv4_peer req.to
  encode_present req.id
  encode_present req.token
  encode_uint req.command
  encode_present req.target
  encode_value req.value

-- `if !closer_nodes.is_empty()` and `if error != 0`
unfoldable pub preencode_closer : List Ipv4Peer → State → State
preencode_closer [] s = s
preencode_closer (p ∷ ps) s = preencode_ipv4_array (p ∷ ps) s

unfoldable pub encode_closer : List Ipv4Peer → M (Unit {0})
encode_closer [] = pure tt
encode_closer (p ∷ ps) = encode_ipv4_array (p ∷ ps)

unfoldable pub decode_closer : Bool → M (List Ipv4Peer)
decode_closer true = decode_ipv4_array
decode_closer false = pure []

unfoldable pub preencode_error : ℕ → State → State
preencode_error e s = if e == 0 then s else preencode_uint e s

unfoldable pub encode_error : ℕ → M (Unit {0})
encode_error e = if e == 0 then pure tt else encode_uint e

unfoldable pub decode_error : Bool → M ℕ
decode_error true = decode_uint
decode_error false = pure 0

unfoldable pub preencode_response : Response → State → State
preencode_response res s = preencode_value res.value (
    preencode_error res.error (
      preencode_closer res.closer_nodes (
        preencode_present res.token (
          preencode_present res.id
            (preencode_ipv4_peer res.to (reserve 2 (reserve 1 (reserve 1 s))))))))

unfoldable pub response_flags : Response → ℕ
unfolding pack_flags
response_flags res =
    pack_flags (is_some res.id) (is_some res.token) (not (is_empty res.closer_nodes))
      (not (res.error == 0)) (is_some res.value)

unfoldable pub encode_response : Response → M (Unit {0})
encode_response res = do
  encode_uint8 response_id
  encode_uint8 (response_flags res)
  encode_uint16 res.tid
  encode_ipv4_peer res.to
  encode_present res.id
  encode_present res.token
  encode_closer res.closer_nodes
  encode_error res.error
  encode_value res.value

-- The fields that both kinds of message begin with.
pub record Front : Type 0 where
  pub tid : ℕ
  pub to : Ipv4Peer
  pub id : Option (List ℕ)
  pub token : Option (List ℕ)

unfoldable pub decode_front : ℕ → M Front
decode_front flags = do
  tid ← decode_uint16
  to ← decode_ipv4_peer
  id ← decode_present (has_flag flags flag_id)
  token ← decode_present (has_flag flags flag_token)
  pure (record { tid = tid; to = to; id = id; token = token })

unfoldable pub decode_response_rest : ℕ → Front → M Message
decode_response_rest flags f = do
  closer ← decode_closer (has_flag flags flag_internal_or_closer)
  error ← decode_error (has_flag flags flag_target_or_error)
  value ← decode_value (has_flag flags flag_value)
  pure (
      response (record {
        tid = f.tid;
        to = f.to;
        id = f.id;
        token = f.token;
        closer_nodes = closer;
        error = error;
        value = value;
      }))

unfoldable pub decode_request_rest : ℕ → Front → M Message
decode_request_rest flags f = do
  command ← decode_uint
  target ← decode_present (has_flag flags flag_target_or_error)
  value ← decode_value (has_flag flags flag_value)
  pure (
      request (record {
        tid = f.tid;
        to = f.to;
        id = f.id;
        token = f.token;
        internal = has_flag flags flag_internal_or_closer;
        command = command;
        target = target;
        value = value;
      }))

unfoldable pub decode_rest : ℕ → ℕ → Front → M Message
unfolding decode_response_rest decode_request_rest
decode_rest type_version flags f =
    if not (bit_and type_version 0xF0 == 0)
    then decode_response_rest flags f
    else decode_request_rest flags f

unfoldable pub decode_body : ℕ → M Message
decode_body type_version = do
  flags ← decode_uint8
  front ← decode_front flags
  decode_rest type_version flags front

unfoldable pub decode_message : List ℕ → Result Message
decode_message [] = failed (out_of_bounds 1 0)
decode_message (type_version ∷ rest) =
    if bit_and type_version 0x0F == version
    then result (λ m s. m)
        (decode_body type_version (record (from_buffer (type_version ∷ rest)) { start = 1 }))
    else failed (invalid_ip_family type_version)

unfoldable pub encode_request_to_bytes : Request → Result (List ℕ)
encode_request_to_bytes req =
    result (λ u s. s.buffer) (encode_request req (alloc (preencode_request req new)))

unfoldable pub encode_response_to_bytes : Response → Result (List ℕ)
encode_response_to_bytes res =
    result (λ u s. s.buffer) (encode_response res (alloc (preencode_response res new)))
