-- ===== src/Messages/Responses.antt =====
-- Responses on the wire: the bytes of a response, and what a reader makes of them.
use peeroxide.Common.{
  ℕ, ◌^◌, ◌<◌, ◌≤◌, ◌≡◌, refl, ap, not, ◌==◌, List, ◌∷◌, ◌++◌, append_assoc, arith, All, length,
  length-append,
}
use peeroxide.Encoding.Laws.{Writes, Reads, Sizes, Writes-bind, Reads-bind, Reads-return, Reads-eq}
use peeroxide.Encoding.Words.{to_le_bytes}
use peeroxide.Encoding.Words.Narrow.{Writes-uint8, Writes-uint16, Reads-uint8}
use peeroxide.Encoding.Bytes.Laws.{normal, option_length}
use peeroxide.Encoding.Arrays.{max_array_length}
use peeroxide.Messages.{Response, response, done, is_some, is_empty, response_id}
use peeroxide.Messages.Codec.{
  response_flags, preencode_response, encode_response, decode_response_rest, decode_rest,
  decode_body, decode_message, encode_response_to_bytes,
}
use peeroxide.Messages.Flags.{pack_flags_lem, Finds}
use peeroxide.Messages.Whole.{front_bytes, Reads-front, fills, decode_message-Reads}
use peeroxide.Messages.Peers.{IsPeer, peer_bytes, Codes-ipv4_peer}
use peeroxide.Messages.Fields.{
  IsKey, present_bytes, value_bytes, closer_bytes, error_bytes, Sizes-present, Writes-present,
  Sizes-value, Writes-value, Reads-value, Sizes-closer, Writes-closer, Reads-closer, Sizes-error,
  Writes-error, Reads-error,
}

-- The ranges that the Rust types give, at most as many closer nodes as a reader accepts, and peer
-- addresses in dotted form.
pub record IsResponse (r : Response) : Type 0 where
  pub tid_fits : r.tid < 2 ^ 16
  pub peer : IsPeer r.to
  pub id_key : IsKey r.id
  pub token_key : IsKey r.token
  pub closer_fits : length r.closer_nodes ≤ max_array_length
  pub closer_peers : All IsPeer r.closer_nodes
  pub error_fits : r.error < 2 ^ 64
  pub value_fits : option_length r.value < 2 ^ 64

abbrev pub response_tail : Response → List ℕ
response_tail r = closer_bytes r.closer_nodes ++ (error_bytes r.error ++ value_bytes r.value)

pub response_bytes : Response → List ℕ
response_bytes r =
    response_id
    ∷ response_flags r
    ∷ (to_le_bytes 2 r.tid
        ++ (peer_bytes r.to ++ (present_bytes r.id ++ (present_bytes r.token ++ response_tail r))))

pub Sizes-response :
    (r : Response) → IsResponse r → Sizes (preencode_response r) (length (response_bytes r))
unfolding preencode_response response_bytes
Sizes-response r v s =
    simp
      (
        (Codes-ipv4_peer r.to v.peer).sized,
        Sizes-present r.id v.id_key,
        Sizes-present r.token v.token_key,
        Sizes-closer r.closer_nodes v.closer_fits v.closer_peers,
        Sizes-error r.error v.error_fits,
        Sizes-value r.value v.value_fits,
      )
      (simp length-append (ap (λ n. record s { end = n }) (omega arith)))

pub Writes-response : (r : Response) → IsResponse r → Writes (encode_response r) (response_bytes r)
unfolding encode_response response_bytes
Writes-response r v = Writes-bind (Writes-uint8 response_id) (
    Writes-bind (Writes-uint8 (response_flags r)) (
      Writes-bind (Writes-uint16 r.tid) (
        Writes-bind (Codes-ipv4_peer r.to v.peer).written (
          Writes-bind (Writes-present r.id) (
            Writes-bind (Writes-present r.token) (
              Writes-bind (Writes-closer r.closer_nodes v.closer_fits v.closer_peers) (
                Writes-bind (Writes-error r.error v.error_fits)
                  (Writes-value r.value v.value_fits))))))))

-- What the reader makes of a response: an empty value comes back as absent.
abbrev pub received : Response → Response
received r = record r { value = normal r.value }

Reads-response_rest :
    (r : Response) (f : ℕ)
    → IsResponse r
    → Finds f
        (is_some r.id)
        (is_some r.token)
        (not (is_empty r.closer_nodes))
        (not (r.error == 0))
        (is_some r.value)
    → Reads
        (decode_response_rest f (record { tid = r.tid; to = r.to; id = r.id; token = r.token }))
        (response_tail r)
        (response (received r))
unfolding decode_response_rest
Reads-response_rest r f v k =
    Reads-bind _ (Reads-closer r.closer_nodes v.closer_fits v.closer_peers k.at_third) (
      Reads-bind _ (Reads-error r.error k.at_fourth v.error_fits)
        (Reads-return _ (Reads-value r.value k.at_value v.value_fits)))

Reads-response :
    (r : Response)
    → IsResponse r
    → Reads
        (decode_body response_id)
        (response_flags r ∷ (front_bytes r.tid (peer_bytes r.to) r.id r.token ++ response_tail r))
        (response (received r))
unfolding decode_body decode_rest response_flags
Reads-response r v =
    let k =
      pack_flags_lem (is_some r.id) (is_some r.token) (not (is_empty r.closer_nodes))
        (not (r.error == 0)) (is_some r.value) in
    Reads-bind _ (Reads-uint8 (response_flags r)) (
      Reads-bind _
        (Reads-front (response_flags r) r.tid r.to r.id r.token v.tid_fits v.peer k.at_id k.at_token
          v.id_key v.token_key)
        (Reads-response_rest r (response_flags r) v k))

-- A response is written as `response_bytes` says, into a buffer of just that size.
pub encode_response_to_bytes-eq :
    (r : Response) → IsResponse r → encode_response_to_bytes r ≡ done (response_bytes r)
unfolding encode_response_to_bytes
encode_response_to_bytes-eq r v = fills (Sizes-response r v) (Writes-response r v)

-- For a response whose fields are in the ranges of their Rust types, with peer addresses in
-- plain dotted form and at most 1048576 closer nodes, encode_response_to_bytes returns bytes,
-- and decode_message makes of them the same response, save that an empty value comes back as an
-- absent one.
pub decode_message-encode_response :
    (r : Response)
    → IsResponse r
    → (bs : List ℕ) × (encode_response_to_bytes r ≡ done bs)
      × (decode_message bs ≡ done (response (received r)))
unfolding response_bytes
decode_message-encode_response r v = (
  response_bytes r,
  encode_response_to_bytes-eq r v,
  decode_message-Reads response_id refl
      (Reads-eq (ap (λ bs. response_flags r ∷ bs) (simp append_assoc)) (Reads-response r v)),
)
