-- ===== src/Messages/Requests.antt =====
-- Requests on the wire: the bytes of a request, and what a reader makes of them.
use peeroxide.Common.{
  ℕ, ◌^◌, ◌<◌, ◌≡◌, refl, ap, List, ◌∷◌, ◌++◌, append_assoc, arith, length, length-append,
}
use peeroxide.Encoding.Laws.{
  Writes, Reads, Sizes, Writes-bind, Reads-bind, Reads-return, Reads-val, Reads-eq,
}
use peeroxide.Encoding.Words.{to_le_bytes}
use peeroxide.Encoding.Words.Narrow.{Writes-uint8, Writes-uint16, Reads-uint8}
use peeroxide.Encoding.Uint.Laws.{uint_bytes, Codes-uint}
use peeroxide.Encoding.Bytes.Laws.{normal, option_length}
use peeroxide.Messages.{Request, request, done, is_some, request_id}
use peeroxide.Messages.Codec.{
  request_flags, preencode_request, encode_request, decode_request_rest, decode_rest, decode_body,
  decode_message, encode_request_to_bytes,
}
use peeroxide.Messages.Whole.{front_bytes, Reads-front, fills, decode_message-Reads}
use peeroxide.Messages.Flags.{pack_flags_lem, Finds}
use peeroxide.Messages.Peers.{IsPeer, peer_bytes, Codes-ipv4_peer}
use peeroxide.Messages.Fields.{
  IsKey, present_bytes, value_bytes, Sizes-present, Writes-present, Reads-present, Sizes-value,
  Writes-value, Reads-value,
}

-- The ranges that the Rust types give, and a peer address in dotted form.
pub record IsRequest (r : Request) : Type 0 where
  pub tid_fits : r.tid < 2 ^ 16
  pub peer : IsPeer r.to
  pub id_key : IsKey r.id
  pub token_key : IsKey r.token
  pub command_fits : r.command < 2 ^ 64
  pub target_key : IsKey r.target
  pub value_fits : option_length r.value < 2 ^ 64

abbrev pub request_tail : Request → List ℕ
request_tail r = uint_bytes r.command ++ (present_bytes r.target ++ value_bytes r.value)

pub request_bytes : Request → List ℕ
request_bytes r =
    request_id
    ∷ request_flags r
    ∷ (to_le_bytes 2 r.tid
        ++ (peer_bytes r.to ++ (present_bytes r.id ++ (present_bytes r.token ++ request_tail r))))

pub Sizes-request :
    (r : Request) → IsRequest r → Sizes (preencode_request r) (length (request_bytes r))
unfolding preencode_request request_bytes
Sizes-request r v s =
    simp
      (
        (Codes-ipv4_peer r.to v.peer).sized,
        Sizes-present r.id v.id_key,
        Sizes-present r.token v.token_key,
        (Codes-uint r.command v.command_fits).sized,
        Sizes-present r.target v.target_key,
        Sizes-value r.value v.value_fits,
      )
      (simp length-append (ap (λ n. record s { end = n }) (omega arith)))

pub Writes-request : (r : Request) → IsRequest r → Writes (encode_request r) (request_bytes r)
unfolding encode_request request_bytes
Writes-request r v = Writes-bind (Writes-uint8 request_id) (
    Writes-bind (Writes-uint8 (request_flags r)) (
      Writes-bind (Writes-uint16 r.tid) (
        Writes-bind (Codes-ipv4_peer r.to v.peer).written (
          Writes-bind (Writes-present r.id) (
            Writes-bind (Writes-present r.token) (
              Writes-bind (Codes-uint r.command v.command_fits).written
                (Writes-bind (Writes-present r.target) (Writes-value r.value v.value_fits))))))))

-- What the reader makes of a request: an empty value comes back as absent.
abbrev pub received : Request → Request
received r = record r { value = normal r.value }

Reads-request_rest :
    (r : Request) (f : ℕ)
    → IsRequest r
    → Finds f (is_some r.id) (is_some r.token) r.internal (is_some r.target) (is_some r.value)
    → Reads
        (decode_request_rest f (record { tid = r.tid; to = r.to; id = r.id; token = r.token }))
        (request_tail r)
        (request (received r))
unfolding decode_request_rest
Reads-request_rest r f v k = Reads-bind _ (Codes-uint r.command v.command_fits).read (
    Reads-bind _ (Reads-present r.target k.at_fourth v.target_key) (
      Reads-val
        (ap
          (λ b. request (record {
            tid = r.tid;
            to = r.to;
            id = r.id;
            token = r.token;
            internal = b;
            command = r.command;
            target = r.target;
            value = normal r.value;
          }))
          k.at_third)
        (Reads-return _ (Reads-value r.value k.at_value v.value_fits))))

Reads-request :
    (r : Request)
    → IsRequest r
    → Reads
        (decode_body request_id)
        (request_flags r ∷ (front_bytes r.tid (peer_bytes r.to) r.id r.token ++ request_tail r))
        (request (received r))
unfolding decode_body decode_rest request_flags
Reads-request r v =
    let k =
      pack_flags_lem (is_some r.id) (is_some r.token) r.internal (is_some r.target)
        (is_some r.value) in
    Reads-bind _ (Reads-uint8 (request_flags r)) (
      Reads-bind _
        (Reads-front (request_flags r) r.tid r.to r.id r.token v.tid_fits v.peer k.at_id k.at_token
          v.id_key v.token_key)
        (Reads-request_rest r (request_flags r) v k))

-- A request is written as `request_bytes` says, into a buffer of just that size.
pub encode_request_to_bytes-eq :
    (r : Request) → IsRequest r → encode_request_to_bytes r ≡ done (request_bytes r)
unfolding encode_request_to_bytes
encode_request_to_bytes-eq r v = fills (Sizes-request r v) (Writes-request r v)

-- For a request whose fields are in the ranges of their Rust types, with a peer address in plain
-- dotted form, encode_request_to_bytes returns bytes, and decode_message makes of them the same
-- request, save that an empty value comes back as an absent one.
pub decode_message-encode_request :
    (r : Request)
    → IsRequest r
    → (bs : List ℕ) × (encode_request_to_bytes r ≡ done bs)
      × (decode_message bs ≡ done (request (received r)))
unfolding request_bytes
decode_message-encode_request r v = (
  request_bytes r,
  encode_request_to_bytes-eq r v,
  decode_message-Reads request_id refl
      (Reads-eq (ap (λ bs. request_flags r ∷ bs) (simp append_assoc)) (Reads-request r v)),
)
