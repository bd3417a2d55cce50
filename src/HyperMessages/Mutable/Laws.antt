-- ===== src/HyperMessages/Mutable/Laws.antt =====
-- Mutable values on the wire.
use peeroxide.Common.{ℕ, ◌^◌, ◌<◌, ◌≡◌, List, length}
use peeroxide.Encoding.Fields.{Field-then, Field-last, Field-uint}
use peeroxide.Messages.{done}
use peeroxide.HyperMessages.Parts.{Field-fixed32, Field-fixed64, Field-bytes, survives}
use peeroxide.HyperMessages.Mutable.{
  MutablePutRequest, preencode_mutable_put_request, encode_mutable_put_request,
  decode_mutable_put_request, encode_mutable_put_request_to_bytes,
  decode_mutable_put_request_from_bytes, MutableGetResponse, preencode_mutable_get_response,
  encode_mutable_get_response, decode_mutable_get_response, encode_mutable_get_response_to_bytes,
  decode_mutable_get_response_from_bytes, MutableSignable, preencode_mutable_signable,
  encode_mutable_signable, decode_mutable_signable, encode_mutable_signable_to_bytes,
  decode_mutable_signable_from_bytes,
}

-- The values the fields can hold.
pub record IsPut (m : MutablePutRequest) : Type 0 where
  pub key : length m.public_key ≡ 32
  pub seq_fits : m.seq < 2 ^ 64
  pub value_fits : length m.value < 2 ^ 64
  pub signed : length m.signature ≡ 64

-- A request to store a mutable value, with a key of 32 bytes, a signature of 64 and a sequence
-- number and length below 2^64, is written by encode_mutable_put_request_to_bytes, and
-- decode_mutable_put_request_from_bytes makes the same request of the bytes.
pub mutable_put_request_survives :
    (m : MutablePutRequest)
    → IsPut m
    → (bs : List ℕ) × (encode_mutable_put_request_to_bytes m ≡ done bs)
      × (decode_mutable_put_request_from_bytes bs ≡ done m)
unfolding preencode_mutable_put_request encode_mutable_put_request decode_mutable_put_request
    encode_mutable_put_request_to_bytes decode_mutable_put_request_from_bytes
mutable_put_request_survives m v =
    survives preencode_mutable_put_request encode_mutable_put_request (
      Field-then _ (Field-fixed32 m.public_key v.key) (
        Field-then _ (Field-uint m.seq v.seq_fits) (
          Field-then _ (Field-bytes m.value v.value_fits)
            (Field-last _ (Field-fixed64 m.signature v.signed)))))

pub record IsGetResponse (m : MutableGetResponse) : Type 0 where
  pub seq_fits : m.seq < 2 ^ 64
  pub value_fits : length m.value < 2 ^ 64
  pub signed : length m.signature ≡ 64

pub mutable_get_response_survives :
    (m : MutableGetResponse)
    → IsGetResponse m
    → (bs : List ℕ) × (encode_mutable_get_response_to_bytes m ≡ done bs)
      × (decode_mutable_get_response_from_bytes bs ≡ done m)
unfolding preencode_mutable_get_response encode_mutable_get_response decode_mutable_get_response
    encode_mutable_get_response_to_bytes decode_mutable_get_response_from_bytes
mutable_get_response_survives m v =
    survives preencode_mutable_get_response encode_mutable_get_response (
      Field-then _ (Field-uint m.seq v.seq_fits) (
        Field-then _ (Field-bytes m.value v.value_fits)
          (Field-last _ (Field-fixed64 m.signature v.signed))))

pub mutable_signable_survives :
    (m : MutableSignable)
    → m.seq < 2 ^ 64
    → length m.value < 2 ^ 64
    → (bs : List ℕ) × (encode_mutable_signable_to_bytes m ≡ done bs)
      × (decode_mutable_signable_from_bytes bs ≡ done m)
unfolding preencode_mutable_signable encode_mutable_signable decode_mutable_signable
    encode_mutable_signable_to_bytes decode_mutable_signable_from_bytes
mutable_signable_survives m h l =
    survives preencode_mutable_signable encode_mutable_signable
      (Field-then _ (Field-uint m.seq h) (Field-last _ (Field-bytes m.value l)))
