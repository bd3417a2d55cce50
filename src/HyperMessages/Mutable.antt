-- ===== src/HyperMessages/Mutable.antt =====
-- hyperdht_messages.rs: requests and responses about mutable values, and what is signed.
pub mod Laws
use peeroxide.Common.{ℕ, Option, some, List}
use peeroxide.Encoding.State.{State, M, ◌>>=◌, ◌>>◌, pure, reserve}
use peeroxide.Encoding.Uint.{preencode_uint, encode_uint, decode_uint}
use peeroxide.Encoding.Bytes.{
  preencode_buffer, encode_buffer, encode_fixed32, decode_fixed32, encode_fixed64, decode_fixed64,
}
use peeroxide.Messages.{Result}
use peeroxide.HyperMessages.{to_bytes, from_bytes, decode_bytes}

pub record MutablePutRequest : Type 0 where
  pub public_key : List ℕ
  pub seq : ℕ
  pub value : List ℕ
  pub signature : List ℕ

unfoldable pub preencode_mutable_put_request : MutablePutRequest → State → State
preencode_mutable_put_request m s =
    reserve 64 (preencode_buffer (some m.value) (preencode_uint m.seq (reserve 32 s)))

unfoldable pub encode_mutable_put_request : MutablePutRequest → M (Unit {0})
encode_mutable_put_request m = do
  encode_fixed32 m.public_key
  encode_uint m.seq
  encode_buffer (some m.value)
  encode_fixed64 m.signature

unfoldable pub decode_mutable_put_request : M MutablePutRequest
decode_mutable_put_request = do
  public_key ← decode_fixed32
  seq ← decode_uint
  value ← decode_bytes
  signature ← decode_fixed64
  pure (record { public_key = public_key; seq = seq; value = value; signature = signature })

unfoldable pub encode_mutable_put_request_to_bytes : MutablePutRequest → Result (List ℕ)
encode_mutable_put_request_to_bytes m =
    to_bytes preencode_mutable_put_request encode_mutable_put_request m

unfoldable pub decode_mutable_put_request_from_bytes : List ℕ → Result MutablePutRequest
decode_mutable_put_request_from_bytes buf = from_bytes decode_mutable_put_request buf

pub record MutableGetResponse : Type 0 where
  pub seq : ℕ
  pub value : List ℕ
  pub signature : List ℕ

unfoldable pub preencode_mutable_get_response : MutableGetResponse → State → State
preencode_mutable_get_response m s =
    reserve 64 (preencode_buffer (some m.value) (preencode_uint m.seq s))

unfoldable pub encode_mutable_get_response : MutableGetResponse → M (Unit {0})
encode_mutable_get_response m = do
  encode_uint m.seq
  encode_buffer (some m.value)
  encode_fixed64 m.signature

unfoldable pub decode_mutable_get_response : M MutableGetResponse
decode_mutable_get_response = do
  seq ← decode_uint
  value ← decode_bytes
  signature ← decode_fixed64
  pure (record { seq = seq; value = value; signature = signature })

unfoldable pub encode_mutable_get_response_to_bytes : MutableGetResponse → Result (List ℕ)
encode_mutable_get_response_to_bytes m =
    to_bytes preencode_mutable_get_response encode_mutable_get_response m

unfoldable pub decode_mutable_get_response_from_bytes : List ℕ → Result MutableGetResponse
decode_mutable_get_response_from_bytes buf = from_bytes decode_mutable_get_response buf

pub record MutableSignable : Type 0 where
  pub seq : ℕ
  pub value : List ℕ

unfoldable pub preencode_mutable_signable : MutableSignable → State → State
preencode_mutable_signable m s = preencode_buffer (some m.value) (preencode_uint m.seq s)

unfoldable pub encode_mutable_signable : MutableSignable → M (Unit {0})
encode_mutable_signable m = do encode_uint m.seq; encode_buffer (some m.value)

unfoldable pub decode_mutable_signable : M MutableSignable
decode_mutable_signable = do
  seq ← decode_uint
  value ← decode_bytes
  pure (record { seq = seq; value = value })

unfoldable pub encode_mutable_signable_to_bytes : MutableSignable → Result (List ℕ)
encode_mutable_signable_to_bytes m = to_bytes preencode_mutable_signable encode_mutable_signable m

unfoldable pub decode_mutable_signable_from_bytes : List ℕ → Result MutableSignable
decode_mutable_signable_from_bytes buf = from_bytes decode_mutable_signable buf
