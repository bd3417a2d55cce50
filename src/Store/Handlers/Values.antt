-- ===== src/Store/Handlers/Values.antt =====
-- persistent.rs: storing and reading mutable and immutable values.
pub mod Laws
use peeroxide.Common.{
  ℕ, ltb, leb, ◌==◌, not, if◌then◌else◌, Option, none, some, List, Bool, true, false,
}
use peeroxide.Common.Dict.{same_bytes}
use peeroxide.Crypto.{hash, mutable_signable, ns_mutable_put}
use peeroxide.Encoding.Uint.{decode_uint}
use peeroxide.Messages.{Result, done, failed, panicked}
use peeroxide.HyperMessages.{from_bytes}
use peeroxide.HyperMessages.Mutable.{
  MutablePutRequest, MutableGetResponse, decode_mutable_put_request_from_bytes,
  encode_mutable_get_response_to_bytes, decode_mutable_get_response_from_bytes,
}
use peeroxide.Store.{seq_reused, seq_too_low, to_hex}
use peeroxide.Store.Lru
use peeroxide.Store.Handlers.{
  IncomingHyperRequest, HandlerReply, value, error, Persistent, Handled, handled, crashed,
  or_silent, ok_or_silent, ok_of,
}

-- The stored value, if it is there, is live and can be read.
abbrev pub with_bytes :
    List ℕ → (Option (List ℕ × MutableGetResponse) → Handled) → Option MutableGetResponse → Handled
with_bytes bytes k none = k none
with_bytes bytes k (some stored) = k (some (bytes, stored))

unfoldable pub read_stored :
    Option (List ℕ) → (Option (List ℕ × MutableGetResponse) → Handled) → Handled
read_stored none k = k none
read_stored (some bytes) k =
    ok_of (decode_mutable_get_response_from_bytes bytes) (with_bytes bytes k)

unfoldable pub stored_at :
    ℕ → List ℕ → Persistent → (Option (List ℕ × MutableGetResponse) → Handled) → Handled
unfolding read_stored
stored_at now key p k = read_stored (Lru.get now key p.mutables) k

-- `set` where the sequence number is above that of the stored value.
unfoldable pub put_above :
    ℕ → List ℕ → MutablePutRequest → Persistent → Option (List ℕ × MutableGetResponse) → Handled
unfolding Lru.set
put_above now key put p existing =
    let stored =
      ok_or_silent p
        (encode_mutable_get_response_to_bytes
          (record { seq = put.seq; value = put.value; signature = put.signature }))
        (λ encoded.
          handled (record p { mutables = Lru.set now key encoded p.mutables }) (value none)) in
    elim existing [
      | none ↦ stored
      | some e ↦
          if e.1.seq == put.seq
          then handled p (error seq_reused)
          else if ltb put.seq e.1.seq
          then handled p (error seq_too_low)
          else stored
    ]

-- `unwrap_or(0)`
abbrev pub or_zero : Option ℕ → ℕ
or_zero none = 0
or_zero (some n) = n

-- The stored value is sent if it is not older than what is asked for.
abbrev pub answer : ℕ → Persistent → Option (List ℕ × MutableGetResponse) → Handled
answer requested_seq p none = handled p (value none)
answer requested_seq p (some e) =
    handled p (value (if leb requested_seq e.1.seq then some e.0 else none))

unfoldable pub on_mutable_get : ℕ → IncomingHyperRequest → Persistent → Handled
unfolding stored_at to_hex
on_mutable_get now req p = or_silent p req.target (λ target. or_silent p req.value (λ bytes.
    ok_of (from_bytes decode_uint bytes)
      (λ asked. stored_at now (to_hex target) p (answer (or_zero asked) p))))

unfoldable pub on_immutable_get : ℕ → IncomingHyperRequest → Persistent → Handled
unfolding to_hex Lru.get
on_immutable_get now req p =
    or_silent p req.target (λ target. handled p (value (Lru.get now (to_hex target) p.immutables)))

module _ (digest : List ℕ → List ℕ) (verify_detached : List ℕ → List ℕ → List ℕ → Bool) where
  unfoldable pub on_mutable_put : ℕ → IncomingHyperRequest → Persistent → Handled
  unfolding hash mutable_signable ns_mutable_put stored_at put_above to_hex
  on_mutable_put now req p = or_silent p req.target (λ target. or_silent p req.token (λ token.
      or_silent p req.value (λ bytes.
        ok_or_silent p (decode_mutable_put_request_from_bytes bytes) (λ put.
          if not (same_bytes (hash digest put.public_key) target)
          then handled p HandlerReply.silent
          else ok_or_silent p (mutable_signable digest (ns_mutable_put digest) put.seq put.value)
              (λ signable.
                if not (verify_detached put.signature signable put.public_key)
                then handled p HandlerReply.silent
                else stored_at now (to_hex target) p (put_above now (to_hex target) put p))))))

  unfoldable pub on_immutable_put : ℕ → IncomingHyperRequest → Persistent → Handled
  unfolding hash to_hex Lru.set
  on_immutable_put now req p = or_silent p req.target (λ target. or_silent p req.token (λ token.
      or_silent p req.value (λ bytes.
        if not (same_bytes (hash digest bytes) target)
        then handled p HandlerReply.silent
        else handled (record p { immutables = Lru.set now (to_hex target) bytes p.immutables })
            (value none))))
