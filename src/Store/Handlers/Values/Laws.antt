-- ===== src/Store/Handlers/Values/Laws.antt =====
-- What is stored is found, and a stored value gives way only to a later one.
use peeroxide.Common.{
  ℕ, ◌≤◌, ◌<◌, ◌≡◌, refl, sym, ap, ◌∙◌, subst, inl, inr, Bool, true, false, not, ltb, le→leb, ◌==◌,
  Bool-cases, Option-cases, if◌then◌else◌, Option, none, some, List, arith,
}
use peeroxide.Common.Dict.{same_bytes, same_bytes_refl}
use peeroxide.Crypto.{hash, mutable_signable, ns_mutable_put}
use peeroxide.Encoding.Uint.{decode_uint}
use peeroxide.Messages.{Result, done, failed, panicked}
use peeroxide.HyperMessages.{from_bytes}
use peeroxide.HyperMessages.Mutable.{
  MutablePutRequest, MutableGetResponse, decode_mutable_put_request_from_bytes,
  decode_mutable_get_response_from_bytes,
}
use peeroxide.HyperMessages.Mutable.Laws.{IsGetResponse, mutable_get_response_survives}
use peeroxide.Store.{to_hex}
use peeroxide.Store.Lru
use peeroxide.Store.Lru.Laws.{get-set_self}
use peeroxide.Store.Handlers.{
  IncomingHyperRequest, value, silent, Persistent, Handled, handled, crashed, ok_or_silent,
}
use peeroxide.Store.Handlers.Values.{
  stored_at, read_stored, answer, put_above, on_mutable_put, on_mutable_get, on_immutable_put,
  on_immutable_get,
}

-- The state that a handler leaves is `p`.
abbrev pub Leaves : Persistent → Handled → Type 0
Leaves p (handled q r) = q ≡ p
Leaves p crashed = Unit

module _ (digest : List ℕ → List ℕ) (verify_detached : List ℕ → List ℕ → List ℕ → Bool) where
  -- Where entries live for some time, on_immutable_put accepts a value under its digest, and at
  -- that time on_immutable_get returns the value.
  pub immutable_stored :
      (now : ℕ) (req : IncomingHyperRequest) (p : Persistent) (token bytes : List ℕ)
      → req.target ≡ some (hash digest bytes)
      → req.token ≡ some token
      → req.value ≡ some bytes
      → 0 < p.immutables.max_age
      → (q : Persistent) × (on_immutable_put digest verify_detached now req p
          ≡ handled q (value none))
        × (on_immutable_get now req q ≡ handled q (value (some bytes)))
  unfolding on_immutable_put on_immutable_get
  immutable_stored now req p token bytes et ek ev age =
      let q : Persistent = record p {
        immutables = Lru.set now (to_hex (hash digest bytes)) bytes p.immutables;
      } in
      (
        q,
        rw (et, ek, ev, same_bytes_refl (hash digest bytes)) refl,
        rw et (
            ap (λ v. handled q (value v))
              (get-set_self now (to_hex (hash digest bytes)) bytes p.immutables age)),
      )

  stored_at-found :
      (now : ℕ) (key old : List ℕ) (stored : MutableGetResponse) (p : Persistent)
      (k : Option (List ℕ × MutableGetResponse) → Handled)
      → Lru.get now key p.mutables ≡ some old
      → decode_mutable_get_response_from_bytes old ≡ done stored
      → stored_at now key p k ≡ k (some (old, stored))
  unfolding stored_at read_stored
  stored_at-found now key old stored p k eg es = rw (eg, es) refl

  -- A put meets a stored value.
  put_above-Leaves :
      (now : ℕ) (key : List ℕ) (put : MutablePutRequest) (p : Persistent)
      (e : List ℕ × MutableGetResponse)
      → put.seq ≤ e.1.seq
      → Leaves p (put_above now key put p (some e))
  unfolding put_above
  put_above-Leaves now key put p e h = elim (Bool-cases (e.1.seq == put.seq)) [
    | inl same ↦ rw same refl
    | inr other ↦ let low : ltb put.seq e.1.seq ≡ true = ground arith in rw (other, low) refl
  ]

  guarded-Leaves :
      (p : Persistent) (b : Bool) (after : Handled)
      → Leaves p after
      → Leaves p (if not b then handled p silent else after)
  guarded-Leaves p true after h = h
  guarded-Leaves p false after h = refl

  signed_put-Leaves :
      (put : MutablePutRequest) (p : Persistent) (o : Result (List ℕ)) (after : Handled)
      → Leaves p after
      → Leaves p (
          ok_or_silent p o (λ signable.
            if not (verify_detached put.signature signable put.public_key)
            then handled p silent
            else after))
  signed_put-Leaves put p (done signable) after h =
      guarded-Leaves p (verify_detached put.signature signable put.public_key) after h
  signed_put-Leaves put p (failed e) after h = refl
  signed_put-Leaves put p panicked after h = tt

  -- A request to store a mutable value whose sequence number is not above that of the live value
  -- under its target, which can be read, never changes the store, whatever it holds, whoever
  -- signed it and whatever the digest and the check of signatures.
  pub late_put-Leaves :
      (now : ℕ) (req : IncomingHyperRequest) (p : Persistent) (target bytes old : List ℕ)
      (put : MutablePutRequest) (stored : MutableGetResponse)
      → req.target ≡ some target
      → req.value ≡ some bytes
      → decode_mutable_put_request_from_bytes bytes ≡ done put
      → Lru.get now (to_hex target) p.mutables ≡ some old
      → decode_mutable_get_response_from_bytes old ≡ done stored
      → put.seq ≤ stored.seq
      → Leaves p (on_mutable_put digest verify_detached now req p)
  unfolding on_mutable_put
  late_put-Leaves now req p target bytes old put stored et ev ed eg es h =
      let key : List ℕ = to_hex target in
      let meets : Leaves p (stored_at now key p (put_above now key put p)) =
        subst (Leaves p)
          (sym (stored_at-found now key old stored p (put_above now key put p) eg es))
          (put_above-Leaves now key put p (old, stored) h) in
      elim (Option-cases req.token) [
        | inl e ↦ rw (et, e) refl
        | inr (token, e) ↦
            rw (et, e, ev, ed)
              (guarded-Leaves p (same_bytes (hash digest put.public_key) target) _ (
                signed_put-Leaves put p
                  (mutable_signable digest (ns_mutable_put digest) put.seq put.value) _ meets))
      ]

  -- Where no live value is stored under a target, entries live for some time and the digest of
  -- the key is the target, on_mutable_put accepts a put with a signature of 64 bytes, which is
  -- accepted, and a number and length below 2^64, and at that time on_mutable_get returns, to a
  -- request for that sequence number or a lower one, bytes that decode to the number, value and
  -- signature of the put.
  pub mutable_stored :
      (now : ℕ) (put_req get_req : IncomingHyperRequest) (p : Persistent)
      (target token bytes asked signable : List ℕ) (put : MutablePutRequest) (requested_seq : ℕ)
      → put_req.target ≡ some target
      → put_req.token ≡ some token
      → put_req.value ≡ some bytes
      → decode_mutable_put_request_from_bytes bytes ≡ done put
      → IsGetResponse (record { seq = put.seq; value = put.value; signature = put.signature })
      → hash digest put.public_key ≡ target
      → mutable_signable digest (ns_mutable_put digest) put.seq put.value ≡ done signable
      → verify_detached put.signature signable put.public_key ≡ true
      → Lru.get now (to_hex target) p.mutables ≡ none
      → 0 < p.mutables.max_age
      → get_req.target ≡ some target
      → get_req.value ≡ some asked
      → from_bytes decode_uint asked ≡ done requested_seq
      → requested_seq ≤ put.seq
      → (q : Persistent) × (stored : List ℕ) × (on_mutable_put digest verify_detached now put_req p
          ≡ handled q (value none))
        × (on_mutable_get now get_req q ≡ handled q (value (some stored)))
        × (decode_mutable_get_response_from_bytes stored
            ≡ done (record { seq = put.seq; value = put.value; signature = put.signature }))
  unfolding on_mutable_put on_mutable_get stored_at read_stored put_above
  mutable_stored now put_req get_req p target token bytes asked signable put requested_seq et ek ev
        ed valid own es signed new age gt gv ga le =
      let m : MutableGetResponse = record {
        seq = put.seq;
        value = put.value;
        signature = put.signature;
      } in
      let (encoded, wrote, read) = mutable_get_response_survives m valid in
      let key : List ℕ = to_hex target in
      let q : Persistent = record p { mutables = Lru.set now key encoded p.mutables } in
      let own_key : same_bytes (hash digest put.public_key) target ≡ true =
        ap (same_bytes (hash digest put.public_key)) (sym own)
        ∙ same_bytes_refl (hash digest put.public_key) in
      let found =
        stored_at-found now key encoded m q (answer requested_seq q)
          (get-set_self now key encoded p.mutables age) read in
      (
        q,
        encoded,
        rw (et, ek, ev, ed, own_key, es, signed, new, wrote) refl,
        rw (gt, gv, ga) (found ∙ rw (le→leb requested_seq put.seq le) refl),
        read,
      )
