-- ===== src/Messages/Whole.antt =====
-- What requests and responses share: the front fields, and the calls on whole buffers.
use peeroxide.Common.{
  ℕ, ◌^◌, ◌<◌, ◌≡◌, refl, sym, ap, true, Option, List, [], ◌∷◌, ◌++◌, append-nil, arith, length,
  bit_and, ◌==◌,
}
use peeroxide.Encoding.State.{State, M, new, from_buffer, alloc}
use peeroxide.Encoding.Laws.{Writes, Reads, Sizes, Reads-bind, Reads-return, fill}
use peeroxide.Encoding.Words.{to_le_bytes}
use peeroxide.Encoding.Words.Narrow.{Reads-uint16}
use peeroxide.Messages.{
  Ipv4Peer, Message, done, result, version, is_some, has_flag, flag_id, flag_token,
}
use peeroxide.Messages.Codec.{decode_front, decode_body, decode_message}
use peeroxide.Messages.Peers.{IsPeer, peer_bytes, Codes-ipv4_peer}
use peeroxide.Messages.Fields.{IsKey, present_bytes, Reads-present}

abbrev pub front_bytes : ℕ → List ℕ → Option (List ℕ) → Option (List ℕ) → List ℕ
front_bytes tid to id token = to_le_bytes 2 tid ++ (to ++ (present_bytes id ++ present_bytes token))

pub Reads-front :
    (f tid : ℕ) (to : Ipv4Peer) (id token : Option (List ℕ))
    → tid < 2 ^ 16
    → IsPeer to
    → has_flag f flag_id ≡ is_some id
    → has_flag f flag_token ≡ is_some token
    → IsKey id
    → IsKey token
    → Reads
        (decode_front f)
        (front_bytes tid (peer_bytes to) id token)
        (record { tid = tid; to = to; id = id; token = token })
unfolding decode_front
Reads-front f tid to id token h v e k hi ht = Reads-bind _ (Reads-uint16 tid h) (
    Reads-bind _ (Codes-ipv4_peer to v).read
      (Reads-bind _ (Reads-present id e hi) (Reads-return _ (Reads-present token k ht))))

-- A writer that writes what was reserved leaves just those bytes.
pub fills :
    {p : State → State} {w : M (Unit {0})} {bs : List ℕ}
    → Sizes p (length bs)
    → Writes w bs
    → result (λ u s. s.buffer) (w (alloc (p new))) ≡ done bs
fills sp ww = ap (result (λ u s. s.buffer)) (fill sp ww)

-- A body that is read to its end is the message.
pub decode_message-Reads :
    (type_version : ℕ) {bs : List ℕ} {m : Message}
    → (bit_and type_version 0x0F == version) ≡ true
    → Reads (decode_body type_version) bs m
    → decode_message (type_version ∷ bs) ≡ done m
unfolding decode_message from_buffer
decode_message-Reads tv {bs} {m} e r =
    let s : State = record { start = 1; end = length (tv ∷ bs); buffer = tv ∷ bs } in
    rw e
      (ap (result (λ m s. m)) (r.at s (tv ∷ []) [] refl (sym (append-nil (tv ∷ bs))) (omega arith)))
