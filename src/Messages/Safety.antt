-- ===== src/Messages/Safety.antt =====
-- `decode_message` on arbitrary bytes.
use peeroxide.Common.{ℕ, ◌≢◌, inl, inr, ◌==◌, Bool-cases, List, [], ◌∷◌, arith, length, bit_and}
use peeroxide.Encoding.State.{State, Outcome, ok, err, panic, from_buffer}
use peeroxide.Encoding.Laws.{Within, Safe, Safe-bind, Safe-pure}
use peeroxide.Encoding.Words.Safety.{Safe-uint8, Safe-uint16}
use peeroxide.Encoding.Uint.Laws.{Safe-uint}
use peeroxide.Messages.{panicked, result, version}
use peeroxide.Messages.Codec.{
  Front, decode_front, decode_response_rest, decode_request_rest, decode_rest, decode_body,
  decode_message,
}
use peeroxide.Messages.Peers.{Safe-ipv4_peer}
use peeroxide.Messages.Fields.{Safe-present, Safe-value, Safe-closer, Safe-error}

Safe-front : (f : ℕ) → Safe (decode_front f)
unfolding decode_front
Safe-front f = Safe-bind _ Safe-uint16 λ tid.
    Safe-bind _ Safe-ipv4_peer
      λ to. Safe-bind _ (Safe-present _) λ id. Safe-bind _ (Safe-present _) λ token. Safe-pure _

Safe-response_rest : (f : ℕ) (fr : Front) → Safe (decode_response_rest f fr)
unfolding decode_response_rest
Safe-response_rest f fr =
    Safe-bind _ (Safe-closer _)
      λ c. Safe-bind _ (Safe-error _) λ e. Safe-bind _ (Safe-value _) λ v. Safe-pure _

Safe-request_rest : (f : ℕ) (fr : Front) → Safe (decode_request_rest f fr)
unfolding decode_request_rest
Safe-request_rest f fr =
    Safe-bind _ Safe-uint
      λ c. Safe-bind _ (Safe-present _) λ t. Safe-bind _ (Safe-value _) λ v. Safe-pure _

Safe-rest : (type_version f : ℕ) (fr : Front) → Safe (decode_rest type_version f fr)
unfolding decode_rest
Safe-rest tv f fr = elim (Bool-cases (bit_and tv 0xF0 == 0)) [
  | inl e ↦ rw e (Safe-request_rest f fr)
  | inr e ↦ rw e (Safe-response_rest f fr)
]

Safe-body : (type_version : ℕ) → Safe (decode_body type_version)
unfolding decode_body
Safe-body tv = Safe-bind _ Safe-uint8 λ f. Safe-bind _ (Safe-front f) λ fr. Safe-rest tv f fr

result-ne-panicked :
    {A : Type 0} (s : State) (o : Outcome A) → Within s o → result (λ a t. a) o ≢ panicked
result-ne-panicked s (ok a t) h = λ e. cc
result-ne-panicked s (err e t) h = λ p. cc
result-ne-panicked s panic h = absurd h

-- Whatever the bytes, decode_message does not panic: it returns a message or an error.
pub decode_message-ne-panicked : (bytes : List ℕ) → decode_message bytes ≢ panicked
unfolding decode_message from_buffer
decode_message-ne-panicked [] = λ e. cc
decode_message-ne-panicked (tv ∷ rest) =
    let s : State = record { start = 1; end = length (tv ∷ rest); buffer = tv ∷ rest } in
    elim (Bool-cases (bit_and tv 0x0F == version)) [
      | inl e ↦ rw e (result-ne-panicked s _ ((Safe-body tv).at s (omega arith, omega arith)))
      | inr e ↦ rw e (λ p. cc)
    ]
