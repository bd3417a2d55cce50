-- ===== src/Messages/Fields.antt =====
-- The optional fields of a message.
use peeroxide.Common.{
  ℕ, ◌^◌, ◌<◌, ◌≤◌, ◌≡◌, sym, ap, inl, inr, Bool-cases, ==_iff, Bool, true, false, not, ◌==◌,
  if◌then◌else◌, Option, none, some, List, [], ◌∷◌, arith, All, length,
}
use peeroxide.Encoding.State.{State, reserve}
use peeroxide.Encoding.Laws.{
  Writes, Reads, Sizes, Safe, Writes-nothing, Reads-pure, Reads-return, Reads-val, Safe-bind,
  Safe-pure,
}
use peeroxide.Encoding.Uint.Laws.{uint_bytes, Codes-uint, Safe-uint}
use peeroxide.Encoding.Bytes.Laws.{
  Writes-fixed32, Reads-fixed32, Safe-fixed32, Codes-buffer, Safe-buffer, normal, buffer_bytes,
  option_length,
}
use peeroxide.Encoding.Arrays.{max_array_length}
use peeroxide.Messages.{
  Ipv4Peer, is_some, is_empty, preencode_present, encode_present, decode_present, preencode_value,
  encode_value, decode_value,
}
use peeroxide.Messages.Codec.{
  preencode_closer, encode_closer, decode_closer, preencode_error, encode_error, decode_error,
}
use peeroxide.Messages.Peers.{IsPeer, peers_bytes, Codes-ipv4_array, Safe-ipv4_array}

-- An absent field, or one of 32 bytes.
abbrev pub IsKey : Option (List ℕ) → Type 0
IsKey none = Unit
IsKey (some b) = length b ≡ 32

abbrev pub present_bytes : Option (List ℕ) → List ℕ
present_bytes none = []
present_bytes (some b) = b

abbrev pub value_bytes : Option (List ℕ) → List ℕ
value_bytes none = []
value_bytes (some b) = buffer_bytes (some b)

abbrev pub closer_bytes : List Ipv4Peer → List ℕ
closer_bytes [] = []
closer_bytes (p ∷ ps) = peers_bytes (p ∷ ps)

abbrev pub error_bytes : ℕ → List ℕ
error_bytes e = if e == 0 then [] else uint_bytes e

reserve_nothing : (s : State) → s ≡ reserve 0 s
reserve_nothing s = ap (λ n. record s { end = n }) (omega arith)

pub Sizes-present :
    (o : Option (List ℕ)) → IsKey o → Sizes (preencode_present o) (length (present_bytes o))
unfolding preencode_present
Sizes-present none h s = reserve_nothing s
Sizes-present (some b) h s = rw h

pub Writes-present : (o : Option (List ℕ)) → Writes (encode_present o) (present_bytes o)
unfolding encode_present
Writes-present none = Writes-nothing
Writes-present (some b) = Writes-fixed32 b

pub Reads-present :
    (o : Option (List ℕ)) {b : Bool}
    → b ≡ is_some o
    → IsKey o
    → Reads (decode_present b) (present_bytes o) o
unfolding decode_present
Reads-present none e h = rw e (Reads-pure none)
Reads-present (some k) e h = rw e (Reads-return some (Reads-fixed32 k h))

pub Safe-present : (b : Bool) → Safe (decode_present b)
unfolding decode_present
Safe-present true = Safe-bind _ Safe-fixed32 (λ k. Safe-pure (some k))
Safe-present false = Safe-pure none

pub Sizes-value :
    (o : Option (List ℕ))
    → option_length o < 2 ^ 64
    → Sizes (preencode_value o) (length (value_bytes o))
unfolding preencode_value
Sizes-value none h s = reserve_nothing s
Sizes-value (some b) h s = (Codes-buffer (some b) h).sized s

pub Writes-value :
    (o : Option (List ℕ)) → option_length o < 2 ^ 64 → Writes (encode_value o) (value_bytes o)
unfolding encode_value
Writes-value none h = Writes-nothing
Writes-value (some b) h = (Codes-buffer (some b) h).written

pub Reads-value :
    (o : Option (List ℕ)) {b : Bool}
    → b ≡ is_some o
    → option_length o < 2 ^ 64
    → Reads (decode_value b) (value_bytes o) (normal o)
unfolding decode_value
Reads-value none e h = rw e (Reads-pure none)
Reads-value (some k) e h = rw e ((Codes-buffer (some k) h).read)

pub Safe-value : (b : Bool) → Safe (decode_value b)
unfolding decode_value
Safe-value true = Safe-buffer
Safe-value false = Safe-pure none

module _ (ps : List Ipv4Peer) (fits : length ps ≤ max_array_length) (good : All IsPeer ps) where
  pub Sizes-closer : Sizes (preencode_closer ps) (length (closer_bytes ps))
  unfolding preencode_closer
  Sizes-closer = go ps fits good
    where
      go :
          (qs : List Ipv4Peer)
          → length qs ≤ max_array_length
          → All IsPeer qs
          → Sizes (preencode_closer qs) (length (closer_bytes qs))
      go [] n h s = reserve_nothing s
      go (q ∷ qs) n h s = (Codes-ipv4_array (q ∷ qs) n h).sized s

  pub Writes-closer : Writes (encode_closer ps) (closer_bytes ps)
  unfolding encode_closer
  Writes-closer = go ps fits good
    where
      go :
          (qs : List Ipv4Peer)
          → length qs ≤ max_array_length
          → All IsPeer qs
          → Writes (encode_closer qs) (closer_bytes qs)
      go [] n h = Writes-nothing
      go (q ∷ qs) n h = (Codes-ipv4_array (q ∷ qs) n h).written

  pub Reads-closer :
      {b : Bool} → b ≡ not (is_empty ps) → Reads (decode_closer b) (closer_bytes ps) ps
  unfolding decode_closer
  Reads-closer {b} e = go ps fits good e
    where
      go :
          (qs : List Ipv4Peer)
          → length qs ≤ max_array_length
          → All IsPeer qs
          → b ≡ not (is_empty qs)
          → Reads (decode_closer b) (closer_bytes qs) qs
      go [] n h e = rw e (Reads-pure [])
      go (q ∷ qs) n h e = rw e ((Codes-ipv4_array (q ∷ qs) n h).read)

pub Safe-closer : (b : Bool) → Safe (decode_closer b)
unfolding decode_closer
Safe-closer true = Safe-ipv4_array
Safe-closer false = Safe-pure []

pub Sizes-error : (e : ℕ) → e < 2 ^ 64 → Sizes (preencode_error e) (length (error_bytes e))
unfolding preencode_error
Sizes-error e h s = elim (Bool-cases (e == 0)) [
  | inl z ↦ rw z (reserve_nothing s)
  | inr z ↦ rw z ((Codes-uint e h).sized s)
]

pub Writes-error : (e : ℕ) → e < 2 ^ 64 → Writes (encode_error e) (error_bytes e)
unfolding encode_error
Writes-error e h = elim (Bool-cases (e == 0)) [
  | inl z ↦ rw z Writes-nothing
  | inr z ↦ rw z ((Codes-uint e h).written)
]

pub Reads-error :
    (e : ℕ) {b : Bool} → b ≡ not (e == 0) → e < 2 ^ 64 → Reads (decode_error b) (error_bytes e) e
unfolding decode_error
Reads-error e q h = elim (Bool-cases (e == 0)) [
  | inl z ↦ rw (q, z) (Reads-val (sym ((==_iff e 0).0 z)) (Reads-pure 0))
  | inr z ↦ rw (q, z) ((Codes-uint e h).read)
]

pub Safe-error : (b : Bool) → Safe (decode_error b)
unfolding decode_error
Safe-error true = Safe-uint
Safe-error false = Safe-pure 0
