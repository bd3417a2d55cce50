-- ===== src/Examples/Codec.antt =====
-- compact_encoding.rs on concrete values.
use peeroxide.Common.{ℕ, List, [], ◌∷◌, map, if◌then◌else◌, ltb, arith}
use peeroxide.Encoding.State.{State}
use peeroxide.Encoding.Laws.{RoundTrips}
use peeroxide.Encoding.Uint.{preencode_uint, encode_uint, decode_uint}
use peeroxide.Encoding.Ip.{dotted}
use peeroxide.Encoding.RoundTrips.{uint_round_trip}

-- A lossy conversion that turns every byte beyond ASCII into a question mark.
abbrev ascii : List ℕ → List ℕ
ascii bs = map (λ b. if ltb b 128 then b else 63) bs

abbrev words : List (List ℕ)
words = (104 ∷ 105 ∷ []) ∷ [] ∷ []

abbrev home_address : List ℕ
home_address = dotted 127 0 0 1

-- A count of 4, two bytes of it, and no more.
abbrev cut_short : State
cut_short = record { start = 0; end = 3; buffer = 4 ∷ 7 ∷ 0xFD ∷ [] }

uint_round_trip_example : RoundTrips preencode_uint encode_uint decode_uint 0xFD 0xFD
uint_round_trip_example = uint_round_trip 0xFD (omega arith)
