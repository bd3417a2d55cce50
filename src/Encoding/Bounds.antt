-- ===== src/Encoding/Bounds.antt =====
-- The readers of compact_encoding.rs on arbitrary bytes.
use peeroxide.Common.{ℕ, List}
use peeroxide.Encoding.State.{State}
use peeroxide.Encoding.Laws.{WellFormed, Within}
use peeroxide.Encoding.Uint.{decode_uint}
use peeroxide.Encoding.Uint.Laws.{Safe-uint}
use peeroxide.Encoding.Bytes.{decode_buffer}
use peeroxide.Encoding.Bytes.Laws.{Safe-buffer}
use peeroxide.Encoding.Arrays.{decode_uint_array, decode_string_array}
use peeroxide.Encoding.Arrays.Laws.{Safe-uint_array, Safe-string_array}

-- With a cursor in bounds, decode_uint does not panic, leaves the buffer and its end alone, and
-- moves the cursor forward within the bounds, whether it returns a number or an error.
pub decode_uint-Within : (s : State) → WellFormed s → Within s (decode_uint s)
decode_uint-Within s v = Safe-uint.at s v

-- With a cursor in bounds, and whatever length the bytes claim, decode_buffer does not panic,
-- leaves the buffer and its end alone, and moves the cursor forward within the bounds.
pub decode_buffer-Within : (s : State) → WellFormed s → Within s (decode_buffer s)
decode_buffer-Within s v = Safe-buffer.at s v

-- With a cursor in bounds, and whatever count the bytes claim, decode_uint_array does not panic,
-- leaves the buffer and its end alone, and moves the cursor forward within the bounds.
pub decode_uint_array-Within : (s : State) → WellFormed s → Within s (decode_uint_array s)
decode_uint_array-Within s v = Safe-uint_array.at s v

-- With a cursor in bounds, and whatever count and lengths the bytes claim, decode_string_array
-- does not panic, leaves the buffer and its end alone, and moves the cursor forward within the
-- bounds, for any lossy conversion.
pub decode_string_array-Within :
    (lossy : List ℕ → List ℕ) (s : State) → WellFormed s → Within s (decode_string_array lossy s)
decode_string_array-Within lossy s v = (Safe-string_array lossy).at s v
