-- ===== src/Encoding/Arrays.antt =====
-- Arrays of compact_encoding.rs: a count, then the elements.
pub mod Laws
use peeroxide.Common.{ℕ, zero, suc, ◌+◌, Option, List, [], ◌∷◌, length, ltb, if◌then◌else◌}
use peeroxide.Encoding.State.{State, M, ◌>>=◌, ◌>>◌, pure, raise, array_too_large}
use peeroxide.Encoding.Uint.{preencode_uint, encode_uint, decode_uint}
use peeroxide.Encoding.Bytes.{
  preencode_buffer, encode_buffer, decode_buffer, preencode_string, encode_string, decode_string,
}

abbrev pub max_array_length : ℕ
max_array_length = 0x100000

-- The loops over the elements.
module _ {A : Type 0} where
  unfoldable pub preencode_each : (A → State → State) → List A → State → State
  preencode_each p [] s = s
  preencode_each p (x ∷ xs) s = preencode_each p xs (p x s)

  unfoldable pub encode_each : (A → M (Unit {0})) → List A → M (Unit {0})
  encode_each w [] = pure tt
  encode_each w (x ∷ xs) = do w x; encode_each w xs

  unfoldable pub decode_times : M A → ℕ → M (List A)
  decode_times d zero = pure []
  decode_times d (suc n) = do x ← d; xs ← decode_times d n; pure (x ∷ xs)

  unfoldable pub decode_count : M A → ℕ → M (List A)
  decode_count d len =
      if ltb max_array_length len then raise (array_too_large len) else decode_times d len

unfoldable pub preencode_uint_array : List ℕ → State → State
preencode_uint_array xs s = preencode_each preencode_uint xs (preencode_uint (length xs) s)

unfoldable pub encode_uint_array : List ℕ → M (Unit {0})
encode_uint_array xs = do encode_uint (length xs); encode_each encode_uint xs

unfoldable pub decode_uint_array : M (List ℕ)
decode_uint_array = do len ← decode_uint; decode_count decode_uint len

unfoldable pub preencode_buffer_array : List (Option (List ℕ)) → State → State
preencode_buffer_array xs s = preencode_each preencode_buffer xs (preencode_uint (length xs) s)

unfoldable pub encode_buffer_array : List (Option (List ℕ)) → M (Unit {0})
encode_buffer_array xs = do encode_uint (length xs); encode_each encode_buffer xs

unfoldable pub decode_buffer_array : M (List (Option (List ℕ)))
decode_buffer_array = do len ← decode_uint; decode_count decode_buffer len

unfoldable pub preencode_string_array : List (List ℕ) → State → State
preencode_string_array xs s = preencode_each preencode_string xs (preencode_uint (length xs) s)

unfoldable pub encode_string_array : List (List ℕ) → M (Unit {0})
encode_string_array xs = do encode_uint (length xs); encode_each encode_string xs

unfoldable pub decode_string_array : (List ℕ → List ℕ) → M (List (List ℕ))
decode_string_array lossy = do len ← decode_uint; decode_count (decode_string lossy) len
