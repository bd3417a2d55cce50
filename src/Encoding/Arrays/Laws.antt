-- ===== src/Encoding/Arrays/Laws.antt =====
-- Arrays: size, writer and reader, from those of the elements.
use peeroxide.Common.{
  ℕ, zero, suc, ◌^◌, ◌≤◌, ◌<◌, ◌≡◌, ap, ◌∙◌, inl, inr, false, ltb, Bool-cases, Option, List, [],
  ◌∷◌, ◌++◌, map, arith, All, length, length-append,
}
use peeroxide.Encoding.State.{State, M, ◌>>=◌, ◌>>◌, reserve, array_too_large}
use peeroxide.Encoding.Laws.{
  Reads, Writes, Sizes, Codes, Safe, Reads-bind, Reads-return, Reads-pure, Writes-nothing,
  Writes-bind, Safe-bind, Safe-pure, Safe-raise,
}
use peeroxide.Encoding.Uint.{preencode_uint, encode_uint, decode_uint}
use peeroxide.Encoding.Uint.Laws.{uint_bytes, Codes-uint, Safe-uint}
use peeroxide.Encoding.Bytes.{
  preencode_buffer, encode_buffer, decode_buffer, preencode_string, encode_string, decode_string,
}
use peeroxide.Encoding.Bytes.Laws.{
  Codes-buffer, Codes-string, Safe-buffer, Safe-string, normal, buffer_bytes, option_length,
}
use peeroxide.Encoding.Arrays.{
  max_array_length, preencode_each, encode_each, decode_times, decode_count, preencode_uint_array,
  encode_uint_array, decode_uint_array, preencode_buffer_array, encode_buffer_array,
  decode_buffer_array, preencode_string_array, encode_string_array, decode_string_array,
}

-- The bytes of the elements, one after the other.
abbrev pub joined : {A : Type 0} → (A → List ℕ) → List A → List ℕ
joined bytes [] = []
joined bytes (x ∷ xs) = bytes x ++ joined bytes xs

module _ {A B : Type 0} (p : A → State → State) (w : A → M (Unit {0})) (d : M B) (back : A → B)
    (bytes : A → List ℕ) where
  -- What holds of each element.
  abbrev pub EachCodes : List A → Type 0
  EachCodes xs = All (λ x. Codes p w d x (back x) (bytes x)) xs

  Sizes-each : (xs : List A) → EachCodes xs → Sizes (preencode_each p xs) (length (joined bytes xs))
  unfolding preencode_each
  Sizes-each [] h s = ap (λ n. record s { end = n }) (omega arith)
  Sizes-each (x ∷ xs) (hx, hxs) s =
      ap (preencode_each p xs) (hx.sized s)
      ∙ Sizes-each xs hxs (reserve (length (bytes x)) s)
      ∙ ap (λ n. record s { end = n }) (omega (arith, length-append (bytes x) (joined bytes xs)))

  Writes-each : (xs : List A) → EachCodes xs → Writes (encode_each w xs) (joined bytes xs)
  unfolding encode_each
  Writes-each [] h = Writes-nothing
  Writes-each (x ∷ xs) (hx, hxs) = Writes-bind hx.written (Writes-each xs hxs)

  Reads-times :
      (xs : List A)
      → EachCodes xs
      → Reads (decode_times d (length xs)) (joined bytes xs) (map back xs)
  unfolding decode_times
  Reads-times [] h = Reads-pure []
  Reads-times (x ∷ xs) (hx, hxs) =
      Reads-bind _ hx.read (Reads-return (λ ys. back x ∷ ys) (Reads-times xs hxs))

  pub Codes-array :
      (xs : List A)
      → length xs ≤ max_array_length
      → EachCodes xs
      → Codes
          (λ ys s. preencode_each p ys (preencode_uint (length ys) s))
          (λ ys. encode_uint (length ys) >> encode_each w ys)
          (decode_uint >>= decode_count d)
          xs
          (map back xs)
          (uint_bytes (length xs) ++ joined bytes xs)
  unfolding decode_count
  Codes-array xs fits h =
      let count = Codes-uint (length xs) (omega arith) in
      let front : ltb max_array_length (length xs) ≡ false = ground arith in
      record {
        sized = λ s.
            ap (preencode_each p xs) (count.sized s)
            ∙ Sizes-each xs h (reserve (length (uint_bytes (length xs))) s)
            ∙ ap (λ n. record s { end = n })
                (omega (arith, length-append (uint_bytes (length xs)) (joined bytes xs)));
        written = Writes-bind count.written (Writes-each xs h);
        read = Reads-bind _ count.read (rw front (Reads-times xs h));
      }

module _ {A : Type 0} {d : M A} (sd : Safe d) where
  pub Safe-times : (n : ℕ) → Safe (decode_times d n)
  unfolding decode_times
  Safe-times zero = Safe-pure []
  Safe-times (suc n) = Safe-bind _ sd (λ x. Safe-bind _ (Safe-times n) (λ xs. Safe-pure _))

  pub Safe-array : Safe (decode_uint >>= decode_count d)
  unfolding decode_count
  Safe-array = Safe-bind _ Safe-uint λ n. elim (Bool-cases (ltb max_array_length n)) [
    | inl e ↦ rw e (Safe-raise (array_too_large n))
    | inr e ↦ rw e (Safe-times n)
  ]

each_uint :
    (xs : List ℕ)
    → All (λ x. x < 2 ^ 64) xs
    → EachCodes preencode_uint encode_uint decode_uint (λ x. x) uint_bytes xs
each_uint [] h = tt
each_uint (x ∷ xs) h = (Codes-uint x h.0, each_uint xs h.1)

each_buffer :
    (xs : List (Option (List ℕ)))
    → All (λ b. option_length b < 2 ^ 64) xs
    → EachCodes preencode_buffer encode_buffer decode_buffer normal buffer_bytes xs
each_buffer [] h = tt
each_buffer (x ∷ xs) h = (Codes-buffer x h.0, each_buffer xs h.1)

abbrev pub string_bytes : List ℕ → List ℕ
string_bytes t = uint_bytes (length t) ++ t

each_string :
    (lossy : List ℕ → List ℕ) (xs : List (List ℕ))
    → All (λ t. length t < 2 ^ 64) xs
    → EachCodes preencode_string encode_string (decode_string lossy) lossy string_bytes xs
each_string lossy [] h = tt
each_string lossy (x ∷ xs) h = (Codes-string lossy x h.0, each_string lossy xs h.1)

pub Codes-uint_array :
    (xs : List ℕ)
    → length xs ≤ max_array_length
    → All (λ x. x < 2 ^ 64) xs
    → Codes preencode_uint_array encode_uint_array decode_uint_array xs
        (map (λ x. x) xs)
        (uint_bytes (length xs) ++ joined uint_bytes xs)
unfolding preencode_uint_array encode_uint_array decode_uint_array
Codes-uint_array xs n h = Codes-array _ _ _ _ _ xs n (each_uint xs h)

pub Codes-buffer_array :
    (xs : List (Option (List ℕ)))
    → length xs ≤ max_array_length
    → All (λ b. option_length b < 2 ^ 64) xs
    → Codes preencode_buffer_array encode_buffer_array decode_buffer_array xs
        (map normal xs)
        (uint_bytes (length xs) ++ joined buffer_bytes xs)
unfolding preencode_buffer_array encode_buffer_array decode_buffer_array
Codes-buffer_array xs n h = Codes-array _ _ _ _ _ xs n (each_buffer xs h)

pub Codes-string_array :
    (lossy : List ℕ → List ℕ) (xs : List (List ℕ))
    → length xs ≤ max_array_length
    → All (λ t. length t < 2 ^ 64) xs
    → Codes preencode_string_array encode_string_array
        (decode_string_array lossy)
        xs
        (map lossy xs)
        (uint_bytes (length xs) ++ joined string_bytes xs)
unfolding preencode_string_array encode_string_array decode_string_array
Codes-string_array lossy xs n h = Codes-array _ _ _ _ _ xs n (each_string lossy xs h)

pub Safe-uint_array : Safe decode_uint_array
unfolding decode_uint_array
Safe-uint_array = Safe-array Safe-uint

pub Safe-buffer_array : Safe decode_buffer_array
unfolding decode_buffer_array
Safe-buffer_array = Safe-array Safe-buffer

pub Safe-string_array : (lossy : List ℕ → List ℕ) → Safe (decode_string_array lossy)
unfolding decode_string_array
Safe-string_array lossy = Safe-array (Safe-string lossy)
