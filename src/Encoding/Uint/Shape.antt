-- ===== src/Encoding/Uint/Shape.antt =====
-- What bytes decode_uint of compact_encoding.rs reads a large number from.
use peeroxide.Common.{
  ℕ, zero, suc, ◌+◌, ◌-◌, ◌*◌, ◌^◌, ◌≤◌, ◌<◌, ◌≡◌, refl, sym, ap, ap₂, subst, ◌∙◌, inl, inr, true,
  Bool-cases, ltb, lt→ltb, leb, leb→le, not_leb, ◌==◌, List, [], ◌∷◌, ◌++◌, arith, length,
  length-take, take, drop, take-append-drop, length-append,
}
use peeroxide.Encoding.State.{
  State, M, ok, err, out_of_bounds, remaining, check_remaining, from_buffer, ◌>>=◌, ◌>>◌,
}
use peeroxide.Encoding.Laws.{Reads}
use peeroxide.Encoding.Words.{
  to_le_bytes, from_le_bytes, decode_uint8, decode_uint16, decode_uint32, decode_uint64,
}
use peeroxide.Encoding.Words.Narrow.{Reads-uint8, Reads-uint16, Reads-uint32}
use peeroxide.Encoding.Words.Wide.{Reads-uint64}
use peeroxide.Encoding.Uint.{decode_tagged, decode_uint}
use peeroxide.Header.Laws.{IsBytes, to_le_bytes-from_le_bytes}

-- The numbers of `n` bytes.
abbrev byte_range : ℕ → ℕ
byte_range zero = 1
byte_range (suc n) = 256 * byte_range n

from_le_bytes-lt : (bs : List ℕ) → IsBytes bs → from_le_bytes bs < byte_range (length bs)
from_le_bytes-lt [] h = omega arith
from_le_bytes-lt (b ∷ bs) (hb, h) = omega (arith, from_le_bytes-lt bs h)

IsBytes-take : (n : ℕ) (bs : List ℕ) → IsBytes bs → IsBytes (take n bs)
IsBytes-take zero bs h = tt
IsBytes-take (suc n) [] h = tt
IsBytes-take (suc n) (b ∷ bs) (hb, h) = (hb, IsBytes-take n bs h)

pub IsBytes-front : (xs ys : List ℕ) → IsBytes (xs ++ ys) → IsBytes xs
IsBytes-front [] ys h = tt
IsBytes-front (x ∷ xs) ys (hx, h) = (hx, IsBytes-front xs ys h)

-- The cursor before `bs`, at the end of the buffer.
abbrev before : List ℕ → List ℕ → State
before pre bs = record { start = length pre; end = length pre + length bs; buffer = pre ++ bs }

short_check :
    {A : Type 0} (n : ℕ) (d : M A) (s : State) (a : A) (t : State)
    → s.end - s.start < n
    → (check_remaining n >> d) s ≡ ok a t
    → ⊥
unfolding check_remaining remaining
short_check n d s a t h e =
    let low : ltb (s.end - s.start) n ≡ true = lt→ltb _ _ h in
    let fails : (check_remaining n >> d) s ≡ err (out_of_bounds n (s.end - s.start)) s =
      rw (◌>>◌, ◌>>=◌, check_remaining, remaining, low) refl in
    cc

-- A reader of `n` bytes that makes their number of them, and refuses fewer.
record ReadsWord (d : M ℕ) (n : ℕ) : Type 0 where
  whole : (v : ℕ) → v < byte_range n → Reads d (to_le_bytes n v) v
  short : (s : State) (a : ℕ) (t : State) → s.end - s.start < n → d s ≡ ok a t → ⊥

-- What it has read is the number of the next `n` bytes.
record Word (n count : ℕ) (bs : List ℕ) : Type 0 where
  word : List ℕ
  rest : List ℕ
  split : bs ≡ word ++ rest
  width : length word ≡ n
  value : count ≡ from_le_bytes word
  bound : count < byte_range n

whole_word :
    (d : M ℕ) (n : ℕ) (pre word rest : List ℕ)
    → ReadsWord d n
    → IsBytes word
    → length word ≡ n
    → (from_le_bytes word < byte_range n)
      × (s : State) × (d (before pre (word ++ rest)) ≡ ok (from_le_bytes word) s)
whole_word d n pre word rest reads h wl =
    let c : ℕ = from_le_bytes word in
    let lim : c < byte_range n = omega (arith, from_le_bytes-lt word h, ap byte_range wl) in
    let bytes : to_le_bytes n c ≡ word =
      ap (λ m. to_le_bytes m c) (sym wl) ∙ to_le_bytes-from_le_bytes word h in
    (
      lim,
      _,
      (subst (λ zs. Reads d zs c) bytes (reads.whole c lim)).at (before pre (word ++ rest)) pre rest
          refl refl (omega (arith, length-append word rest)),
    )

ReadsWord-Word :
    (d : M ℕ) (n : ℕ) (pre bs : List ℕ) (count : ℕ) (t : State)
    → ReadsWord d n
    → IsBytes bs
    → d (before pre bs) ≡ ok count t
    → Word n count bs
ReadsWord-Word d n pre bs count t reads h e = elim (Bool-cases (leb n (length bs))) [
  | inl long ↦
      let w : List ℕ = take n bs in
      let r : List ℕ = drop n bs in
      let c : ℕ = from_le_bytes w in
      let wl : length w ≡ n = omega (arith, length-take n bs, leb→le n (length bs) long) in
      let cut : bs ≡ w ++ r = sym (take-append-drop n bs) in
      let (lim, u, known) = whole_word d n pre w r reads (IsBytes-take n bs h) wl in
      let same : count ≡ from_le_bytes w = cc (ap (λ zs. d (before pre zs)) cut, known, e) in
      record {
        word = w;
        rest = r;
        split = cut;
        width = wl;
        value = same;
        bound = omega (arith, same, lim);
      }
  | inr few ↦ absurd (reads.short _ count t (omega (arith, not_leb n (length bs) few)) e)
]

word16 : ReadsWord decode_uint16 2
unfolding decode_uint16
word16 = record { whole = λ v h. Reads-uint16 v h; short = λ s a t. short_check 2 _ s a t }

word32 : ReadsWord decode_uint32 4
unfolding decode_uint32
word32 = record { whole = λ v h. Reads-uint32 v h; short = λ s a t. short_check 4 _ s a t }

word64 : ReadsWord decode_uint64 8
unfolding decode_uint64
word64 = record { whole = λ v h. Reads-uint64 v h; short = λ s a t. short_check 8 _ s a t }

no_byte : (count : ℕ) (t : State) → decode_uint (from_buffer []) ≡ ok count t → ⊥
unfolding decode_uint decode_uint8 from_buffer check_remaining remaining
no_byte count t e = cc

-- Numbers of 2^32 or more are read from nine bytes: 255, and the number itself.
pub data Large (count : ℕ) : List ℕ → Type 0 where
  nine :
      (word rest : List ℕ)
      → length word ≡ 8
      → count ≡ from_le_bytes word
      → Large count (255 ∷ (word ++ rest))

tagged-Word :
    (a : ℕ) (bs : List ℕ) (count : ℕ) (t : State)
    → a < 256
    → IsBytes bs
    → 2 ^ 32 ≤ count
    → decode_tagged a (before (a ∷ []) bs) ≡ ok count t
    → (a ≡ 255) × Word 8 count bs
unfolding decode_tagged
tagged-Word a bs count t ha h large e =
    let s : State = before (a ∷ []) bs in
    elim (Bool-cases (leb a 0xfc)) [
      | inl e1 ↦
          let one : decode_tagged a s ≡ ok a s = rw (decode_tagged, e1) refl in
          let same : count ≡ a = cc in absurd (omega (arith, same))
      | inr e1 ↦ elim (Bool-cases (a == 0xfd)) [
        | inl e2 ↦
            let two : decode_tagged a s ≡ decode_uint16 s = rw (decode_tagged, e1, e2) refl in
            let w = ReadsWord-Word decode_uint16 2 (a ∷ []) bs count t word16 h (sym two ∙ e) in
            absurd (omega (arith, w.bound))
        | inr e2 ↦ elim (Bool-cases (a == 0xfe)) [
          | inl e3 ↦
              let four : decode_tagged a s ≡ decode_uint32 s =
                rw (decode_tagged, e1, e2, e3) refl in
              let w = ReadsWord-Word decode_uint32 4 (a ∷ []) bs count t word32 h (sym four ∙ e) in
              absurd (omega (arith, w.bound))
          | inr e3 ↦
              let eight : decode_tagged a s ≡ decode_uint64 s =
                rw (decode_tagged, e1, e2, e3) refl in
              (
                ground arith,
                ReadsWord-Word decode_uint64 8 (a ∷ []) bs count t word64 h (sym eight ∙ e),
              )
        ]
      ]
    ]

first_byte : (a : ℕ) (bs : List ℕ) → decode_uint8 (from_buffer (a ∷ bs)) ≡ ok a (before (a ∷ []) bs)
unfolding from_buffer
first_byte a bs =
    (Reads-uint8 a).at (from_buffer (a ∷ bs)) [] bs refl refl (omega arith)
    ∙ ap₂ (λ i j. ok a (record { start = i; end = j; buffer = a ∷ bs })) (omega arith) (omega arith)

pub decode_uint-Large :
    (bs : List ℕ) (count : ℕ) (t : State)
    → IsBytes bs
    → 2 ^ 32 ≤ count
    → decode_uint (from_buffer bs) ≡ ok count t
    → Large count bs
unfolding decode_uint
decode_uint-Large [] count t h large e = absurd (no_byte count t e)
decode_uint-Large (a ∷ bs) count t (ha, h) large e =
    let tagged : decode_uint (from_buffer (a ∷ bs)) ≡ decode_tagged a (before (a ∷ []) bs) =
      rw (decode_uint, ◌>>=◌, first_byte a bs) refl in
    let (is_tag, w) = tagged-Word a bs count t ha h large (sym tagged ∙ e) in
    rw (is_tag, w.split) (nine w.word w.rest w.width w.value)

pub nine_bytes :
    (word rest : List ℕ)
    → IsBytes word
    → length word ≡ 8
    → (s : State) × (decode_uint (from_buffer (255 ∷ (word ++ rest))) ≡ ok (from_le_bytes word) s)
unfolding decode_uint decode_tagged
nine_bytes word rest h wl =
    let (lim, s, e) = whole_word decode_uint64 8 (255 ∷ []) word rest word64 h wl in
    (s, rw (◌>>=◌, first_byte 255 (word ++ rest)) e)
