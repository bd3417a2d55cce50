-- ===== src/Encoding/Bytes/Laws.antt =====
-- Buffers, strings and fixed buffers: size, writer and reader.
use peeroxide.Common.{
  ℕ, suc, ◌^◌, ◌<◌, ◌≡◌, ◌≢◌, refl, sym, ap, ◌∙◌, inl, inr, ◌⊎◌, Bool, true, false, ◌==◌,
  if◌then◌else◌, Bool-cases, Option, none, some, List, [], ◌∷◌, ◌++◌, arith, length, length-append,
}
use peeroxide.Encoding.State.{State, ok, err, incorrect_buffer_size, ◌>>=◌, ◌>>◌, reserve, advance}
use peeroxide.Encoding.State.Laws.{
  check_remaining-fits, load_slice-front, load_slice-bounds, Writes-store_slice, Safe-check,
  load-front, load-bounds,
}
use peeroxide.Encoding.Laws.{
  Reads, Writes, Codes, Safe, Reads-bind, Reads-pure, Reads-return, Reads-val, Writes-bind,
  Safe-bind, Safe-pure,
}
use peeroxide.Encoding.Words.{to_le_bytes, from_le_bytes, encode_uint8}
use peeroxide.Encoding.Words.Narrow.{Writes-uint8, Reads-uint8}
use peeroxide.Encoding.Words.Safety.{Safe-uint8}
use peeroxide.Encoding.Uint.{preencode_uint}
use peeroxide.Encoding.Uint.Laws.{uint_bytes, Codes-uint, Safe-uint}
use peeroxide.Encoding.Bytes.{
  preencode_bool, encode_bool, decode_bool, preencode_float32, encode_float32, decode_float32,
  preencode_float64, encode_float64, decode_float64, preencode_buffer, encode_buffer, decode_buffer,
  buffer_of_length, take_bytes, preencode_string, encode_string, decode_string, preencode_fixed,
  encode_fixed, decode_fixed, encode_fixed32, decode_fixed32, encode_fixed64, decode_fixed64,
}

pub Codes-bool :
    (v : Bool) → Codes preencode_bool encode_bool decode_bool v v ((if v then 1 else 0) ∷ [])
unfolding preencode_bool encode_bool decode_bool
Codes-bool true = record {
  sized = λ s. refl;
  written = Writes-uint8 1;
  read = Reads-return _ (Reads-uint8 1);
}
Codes-bool false = record {
  sized = λ s. refl;
  written = Writes-uint8 0;
  read = Reads-return _ (Reads-uint8 0);
}

pub Safe-bool : Safe decode_bool
unfolding decode_bool
Safe-bool = Safe-bind _ Safe-uint8 (λ n. Safe-pure _)

pub Reads-take_bytes : (bs : List ℕ) (n : ℕ) → n ≡ length bs → Reads (take_bytes n) bs bs
unfolding take_bytes advance
Reads-take_bytes bs n e = record {
  at = λ s pre post hs hb he. rw (
    check_remaining-fits n s (omega arith),
    load_slice-front s pre bs post n hs hb e,
    ◌>>=◌,
    ◌>>◌,
    e,
  );
}

pub Safe-take_bytes : (n : ℕ) → Safe (take_bytes n)
unfolding take_bytes advance
Safe-take_bytes n = Safe-check n _ λ s wf h.
    let (b, e, l) = load_slice-bounds n s (omega arith) in
    rw (e, ◌>>=◌, ◌>>◌) (refl, refl, omega arith, omega arith)

-- A length and the bytes; an absent buffer is a length of 0.
abbrev pub buffer_bytes : Option (List ℕ) → List ℕ
buffer_bytes none = 0 ∷ []
buffer_bytes (some b) = uint_bytes (length b) ++ b

abbrev pub option_length : Option (List ℕ) → ℕ
option_length none = 0
option_length (some b) = length b

-- What `decode_buffer` makes of an encoded buffer: an empty one comes back as absent.
abbrev pub normal : Option (List ℕ) → Option (List ℕ)
normal none = none
normal (some []) = none
normal (some (b ∷ bs)) = some (b ∷ bs)

sized_after :
    (bs : List ℕ) (s : State)
    → length bs < 2 ^ 64
    → reserve (length bs) (preencode_uint (length bs) s)
      ≡ reserve (length (uint_bytes (length bs) ++ bs)) s
sized_after bs s h =
    ap (reserve (length bs)) ((Codes-uint (length bs) h).sized s)
    ∙ ap (λ n. record s { end = n }) (omega (arith, length-append (uint_bytes (length bs)) bs))

Writes-after :
    (bs : List ℕ) → length bs < 2 ^ 64 → Writes (encode_string bs) (uint_bytes (length bs) ++ bs)
unfolding encode_string
Writes-after bs h =
    Writes-bind (Codes-uint (length bs) h).written (Writes-store_slice bs (length bs) refl)

Reads-present :
    (n : ℕ) {bs : List ℕ}
    → Reads (take_bytes (suc n)) bs bs
    → Reads (buffer_of_length (suc n)) bs (some bs)
unfolding buffer_of_length
Reads-present n r = let e : (suc n == 0) ≡ false = ground arith in rw e (Reads-return some r)

Reads-buffer :
    (b : Option (List ℕ))
    → option_length b < 2 ^ 64
    → Reads decode_buffer (buffer_bytes b) (normal b)
unfolding decode_buffer buffer_of_length
Reads-buffer none h = Reads-bind _ (Codes-uint 0 (omega arith)).read (Reads-pure none)
Reads-buffer (some []) h = Reads-bind _ (Codes-uint 0 (omega arith)).read (Reads-pure none)
Reads-buffer (some (b ∷ bs)) h =
    Reads-bind _ (Codes-uint (length (b ∷ bs)) h).read
      (Reads-present (length bs) (Reads-take_bytes (b ∷ bs) (length (b ∷ bs)) refl))

pub Codes-buffer :
    (b : Option (List ℕ))
    → option_length b < 2 ^ 64
    → Codes preencode_buffer encode_buffer decode_buffer b (normal b) (buffer_bytes b)
unfolding preencode_buffer encode_buffer encode_string encode_uint8
Codes-buffer none h = record {
  sized = λ s. refl;
  written = Writes-uint8 0;
  read = Reads-buffer none h;
}
Codes-buffer (some b) h = record {
  sized = λ s. sized_after b s h;
  written = Writes-after b h;
  read = Reads-buffer (some b) h;
}

Safe-buffer_of_length : (n : ℕ) → Safe (buffer_of_length n)
unfolding buffer_of_length
Safe-buffer_of_length n = elim (Bool-cases (n == 0)) [
  | inl e ↦ rw e (Safe-pure none)
  | inr e ↦ rw e (Safe-bind _ (Safe-take_bytes n) (λ b. Safe-pure (some b)))
]

pub Safe-buffer : Safe decode_buffer
unfolding decode_buffer
Safe-buffer = Safe-bind _ Safe-uint Safe-buffer_of_length

-- A string comes back as `lossy` makes it.
pub Codes-string :
    (lossy : List ℕ → List ℕ) (t : List ℕ)
    → length t < 2 ^ 64
    → Codes preencode_string encode_string
        (decode_string lossy)
        t
        (lossy t)
        (uint_bytes (length t) ++ t)
unfolding preencode_string decode_string
Codes-string lossy t h = record {
  sized = λ s. sized_after t s h;
  written = Writes-after t h;
  read =
      Reads-bind _ (Codes-uint (length t) h).read
        (Reads-return lossy (Reads-take_bytes t (length t) refl));
}

pub Safe-string : (lossy : List ℕ → List ℕ) → Safe (decode_string lossy)
unfolding decode_string
Safe-string lossy = Safe-bind _ Safe-uint (λ n. Safe-bind _ (Safe-take_bytes n) (λ b. Safe-pure _))

pub Writes-fixed : (b : List ℕ) → Writes (encode_fixed b) b
unfolding encode_fixed
Writes-fixed b = Writes-store_slice b (length b) refl

pub Writes-fixed32 : (b : List ℕ) → Writes (encode_fixed32 b) b
unfolding encode_fixed32
Writes-fixed32 b = Writes-fixed b

pub Reads-fixed32 : (b : List ℕ) → length b ≡ 32 → Reads decode_fixed32 b b
unfolding decode_fixed32
Reads-fixed32 b h = Reads-take_bytes b 32 (sym h)

pub Safe-fixed32 : Safe decode_fixed32
unfolding decode_fixed32
Safe-fixed32 = Safe-take_bytes 32

pub Safe-fixed64 : Safe decode_fixed64
unfolding decode_fixed64
Safe-fixed64 = Safe-take_bytes 64

pub Writes-fixed64 : (b : List ℕ) → Writes (encode_fixed64 b) b
unfolding encode_fixed64
Writes-fixed64 b = Writes-fixed b

pub Reads-fixed64 : (b : List ℕ) → length b ≡ 64 → Reads decode_fixed64 b b
unfolding decode_fixed64
Reads-fixed64 b h = Reads-take_bytes b 64 (sym h)

pub Reads-fixed : (b : List ℕ) → Reads (decode_fixed (length b)) b b
unfolding decode_fixed
Reads-fixed b = Reads-take_bytes b (length b) refl

pub Safe-fixed : (n : ℕ) → Safe (decode_fixed n)
unfolding decode_fixed
Safe-fixed n = Safe-take_bytes n

-- preencode_fixed either has a buffer of the right length and reserves it, or a buffer of
-- another length and returns the error with both lengths, the state unchanged.
pub preencode_fixed_lem :
    (n : ℕ) (b : List ℕ) (s : State)
    → ((length b ≡ n) × (preencode_fixed n b s ≡ ok tt (reserve n s)))
      ⊎ ((length b ≢ n) × (preencode_fixed n b s ≡ err (incorrect_buffer_size n (length b)) s))
unfolding preencode_fixed
preencode_fixed_lem n b s = ground arith

float32-loads :
    (b0 b1 b2 b3 : ℕ)
    → Reads decode_float32 (b0 ∷ b1 ∷ b2 ∷ b3 ∷ []) (from_le_bytes (b0 ∷ b1 ∷ b2 ∷ b3 ∷ []))
unfolding decode_float32 advance
float32-loads b0 b1 b2 b3 = record {
  at = λ s pre post hs hb he.
      let ys : List ℕ = b0 ∷ b1 ∷ b2 ∷ b3 ∷ post in
      simp (
        check_remaining-fits 4 s he,
        load-front 0 s pre ys hs hb,
        load-front 1 s pre ys hs hb,
        load-front 2 s pre ys hs hb,
        load-front 3 s pre ys hs hb,
        ◌>>=◌,
        ◌>>◌,
      );
}

pub Codes-float32 :
    (v : ℕ)
    → v < 2 ^ 32
    → Codes preencode_float32 encode_float32 decode_float32 v v (to_le_bytes 4 v)
unfolding preencode_float32 encode_float32
Codes-float32 v h = record {
  sized = λ s. refl;
  written = Writes-store_slice (to_le_bytes 4 v) 4 refl;
  read = Reads-val (omega arith) (float32-loads _ _ _ _);
}

pub Safe-float32 : Safe decode_float32
unfolding decode_float32 advance
Safe-float32 = Safe-check 4 _ λ s wf h.
    let (b0, e0) = load-bounds 0 s (omega arith) in
    let (b1, e1) = load-bounds 1 s (omega arith) in
    let (b2, e2) = load-bounds 2 s (omega arith) in
    let (b3, e3) = load-bounds 3 s (omega arith) in
    rw (e0, e1, e2, e3, ◌>>=◌, ◌>>◌) (refl, refl, omega arith, omega arith)

float64-loads :
    (b0 b1 b2 b3 b4 b5 b6 b7 : ℕ)
    → Reads decode_float64
        (b0 ∷ b1 ∷ b2 ∷ b3 ∷ b4 ∷ b5 ∷ b6 ∷ b7 ∷ [])
        (from_le_bytes (b0 ∷ b1 ∷ b2 ∷ b3 ∷ b4 ∷ b5 ∷ b6 ∷ b7 ∷ []))
unfolding decode_float64 advance
float64-loads b0 b1 b2 b3 b4 b5 b6 b7 = record {
  at = λ s pre post hs hb he.
      let ys : List ℕ = b0 ∷ b1 ∷ b2 ∷ b3 ∷ b4 ∷ b5 ∷ b6 ∷ b7 ∷ post in
      simp (
        check_remaining-fits 8 s he,
        load-front 0 s pre ys hs hb,
        load-front 1 s pre ys hs hb,
        load-front 2 s pre ys hs hb,
        load-front 3 s pre ys hs hb,
        load-front 4 s pre ys hs hb,
        load-front 5 s pre ys hs hb,
        load-front 6 s pre ys hs hb,
        load-front 7 s pre ys hs hb,
        ◌>>=◌,
        ◌>>◌,
      );
}

pub Codes-float64 :
    (v : ℕ)
    → v < 2 ^ 64
    → Codes preencode_float64 encode_float64 decode_float64 v v (to_le_bytes 8 v)
unfolding preencode_float64 encode_float64
Codes-float64 v h = record {
  sized = λ s. refl;
  written = Writes-store_slice (to_le_bytes 8 v) 8 refl;
  read = Reads-val (omega arith) (float64-loads _ _ _ _ _ _ _ _);
}

pub Safe-float64 : Safe decode_float64
unfolding decode_float64 advance
Safe-float64 = Safe-check 8 _ λ s wf h.
    let (b0, e0) = load-bounds 0 s (omega arith) in
    let (b1, e1) = load-bounds 1 s (omega arith) in
    let (b2, e2) = load-bounds 2 s (omega arith) in
    let (b3, e3) = load-bounds 3 s (omega arith) in
    let (b4, e4) = load-bounds 4 s (omega arith) in
    let (b5, e5) = load-bounds 5 s (omega arith) in
    let (b6, e6) = load-bounds 6 s (omega arith) in
    let (b7, e7) = load-bounds 7 s (omega arith) in
    rw (e0, e1, e2, e3, e4, e5, e6, e7, ◌>>=◌, ◌>>◌) (refl, refl, omega arith, omega arith)
