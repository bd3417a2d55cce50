-- ===== src/Encoding/Words/Narrow.antt =====
-- One to four bytes: what is written, read and reserved.
use peeroxide.Common.{
  ℕ, zero, suc, ◌+◌, ◌*◌, ◌/◌, ◌%◌, ◌^◌, ◌<◌, ◌≡◌, refl, ap, List, [], ◌∷◌, ◌++◌, arith, bit_or,
  length,
}
use peeroxide.Common.Bits.{bit_or_shifted}
use peeroxide.Encoding.State.{State, ok, ◌>>=◌, ◌>>◌, advance}
use peeroxide.Encoding.State.Laws.{
  check_remaining-fits, load-front, store-front, Writes-store_slice,
}
use peeroxide.Encoding.Laws.{Reads, Writes, Reads-val, Writes-eq}
use peeroxide.Encoding.Words.{
  to_le_bytes, from_le_bytes, cast, shl, shr, encode_uint8, decode_uint8, encode_uint16,
  decode_uint16, encode_uint24, decode_uint24, encode_uint32, decode_uint32,
}

pub length-to_le_bytes : (n v : ℕ) → length (to_le_bytes n v) ≡ n
length-to_le_bytes zero v = refl
length-to_le_bytes (suc n) v = ap suc (length-to_le_bytes n (v / 256))

uint8-stores :
    (v : ℕ) (s : State) (pre old post : List ℕ)
    → s.start ≡ length pre
    → s.buffer ≡ pre ++ (old ++ post)
    → length old ≡ 1
    → encode_uint8 v s ≡ ok tt (record s { start = s.start + 1; buffer = pre ++ (v ∷ post) })
unfolding encode_uint8 advance
uint8-stores v s pre ([]) post hs hb hl = absurd (omega arith)
uint8-stores v s pre (o0 ∷ []) post hs hb hl =
    let e0 = store-front 0 v s pre (o0 ∷ post) (v ∷ post) hs hb refl in simp (e0, ◌>>=◌, ◌>>◌)
uint8-stores v s pre (o0 ∷ x ∷ xs) post hs hb hl = absurd (omega arith)

uint16-stores :
    (v : ℕ) (s : State) (pre old post : List ℕ)
    → s.start ≡ length pre
    → s.buffer ≡ pre ++ (old ++ post)
    → length old ≡ 2
    → encode_uint16 v s
      ≡ ok tt
          (record s { start = s.start + 2; buffer = pre ++ ((v % 256) ∷ (v / 256 % 256) ∷ post) })
unfolding encode_uint16 advance
uint16-stores v s pre ([]) post hs hb hl = absurd (omega arith)
uint16-stores v s pre (o0 ∷ []) post hs hb hl = absurd (omega arith)
uint16-stores v s pre (o0 ∷ o1 ∷ []) post hs hb hl =
    let e0 = store-front 0 (v % 256) s pre (o0 ∷ o1 ∷ post) ((v % 256) ∷ o1 ∷ post) hs hb refl in
    let s1 : State = record s { buffer = pre ++ ((v % 256) ∷ o1 ∷ post) } in
    let e1 =
      store-front 1 (v / 256 % 256) s1 pre ((v % 256) ∷ o1 ∷ post)
        ((v % 256) ∷ (v / 256 % 256) ∷ post) hs refl refl in
    simp (e0, e1, ◌>>=◌, ◌>>◌)
uint16-stores v s pre (o0 ∷ o1 ∷ x ∷ xs) post hs hb hl = absurd (omega arith)

uint24-stores :
    (v : ℕ) (s : State) (pre old post : List ℕ)
    → s.start ≡ length pre
    → s.buffer ≡ pre ++ (old ++ post)
    → length old ≡ 3
    → encode_uint24 v s
      ≡ ok tt (record s {
        start = s.start + 3;
        buffer = pre ++ ((cast 8 v) ∷ (cast 8 (shr v 8)) ∷ (cast 8 (shr v 16)) ∷ post);
      })
unfolding encode_uint24 advance
uint24-stores v s pre ([]) post hs hb hl = absurd (omega arith)
uint24-stores v s pre (o0 ∷ []) post hs hb hl = absurd (omega arith)
uint24-stores v s pre (o0 ∷ o1 ∷ []) post hs hb hl = absurd (omega arith)
uint24-stores v s pre (o0 ∷ o1 ∷ o2 ∷ []) post hs hb hl =
    let e0 =
      store-front 0 (cast 8 v) s pre (o0 ∷ o1 ∷ o2 ∷ post) ((cast 8 v) ∷ o1 ∷ o2 ∷ post) hs hb
        refl in
    let s1 : State = record s { buffer = pre ++ ((cast 8 v) ∷ o1 ∷ o2 ∷ post) } in
    let e1 =
      store-front 1 (cast 8 (shr v 8)) s1 pre ((cast 8 v) ∷ o1 ∷ o2 ∷ post)
        ((cast 8 v) ∷ (cast 8 (shr v 8)) ∷ o2 ∷ post) hs refl refl in
    let s2 : State = record s { buffer = pre ++ ((cast 8 v) ∷ (cast 8 (shr v 8)) ∷ o2 ∷ post) } in
    let e2 =
      store-front 2 (cast 8 (shr v 16)) s2 pre ((cast 8 v) ∷ (cast 8 (shr v 8)) ∷ o2 ∷ post)
        ((cast 8 v) ∷ (cast 8 (shr v 8)) ∷ (cast 8 (shr v 16)) ∷ post) hs refl refl in
    simp (e0, e1, e2, ◌>>=◌, ◌>>◌)
uint24-stores v s pre (o0 ∷ o1 ∷ o2 ∷ x ∷ xs) post hs hb hl = absurd (omega arith)

pub Writes-uint8 : (v : ℕ) → Writes (encode_uint8 v) (v ∷ [])
Writes-uint8 v = record { at = uint8-stores v }

pub Writes-uint16 : (v : ℕ) → Writes (encode_uint16 v) (to_le_bytes 2 v)
Writes-uint16 v = record { at = uint16-stores v }

pub Writes-uint24 : (v : ℕ) → Writes (encode_uint24 v) (to_le_bytes 3 v)
Writes-uint24 v =
    let bytes : List ℕ = cast 8 v ∷ cast 8 (shr v 8) ∷ cast 8 (shr v 16) ∷ [] in
    let e : bytes ≡ to_le_bytes 3 v = ground arith in Writes-eq e (record { at = uint24-stores v })

pub Writes-uint32 : (v : ℕ) → Writes (encode_uint32 v) (to_le_bytes 4 v)
unfolding encode_uint32
Writes-uint32 v = Writes-store_slice (to_le_bytes 4 v) 4 refl

pub Reads-uint8 : (v : ℕ) → Reads decode_uint8 (v ∷ []) v
unfolding decode_uint8 advance
Reads-uint8 v = record {
  at = λ s pre post hs hb he.
      simp (check_remaining-fits 1 s he, load-front 0 s pre (v ∷ post) hs hb, ◌>>=◌, ◌>>◌);
}

uint16-loads : (b0 b1 : ℕ) → Reads decode_uint16 (b0 ∷ b1 ∷ []) (from_le_bytes (b0 ∷ b1 ∷ []))
unfolding decode_uint16 advance
uint16-loads b0 b1 = record {
  at = λ s pre post hs hb he.
      let ys : List ℕ = b0 ∷ b1 ∷ post in
      simp (
        check_remaining-fits 2 s he,
        load-front 0 s pre ys hs hb,
        load-front 1 s pre ys hs hb,
        ◌>>=◌,
        ◌>>◌,
      );
}

pub Reads-uint16 : (v : ℕ) → v < 2 ^ 16 → Reads decode_uint16 (to_le_bytes 2 v) v
Reads-uint16 v h = Reads-val (omega arith) (uint16-loads _ _)

le_three :
    (v : ℕ)
    → v < 2 ^ 24
    → bit_or (bit_or (v % 256) (shl 32 (v / 256 % 256) 8)) (shl 32 (v / 256 / 256 % 256) 16) ≡ v
le_three v h =
    let mid : ℕ = v / 256 % 256 in
    let high : ℕ = v / 256 / 256 % 256 in
    let low : shl 32 mid 8 ≡ mid * 2 ^ 8 = omega arith in
    let top : shl 32 high 16 ≡ high * 2 ^ 16 = omega arith in
    rw
      (
        low,
        top,
        bit_or_shifted 8 (v % 256) mid (omega arith),
        bit_or_shifted 16 (v % 256 + mid * 2 ^ 8) high (omega arith),
      )
      (omega arith)

uint24-loads :
    (b0 b1 b2 : ℕ)
    → Reads decode_uint24 (b0 ∷ b1 ∷ b2 ∷ []) (bit_or (bit_or b0 (shl 32 b1 8)) (shl 32 b2 16))
unfolding decode_uint24 advance
uint24-loads b0 b1 b2 = record {
  at = λ s pre post hs hb he.
      let ys : List ℕ = b0 ∷ b1 ∷ b2 ∷ post in
      simp (
        check_remaining-fits 3 s he,
        load-front 0 s pre ys hs hb,
        load-front 1 s pre ys hs hb,
        load-front 2 s pre ys hs hb,
        ◌>>=◌,
        ◌>>◌,
      );
}

pub Reads-uint24 : (v : ℕ) → v < 2 ^ 24 → Reads decode_uint24 (to_le_bytes 3 v) v
Reads-uint24 v h = Reads-val (le_three v h) (uint24-loads _ _ _)

uint32-loads :
    (b0 b1 b2 b3 : ℕ)
    → Reads decode_uint32 (b0 ∷ b1 ∷ b2 ∷ b3 ∷ []) (from_le_bytes (b0 ∷ b1 ∷ b2 ∷ b3 ∷ []))
unfolding decode_uint32 advance
uint32-loads b0 b1 b2 b3 = record {
  at = λ s pre post hs hb he.
      let ys : List ℕ = b0 ∷ b1 ∷ b2 ∷ b3 ∷ post in
      simp (
        check_remaining-fits 4 s he,
        load-front 0 s pre ys hs hb,
        load-front 1 s pre ys hs hb,
        load-front 2 s pre ys hs hb,
        load-front 3 s pre ys hs hb,
        ◌>>=◌,
        ◌>>◌,
      );
}

pub Reads-uint32 : (v : ℕ) → v < 2 ^ 32 → Reads decode_uint32 (to_le_bytes 4 v) v
Reads-uint32 v h = Reads-val (omega arith) (uint32-loads _ _ _ _)
