-- ===== src/Encoding/Uint/Laws.antt =====
-- The bytes of a variable-length integer: size, writer and reader.
use peeroxide.Common.{
  ℕ, ◌^◌, ◌<◌, ◌≡◌, inl, inr, List, [], ◌∷◌, arith, leb, leb→le, if◌then◌else◌, Bool-cases, length,
}
use native.Mathlib.Nat.{mod-eq_of_lt}
use peeroxide.Encoding.Laws.{
  Reads, Writes, Sizes, Codes, Safe, Reads-bind, Reads-pure, Writes-bind, Safe-bind, Safe-pure,
}
use peeroxide.Encoding.Words.{to_le_bytes, cast, encode_uint8}
use peeroxide.Encoding.Words.Narrow.{
  Writes-uint8, Writes-uint16, Writes-uint32, Reads-uint8, Reads-uint16, Reads-uint32,
}
use peeroxide.Encoding.Words.Wide.{Writes-uint64, Reads-uint64}
use peeroxide.Encoding.Words.Safety.{Safe-uint8, Safe-uint16, Safe-uint32, Safe-uint64}
use peeroxide.Encoding.Uint.{preencode_uint, encode_uint, decode_uint, decode_tagged, store_tag}

-- The shortest form of a 64-bit number.
abbrev pub uint_bytes : ℕ → List ℕ
uint_bytes n =
    if leb n 0xfc
    then n ∷ []
    else if leb n 0xffff
    then 0xfd ∷ to_le_bytes 2 n
    else if leb n 0xffffffff
    then 0xfe ∷ to_le_bytes 4 n
    else 0xff ∷ to_le_bytes 8 n

Writes-store_tag : (t : ℕ) → Writes (store_tag t) (t ∷ [])
unfolding store_tag encode_uint8
Writes-store_tag t = Writes-uint8 t

Sizes-uint : (n : ℕ) → Sizes (preencode_uint n) (length (uint_bytes n))
unfolding preencode_uint
Sizes-uint n s = ground arith

Reads-tagged :
    (t : ℕ) {bs : List ℕ} {v : ℕ} → Reads (decode_tagged t) bs v → Reads decode_uint (t ∷ bs) v
unfolding decode_uint
Reads-tagged t r = Reads-bind _ (Reads-uint8 t) r

pub Codes-uint :
    (n : ℕ) → n < 2 ^ 64 → Codes preencode_uint encode_uint decode_uint n n (uint_bytes n)
unfolding encode_uint decode_tagged
Codes-uint n h = record { sized = Sizes-uint n; written = write; read = readn }
  where
    cut : (k : ℕ) → k ≡ cast 8 n → Writes (encode_uint8 (cast 8 n)) (k ∷ [])
    cut k e = rw e (Writes-uint8 (cast 8 n))

    short : (w : ℕ) → n < 2 ^ w → cast w n ≡ n
    short w k = mod-eq_of_lt k

    write : Writes (encode_uint n) (uint_bytes n)
    write = elim (Bool-cases (leb n 0xfc)) [
      | inl e ↦ rw e (cut n (omega (arith, leb→le n 0xfc e)))
      | inr e ↦ rw e (elim (Bool-cases (leb n 0xffff)) [
        | inl e2 ↦ rw e2 (
            rw (short 16 (omega (arith, leb→le n 0xffff e2)))
              (Writes-bind (Writes-store_tag 0xfd) (Writes-uint16 n)))
        | inr e2 ↦ rw e2 (elim (Bool-cases (leb n 0xffffffff)) [
          | inl e3 ↦ rw e3 (
              rw (short 32 (omega (arith, leb→le n 0xffffffff e3)))
                (Writes-bind (Writes-store_tag 0xfe) (Writes-uint32 n)))
          | inr e3 ↦ rw e3 (Writes-bind (Writes-store_tag 0xff) (Writes-uint64 n))
        ])
      ])
    ]

    readn : Reads decode_uint (uint_bytes n) n
    readn = elim (Bool-cases (leb n 0xfc)) [
      | inl e ↦ rw e (Reads-tagged n (rw e (Reads-pure n)))
      | inr e ↦ rw e (elim (Bool-cases (leb n 0xffff)) [
        | inl e2 ↦ rw e2 (Reads-tagged 0xfd (Reads-uint16 n (omega (arith, leb→le n 0xffff e2))))
        | inr e2 ↦ rw e2 (elim (Bool-cases (leb n 0xffffffff)) [
          | inl e3 ↦
              rw e3 (Reads-tagged 0xfe (Reads-uint32 n (omega (arith, leb→le n 0xffffffff e3))))
          | inr e3 ↦ rw e3 (Reads-tagged 0xff (Reads-uint64 n h))
        ])
      ])
    ]

Safe-tagged : (a : ℕ) → Safe (decode_tagged a)
unfolding decode_tagged
Safe-tagged a = ground (arith, Safe-pure a, Safe-uint16, Safe-uint32, Safe-uint64)

pub Safe-uint : Safe decode_uint
unfolding decode_uint
Safe-uint = Safe-bind _ Safe-uint8 Safe-tagged
