-- ===== src/Encoding/Signed/Zigzag.antt =====
-- Zigzag on 64-bit words.
use peeroxide.Common.{
  ℕ, ◌+◌, ◌*◌, ◌/◌, ◌%◌, ◌^◌, ◌-◌, ◌≤◌, ◌<◌, ◌≡◌, ap, ◌∙◌, inl, inr, arith, ltb, ltb→lt,
  if◌then◌else◌, Bool-cases, bit_and,
}
use peeroxide.Common.Bits.{bit_xor_zeros, bit_xor_ones, bit_and_ones}
use peeroxide.Encoding.Words.{shl}
use peeroxide.Encoding.Signed.{zigzag_encode, zigzag_decode, negate}

-- Non-negative words go to the even numbers, negative ones to the odd numbers.
abbrev pub zigzag : ℕ → ℕ
zigzag n = if ltb n (2 ^ 63) then 2 * n else 2 * (2 ^ 64 - n) - 1

-- On the bits of a signed 64-bit word, the shift-and-xor of zigzag_encode is the zigzag map: a
-- word that is not negative goes to its double, a negative one to twice its magnitude less one.
pub zigzag_encode-eq : (n : ℕ) → n < 2 ^ 64 → zigzag_encode n ≡ zigzag n
unfolding zigzag_encode
zigzag_encode-eq n h =
    ground (
      arith,
      bit_xor_zeros 64 (shl 64 n 1) (omega arith),
      bit_xor_ones 64 (shl 64 n 1) (omega arith),
    )

low_bit : (n : ℕ) → bit_and n 1 ≡ n % 2
low_bit n =
    let e : n ≡ n / 2 * 2 ^ 1 + n % 2 = omega arith in
    ap (λ x. bit_and x 1) e ∙ bit_and_ones 1 (n / 2) (n % 2) (omega arith)

zigzag_decode-even : (n : ℕ) → n < 2 ^ 64 → n % 2 ≡ 0 → zigzag_decode n ≡ n / 2
unfolding zigzag_decode
zigzag_decode-even n h e =
    let m : negate (bit_and n 1) ≡ 0 = rw (low_bit n) (omega arith) in
    rw m (bit_xor_zeros 64 (n / 2) (omega arith))

zigzag_decode-odd : (n : ℕ) → n < 2 ^ 64 → n % 2 ≡ 1 → zigzag_decode n ≡ 2 ^ 64 - 1 - n / 2
unfolding zigzag_decode
zigzag_decode-odd n h e =
    let m : negate (bit_and n 1) ≡ 2 ^ 64 - 1 = rw (low_bit n) (omega arith) in
    rw m (bit_xor_ones 64 (n / 2) (omega arith))

pub zigzag_encode-lt : (n : ℕ) → n < 2 ^ 64 → zigzag_encode n < 2 ^ 64
zigzag_encode-lt n h = ground (arith, zigzag_encode-eq n h)

-- On the bits of any signed 64-bit word, zigzag_decode undoes zigzag_encode.
pub zigzag_decode-zigzag_encode : (n : ℕ) → n < 2 ^ 64 → zigzag_decode (zigzag_encode n) ≡ n
zigzag_decode-zigzag_encode n h = elim (Bool-cases (ltb n (2 ^ 63))) [
  | inl e ↦
      let small : n < 2 ^ 63 = ltb→lt n (2 ^ 63) e in
      rw (zigzag_encode-eq n h, e)
        (zigzag_decode-even (2 * n) (omega arith) (omega arith) ∙ omega arith)
  | inr e ↦
      let large : 2 ^ 63 ≤ n = ground arith in
      rw (zigzag_encode-eq n h, e)
        (zigzag_decode-odd (2 * (2 ^ 64 - n) - 1) (omega arith) (omega arith) ∙ omega arith)
]

-- The decoder's result on a word is a word.
pub zigzag_decode-lt : (n : ℕ) → n < 2 ^ 64 → zigzag_decode n < 2 ^ 64
zigzag_decode-lt n h = ground (arith, zigzag_decode-even n h, zigzag_decode-odd n h)
