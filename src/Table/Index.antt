-- ===== src/Table/Index.antt =====
-- `bucket_index`.
use peeroxide.Common.{
  ℕ, ◌+◌, ◌≤◌, ◌<◌, ◌≡◌, ◌≢◌, inl, inr, false, ◌==◌, Bool-cases, List, [], ◌∷◌, arith, length,
  bit_xor,
}
use peeroxide.Common.Bits.{bit_xor_eq_zero}
use peeroxide.Table.{leading_zeros, index_from, bucket_index, num_buckets}

leading_zeros-lt : (x : ℕ) → x ≢ 0 → leading_zeros x < 8
unfolding leading_zeros
leading_zeros-lt x h = ground arith

different : (a b : ℕ) → (a == b) ≡ false → bit_xor a b ≢ 0
different a b h e = ground (arith, bit_xor_eq_zero (a + b) a b (omega arith) (omega arith) e)

index_from-lt : (i : ℕ) (xs ys : List ℕ) → i + length xs ≤ 32 → index_from i xs ys < num_buckets
unfolding index_from
index_from-lt i [] ys h = omega arith
index_from-lt i (x ∷ xs) [] h = omega arith
index_from-lt i (x ∷ xs) (y ∷ ys) h = elim (Bool-cases (x == y)) [
  | inl e ↦ rw e (index_from-lt (i + 1) xs ys (omega arith))
  | inr e ↦ rw e (omega (arith, leading_zeros-lt (bit_xor x y) (different x y e)))
]

-- Every id of 32 bytes has a bucket index below 256, whatever the local id.
pub bucket_index-lt : (local id : List ℕ) → length id ≡ 32 → bucket_index local id < num_buckets
unfolding bucket_index
bucket_index-lt local id h = index_from-lt 0 id local (omega arith)
