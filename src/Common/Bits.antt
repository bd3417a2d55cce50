-- ===== src/Common/Bits.antt =====
-- `|` of disjoint fields as a sum, and `^` with zeros or ones, at every width.
use Prim.Native.Nat.{
  ℕ, zero, suc, ◌+◌, ◌*◌, ◌/◌, ◌%◌, ◌^◌, ◌-◌, ◌≤◌, ◌<◌, max, min, bit_and, bit_or, bit_xor, digits,
  differ, bit_and-bitwise, bit_or-bitwise, bit_xor-bitwise,
}
use mathlib.Core.Path.{◌≡◌, refl, ap, ap₂}
use native.Mathlib.Omega.{arith}
use native.Mathlib.Nat.{pow-suc}

-- `z` is what is left of the second number once the first has run out of digits.
module _ (z : ℕ → ℕ) (f : ℕ → ℕ → ℕ) where
  abbrev merge : ℕ → ℕ → ℕ → ℕ
  merge fuel a b = digits z f fuel a b

  merge_enough : (m n a b : ℕ) → a ≤ m → a ≤ n → merge m a b ≡ merge n a b
  merge_enough zero zero a b hm hn = refl
  merge_enough zero (suc n) zero b hm hn = refl
  merge_enough zero (suc n) (suc a) b hm hn = absurd (omega arith)
  merge_enough (suc m) zero zero b hm hn = refl
  merge_enough (suc m) zero (suc a) b hm hn = absurd (omega arith)
  merge_enough (suc m) (suc n) zero b hm hn = refl
  merge_enough (suc m) (suc n) (suc a) b hm hn =
      ap (λ q. q * 2 + f (suc a % 2) (b % 2))
        (merge_enough m n (suc a / 2) (b / 2) (omega arith) (omega arith))

  merge_low_digit :
      (a b : ℕ)
      → merge (suc a) (suc a) b ≡ merge (suc a / 2) (suc a / 2) (b / 2) * 2 + f (suc a % 2) (b % 2)
  merge_low_digit a b =
      ap (λ q. q * 2 + f (suc a % 2) (b % 2))
        (merge_enough a (suc a / 2) (suc a / 2) (b / 2) (omega arith) (omega arith))

pub zero-bit_or : (b : ℕ) → bit_or 0 b ≡ b
zero-bit_or b = bit_or-bitwise 0 b

zero-bit_xor : (b : ℕ) → bit_xor 0 b ≡ b
zero-bit_xor b = bit_xor-bitwise 0 b

or_low_digit : (a b : ℕ) → bit_or a b ≡ bit_or (a / 2) (b / 2) * 2 + max (a % 2) (b % 2)
or_low_digit zero b = omega (arith, zero-bit_or b, zero-bit_or (b / 2))
or_low_digit (suc a) b = omega (
  arith,
  bit_or-bitwise (suc a) b,
  merge_low_digit (λ y. y) max a b,
  bit_or-bitwise (suc a / 2) (b / 2),
)

xor_low_digit : (a b : ℕ) → bit_xor a b ≡ bit_xor (a / 2) (b / 2) * 2 + differ (a % 2) (b % 2)
xor_low_digit zero b = omega (arith, zero-bit_xor b, zero-bit_xor (b / 2), differ_zero (b % 2))
  where
    differ_zero : (y : ℕ) → differ (0 % 2) y ≡ y
    differ_zero y = refl
xor_low_digit (suc a) b = omega (
  arith,
  bit_xor-bitwise (suc a) b,
  merge_low_digit (λ y. y) differ a b,
  bit_xor-bitwise (suc a / 2) (b / 2),
)

double_field : (b k : ℕ) → b * 2 ^ suc k ≡ 2 * (b * 2 ^ k)
double_field b k = omega (arith, ap (λ (p : ℕ). b * p) (pow-suc 2 k))

-- A field of `k` bits and one shifted past it.
pub bit_or_shifted : (k a b : ℕ) → a < 2 ^ k → bit_or a (b * 2 ^ k) ≡ a + b * 2 ^ k
bit_or_shifted zero zero b h = omega (arith, zero-bit_or (b * 2 ^ 0))
bit_or_shifted zero (suc a) b h = absurd (omega arith)
bit_or_shifted (suc k) a b h = ground (
  arith,
  or_low_digit a (b * 2 ^ suc k),
  double_field b k,
  pow-suc 2 k,
  bit_or_shifted k (a / 2) b,
)

differ_one : (x : ℕ) → differ (x % 2) 1 ≡ 1 - x % 2
differ_one x = go (x % 2) (omega arith)
  where
    go : (y : ℕ) → y < 2 → differ y 1 ≡ 1 - y
    go zero h = refl
    go (suc zero) h = refl
    go (suc (suc y)) h = absurd (omega arith)

differ_zero : (x : ℕ) → differ (x % 2) 0 ≡ x % 2
differ_zero x = go (x % 2)
  where
    go : (y : ℕ) → differ y 0 ≡ y
    go zero = refl
    go (suc y) = refl

-- `^` with zeros keeps a word, and `^` with ones takes its complement.
pub bit_xor_zeros : (k x : ℕ) → x < 2 ^ k → bit_xor x 0 ≡ x
bit_xor_zeros zero zero h = refl
bit_xor_zeros zero (suc x) h = absurd (omega arith)
bit_xor_zeros (suc k) x h = omega (
  arith,
  xor_low_digit x 0,
  differ_zero x,
  pow-suc 2 k,
  bit_xor_zeros k (x / 2) (omega (arith, pow-suc 2 k)),
)

pub bit_xor_ones : (k x : ℕ) → x < 2 ^ k → bit_xor x (2 ^ k - 1) ≡ 2 ^ k - 1 - x
bit_xor_ones zero zero h = refl
bit_xor_ones zero (suc x) h = absurd (omega arith)
bit_xor_ones (suc k) x h = omega (
  arith,
  xor_low_digit x (2 ^ suc k - 1),
  ap (λ (t : ℕ). bit_xor (x / 2) t) halves,
  ap (λ (t : ℕ). differ (x % 2) t) odd,
  differ_one x,
  pow-suc 2 k,
  bit_xor_ones k (x / 2) (omega (arith, pow-suc 2 k)),
)
  where
    halves : (2 ^ suc k - 1) / 2 ≡ 2 ^ k - 1
    halves = omega (arith, pow-suc 2 k)

    odd : (2 ^ suc k - 1) % 2 ≡ 1
    odd = omega (arith, pow-suc 2 k)

zero-bit_and : (b : ℕ) → bit_and 0 b ≡ 0
zero-bit_and b = bit_and-bitwise 0 b

and_low_digit : (a b : ℕ) → bit_and a b ≡ bit_and (a / 2) (b / 2) * 2 + min (a % 2) (b % 2)
and_low_digit zero b = omega (arith, zero-bit_and b, zero-bit_and (b / 2))
and_low_digit (suc a) b = omega (
  arith,
  bit_and-bitwise (suc a) b,
  merge_low_digit (λ y. 0) min a b,
  bit_and-bitwise (suc a / 2) (b / 2),
)

and_zero_below : (bound a : ℕ) → a ≤ bound → bit_and a 0 ≡ 0
and_zero_below bound zero h = refl
and_zero_below zero (suc a) h = absurd (omega arith)
and_zero_below (suc bound) (suc a) h =
    omega (arith, and_low_digit (suc a) 0, and_zero_below bound (suc a / 2) (omega arith))

-- `&` with `k` ones keeps the low `k` bits.
pub bit_and_ones : (k q r : ℕ) → r < 2 ^ k → bit_and (q * 2 ^ k + r) (2 ^ k - 1) ≡ r
bit_and_ones zero q r h =
    omega (arith, and_zero_below (q * 2 ^ 0 + r) (q * 2 ^ 0 + r) (omega arith))
bit_and_ones (suc k) q r h = omega (
  arith,
  and_low_digit (q * 2 ^ suc k + r) (2 ^ suc k - 1),
  ap₂ bit_and front halves,
  double_field q k,
  pow-suc 2 k,
  bit_and_ones k q (r / 2) (omega (arith, pow-suc 2 k)),
)
  where
    halves : (2 ^ suc k - 1) / 2 ≡ 2 ^ k - 1
    halves = omega (arith, pow-suc 2 k)

    front : (q * 2 ^ suc k + r) / 2 ≡ q * 2 ^ k + r / 2
    front = omega (arith, double_field q k)

-- Two numbers whose `^` is zero are equal.
pub bit_xor_eq_zero : (bound a b : ℕ) → a ≤ bound → b ≤ bound → bit_xor a b ≡ 0 → a ≡ b
bit_xor_eq_zero zero a b ha hb h = omega arith
bit_xor_eq_zero (suc bound) a b ha hb h = omega (
  arith,
  xor_low_digit a b,
  same_digit (a % 2) (b % 2) (omega (arith, xor_low_digit a b)),
  bit_xor_eq_zero bound (a / 2) (b / 2) (omega arith) (omega arith)
      (omega (arith, xor_low_digit a b)),
)
  where
    same_digit : (x y : ℕ) → differ x y ≡ 0 → x ≡ y
    same_digit zero y e = omega arith
    same_digit (suc x) zero e = absurd (omega arith)
    same_digit (suc x) (suc y) e = ap suc (same_digit x y e)
