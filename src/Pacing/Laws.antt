-- ===== src/Pacing/Laws.antt =====
-- What the bucket lets through.
use peeroxide.Common.{
  ℕ, ◌+◌, ◌-◌, ◌*◌, ◌/◌, ◌^◌, ◌≤◌, ◌<◌, ◌≡◌, refl, sym, ap, ◌∙◌, subst, inl, inr, min, ltb, leb,
  le→leb, leb→le, ◌==◌, Bool-cases, some, List, [], ◌∷◌, true, false, arith,
}
use native.Mathlib.Nat.{lt-div-mul-add, add-mul}
use peeroxide.Pacing.{
  TokenBucket, saturate, elapsed_ms, refilled, refill, take_tokens, try_consume, effective_deficit,
  div_ceil, delay_for,
}

-- Calls of `refill` at given times.
unfoldable pub refills : List ℕ → TokenBucket → TokenBucket
unfolding refill
refills [] b = b
refills (t ∷ ts) b = refills ts (refill t b)

-- Each time is within a millisecond after the one before.
abbrev pub Close : ℕ → List ℕ → Type 0
Close last [] = Unit
Close last (t ∷ ts) = (last ≤ t) × (t < last + 1000000) × Close t ts

none_elapsed : (now last : ℕ) → last ≤ now → now < last + 1000000 → elapsed_ms now last ≡ 0
none_elapsed now last h k = ground arith

refilled-close :
    (now last : ℕ) (b : TokenBucket)
    → last ≤ now
    → now < last + 1000000
    → refilled now (some last) b ≤ b.available
unfolding refilled
refilled-close now last b h k = rw (none_elapsed now last h k) (ground arith)

-- Refills that each come less than a millisecond after the one before add nothing to a bucket,
-- however many they are and whatever its rate.
pub refills-Close :
    (ts : List ℕ) (last : ℕ) (b : TokenBucket)
    → b.last_refill ≡ some last
    → Close last ts
    → (refills ts b).available ≤ b.available
unfolding refills refill
refills-Close [] last b e h = omega arith
refills-Close (t ∷ ts) last b e (h, k, c) =
    let one : refilled t b.last_refill b ≤ b.available =
      subst (λ o. refilled t o b ≤ b.available) (sym e) (refilled-close t last b h k) in
    omega (arith, one, refills-Close ts t (refill t b) refl c)

div_ceil_lem : (n m : ℕ) → 0 < m → n ≤ div_ceil n m * m
unfolding div_ceil
div_ceil_lem n m h = omega (arith, lt-div-mul-add {a = n + m - 1} {b = m} h)

more_elapsed :
    (now last k : ℕ)
    → last ≤ now
    → (now + k * 1000000 - last) / 1000000 < 2 ^ 32
    → elapsed_ms (now + k * 1000000) last ≡ elapsed_ms now last + k
more_elapsed now last k h small = ground arith

-- `x` are the tokens that are due, `y` those of the delay.
enough :
    (available bytes burst x y : ℕ)
    → bytes - available - saturate x ≤ y
    → bytes ≤ burst
    → burst < 2 ^ 32
    → bytes ≤ min (saturate (available + saturate (x + y))) burst
enough available bytes burst x y h fits small = omega arith

taken : (bytes : ℕ) (b : TokenBucket) → bytes ≤ b.available → (take_tokens bytes b).1 ≡ true
unfolding take_tokens
taken bytes b h = rw (le→leb bytes b.available h) refl

-- The tokens after the delay.
refilled-delay :
    (bytes now last : ℕ) (b : TokenBucket)
    → last ≤ now
    → 0 < b.rate_bytes_per_ms
    → bytes ≤ b.max_burst
    → b.max_burst < 2 ^ 32
    → b.available ≤ b.max_burst
    → b.last_refill ≡ some last
    → (now + delay_for bytes now b - last) / 1000000 < 2 ^ 32
    → bytes ≤ refilled (now + delay_for bytes now b) (some last) b
unfolding refilled delay_for effective_deficit
refilled-delay bytes now last b after rate fits small in_burst e soon =
    let moving : ltb 0 b.rate_bytes_per_ms ≡ true = ground arith in
    let nonzero : (b.rate_bytes_per_ms == 0) ≡ false = ground arith in
    let r : ℕ = b.rate_bytes_per_ms in
    elim (Bool-cases (leb bytes b.available)) [
      | inl have ↦ rw moving (omega (arith, leb→le bytes b.available have))
      | inr short ↦
          let deficit : ℕ = effective_deficit (bytes - b.available) now b.last_refill r in
          let k : ℕ = div_ceil deficit r in
          let delay : delay_for bytes now b ≡ k * 1000000 = rw (nonzero, short) refl in
          let due : ℕ = elapsed_ms now last * r in
          let short_of : deficit ≡ bytes - b.available - saturate due =
            ap (λ o. effective_deficit (bytes - b.available) now o r) e in
          let later : elapsed_ms (now + k * 1000000) last ≡ elapsed_ms now last + k =
            more_elapsed now last k after
              (subst (λ d. (now + d - last) / 1000000 < 2 ^ 32) delay soon) in
          let tokens : elapsed_ms (now + k * 1000000) last * r ≡ due + k * r =
            ap (λ m. m * r) later ∙ add-mul (elapsed_ms now last) k r in
          let full : bytes ≤ min (saturate (b.available + saturate (due + k * r))) b.max_burst =
            enough b.available bytes b.max_burst due (k * r)
              (omega (arith, short_of, div_ceil_lem deficit r rate)) fits small in
          subst (λ d. bytes ≤ refilled (now + d) (some last) b) (sym delay)
            (rw moving (
              subst (λ t. bytes ≤ min (saturate (b.available + saturate t)) b.max_burst)
                (sym tokens) full))
    ]

-- Where a bucket has a rate, has been refilled and holds no more than its burst, a packet of at
-- most one burst is let through after the delay that delay_for states, as long as the
-- milliseconds since the refill are below 2^32.
pub try_consume-delay_for :
    (bytes now last : ℕ) (b : TokenBucket)
    → last ≤ now
    → 0 < b.rate_bytes_per_ms
    → bytes ≤ b.max_burst
    → b.max_burst < 2 ^ 32
    → b.available ≤ b.max_burst
    → b.last_refill ≡ some last
    → (now + delay_for bytes now b - last) / 1000000 < 2 ^ 32
    → (try_consume bytes (now + delay_for bytes now b) b).1 ≡ true
unfolding try_consume refill
try_consume-delay_for bytes now last b after rate fits small in_burst e soon =
    taken bytes (refill (now + delay_for bytes now b) b) (
      subst (λ o. bytes ≤ refilled (now + delay_for bytes now b) o b) (sym e)
        (refilled-delay bytes now last b after rate fits small in_burst e soon))
