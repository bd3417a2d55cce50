-- ===== src/Pacing/Rate.antt =====
-- The bucket keeps to its rate.
use peeroxide.Common.{
  ℕ, ◌+◌, ◌-◌, ◌*◌, ◌/◌, ◌≤◌, ◌≡◌, refl, sym, subst, inl, inr, ltb, leb, leb→le, Bool-cases,
  if◌then◌else◌, some, List, [], ◌∷◌, arith,
}
use native.Mathlib.Nat.{add-mul, mul-le-mul_right}
use peeroxide.Pacing.{TokenBucket, elapsed_ms, refilled, refill, take_tokens, try_consume}

-- The bytes that calls of `try_consume` are granted: each has a size and a time.
unfoldable pub granted : List (ℕ × ℕ) → TokenBucket → ℕ
unfolding try_consume
granted [] b = 0
granted (c ∷ cs) b =
    let r = try_consume c.0 c.1 b in let rest = granted cs r.0 in (if r.1 then c.0 else 0) + rest

-- The times ascend from the first to the last.
abbrev pub Ascends : ℕ → List (ℕ × ℕ) → ℕ → Type 0
Ascends first [] last = first ≤ last
Ascends first (c ∷ cs) last = (first ≤ c.1) × Ascends c.1 cs last

Ascends-le : (first last : ℕ) (cs : List (ℕ × ℕ)) → Ascends first cs last → first ≤ last
Ascends-le first last [] h = h
Ascends-le first last (c ∷ cs) (h, a) = omega (arith, Ascends-le c.1 last cs a)

-- Tokens are taken, or left.
taken_or_left :
    (bytes : ℕ) (b : TokenBucket)
    → ((if (take_tokens bytes b).1 then bytes else 0) + (take_tokens bytes b).0.available
        ≡ b.available)
      × ((take_tokens bytes b).0.rate_bytes_per_ms ≡ b.rate_bytes_per_ms)
      × ((take_tokens bytes b).0.last_refill ≡ b.last_refill)
unfolding take_tokens
taken_or_left bytes b = elim (Bool-cases (leb bytes b.available)) [
  | inl have ↦ rw have (omega (arith, leb→le bytes b.available have), refl, refl)
  | inr short ↦ rw short (omega arith, refl, refl)
]

refilled_le :
    (now last : ℕ) (b : TokenBucket)
    → refilled now (some last) b ≤ b.available + (now - last) / 1000000 * b.rate_bytes_per_ms
unfolding refilled
refilled_le now last b =
    let less : elapsed_ms now last ≤ (now - last) / 1000000 = omega arith in
    let tokens : elapsed_ms now last * b.rate_bytes_per_ms
        ≤ (now - last) / 1000000 * b.rate_bytes_per_ms =
      mul-le-mul_right b.rate_bytes_per_ms less in
    elim (Bool-cases (ltb 0 b.rate_bytes_per_ms)) [
      | inl moving ↦ rw moving (omega (arith, tokens))
      | inr still ↦ rw still (omega arith)
    ]

-- Whole milliseconds one after the other are no more than those of the whole time.
two_spans :
    (first middle last r : ℕ)
    → first ≤ middle
    → middle ≤ last
    → (middle - first) / 1000000 * r + (last - middle) / 1000000 * r ≤ (last - first) / 1000000 * r
two_spans first middle last r h k =
    let spans : (middle - first) / 1000000 + (last - middle) / 1000000 ≤ (last - first) / 1000000 =
      omega arith in
    subst (λ n. n ≤ (last - first) / 1000000 * r)
      (add-mul ((middle - first) / 1000000) ((last - middle) / 1000000) r)
      (mul-le-mul_right r spans)

-- Calls of try_consume at times that do not fall are granted, by any later time, at most the
-- bytes that the bucket held and its rate for each whole millisecond since the last refill
-- before them.
pub granted-le :
    (cs : List (ℕ × ℕ)) (first last : ℕ) (b : TokenBucket)
    → b.last_refill ≡ some first
    → Ascends first cs last
    → granted cs b ≤ b.available + (last - first) / 1000000 * b.rate_bytes_per_ms
unfolding granted try_consume refill
granted-le [] first last b e h = omega arith
granted-le (c ∷ cs) first last b e (h, a) =
    let f : TokenBucket = refill c.1 b in
    let (sum, rate, at) = taken_or_left c.0 f in
    let grows : refilled c.1 b.last_refill b
        ≤ b.available + (c.1 - first) / 1000000 * b.rate_bytes_per_ms =
      subst (λ o. refilled c.1 o b ≤ b.available + (c.1 - first) / 1000000 * b.rate_bytes_per_ms)
        (sym e) (refilled_le c.1 first b) in
    let later : granted cs (take_tokens c.0 f).0
        ≤ (take_tokens c.0 f).0.available + (last - c.1) / 1000000 * b.rate_bytes_per_ms =
      subst
        (λ r.
          granted cs (take_tokens c.0 f).0
          ≤ (take_tokens c.0 f).0.available + (last - c.1) / 1000000 * r)
        rate (granted-le cs c.1 last (take_tokens c.0 f).0 at a) in
    omega (
      arith,
      sum,
      grows,
      later,
      two_spans first c.1 last b.rate_bytes_per_ms h (Ascends-le c.1 last cs a),
    )
