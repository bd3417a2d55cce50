-- ===== src/Pacing.antt =====
-- pacing.rs: the token bucket that gates sending. An `Instant` and a `Duration` are nanoseconds.
pub mod Laws
pub mod Rate
use peeroxide.Common.{
  ℕ, ◌+◌, ◌-◌, ◌*◌, ◌/◌, ◌%◌, ◌^◌, min, ltb, leb, ◌==◌, ◌||◌, if◌then◌else◌, Option, none, some,
  Bool, true, false,
}

pub record TokenBucket : Type 0 where
  pub available : ℕ
  pub last_refill : Option ℕ
  pub rate_bytes_per_ms : ℕ
  pub max_burst : ℕ

-- `2 * mss` is a `u32`.
unfoldable pub new : ℕ → TokenBucket
new mss = record {
  available = (2 * mss) % 2 ^ 32;
  last_refill = none;
  rate_bytes_per_ms = 0;
  max_burst = (2 * mss) % 2 ^ 32;
}

unfoldable pub set_rate : ℕ → TokenBucket → TokenBucket
set_rate bytes_per_ms b = record b { rate_bytes_per_ms = bytes_per_ms }

-- The value of a saturating operation of `u32`.
abbrev pub saturate : ℕ → ℕ
saturate n = min n (2 ^ 32 - 1)

-- `now.duration_since(last).as_millis() as u32`
abbrev pub elapsed_ms : ℕ → ℕ → ℕ
elapsed_ms now last = (now - last) / 1000000 % 2 ^ 32

unfoldable pub refilled : ℕ → Option ℕ → TokenBucket → ℕ
refilled now none b = b.available
refilled now (some last) b =
    if ltb 0 b.rate_bytes_per_ms
    then min (saturate (b.available + saturate (elapsed_ms now last * b.rate_bytes_per_ms)))
        b.max_burst
    else b.available

unfoldable pub refill : ℕ → TokenBucket → TokenBucket
unfolding refilled
refill now b = record b { available = refilled now b.last_refill b; last_refill = some now }

-- `try_consume` once the bucket is refilled.
unfoldable pub take_tokens : ℕ → TokenBucket → TokenBucket × Bool
take_tokens bytes b =
    if leb bytes b.available
    then (record b { available = b.available - bytes }, true)
    else (b, false)

unfoldable pub try_consume : ℕ → ℕ → TokenBucket → TokenBucket × Bool
unfolding refill take_tokens
try_consume bytes now b = take_tokens bytes (refill now b)

unfoldable pub effective_deficit : ℕ → ℕ → Option ℕ → ℕ → ℕ
effective_deficit deficit now none rate = deficit
effective_deficit deficit now (some last) rate = deficit - saturate (elapsed_ms now last * rate)

-- `n.div_ceil(m)`
unfoldable pub div_ceil : ℕ → ℕ → ℕ
div_ceil n m = (n + m - 1) / m

unfoldable pub delay_for : ℕ → ℕ → TokenBucket → ℕ
unfolding effective_deficit div_ceil
delay_for bytes now b =
    if (b.rate_bytes_per_ms == 0) || leb bytes b.available
    then 0
    else div_ceil (effective_deficit (bytes - b.available) now b.last_refill b.rate_bytes_per_ms)
        b.rate_bytes_per_ms
      * 1000000

unfoldable pub reset : ℕ → TokenBucket → TokenBucket
reset now b = record b { available = b.max_burst; last_refill = some now }
