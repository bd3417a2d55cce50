-- ===== src/Examples/Tokens.antt =====
-- pacing.rs and rate.rs on concrete buckets and samples.
use peeroxide.Common.{ℕ, ◌+◌, ◌-◌, ◌*◌, ◌/◌, ◌≤◌, ◌≡◌, refl, true, some, List, [], ◌∷◌, arith}
use peeroxide.Pacing.{TokenBucket, try_consume, delay_for, effective_deficit, div_ceil}
use peeroxide.Pacing.Laws.{refills, refills-Close, try_consume-delay_for}
use peeroxide.Pacing.Rate.{granted, granted-le}
use peeroxide.Delivery.{RateState, generate}
use peeroxide.Delivery.Laws.{Sampled, generate-Sampled}

-- A bucket of 2400 bytes with 100 left, refilled with 50 bytes a millisecond.
abbrev bucket : TokenBucket
bucket = record {
  available = 100;
  last_refill = some 1000000;
  rate_bytes_per_ms = 50;
  max_burst = 2400;
}

delay_1200 : delay_for 1200 3500000 bucket ≡ 20 * 1000000
unfolding delay_for effective_deficit div_ceil
delay_1200 = refl

try_consume-delay_for_example :
    (try_consume 1200 (3500000 + delay_for 1200 3500000 bucket) bucket).1 ≡ true
unfolding delay_for effective_deficit div_ceil
try_consume-delay_for_example =
    try_consume-delay_for 1200 3500000 1000000 bucket (omega arith) (omega arith) (omega arith)
      (omega arith) (omega arith) refl (omega arith)

-- Four polls, each nine tenths of a millisecond after the one before.
abbrev polls : List ℕ
polls = 1900000 ∷ 2800000 ∷ 3700000 ∷ 4600000 ∷ []

refills-Close_example : (refills polls bucket).available ≤ 100
refills-Close_example = refills-Close polls 1000000 bucket refl (
    (
      omega arith,
      omega arith,
      (omega arith, omega arith, (omega arith, omega arith, (omega arith, omega arith, tt))),
    ))

granted-le_example :
    granted ((100, 2000000) ∷ (60, 4000000) ∷ (1000, 4500000) ∷ []) bucket
    ≤ 100 + (5000000 - 1000000) / 1000000 * 50
granted-le_example =
    granted-le ((100, 2000000) ∷ (60, 4000000) ∷ (1000, 4500000) ∷ []) 1000000 5000000 bucket refl
      (omega arith, (omega arith, (omega arith, omega arith)))

-- A packet was sent at two milliseconds, after 10 packets; it is acknowledged at seven.
abbrev measured : RateState
measured = record {
  current = record {
    delivered = 0;
    interval_ms = 0;
    rtt_ms = 5;
    losses = 0;
    acked_sacked = 0;
    is_app_limited = true;
    prior_delivered = 10;
    prior_timestamp = some 2000000;
    prior_first_sent_ts = some 1000000;
  };
  rate_delivered = 3;
  rate_interval_ms = 4;
}

generate-Sampled_example : Sampled 2 14 measured (generate 14 6000000 7000000 2 0 4 measured)
generate-Sampled_example = generate-Sampled 14 6000000 7000000 2 0 4 measured
