-- ===== src/Delivery.antt =====
-- rate.rs: samples of the delivery rate. An `Instant` is in nanoseconds; counters are `u32`.
pub mod Laws
use peeroxide.Common.{
  ℕ, ◌-◌, ◌*◌, ◌/◌, ◌%◌, ◌^◌, max, ltb, leb, ◌==◌, ◌||◌, not, if◌then◌else◌, Option, none, some,
  Bool, true, false,
}

pub record PacketRateInfo : Type 0 where
  pub first_sent_ts : ℕ
  pub delivered_ts : ℕ
  pub delivered : ℕ
  pub is_app_limited : Bool

pub record RateSample : Type 0 where
  pub delivered : ℕ
  pub interval_ms : ℕ
  pub rtt_ms : ℕ
  pub losses : ℕ
  pub acked_sacked : ℕ
  pub is_app_limited : Bool
  pub prior_delivered : ℕ
  pub prior_timestamp : Option ℕ
  pub prior_first_sent_ts : Option ℕ

pub record RateState : Type 0 where
  pub current : RateSample
  pub rate_delivered : ℕ
  pub rate_interval_ms : ℕ

abbrev pub default_sample : RateSample
default_sample = record {
  delivered = 0;
  interval_ms = 0;
  rtt_ms = 0;
  losses = 0;
  acked_sacked = 0;
  is_app_limited = false;
  prior_delivered = 0;
  prior_timestamp = none;
  prior_first_sent_ts = none;
}

unfoldable pub new : RateState
new = record { current = default_sample; rate_delivered = 0; rate_interval_ms = 0 }

unfoldable pub on_packet_sent : ℕ → ℕ → ℕ → Bool → PacketRateInfo
on_packet_sent delivered delivered_ts first_sent_ts is_app_limited = record {
  first_sent_ts = first_sent_ts;
  delivered_ts = delivered_ts;
  delivered = delivered;
  is_app_limited = is_app_limited;
}

unfoldable pub on_packet_delivered : PacketRateInfo → ℕ → ℕ → RateState → RateState × Option ℕ
on_packet_delivered pkt_info time_sent rtt_ms s =
    if leb s.current.prior_delivered pkt_info.delivered
    then (
      record s {
        current = record s.current {
          prior_delivered = pkt_info.delivered;
          prior_timestamp = some pkt_info.delivered_ts;
          prior_first_sent_ts = some pkt_info.first_sent_ts;
          is_app_limited = pkt_info.is_app_limited;
          rtt_ms = rtt_ms;
        };
      },
      some time_sent,
    )
    else (s, none)

-- `checked_duration_since(..).unwrap_or(ZERO)`, then at least a millisecond where it is not zero.
abbrev pub span_ms : ℕ → ℕ → ℕ
span_ms now before = if now - before == 0 then 0 else max ((now - before) / 1000000 % 2 ^ 32) 1

abbrev pub nothing : RateSample → RateSample
nothing r = record r { delivered = 0; interval_ms = 0 }

-- The rate of the sample replaces the one that is kept.
unfoldable pub keep_rate : RateState → RateState
keep_rate s =
    if not s.current.is_app_limited
      || leb (s.rate_delivered * s.current.interval_ms) (s.current.delivered * s.rate_interval_ms)
    then record s { rate_delivered = s.current.delivered; rate_interval_ms = s.current.interval_ms }
    else s

unfoldable pub measure : ℕ → RateState → RateState
unfolding keep_rate
measure min_rtt_ms s =
    if ltb s.current.interval_ms min_rtt_ms
    then record s { current = nothing s.current }
    else keep_rate s

unfoldable pub sample_since : ℕ → ℕ → ℕ → ℕ → RateState → Option ℕ → Option ℕ → RateState
unfolding measure
sample_since stream_delivered first_sent delivered_ts min_rtt_ms s (some ts) (some fst) =
    measure min_rtt_ms (record s {
      current = record s.current {
        delivered = stream_delivered - s.current.prior_delivered;
        interval_ms = max (span_ms first_sent fst) (span_ms delivered_ts ts);
      };
    })
sample_since stream_delivered first_sent delivered_ts min_rtt_ms s (some ts) none = record s {
  current = nothing s.current;
}
sample_since stream_delivered first_sent delivered_ts min_rtt_ms s none f = record s {
  current = nothing s.current;
}

unfoldable pub generate : ℕ → ℕ → ℕ → ℕ → ℕ → ℕ → RateState → RateState
unfolding sample_since
generate stream_delivered stream_first_sent_ts stream_delivered_ts min_rtt_ms lost_count
      delivered_count s =
    sample_since stream_delivered stream_first_sent_ts stream_delivered_ts min_rtt_ms
      (record s {
        current = record s.current { losses = lost_count; acked_sacked = delivered_count };
      })
      s.current.prior_timestamp s.current.prior_first_sent_ts
