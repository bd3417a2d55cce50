-- ===== src/Delivery/Laws.antt =====
-- Which samples count, and when the rate that is kept falls.
use peeroxide.Common.{
  ℕ, ◌*◌, ◌≤◌, ◌≡◌, refl, ap, ◌∙◌, subst, sym, inl, inr, ◌⊎◌, not, leb, ltb, leb→le, ◌||◌,
  Bool-cases, if◌then◌else◌, Option, none, some, Bool, true, arith,
}
use peeroxide.Delivery.{RateState, nothing, keep_rate, measure, sample_since, generate}

-- What `generate` leaves of the state `s`.
pub record Sampled (min_rtt_ms stream_delivered : ℕ) (s t : RateState) : Type 0 where
  pub long : (t.current.delivered ≡ 0) ⊎ (min_rtt_ms ≤ t.current.interval_ms)
  pub counted : t.current.delivered ≤ stream_delivered
  pub limited :
      s.current.is_app_limited ≡ true
      → s.rate_delivered * t.rate_interval_ms ≤ t.rate_delivered * s.rate_interval_ms

keep_rate-Sampled :
    (m d : ℕ) (s : RateState)
    → m ≤ s.current.interval_ms
    → s.current.delivered ≤ d
    → Sampled m d s (keep_rate s)
unfolding keep_rate
keep_rate-Sampled m d s h c =
    let product : Bool =
      leb (s.rate_delivered * s.current.interval_ms) (s.current.delivered * s.rate_interval_ms) in
    let kept : RateState = record s {
      rate_delivered = s.current.delivered;
      rate_interval_ms = s.current.interval_ms;
    } in
    elim (Bool-cases (not s.current.is_app_limited || product)) [
      | inl e ↦
          subst (λ b. Sampled m d s (if b then kept else s)) (sym e)
            (record {
              long = inr h;
              counted = c;
              limited = λ l. leb→le _ _ (sym (ap (λ b. not b || product) l) ∙ e);
            })
      | inr e ↦
          subst (λ b. Sampled m d s (if b then kept else s)) (sym e)
            (record { long = inr h; counted = c; limited = λ l. omega arith })
    ]

nothing-Sampled :
    (m d : ℕ) (s : RateState) → Sampled m d s (record s { current = nothing s.current })
nothing-Sampled m d s = record {
  long = inl refl;
  counted = omega arith;
  limited = λ l. omega arith;
}

measure-Sampled : (m d : ℕ) (s : RateState) → s.current.delivered ≤ d → Sampled m d s (measure m s)
unfolding measure
measure-Sampled m d s c = elim (Bool-cases (ltb s.current.interval_ms m)) [
  | inl short ↦
      subst
        (λ b. Sampled m d s (if b then record s { current = nothing s.current } else keep_rate s))
        (sym short) (nothing-Sampled m d s)
  | inr long ↦
      subst
        (λ b. Sampled m d s (if b then record s { current = nothing s.current } else keep_rate s))
        (sym long) (keep_rate-Sampled m d s (ground arith) c)
]

sample_since-Sampled :
    (d first_sent delivered_ts m : ℕ) (s : RateState) (ts fst : Option ℕ)
    → Sampled m d s (sample_since d first_sent delivered_ts m s ts fst)
unfolding sample_since
sample_since-Sampled d first_sent delivered_ts m s (some ts) (some fst) =
    let v = measure-Sampled m d _ (omega arith) in
    record { long = v.long; counted = v.counted; limited = v.limited }
sample_since-Sampled d first_sent delivered_ts m s (some ts) none = nothing-Sampled m d s
sample_since-Sampled d first_sent delivered_ts m s none fst = nothing-Sampled m d s

-- generate leaves a sample of no packets or one of at least min_rtt_ms, and of at most the
-- packets that the stream has delivered; and where the sample was limited by the application,
-- the kept rate, compared by cross products, does not fall.
pub generate-Sampled :
    (stream_delivered first_sent delivered_ts min_rtt_ms lost_count delivered_count : ℕ)
    (s : RateState)
    → Sampled min_rtt_ms stream_delivered s
        (generate stream_delivered first_sent delivered_ts min_rtt_ms lost_count delivered_count s)
unfolding generate
generate-Sampled d first_sent delivered_ts m lost_count delivered_count s =
    let v =
      sample_since-Sampled d first_sent delivered_ts m
        (record s {
          current = record s.current { losses = lost_count; acked_sacked = delivered_count };
        })
        s.current.prior_timestamp s.current.prior_first_sent_ts in
    record { long = v.long; counted = v.counted; limited = v.limited }
