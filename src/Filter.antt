-- ===== src/Filter.antt =====
-- libudx/src/native/congestion/filter.rs: the windowed maximum of bandwidth samples.
-- A sample is a value of any type with a zero and a test `geb`, which is `>=` on `f64`.
pub mod Laws
use peeroxide.Common.{ℕ, ◌+◌, ◌-◌, ◌%◌, ◌^◌, Bool, ◌||◌, leb, if◌then◌else◌}

-- `entries: [(f64, u32); 3]`
pub record WindowedMaxFilter (A : Type 0) : Type 0 where
  pub e0 : A × ℕ
  pub e1 : A × ℕ
  pub e2 : A × ℕ

-- `wrapping_sub` of `u32`.
abbrev pub wrapping_sub : ℕ → ℕ → ℕ
wrapping_sub a b = (a + (2 ^ 32 - b)) % 2 ^ 32

abbrev pub expired : ℕ → ℕ → ℕ → Bool
expired round_count window round = leb window (wrapping_sub round_count round)

module _ {A : Type 0} where
  abbrev pub filled : A × ℕ → WindowedMaxFilter A
  filled e = record { e0 = e; e1 = e; e2 = e }

  unfoldable pub new : A → WindowedMaxFilter A
  new nothing = filled (nothing, 0)

  unfoldable pub get : WindowedMaxFilter A → A
  get f = f.e0.0

  unfoldable pub reset : A → WindowedMaxFilter A → WindowedMaxFilter A
  reset nothing f = filled (nothing, 0)

  -- `entries[0] = entries[1]; entries[1] = entries[2]; entries[2] = e;`
  abbrev pub shift : A × ℕ → WindowedMaxFilter A → WindowedMaxFilter A
  shift e f = record { e0 = f.e1; e1 = f.e2; e2 = e }

  -- The two shifts, the second one only after the first.
  unfoldable pub forget : A × ℕ → ℕ → WindowedMaxFilter A → WindowedMaxFilter A
  forget e window f =
      if expired e.1 window f.e0.1
      then (if expired e.1 window f.e1.1 then shift e (shift e f) else shift e f)
      else f

  module _ (geb : A → A → Bool) where
    -- The later entries raised to the sample.
    unfoldable pub raise : A × ℕ → WindowedMaxFilter A → WindowedMaxFilter A
    raise e f =
        if geb e.0 f.e1.0
        then record f { e1 = e; e2 = e }
        else if geb e.0 f.e2.0
        then record f { e2 = e }
        else f

    unfoldable pub update : A → ℕ → ℕ → WindowedMaxFilter A → WindowedMaxFilter A
    unfolding raise forget
    update val round_count window f =
        if geb val f.e0.0 || expired round_count window f.e2.1
        then filled (val, round_count)
        else forget (val, round_count) window (raise (val, round_count) f)
