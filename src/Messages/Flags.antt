-- ===== src/Messages/Flags.antt =====
-- The flag byte: its five flags and the tests on it.
use peeroxide.Common.{◌≡◌, refl, Bool, true, false, not, ◌&&◌, arith, ℕ, ◌<◌, ltb, ltb→lt}
use peeroxide.Messages.{
  has_flag, pack_flags, flag_id, flag_token, flag_internal_or_closer, flag_target_or_error,
  flag_value,
}

unfoldable pub same : Bool → Bool → Bool
same true b = b
same false b = not b

pub same_lem : (a b : Bool) → same a b ≡ true → b ≡ a
unfolding same
same_lem true true h = refl
same_lem true false h = cc
same_lem false true h = cc
same_lem false false h = refl

unfoldable pub both : (Bool → Bool) → Bool
both p = p true && p false

pub both_lem : (p : Bool → Bool) → both p ≡ true → (b : Bool) → p b ≡ true
unfolding both
both_lem p h true = ground arith
both_lem p h false = ground arith

-- All that a reader of the flag byte relies on.
check : Bool → Bool → Bool → Bool → Bool → Bool
unfolding same pack_flags
check a b c d e =
    let f = pack_flags a b c d e in
    same a (has_flag f flag_id)
    && (same b (has_flag f flag_token)
        && (same c (has_flag f flag_internal_or_closer)
            && (same d (has_flag f flag_target_or_error)
                && (same e (has_flag f flag_value) && ltb f 256))))

check_table : both (λ a. both (λ b. both (λ c. both (λ d. both (λ e. check a b c d e))))) ≡ true
unfolding both check
check_table = refl

check_lem : (a b c d e : Bool) → check a b c d e ≡ true
check_lem a b c d e =
    both_lem _ (both_lem _ (both_lem _ (both_lem _ (both_lem _ check_table a) b) c) d) e

pub record Finds (f : ℕ) (a b c d e : Bool) : Type 0 where
  pub at_id : has_flag f flag_id ≡ a
  pub at_token : has_flag f flag_token ≡ b
  pub at_third : has_flag f flag_internal_or_closer ≡ c
  pub at_fourth : has_flag f flag_target_or_error ≡ d
  pub at_value : has_flag f flag_value ≡ e
  pub is_byte : f < 256

and_left : (a b : Bool) → (a && b) ≡ true → a ≡ true
and_left true b h = refl
and_left false b h = cc

and_right : (a b : Bool) → (a && b) ≡ true → b ≡ true
and_right true b h = h
and_right false b h = cc

-- The flag byte that any five choices give is below 256, and each flag test finds its own choice
-- in it.
pub pack_flags_lem : (a b c d e : Bool) → Finds (pack_flags a b c d e) a b c d e
unfolding check
pack_flags_lem a b c d e =
    let h0 = check_lem a b c d e in
    let h1 = and_right _ _ h0 in
    let h2 = and_right _ _ h1 in
    let h3 = and_right _ _ h2 in
    let h4 = and_right _ _ h3 in
    record {
      at_id = same_lem a _ (and_left _ _ h0);
      at_token = same_lem b _ (and_left _ _ h1);
      at_third = same_lem c _ (and_left _ _ h2);
      at_fourth = same_lem d _ (and_left _ _ h3);
      at_value = same_lem e _ (and_left _ _ h4);
      is_byte = ltb→lt _ 256 (and_right _ _ h4);
    }
