-- ===== src/Encoding/Ip/Text.antt =====
-- Dotted IPv4 addresses as text: splitting, parsing and formatting.
use peeroxide.Common.{
  ℕ, zero, suc, ◌<◌, ◌≤◌, ◌≡◌, refl, ap, Bool, true, false, ◌&&◌, ◌==◌, ==_iff, Option, none, some,
  List, [], ◌∷◌, ◌++◌, arith, All,
}
use peeroxide.Encoding.Ip.{split_dots, contains_byte, parse_u8, show_u8, dotted}

-- Checks a test at every byte by evaluation.
every_below : ℕ → (ℕ → Bool) → Bool
every_below zero p = true
every_below (suc n) p = p n && every_below n p

every_below_lem : (n : ℕ) (p : ℕ → Bool) (b : ℕ) → every_below n p ≡ true → b < n → p b ≡ true
unfolding every_below
every_below_lem zero p b h lt = absurd (omega arith)
every_below_lem (suc n) p b h lt = ground (arith, every_below_lem n p b)

is_value : ℕ → Option ℕ → Bool
is_value b none = false
is_value b (some a) = a == b

parse_table : every_below 256 (λ b. is_value b (parse_u8 (show_u8 b))) ≡ true
unfolding every_below is_value parse_u8 show_u8
parse_table = refl

is_value_lem : (b : ℕ) (o : Option ℕ) → is_value b o ≡ true → o ≡ some b
unfolding is_value
is_value_lem b none h = cc
is_value_lem b (some a) h = ap some ((==_iff a b).0 h)

pub parse_u8-show_u8 : (b : ℕ) → b < 256 → parse_u8 (show_u8 b) ≡ some b
parse_u8-show_u8 b h = is_value_lem b _ (every_below_lem 256 _ b parse_table h)

-- Bytes that are digits.
abbrev pub Digits : List ℕ → Type 0
Digits = All (λ c. (b'0' ≤ c) × (c ≤ b'9'))

pub show_u8-Digits : (b : ℕ) → b < 256 → Digits (show_u8 b)
unfolding show_u8
show_u8-Digits b h = ground arith

pub split_dots-append :
    (front rest : List ℕ)
    → Digits front
    → split_dots (front ++ (b'.' ∷ rest)) ≡ front ∷ split_dots rest
unfolding split_dots
split_dots-append [] rest h = refl
split_dots-append (c ∷ front) rest h =
    let e : (c == b'.') ≡ false = ground arith in rw (e, split_dots-append front rest h.1)

pub split_dots-single : (front : List ℕ) → Digits front → split_dots front ≡ front ∷ []
unfolding split_dots
split_dots-single [] h = refl
split_dots-single (c ∷ front) h =
    let e : (c == b'.') ≡ false = ground arith in rw (e, split_dots-single front h.1)

pub split_dots-dotted :
    (a b c d : ℕ)
    → a < 256
    → b < 256
    → c < 256
    → d < 256
    → split_dots (dotted a b c d) ≡ show_u8 a ∷ show_u8 b ∷ show_u8 c ∷ show_u8 d ∷ []
unfolding dotted
split_dots-dotted a b c d ha hb hc hd = simp (
  split_dots-append (show_u8 a) _ (show_u8-Digits a ha),
  split_dots-append (show_u8 b) _ (show_u8-Digits b hb),
  split_dots-append (show_u8 c) _ (show_u8-Digits c hc),
  split_dots-single (show_u8 d) (show_u8-Digits d hd),
)

colon_after_part :
    (front rest : List ℕ)
    → Digits front
    → contains_byte b':' (front ++ (b'.' ∷ rest)) ≡ contains_byte b':' rest
unfolding contains_byte
colon_after_part [] rest h = refl
colon_after_part (c ∷ front) rest h =
    let e : (c == b':') ≡ false = ground arith in rw e (colon_after_part front rest h.1)

colon_in_part : (front : List ℕ) → Digits front → contains_byte b':' front ≡ false
unfolding contains_byte
colon_in_part [] h = refl
colon_in_part (c ∷ front) h =
    let e : (c == b':') ≡ false = ground arith in rw e (colon_in_part front h.1)

-- A dotted address has no colon.
pub contains_byte-dotted :
    (a b c d : ℕ)
    → a < 256
    → b < 256
    → c < 256
    → d < 256
    → contains_byte b':' (dotted a b c d) ≡ false
unfolding dotted
contains_byte-dotted a b c d ha hb hc hd = simp (
  colon_after_part (show_u8 a) _ (show_u8-Digits a ha),
  colon_after_part (show_u8 b) _ (show_u8-Digits b hb),
  colon_after_part (show_u8 c) _ (show_u8-Digits c hc),
  colon_in_part (show_u8 d) (show_u8-Digits d hd),
)
