-- ===== src/Encoding/State.antt =====
-- The encoding cursor of compact_encoding.rs, its errors, and the accesses to its buffer.
-- A byte is a number below 256. `usize` sums are exact: they index a buffer in memory.
pub mod Laws
use peeroxide.Common.{
  ℕ, ◌+◌, ◌-◌, Option, none, some, List, [], ◌∷◌, ◌++◌, ltb, if◌then◌else◌, length, get_elem?,
  slice, write_at, replicate,
}

pub data EncodingError : Type 0 where
  out_of_bounds : ℕ → ℕ → EncodingError
  incorrect_buffer_size : ℕ → ℕ → EncodingError
  array_too_large : ℕ → EncodingError
  invalid_ip_family : ℕ → EncodingError
  invalid_ipv4 : List ℕ → EncodingError
  invalid_ipv6 : List ℕ → EncodingError

pub record State : Type 0 where
  pub start : ℕ
  pub end : ℕ
  pub buffer : List ℕ

-- What a call on `&mut State` ends in; `panic` is an index out of the buffer.
pub data Outcome (A : Type 0) : Type 0 where
  ok : A → State → Outcome A
  err : EncodingError → State → Outcome A
  panic : Outcome A

abbrev pub M : Type 0 → Type 0
M A = State → Outcome A

abbrev pub pure : {A : Type 0} → A → M A
pure a s = ok a s

abbrev pub raise : {A : Type 0} → EncodingError → M A
raise e s = err e s

infixl 5 ◌>>=◌ ◌>>◌
abbrev pub ◌>>=◌ : {A B : Type 0} → M A → (A → M B) → M B
◌>>=◌ m f s = elim (m s) [ ok a t ↦ f a t | err e t ↦ err e t | panic ↦ panic ]

abbrev pub ◌>>◌ : {B : Type 0} → M (Unit {0}) → M B → M B
m >> k = m >>= λ _. k

unfoldable pub new : State
new = record { start = 0; end = 0; buffer = [] }

unfoldable pub from_buffer : List ℕ → State
from_buffer b = record { start = 0; end = length b; buffer = b }

-- `resize(end, 0)` where the buffer is shorter than `end`.
unfoldable pub alloc : State → State
alloc s =
    if ltb (length s.buffer) s.end
    then record s { buffer = s.buffer ++ replicate (s.end - length s.buffer) 0 }
    else s

unfoldable pub remaining : State → ℕ
remaining s = s.end - s.start

unfoldable pub check_remaining : ℕ → M (Unit {0})
unfolding remaining
check_remaining n s = if ltb (remaining s) n then err (out_of_bounds n (remaining s)) s else ok tt s

-- `state.end += n`
abbrev pub reserve : ℕ → State → State
reserve n s = record s { end = s.end + n }

-- `state.start += n`
unfoldable pub advance : ℕ → M (Unit {0})
advance n s = ok tt (record s { start = s.start + n })

abbrev pub or_panic : {A B : Type 0} → Option A → (A → Outcome B) → Outcome B
or_panic none f = panic
or_panic (some a) f = f a

-- `state.buffer[state.start + k]`
unfoldable pub load : ℕ → M ℕ
load k s = or_panic (get_elem? s.buffer (s.start + k)) (λ b. ok b s)

-- `state.buffer[state.start + k] = b`
unfoldable pub store : ℕ → ℕ → M (Unit {0})
store k b s =
    or_panic (write_at (s.start + k) (b ∷ []) s.buffer) (λ buf. ok tt (record s { buffer = buf }))

-- `state.buffer[state.start..state.start + n].to_vec()`
unfoldable pub load_slice : ℕ → M (List ℕ)
load_slice n s = or_panic (slice s.start n s.buffer) (λ bs. ok bs s)

-- `state.buffer[state.start..state.start + bs.len()].copy_from_slice(bs)`
unfoldable pub store_slice : List ℕ → M (Unit {0})
store_slice bs s =
    or_panic (write_at s.start bs s.buffer) (λ buf. ok tt (record s { buffer = buf }))
