-- ===== src/Store.antt =====
-- persistent.rs: the records that a node stores for others. `Instant::now()` is an argument.
pub mod Lru
pub mod Records
pub mod Handlers
use peeroxide.Common.{
  ℕ, ◌+◌, ◌-◌, ◌*◌, ◌/◌, ◌%◌, ltb, leb, if◌then◌else◌, Option, none, some, List, [], ◌∷◌, Bool,
  true, false,
}
use peeroxide.Messages.{Ipv4Peer}

abbrev pub seq_reused : ℕ
seq_reused = 16

abbrev pub seq_too_low : ℕ
seq_too_low = 17

abbrev pub max_records_per_lookup : ℕ
max_records_per_lookup = 20

abbrev pub max_relay_addresses : ℕ
max_relay_addresses = 3

-- Ages are in seconds.
pub record PersistentConfig : Type 0 where
  pub max_records : ℕ
  pub max_record_age : ℕ
  pub max_per_key : ℕ
  pub max_lru_size : ℕ
  pub max_lru_age : ℕ

abbrev pub default_config : PersistentConfig
default_config = record {
  max_records = 65536;
  max_record_age = 20 * 60;
  max_per_key = 20;
  max_lru_size = 65536;
  max_lru_age = 20 * 60;
}

abbrev pub hex_digit : ℕ → ℕ
hex_digit d = if ltb d 10 then b'0' + d else b'a' + (d - 10)

-- `{b:02x}` for each byte.
unfoldable pub to_hex : List ℕ → List ℕ
to_hex [] = []
to_hex (b ∷ bs) = hex_digit (b / 16) ∷ hex_digit (b % 16) ∷ to_hex bs

-- `iter().min_by_key(time)`: the first of the least.
abbrev pub earliest {ℓ} : {A : Type ℓ} → (A → ℕ) → List A → Option A
earliest time [] = none
earliest time (x ∷ xs) = elim (earliest time xs) [
  | none ↦ some x
  | some y ↦ if leb (time x) (time y) then some x else some y
]
