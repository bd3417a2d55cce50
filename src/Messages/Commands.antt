-- ===== src/Messages/Commands.antt =====
-- The codes of the commands.
use peeroxide.Common.{ℕ, ◌≡◌, refl, ◌↔◌, some, arith}
use peeroxide.Messages.{
  Command, ping, ping_nat, find_node, down_hint, delayed_ping, from_u64, command_code,
}

to_code : (v : ℕ) (c : Command) → from_u64 v ≡ some c → command_code c ≡ v
unfolding from_u64 command_code
to_code v ping h = ground arith
to_code v ping_nat h = ground arith
to_code v find_node h = ground arith
to_code v down_hint h = ground arith
to_code v delayed_ping h = ground arith

from_code : (c : Command) → from_u64 (command_code c) ≡ some c
unfolding from_u64 command_code
from_code ping = refl
from_code ping_nat = refl
from_code find_node = refl
from_code down_hint = refl
from_code delayed_ping = refl

-- from_u64 returns a command exactly for the code of that command, so every other number is
-- unknown.
pub from_u64_iff : (v : ℕ) (c : Command) → (from_u64 v ≡ some c) ↔ (command_code c ≡ v)
from_u64_iff v c = (to_code v c, λ e. rw (← e) (from_code c))
