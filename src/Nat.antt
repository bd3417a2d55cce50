-- ===== src/Nat.antt =====
-- nat.rs: the classification of a node's NAT from the addresses at which others see it.
pub mod Samples
pub mod Bag
pub mod Calls
pub mod Classify
pub mod Sampling
use peeroxide.Common.{
  ℕ, ◌+◌, ◌-◌, ◌/◌, ◌%◌, ◌^◌, Bool, true, false, not, ◌&&◌, ◌||◌, ◌==◌, ltb, leb, if◌then◌else◌,
  Option, none, some, List, [], ◌∷◌, ◌++◌, length,
}
use peeroxide.Common.Dict.{Dict, same_bytes, lookup, contains, insert}
use peeroxide.Messages.{Ipv4Peer}
use peeroxide.HyperMessages.{firewall_unknown, firewall_open, firewall_consistent, firewall_random}

abbrev pub nat_min_samples : ℕ
nat_min_samples = 4

pub record Sample : Type 0 where
  pub host : List ℕ
  pub port : ℕ
  pub hits : ℕ

-- `notified` is the number of calls of `analyzing_notify.notify_waiters()`.
pub record Nat : Type 0 where
  pub samples_host : List Sample
  pub samples_full : List Sample
  pub visited : Dict ℕ
  pub frozen : Bool
  pub firewalled : Bool
  pub sampled : ℕ
  pub firewall : ℕ
  pub addresses : Option (List Ipv4Peer)
  pub analyzing_settled : Bool
  pub notified : ℕ

unfoldable pub new : Bool → Nat
new firewalled = record {
  samples_host = [];
  samples_full = [];
  visited = [];
  frozen = false;
  firewalled = firewalled;
  sampled = 0;
  firewall = if firewalled then firewall_unknown else firewall_open;
  addresses = none;
  analyzing_settled = not firewalled;
  notified = 0;
}

-- `if !self.analyzing_settled.swap(true) { self.analyzing_notify.notify_waiters(); }`
unfoldable pub settle : Nat → Nat
settle n =
    if n.analyzing_settled
    then n
    else record n { analyzing_settled = true; notified = n.notified + 1 }

unfoldable pub destroy : Nat → Nat
unfolding settle
destroy n = settle (record n { frozen = true })

unfoldable pub freeze : Nat → Nat
freeze n = record n { frozen = true }

-- `samples.len() > 1 && samples[1].hits > 1`
abbrev pub second_repeats : List Sample → Bool
second_repeats [] = false
second_repeats (s ∷ []) = false
second_repeats (s ∷ t ∷ ss) = ltb 1 t.hits

-- What follows once there is a first sample, with `max` hits.
unfoldable pub judge : ℕ → Nat → ℕ
judge max n =
    if leb 3 max
    then firewall_consistent
    else if max == 1
    then firewall_random
    else if (length n.samples_host == 1) && ltb 3 n.sampled
    then firewall_random
    else if ltb 1 (length n.samples_host) && second_repeats n.samples_full
    then firewall_consistent
    else if ltb 4 n.sampled
    then firewall_random
    else n.firewall

unfoldable pub judge_samples : List Sample → Nat → ℕ
unfolding judge
judge_samples [] n = n.firewall
judge_samples (s ∷ ss) n = judge s.hits n

unfoldable pub update_firewall : Nat → Nat
unfolding judge_samples
update_firewall n =
    if not n.firewalled
    then record n { firewall = firewall_open }
    else if ltb n.sampled 3
    then n
    else record n { firewall = judge_samples n.samples_full n }

abbrev pub address : Sample → Ipv4Peer
address s = record { host = s.host; port = s.port }

-- The loop over the samples that have not been seen, with the addresses kept so far.
unfoldable pub repeated_from : List Ipv4Peer → List Sample → List Ipv4Peer
repeated_from addrs [] = addrs
repeated_from addrs (s ∷ ss) =
    repeated_from
      (if leb 2 s.hits || ltb (length addrs) 2 then addrs ++ (address s ∷ []) else addrs) ss

abbrev pub first_address : List Sample → Option (List Ipv4Peer) → Option (List Ipv4Peer)
first_address [] old = old
first_address (s ∷ ss) old = some (address s ∷ [])

unfoldable pub update_addresses : Nat → Nat
unfolding repeated_from
update_addresses n =
    if n.firewall == firewall_unknown
    then record n { addresses = none }
    else if n.firewall == firewall_random
    then record n { addresses = first_address n.samples_host n.addresses }
    else if n.firewall == firewall_consistent
    then record n { addresses = some (repeated_from [] n.samples_full) }
    else n

unfoldable pub unfreeze : Nat → Nat
unfolding update_firewall update_addresses
unfreeze n = update_addresses (update_firewall (record n { frozen = false }))

unfoldable pub update : Nat → Nat
unfolding update_firewall update_addresses
update n = update_addresses (
    update_firewall (
      if n.firewalled && (n.firewall == firewall_open)
      then record n { firewall = firewall_unknown }
      else n))

unfoldable pub is_settled : Nat → Bool
is_settled n = (n.firewall == firewall_consistent) || (n.firewall == firewall_open)

unfoldable pub try_settle : Nat → Nat
unfolding settle
try_settle n =
    if ((n.firewall == firewall_open) || (n.firewall == firewall_consistent))
      || leb nat_min_samples n.sampled
    then settle n
    else n

-- A number below 2^16 in decimal digits.
unfoldable pub show_u16 : ℕ → List ℕ
show_u16 p =
    (if ltb p 10000 then [] else (b'0' + p / 10000) ∷ [])
    ++ (if ltb p 1000 then [] else (b'0' + p / 1000 % 10) ∷ [])
    ++ (if ltb p 100 then [] else (b'0' + p / 100 % 10) ∷ [])
    ++ (if ltb p 10 then [] else (b'0' + p / 10 % 10) ∷ [])
    ++ ((b'0' + p % 10) ∷ [])

-- `format!("{host}:{port}")`
unfoldable pub visit_key : List ℕ → ℕ → List ℕ
unfolding show_u16
visit_key host port = host ++ (b':' ∷ show_u16 port)

unfoldable pub mark_visited : List ℕ → ℕ → Nat → Nat × Bool
unfolding visit_key
mark_visited host port n =
    if contains (visit_key host port) n.visited
    then (n, false)
    else (record n { visited = insert (visit_key host port) 1 n.visited }, true)

abbrev pub matches : List ℕ → ℕ → Sample → Bool
matches host port s = (s.port == port) && same_bytes s.host host

-- `hits` is a `u32`.
abbrev pub hit : Sample → Sample
hit s = record s { hits = (s.hits + 1) % 2 ^ 32 }

-- `samples[..j]` from its end, then the rest.
abbrev pub rejoin : List Sample → List Sample → List Sample
rejoin [] after = after
rejoin (p ∷ before) after = rejoin before (p ∷ after)

-- The inner loop: `before` is `samples[..j]` from its end, `s` is `samples[j]`, `after` the rest.
unfoldable pub bubble_up : List Sample → Sample → List Sample → List Sample
bubble_up [] s after = s ∷ after
bubble_up (p ∷ before) s after =
    if ltb p.hits s.hits then bubble_up before s (p ∷ after) else rejoin before (p ∷ s ∷ after)

-- The outer loop: `before` is `samples[..i]` from its end.
unfoldable pub add_from : List ℕ → ℕ → List Sample → List Sample → List Sample
unfolding bubble_up
add_from host port before [] = rejoin before (record { host = host; port = port; hits = 1 } ∷ [])
add_from host port before (s ∷ after) =
    if matches host port s
    then bubble_up before (hit s) after
    else add_from host port (s ∷ before) after

unfoldable pub add_sample : List ℕ → ℕ → List Sample → List Sample
unfolding add_from
add_sample host port samples = add_from host port [] samples

-- A sample that is counted: what `add` does before it updates.
unfoldable pub count_sample : Ipv4Peer → List ℕ → Nat → Nat
unfolding add_sample
count_sample addr from_ref n = record n {
  visited = insert from_ref 2 n.visited;
  samples_host = add_sample addr.host 0 n.samples_host;
  samples_full = add_sample addr.host addr.port n.samples_full;
  sampled = (n.sampled + 1) % 2 ^ 32;
}

unfoldable pub update_if_due : Nat → Nat
unfolding update
update_if_due n = if (leb 3 n.sampled || not n.firewalled) && not n.frozen then update n else n

-- `self.visited.get(&from_ref) == Some(&2)`
abbrev pub is_two : Option ℕ → Bool
is_two none = false
is_two (some v) = v == 2

unfoldable pub add : Ipv4Peer → Ipv4Peer → Nat → Nat
unfolding visit_key count_sample update_if_due try_settle
add addr sender n =
    let from_ref = visit_key sender.host sender.port in
    if is_two (lookup from_ref n.visited)
    then n
    else try_settle (update_if_due (count_sample addr from_ref n))

-- What comes of a ping: a reply, with the address at which the other side saw us and its own
-- address, or a failure.
pub data Pinged : Type 0 where
  replied : Option Ipv4Peer → Ipv4Peer → Pinged
  failed : Pinged

-- The loop over the pings that have ended, in that order. `before` and `added` are its variables.
unfoldable pub absorb : ℕ → ℕ → List Pinged → Nat → Nat × ℕ
unfolding add
absorb before added [] n = (n, added)
absorb before added (failed ∷ rs) n = absorb before added rs n
absorb before added (replied none sender ∷ rs) n = absorb before added rs n
absorb before added (replied (some to) sender ∷ rs) n =
    let m = add to sender n in
    let more =
      if ltb ((before + added % 2 ^ 32) % 2 ^ 32) m.sampled then m.sampled - before else added in
    let rest = absorb before more rs m in if m.firewall == firewall_unknown then rest else (m, more)

-- `auto_sample` once the pings are sent.
unfoldable pub auto_sample : List Pinged → Nat → Nat × ℕ
unfolding absorb
auto_sample results n =
    if not (n.firewall == firewall_unknown) then (n, 0) else absorb n.sampled 0 results n
