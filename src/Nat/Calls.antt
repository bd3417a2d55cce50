-- ===== src/Nat/Calls.antt =====
-- Sequences of calls on a `Nat`, and what each call leaves alone.
pub mod Samples
pub mod Log
pub mod Waiters
use peeroxide.Common.{
  ℕ, ◌+◌, ◌≡◌, refl, ap, ◌∙◌, ◌⊎◌, inl, inr, Bool-cases, Bool, true, false, not, ◌&&◌, ◌||◌, leb,
  ltb, ◌==◌, if◌then◌else◌, Option, none, some, List, [], ◌∷◌,
}
use peeroxide.Common.Dict.{lookup, contains}
use peeroxide.HyperMessages.{firewall_unknown, firewall_open, firewall_consistent, firewall_random}
use peeroxide.Messages.{Ipv4Peer}
use peeroxide.Nat.{
  Sample, Nat, add, update, freeze, unfreeze, destroy, mark_visited, visit_key, update_firewall,
  update_addresses, judge_samples, update_if_due, count_sample, is_two, settle, try_settle,
  nat_min_samples, first_address, repeated_from,
}

-- A call of a public method of `Nat` that changes it.
pub data Call : Type 0 where
  adds : Ipv4Peer → Ipv4Peer → Call
  updates : Call
  freezes : Call
  unfreezes : Call
  destroys : Call
  marks : List ℕ → ℕ → Call

unfoldable pub step : Call → Nat → Nat
unfolding add update freeze unfreeze destroy mark_visited
step (adds addr sender) n = add addr sender n
step updates n = update n
step freezes n = freeze n
step unfreezes n = unfreeze n
step destroys n = destroy n
step (marks host port) n = (mark_visited host port n).0

unfoldable pub run : List Call → Nat → Nat
unfolding step
run [] n = n
run (c ∷ cs) n = run cs (step c n)

-- The samples and what they are about stay the same.
pub record Keeps (n m : Nat) : Type 0 where
  pub hosts : m.samples_host ≡ n.samples_host
  pub full : m.samples_full ≡ n.samples_full
  pub visited : m.visited ≡ n.visited
  pub sampled : m.sampled ≡ n.sampled
  pub firewalled : m.firewalled ≡ n.firewalled

-- The waiters stay as they are.
pub record Waits (n m : Nat) : Type 0 where
  pub settled : m.analyzing_settled ≡ n.analyzing_settled
  pub notified : m.notified ≡ n.notified

abbrev pub Quiet : Nat → Nat → Type 0
Quiet n m = Keeps n m × Waits n m

pub Keeps-trans : (a b c : Nat) → Keeps a b → Keeps b c → Keeps a c
Keeps-trans a b c x y = record {
  hosts = y.hosts ∙ x.hosts;
  full = y.full ∙ x.full;
  visited = y.visited ∙ x.visited;
  sampled = y.sampled ∙ x.sampled;
  firewalled = y.firewalled ∙ x.firewalled;
}

abbrev pub kept : {n m : Nat} → Quiet n m → Keeps n m
kept q = q.0

-- Only the verdict, the addresses and the freeze change.
pub Quiet-touch :
    (n : Nat) (firewall : ℕ) (addresses : Option (List Ipv4Peer)) (frozen : Bool)
    → Quiet n (record n { firewall = firewall; addresses = addresses; frozen = frozen })
Quiet-touch n w a z = (
  record { hosts = refl; full = refl; visited = refl; sampled = refl; firewalled = refl },
  record { settled = refl; notified = refl },
)

pub Quiet-trans : (a b c : Nat) → Quiet a b → Quiet b c → Quiet a c
Quiet-trans a b c (x, u) (y, v) = (
  Keeps-trans a b c x y,
  record { settled = v.settled ∙ u.settled; notified = v.notified ∙ u.notified },
)

Quiet-if : (n x y : Nat) (b : Bool) → Quiet n x → Quiet n y → Quiet n (if b then x else y)
Quiet-if n x y true p q = p
Quiet-if n x y false p q = q

update_firewall-Quiet : (n : Nat) → Quiet n (update_firewall n)
unfolding update_firewall
update_firewall-Quiet n =
    Quiet-if n _ _ (not n.firewalled) (Quiet-touch n firewall_open n.addresses n.frozen) (
      Quiet-if n _ _ (ltb n.sampled 3) (Quiet-touch n n.firewall n.addresses n.frozen)
        (Quiet-touch n (judge_samples n.samples_full n) n.addresses n.frozen))

update_addresses-Quiet : (n : Nat) → Quiet n (update_addresses n)
unfolding update_addresses
update_addresses-Quiet n =
    Quiet-if n _ _ (n.firewall == firewall_unknown) (Quiet-touch n n.firewall none n.frozen) (
      Quiet-if n _ _ (n.firewall == firewall_random)
        (Quiet-touch n n.firewall (first_address n.samples_host n.addresses) n.frozen)
        (Quiet-if n _ _ (n.firewall == firewall_consistent)
          (Quiet-touch n n.firewall (some (repeated_from [] n.samples_full)) n.frozen)
          (Quiet-touch n n.firewall n.addresses n.frozen)))

judged-Quiet : (n : Nat) → Quiet n (update_addresses (update_firewall n))
judged-Quiet n =
    Quiet-trans n (update_firewall n) _ (update_firewall-Quiet n)
      (update_addresses-Quiet (update_firewall n))

pub update-Quiet : (n : Nat) → Quiet n (update n)
unfolding update
update-Quiet n =
    let m : Nat =
      if n.firewalled && (n.firewall == firewall_open)
      then record n { firewall = firewall_unknown }
      else n in
    Quiet-trans n m _
      (Quiet-if n _ _ (n.firewalled && (n.firewall == firewall_open))
        (Quiet-touch n firewall_unknown n.addresses n.frozen)
        (Quiet-touch n n.firewall n.addresses n.frozen))
      (judged-Quiet m)

pub unfreeze-Quiet : (n : Nat) → Quiet n (unfreeze n)
unfolding unfreeze
unfreeze-Quiet n =
    let m : Nat = record n { frozen = false } in
    Quiet-trans n m _ (Quiet-touch n n.firewall n.addresses false) (judged-Quiet m)

pub update_if_due-Quiet : (n : Nat) → Quiet n (update_if_due n)
unfolding update_if_due
update_if_due-Quiet n =
    Quiet-if n _ _ ((leb 3 n.sampled || not n.firewalled) && not n.frozen) (update-Quiet n)
      (Quiet-touch n n.firewall n.addresses n.frozen)

pub settle-Keeps : (n : Nat) → Keeps n (settle n)
unfolding settle
settle-Keeps n =
    elim n.analyzing_settled
      as (λ b.
        Keeps n
          (if b then n else record n { analyzing_settled = true; notified = n.notified + 1 })) [
            | true ↦ record {
              hosts = refl;
              full = refl;
              visited = refl;
              sampled = refl;
              firewalled = refl;
            }
            | false ↦ record {
              hosts = refl;
              full = refl;
              visited = refl;
              sampled = refl;
              firewalled = refl;
            }
          ]

-- `try_settle` settles or does nothing.
pub try_settle-cases : (n : Nat) → (try_settle n ≡ settle n) ⊎ (try_settle n ≡ n)
unfolding try_settle
try_settle-cases n =
    elim (((n.firewall == firewall_open) || (n.firewall == firewall_consistent))
        || leb nat_min_samples n.sampled)
      as (λ b. ((if b then settle n else n) ≡ settle n) ⊎ ((if b then settle n else n) ≡ n)) [
        | true ↦ inl refl
        | false ↦ inr refl
      ]

pub try_settle-Keeps : (n : Nat) → Keeps n (try_settle n)
try_settle-Keeps n = elim (try_settle-cases n) [
  | inl e ↦ rw e (settle-Keeps n)
  | inr e ↦ rw e (kept (Quiet-touch n n.firewall n.addresses n.frozen))
]

-- A call of `add` is ignored, or counts its sample.
pub add-cases :
    (addr sender : Ipv4Peer) (n : Nat)
    → ((is_two (lookup (visit_key sender.host sender.port) n.visited) ≡ true)
        × (add addr sender n ≡ n))
      ⊎ ((is_two (lookup (visit_key sender.host sender.port) n.visited) ≡ false)
          × (add addr sender n
              ≡ try_settle
                  (update_if_due (count_sample addr (visit_key sender.host sender.port) n))))
unfolding add
add-cases addr sender n =
    elim (Bool-cases (is_two (lookup (visit_key sender.host sender.port) n.visited))) [
      | inl e ↦ inl (e, rw e refl)
      | inr e ↦ inr (e, rw e refl)
    ]

pub counted-Keeps :
    (addr : Ipv4Peer) (key : List ℕ) (n : Nat)
    → Keeps (count_sample addr key n) (try_settle (update_if_due (count_sample addr key n)))
counted-Keeps addr key n =
    let m : Nat = count_sample addr key n in
    Keeps-trans m (update_if_due m) _ (kept (update_if_due-Quiet m))
      (try_settle-Keeps (update_if_due m))

pub destroy-Keeps : (n : Nat) → Keeps n (destroy n)
unfolding destroy
destroy-Keeps n =
    let m : Nat = record n { frozen = true } in
    Keeps-trans n m _ (kept (Quiet-touch n n.firewall n.addresses true)) (settle-Keeps m)
