-- ===== src/Examples/Firewalls.antt =====
-- nat.rs on concrete reports.
use peeroxide.Common.{
  ℕ, if◌then◌else◌, ◌≤◌, ◌≡◌, refl, true, false, some, none, List, [], ◌∷◌, arith,
}
use peeroxide.Messages.{Ipv4Peer}
use peeroxide.HyperMessages.{firewall_consistent, firewall_random}
use peeroxide.Nat.{
  Nat, Sample, Pinged, new, add, update_firewall, update_addresses, update, auto_sample, replied,
  failed, show_u16,
}
use peeroxide.Nat.Calls.{Call, adds, freezes, unfreezes, run}
use peeroxide.Nat.Calls.Samples.{IsNat, Counts, run-IsNat}
use peeroxide.Nat.Calls.Log.{reports, Counted, run-Counted}
use peeroxide.Nat.Calls.Waiters.{Waiting, run-Waiting, run-settles}
use peeroxide.Nat.Bag.{hits_of, entries_of}
use peeroxide.Nat.Samples.{total}
use peeroxide.Nat.Classify.{update_firewall-consistent, update_firewall-random}

abbrev at : ℕ → ℕ → Ipv4Peer
at host port = record { host = host ∷ []; port = port }

-- Five calls, of which the third repeats a sender.
abbrev calls : List Call
calls =
    adds (at 1 10) (at 5 1)
    ∷ adds (at 1 10) (at 6 1)
    ∷ adds (at 1 99) (at 6 1)
    ∷ freezes
    ∷ adds (at 1 11) (at 7 1)
    ∷ unfreezes
    ∷ adds (at 1 10) (at 8 1)
    ∷ []

show_port : show_u16 49737 ≡ b'4' ∷ b'9' ∷ b'7' ∷ b'3' ∷ b'7' ∷ []
unfolding show_u16
show_port = refl

two_hits : reports [] calls ≡ at 1 10 ∷ at 1 10 ∷ at 1 11 ∷ at 1 10 ∷ []
unfolding reports peeroxide.Nat.visit_key show_u16
two_hits = refl

run-IsNat_example : IsNat (run calls (new true))
run-IsNat_example = run-IsNat true calls (omega arith)

run-Counted_example : Counted (reports [] calls) (run calls (new true))
run-Counted_example = run-Counted true calls (omega arith)

run-Waiting_example : Waiting (run calls (new true))
run-Waiting_example = run-Waiting true calls

run-settles_example :
    let n = run calls (new true) in
    (n.analyzing_settled ≡ true) × (n.notified ≡ (if true then 1 else 0))
run-settles_example = run-settles true calls (omega arith) (rw two_hits (omega arith))

-- A state of three reports, of hosts and addresses as given.
abbrev state : List Sample → List Sample → Nat
state hosts full = record {
  samples_host = hosts;
  samples_full = full;
  visited = [];
  frozen = false;
  firewalled = true;
  sampled = 3;
  firewall = 0;
  addresses = none;
  analyzing_settled = false;
  notified = 0;
}

abbrev sample : ℕ → ℕ → ℕ → Sample
sample host port hits = record { host = host ∷ []; port = port; hits = hits }

one-Counts : (p : ℕ) → Counts 3 (sample 1 p 3 ∷ [])
unfolding entries_of total
one-Counts p = record { order = omega arith; apart = λ h q. ground arith; sum = refl }

three-Counts : Counts 3 (sample 1 10 1 ∷ sample 1 11 1 ∷ sample 1 12 1 ∷ [])
unfolding entries_of total
three-Counts = record {
  order = (omega arith, (omega arith, omega arith));
  apart = λ h q. ground arith;
  sum = refl;
}

once :
    (host : List ℕ) (port : ℕ)
    → hits_of host port (sample 1 10 1 ∷ sample 1 11 1 ∷ sample 1 12 1 ∷ []) ≤ 1
unfolding hits_of total
once host port = ground arith

update_firewall-consistent_example :
    (update_firewall (state (sample 1 0 3 ∷ []) (sample 1 10 3 ∷ []))).firewall
    ≡ firewall_consistent
unfolding hits_of total
update_firewall-consistent_example =
    update_firewall-consistent (state (sample 1 0 3 ∷ []) (sample 1 10 3 ∷ [])) (1 ∷ []) 10
      (record { hosts = one-Counts 0; full = one-Counts 10 }) refl (omega arith) (omega arith)

update_firewall-random_example :
    (update_firewall
      (state (sample 1 0 3 ∷ []) (sample 1 10 1 ∷ sample 1 11 1 ∷ sample 1 12 1 ∷ []))).firewall
    ≡ firewall_random
update_firewall-random_example =
    update_firewall-random
      (state (sample 1 0 3 ∷ []) (sample 1 10 1 ∷ sample 1 11 1 ∷ sample 1 12 1 ∷ []))
      (record { hosts = one-Counts 0; full = three-Counts }) refl (omega arith) once

-- Two pings are answered, one of them without an address.
abbrev pings : List Pinged
pings =
    failed
    ∷ replied (some (at 1 10)) (at 5 1)
    ∷ replied none (at 6 1)
    ∷ replied (some (at 1 10)) (at 7 1)
    ∷ []
