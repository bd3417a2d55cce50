-- ===== src/Nat/Classify.antt =====
-- The verdict on the firewall, by how often addresses have been seen.
use peeroxide.Common.{
  ℕ, ◌≤◌, ◌<◌, ◌≡◌, refl, ap, ◌∙◌, subst, true, false, not, ltb, le→leb, if◌then◌else◌, List, [],
  ◌∷◌, arith,
}
use peeroxide.HyperMessages.{firewall_open, firewall_consistent, firewall_random}
use peeroxide.Nat.{Nat, Sample, new, judge, judge_samples, update_firewall}
use peeroxide.Nat.Samples.{Falls, total}
use peeroxide.Nat.Bag.{hits_of, hits_of-le, hits_of-first}
use peeroxide.Nat.Calls.Samples.{Counts, IsNat}

-- The first sample has the most hits.
pub data First (n : ℕ) (ss : List Sample) : Type 0 where
  first : (s : Sample) (rest : List Sample) → ss ≡ s ∷ rest → Falls s.hits rest → First n ss

Falls-positive : (n : ℕ) (ss : List Sample) → Falls n ss → 1 ≤ n
Falls-positive n [] f = f
Falls-positive n (s ∷ ss) (a, f) = omega (arith, Falls-positive s.hits ss f)

some-First : (n : ℕ) (ss : List Sample) → 0 < n → Counts n ss → First n ss
unfolding total
some-First n [] h c = absurd (omega (arith, c.sum))
some-First n (s ∷ ss) h c = first s ss refl c.order

judge-consistent : (max : ℕ) (n : Nat) → 3 ≤ max → judge max n ≡ firewall_consistent
unfolding judge
judge-consistent max n h = rw (le→leb 3 max h) refl

judge-random : (n : Nat) → judge 1 n ≡ firewall_random
unfolding judge
judge-random n = refl

-- With three samples a firewalled node is judged by them.
update_firewall-judged :
    (n : Nat) (s : Sample) (rest : List Sample)
    → n.firewalled ≡ true
    → 3 ≤ n.sampled
    → n.samples_full ≡ s ∷ rest
    → (update_firewall n).firewall ≡ judge s.hits n
unfolding update_firewall judge_samples
update_firewall-judged n s rest f h e =
    let few : ltb n.sampled 3 ≡ false = ground arith in
    let judged : Nat = record n { firewall = judge_samples n.samples_full n } in
    ap
      (λ b.
        (if not b
          then record n { firewall = firewall_open }
          else if ltb n.sampled 3
          then n
          else judged).firewall)
      f
    ∙ ap (λ b. (if b then n else judged).firewall) few
    ∙ ap (λ ss. judge_samples ss n) e

-- On a firewalled Nat whose samples are in order, with three samples or more, update_firewall
-- finds a consistent NAT if any address has three hits.
pub update_firewall-consistent :
    (n : Nat) (host : List ℕ) (port : ℕ)
    → IsNat n
    → n.firewalled ≡ true
    → 3 ≤ n.sampled
    → 3 ≤ hits_of host port n.samples_full
    → (update_firewall n).firewall ≡ firewall_consistent
update_firewall-consistent n host port v f h hits =
    elim (some-First n.sampled n.samples_full (omega arith) v.full) [
      | first s rest e fall ↦
          let most : hits_of host port (s ∷ rest) ≤ s.hits =
            hits_of-le s.hits (s ∷ rest) host port (omega arith, fall)
              (subst (λ ss. peeroxide.Nat.Bag.entries_of host port ss ≤ 1) e
                (v.full.apart host port)) in
          let m : 3 ≤ hits_of host port (s ∷ rest) =
            subst (λ ss. 3 ≤ hits_of host port ss) e hits in
          update_firewall-judged n s rest f h e ∙ judge-consistent s.hits n (omega (arith, m, most))
    ]

-- On a firewalled Nat whose samples are in order, with three samples or more, update_firewall
-- finds a random NAT if no address has two hits.
pub update_firewall-random :
    (n : Nat)
    → IsNat n
    → n.firewalled ≡ true
    → 3 ≤ n.sampled
    → ((host : List ℕ) (port : ℕ) → hits_of host port n.samples_full ≤ 1)
    → (update_firewall n).firewall ≡ firewall_random
update_firewall-random n v f h once =
    elim (some-First n.sampled n.samples_full (omega arith) v.full) [
      | first s rest e fall ↦
          let most : hits_of s.host s.port (s ∷ rest) ≤ 1 =
            subst (λ ss. hits_of s.host s.port ss ≤ 1) e (once s.host s.port) in
          let one : s.hits ≡ 1 =
            omega (arith, most, hits_of-first s rest, Falls-positive s.hits rest fall) in
          update_firewall-judged n s rest f h e ∙ ap (λ k. judge k n) one ∙ judge-random n
    ]
