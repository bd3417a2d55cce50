-- ===== src/Nat/Calls/Log.antt =====
-- The samples against a log of what was reported: one report counts for each sender.
use peeroxide.Common.{
  ℕ, ◌+◌, ◌^◌, ◌≤◌, ◌<◌, ◌≡◌, ◌≢◌, refl, sym, ap, ◌∙◌, subst, inl, inr, Bool, true, false,
  Bool-cases, if◌then◌else◌, ◌==◌, ◌&&◌, none, List, [], ◌∷◌, length, arith,
}
use peeroxide.Common.Dict.{
  apart_bytes, Dict, same_bytes, same_bytes_eq, lookup, contains, insert, lookup-insert_self,
  lookup-insert_ne,
}
use peeroxide.Messages.{Ipv4Peer}
use peeroxide.Nat.{Nat, Sample, new, matches, count_sample, mark_visited, visit_key, is_two}
use peeroxide.Nat.Bag.{hits_of, hits_of-add_sample}
use peeroxide.Nat.Samples.{total}
use peeroxide.Nat.Calls.{
  Call, adds, updates, freezes, unfreezes, destroys, marks, step, run, Keeps, kept, Quiet-touch,
  update-Quiet, unfreeze-Quiet, add-cases, counted-Keeps, destroy-Keeps,
}
use peeroxide.Nat.Calls.Samples.{IsNat, new-IsNat, step-IsNat, step-sampled}

abbrev pub member : List ℕ → List (List ℕ) → Bool
member k [] = false
member k (j ∷ js) = if same_bytes k j then true else member k js

-- What the senders reported, the first report of each; `seen` are the senders that have reported.
unfoldable pub reports : List (List ℕ) → List Call → List Ipv4Peer
reports seen [] = []
reports seen (adds addr sender ∷ cs) =
    let key = visit_key sender.host sender.port in
    let again = reports seen cs in
    let first = reports (key ∷ seen) cs in if member key seen then again else addr ∷ first
reports seen (updates ∷ cs) = reports seen cs
reports seen (freezes ∷ cs) = reports seen cs
reports seen (unfreezes ∷ cs) = reports seen cs
reports seen (destroys ∷ cs) = reports seen cs
reports seen (marks host port ∷ cs) = reports seen cs

-- How often an address was reported.
unfoldable pub times : List ℕ → ℕ → List Ipv4Peer → ℕ
times host port [] = 0
times host port (a ∷ rest) =
    (if (a.port == port) && same_bytes a.host host then 1 else 0) + times host port rest

-- How often a host was reported.
unfoldable pub times_host : List ℕ → List Ipv4Peer → ℕ
times_host host [] = 0
times_host host (a ∷ rest) = (if same_bytes a.host host then 1 else 0) + times_host host rest

-- The marks of 2 are those of the senders that have reported.
Marks : Dict ℕ → List (List ℕ) → Type 0
Marks d seen = (k : List ℕ) → is_two (lookup k d) ≡ member k seen

insert_two :
    (d : Dict ℕ) (seen : List (List ℕ)) (k : List ℕ)
    → Marks d seen
    → Marks (insert k 2 d) (k ∷ seen)
unfolding Marks
insert_two d seen k m j = elim (Bool-cases (same_bytes j k)) [
  | inl e ↦ rw (e, same_bytes_eq j k e, lookup-insert_self k 2 d) refl
  | inr e ↦ let ne : j ≢ k = apart_bytes j k e in rw (e, lookup-insert_ne j k 2 d ne) (m j)
]

absent_lookup : (k : List ℕ) (d : Dict ℕ) → contains k d ≡ false → lookup k d ≡ none
absent_lookup k [] h = refl
absent_lookup k (e ∷ d) h = elim (Bool-cases (same_bytes k e.0)) [
  | inl p ↦
      let t : true ≡ false = subst (λ b. (if b then true else contains k d) ≡ false) p h in
      absurd cc
  | inr p ↦ rw p (absent_lookup k d (subst (λ b. (if b then true else contains k d) ≡ false) p h))
]

insert_one :
    (d : Dict ℕ) (seen : List (List ℕ)) (k : List ℕ)
    → contains k d ≡ false
    → Marks d seen
    → Marks (insert k 1 d) seen
unfolding Marks
insert_one d seen k h m j = elim (Bool-cases (same_bytes j k)) [
  | inl e ↦
      let q : j ≡ k = same_bytes_eq j k e in
      let unseen : false ≡ member k seen =
        subst (λ o. is_two o ≡ member k seen) (absent_lookup k d h) (m k) in
      rw (q, lookup-insert_self k 1 d) unseen
  | inr e ↦ let ne : j ≢ k = apart_bytes j k e in rw (lookup-insert_ne j k 1 d ne) (m j)
]

-- The lists and the counter grow by a log.
pub record Grows (n : Nat) (log : List Ipv4Peer) (m : Nat) : Type 0 where
  pub sampled : m.sampled ≡ n.sampled + length log
  pub full :
      (host : List ℕ) (port : ℕ)
      → hits_of host port m.samples_full ≡ hits_of host port n.samples_full + times host port log
  pub hosts :
      (host : List ℕ)
      → hits_of host 0 m.samples_host ≡ hits_of host 0 n.samples_host + times_host host log

Keeps-Grows : (n k m : Nat) (log : List Ipv4Peer) → Keeps n k → Grows k log m → Grows n log m
Keeps-Grows n k m log q g = record {
  sampled = omega (arith, g.sampled, q.sampled);
  full = λ h p. g.full h p ∙ ap (λ ss. hits_of h p ss + times h p log) q.full;
  hosts = λ h. g.hosts h ∙ ap (λ ss. hits_of h 0 ss + times_host h log) q.hosts;
}

count-Grows :
    (addr : Ipv4Peer) (key : List ℕ) (n m : Nat) (log : List Ipv4Peer)
    → n.sampled + 1 < 2 ^ 32
    → IsNat n
    → Grows (count_sample addr key n) log m
    → Grows n (addr ∷ log) m
unfolding count_sample times times_host
count-Grows addr key n m log h v g =
    let room_full : peeroxide.Nat.Samples.Room n.samples_full = omega (arith, v.full.sum) in
    let room_hosts : peeroxide.Nat.Samples.Room n.samples_host = omega (arith, v.hosts.sum) in
    record {
      sampled = omega (arith, g.sampled);
      full = λ host port. omega (
        arith,
        g.full host port,
        hits_of-add_sample addr.host addr.port host port n.samples_full room_full,
      );
      hosts = λ host.
          omega
            (arith, g.hosts host, hits_of-add_sample addr.host 0 host 0 n.samples_host room_hosts);
    }

mark_visited-cases :
    (host : List ℕ) (port : ℕ) (n : Nat) (seen : List (List ℕ))
    → Marks n.visited seen
    → Keeps
        (record n { visited = (mark_visited host port n).0.visited })
        (mark_visited host port n).0
      × Marks (mark_visited host port n).0.visited seen
unfolding mark_visited
mark_visited-cases host port n seen m =
    elim (Bool-cases (contains (visit_key host port) n.visited)) [
      | inl e ↦ rw e (
        record { hosts = refl; full = refl; visited = refl; sampled = refl; firewalled = refl },
        m,
      )
      | inr e ↦ rw e (
        record { hosts = refl; full = refl; visited = refl; sampled = refl; firewalled = refl },
        insert_one n.visited seen _ e m,
      )
    ]

Marks-Keeps :
    (n m : Nat) (seen : List (List ℕ)) → Keeps n m → Marks n.visited seen → Marks m.visited seen
Marks-Keeps n m seen k h = subst (λ d. Marks d seen) (sym k.visited) h

run-Grows :
    (cs : List Call) (n : Nat) (seen : List (List ℕ))
    → n.sampled + length cs < 2 ^ 32
    → IsNat n
    → Marks n.visited seen
    → Grows n (reports seen cs) (run cs n)
unfolding run reports step peeroxide.Nat.freeze times times_host Marks
run-Grows [] n seen h v m = record {
  sampled = omega arith;
  full = λ g q. omega arith;
  hosts = λ g. omega arith;
}
run-Grows (adds addr sender ∷ cs) n seen h v m =
    let key : List ℕ = visit_key sender.host sender.port in
    elim (add-cases addr sender n) [
      | inl (two, e) ↦ rw (sym (m key) ∙ two, e) (run-Grows cs n seen (omega arith) v m)
      | inr (two, e) ↦
          let k : Nat = count_sample addr key n in
          let kept_all = counted-Keeps addr key n in
          let s : IsNat (step (adds addr sender) n) =
            step-IsNat (adds addr sender) n (omega arith) v in
          let few : (step (adds addr sender) n).sampled ≤ n.sampled + 1 =
            step-sampled (adds addr sender) n (omega arith) in
          rw (sym (m key) ∙ two, e)
            (count-Grows addr key n _ (reports (key ∷ seen) cs) (omega arith) v (
              Keeps-Grows k _ _ _ kept_all (
                run-Grows cs _ (key ∷ seen)
                  (subst (λ x. x.sampled + length cs < 2 ^ 32) e (omega (arith, few)))
                  (subst IsNat e s)
                  (Marks-Keeps k _ (key ∷ seen) kept_all (insert_two n.visited seen key m)))))
    ]
run-Grows (updates ∷ cs) n seen h v m =
    let k = kept (update-Quiet n) in
    Keeps-Grows n _ _ _ k (
      run-Grows cs _ seen (omega (arith, k.sampled)) (step-IsNat updates n (omega arith) v)
        (Marks-Keeps n _ seen k m))
run-Grows (freezes ∷ cs) n seen h v m =
    let k = kept (Quiet-touch n n.firewall n.addresses true) in
    Keeps-Grows n _ _ _ k (
      run-Grows cs _ seen (omega (arith, k.sampled)) (step-IsNat freezes n (omega arith) v)
        (Marks-Keeps n _ seen k m))
run-Grows (unfreezes ∷ cs) n seen h v m =
    let k = kept (unfreeze-Quiet n) in
    Keeps-Grows n _ _ _ k (
      run-Grows cs _ seen (omega (arith, k.sampled)) (step-IsNat unfreezes n (omega arith) v)
        (Marks-Keeps n _ seen k m))
run-Grows (destroys ∷ cs) n seen h v m =
    let k = destroy-Keeps n in
    Keeps-Grows n _ _ _ k (
      run-Grows cs _ seen (omega (arith, k.sampled)) (step-IsNat destroys n (omega arith) v)
        (Marks-Keeps n _ seen k m))
run-Grows (marks host port ∷ cs) n seen h v m =
    let (k, mm) = mark_visited-cases host port n seen m in
    let g =
      Keeps-Grows (record n { visited = (mark_visited host port n).0.visited }) _ _ _ k
        (run-Grows cs _ seen (omega (arith, k.sampled))
          (step-IsNat (marks host port) n (omega arith) v) mm) in
    record { sampled = g.sampled; full = g.full; hosts = g.hosts }

-- The counts of a log.
pub record Counted (log : List Ipv4Peer) (n : Nat) : Type 0 where
  pub sampled : n.sampled ≡ length log
  pub full : (host : List ℕ) (port : ℕ) → hits_of host port n.samples_full ≡ times host port log
  pub hosts : (host : List ℕ) → hits_of host 0 n.samples_host ≡ times_host host log

-- After fewer than 2^32 calls on a new Nat, in any order, its samples count a log that keeps the
-- first report of each sender: `sampled` is its length, the hits of an address in the full
-- samples are the times that the log has it, and the hits of a host in the host samples the
-- times that the log has that host.
pub run-Counted :
    (firewalled : Bool) (cs : List Call)
    → length cs < 2 ^ 32
    → Counted (reports [] cs) (run cs (new firewalled))
unfolding new Marks hits_of total
run-Counted firewalled cs h =
    let g =
      run-Grows cs (new firewalled) [] (omega (arith, h)) (new-IsNat firewalled) (λ k. refl) in
    record {
      sampled = omega (arith, g.sampled);
      full = λ host port. omega (arith, g.full host port);
      hosts = λ host. omega (arith, g.hosts host);
    }
