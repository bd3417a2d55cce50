-- ===== src/Nat/Calls/Samples.antt =====
-- The samples after any calls.
use peeroxide.Common.{
  ℕ, ◌+◌, ◌%◌, ◌^◌, ◌≤◌, ◌<◌, ◌≡◌, refl, inl, inr, Bool, Bool-cases, List, [], ◌∷◌, length, arith,
}
use peeroxide.Common.Dict.{contains}
use peeroxide.Messages.{Ipv4Peer}
use peeroxide.Nat.{Nat, Sample, new, count_sample, mark_visited, visit_key}
use peeroxide.Nat.Samples.{Descends, total, total_hits, Room, add_sample-Descends}
use peeroxide.Nat.Bag.{Apart, entries_of, add_sample-Apart, total_hits-add_sample}
use peeroxide.Nat.Calls.{
  Call, adds, updates, freezes, unfreezes, destroys, marks, step, run, Keeps, kept, Quiet-touch,
  update-Quiet, unfreeze-Quiet, add-cases, counted-Keeps, destroy-Keeps,
}

-- A list whose hits fall, with one sample at most for an address, and `n` hits in all.
pub record Counts (n : ℕ) (ss : List Sample) : Type 0 where
  pub order : Descends ss
  pub apart : Apart ss
  pub sum : total_hits ss ≡ n

-- Both lists count the samples.
pub record IsNat (n : Nat) : Type 0 where
  pub hosts : Counts n.sampled n.samples_host
  pub full : Counts n.sampled n.samples_full

pub new-IsNat : (firewalled : Bool) → IsNat (new firewalled)
unfolding new total entries_of
new-IsNat firewalled =
    let empty : Counts 0 [] = record { order = tt; apart = λ h p. omega arith; sum = refl } in
    record { hosts = empty; full = empty }

add_sample-Counts :
    (host : List ℕ) (port n : ℕ) (ss : List Sample)
    → n + 1 < 2 ^ 32
    → Counts n ss
    → Counts ((n + 1) % 2 ^ 32) (peeroxide.Nat.add_sample host port ss)
add_sample-Counts host port n ss h c =
    let room : Room ss = omega (arith, c.sum) in
    record {
      order = add_sample-Descends host port ss c.order room;
      apart = add_sample-Apart host port ss room c.apart;
      sum = omega (arith, total_hits-add_sample host port ss room, c.sum);
    }

count_sample-IsNat :
    (addr : Ipv4Peer) (key : List ℕ) (n : Nat)
    → n.sampled + 1 < 2 ^ 32
    → IsNat n
    → IsNat (count_sample addr key n)
unfolding count_sample
count_sample-IsNat addr key n h v = record {
  hosts = add_sample-Counts addr.host 0 n.sampled n.samples_host h v.hosts;
  full = add_sample-Counts addr.host addr.port n.sampled n.samples_full h v.full;
}

Keeps-IsNat : (n m : Nat) → Keeps n m → IsNat n → IsNat m
Keeps-IsNat n m k v = record {
  hosts = rw (k.sampled, k.hosts) v.hosts;
  full = rw (k.sampled, k.full) v.full;
}

mark_visited-IsNat :
    (host : List ℕ) (port : ℕ) (n : Nat) → IsNat n → IsNat (mark_visited host port n).0
unfolding mark_visited
mark_visited-IsNat host port n v = elim (Bool-cases (contains (visit_key host port) n.visited)) [
  | inl e ↦ rw e v
  | inr e ↦ rw e (record { hosts = v.hosts; full = v.full })
]

pub step-IsNat : (c : Call) (n : Nat) → n.sampled + 1 < 2 ^ 32 → IsNat n → IsNat (step c n)
unfolding step peeroxide.Nat.freeze
step-IsNat (adds addr sender) n h v = elim (add-cases addr sender n) [
  | inl (seen, e) ↦ rw e v
  | inr (unseen, e) ↦
      let key : List ℕ = visit_key sender.host sender.port in
      rw e (
        Keeps-IsNat (count_sample addr key n) _ (counted-Keeps addr key n)
          (count_sample-IsNat addr key n h v))
]
step-IsNat updates n h v = Keeps-IsNat n _ (kept (update-Quiet n)) v
step-IsNat freezes n h v = Keeps-IsNat n _ (kept (Quiet-touch n n.firewall n.addresses Bool.true)) v
step-IsNat unfreezes n h v = Keeps-IsNat n _ (kept (unfreeze-Quiet n)) v
step-IsNat destroys n h v = Keeps-IsNat n _ (destroy-Keeps n) v
step-IsNat (marks host port) n h v = mark_visited-IsNat host port n v

pub mark_visited-sampled :
    (host : List ℕ) (port : ℕ) (n : Nat) → (mark_visited host port n).0.sampled ≡ n.sampled
unfolding mark_visited
mark_visited-sampled host port n = elim (Bool-cases (contains (visit_key host port) n.visited)) [
  | inl e ↦ rw e refl
  | inr e ↦ rw e refl
]

-- A call counts at most one sample.
pub step-sampled :
    (c : Call) (n : Nat) → n.sampled + 1 < 2 ^ 32 → (step c n).sampled ≤ n.sampled + 1
unfolding step peeroxide.Nat.freeze count_sample
step-sampled (adds addr sender) n h = elim (add-cases addr sender n) [
  | inl (seen, e) ↦ rw e (omega arith)
  | inr (unseen, e) ↦
      let key : List ℕ = visit_key sender.host sender.port in
      rw (e, (counted-Keeps addr key n).sampled) (omega arith)
]
step-sampled updates n h = omega (arith, (kept (update-Quiet n)).sampled)
step-sampled freezes n h = omega arith
step-sampled unfreezes n h = omega (arith, (kept (unfreeze-Quiet n)).sampled)
step-sampled destroys n h = omega (arith, (destroy-Keeps n).sampled)
step-sampled (marks host port) n h = omega (arith, mark_visited-sampled host port n)

run-IsNat_from :
    (cs : List Call) (n : Nat) → n.sampled + length cs < 2 ^ 32 → IsNat n → IsNat (run cs n)
unfolding run
run-IsNat_from [] n h v = v
run-IsNat_from (c ∷ cs) n h v =
    run-IsNat_from cs (step c n) (omega (arith, step-sampled c n (omega arith)))
      (step-IsNat c n (omega arith) v)

-- After fewer than 2^32 calls on a new Nat, in any order, both lists of samples have falling
-- hits of at least one, one sample at most for each address, and `sampled` hits in all.
pub run-IsNat :
    (firewalled : Bool) (cs : List Call) → length cs < 2 ^ 32 → IsNat (run cs (new firewalled))
unfolding new
run-IsNat firewalled cs h =
    run-IsNat_from cs (new firewalled) (omega (arith, h)) (new-IsNat firewalled)
