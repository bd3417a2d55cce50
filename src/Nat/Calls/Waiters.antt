-- ===== src/Nat/Calls/Waiters.antt =====
-- Those who wait for the verdict.
use peeroxide.Common.{
  ℕ, ◌+◌, ◌^◌, ◌≤◌, ◌<◌, ◌≡◌, refl, sym, ap, ◌∙◌, inl, inr, Bool, true, false, ◌&&◌, ◌||◌,
  Bool-cases, leb, le→leb, ◌==◌, if◌then◌else◌, List, [], ◌∷◌, length, arith,
}
use peeroxide.Common.Dict.{contains}
use peeroxide.HyperMessages.{firewall_open, firewall_consistent}
use peeroxide.Nat.{
  Nat, new, settle, try_settle, nat_min_samples, count_sample, update_if_due, mark_visited,
  visit_key, destroy,
}
use peeroxide.Nat.Calls.{
  Call, adds, updates, freezes, unfreezes, destroys, marks, step, run, Quiet, Quiet-touch,
  Quiet-trans, update-Quiet, unfreeze-Quiet, update_if_due-Quiet, try_settle-cases, settle-Keeps,
  add-cases,
}
use peeroxide.Nat.Calls.Log.{reports, run-Counted}

-- Without a firewall there is nothing to wait for; else the waiters are woken once, on settling.
pub record Waiting (n : Nat) : Type 0 where
  pub reachable : n.firewalled ≡ false → n.analyzing_settled ≡ true
  pub woken : n.notified ≡ (if n.firewalled && n.analyzing_settled then 1 else 0)

Quiet-Waiting : (n m : Nat) → Quiet n m → Waiting n → Waiting m
Quiet-Waiting n m (k, q) w = record {
  reachable = λ e. q.settled ∙ w.reachable (sym k.firewalled ∙ e);
  woken = rw (q.notified, k.firewalled, q.settled) w.woken;
}

settle-cases :
    (n : Nat) (b : Bool)
    → n.analyzing_settled ≡ b
    → settle n ≡ (if b then n else record n { analyzing_settled = true; notified = n.notified + 1 })
unfolding settle
settle-cases n b e =
    ap (λ c. if c then n else record n { analyzing_settled = true; notified = n.notified + 1 }) e

settle-Waiting : (n : Nat) → Waiting n → Waiting (settle n)
settle-Waiting n w = elim (Bool-cases n.analyzing_settled) [
  | inl e ↦ rw (settle-cases n true e) w
  | inr e ↦ elim (Bool-cases n.firewalled) [
    | inl f ↦
        let none_yet : n.notified ≡ 0 = w.woken ∙ rw (f, e) refl in
        rw (settle-cases n false e)
          (record { reachable = λ g. refl; woken = rw (f, none_yet) refl })
    | inr f ↦ let t : n.analyzing_settled ≡ true = w.reachable f in absurd cc
  ]
]

settle-settled : (n : Nat) → (settle n).analyzing_settled ≡ true
settle-settled n = elim (Bool-cases n.analyzing_settled) [
  | inl e ↦ ap (λ m. m.analyzing_settled) (settle-cases n true e) ∙ e
  | inr e ↦ ap (λ m. m.analyzing_settled) (settle-cases n false e)
]

try_settle-Waiting : (n : Nat) → Waiting n → Waiting (try_settle n)
try_settle-Waiting n w = elim (try_settle-cases n) [
  | inl e ↦ rw e (settle-Waiting n w)
  | inr e ↦ rw e w
]

try_settle-settled : (n : Nat) → 4 ≤ n.sampled → (try_settle n).analyzing_settled ≡ true
unfolding try_settle
try_settle-settled n h =
    elim ((n.firewall == firewall_open) || (n.firewall == firewall_consistent))
      as (λ b.
        (if b || leb nat_min_samples n.sampled then settle n else n).analyzing_settled ≡ true) [
          | true ↦ settle-settled n
          | false ↦ rw (le→leb 4 n.sampled h) (settle-settled n)
        ]

-- With four samples the verdict has settled.
Enough : Nat → Type 0
Enough n = 4 ≤ n.sampled → n.analyzing_settled ≡ true

Quiet-Enough : (n m : Nat) → Quiet n m → Enough n → Enough m
unfolding Enough
Quiet-Enough n m (k, q) e h = q.settled ∙ e (omega (arith, k.sampled))

Settles : Nat → Type 0
Settles n = Waiting n × Enough n

Quiet-Settles : (n m : Nat) → Quiet n m → Settles n → Settles m
unfolding Settles
Quiet-Settles n m q (w, e) = (Quiet-Waiting n m q w, Quiet-Enough n m q e)

mark_visited-Settles :
    (host : List ℕ) (port : ℕ) (n : Nat) → Settles n → Settles (mark_visited host port n).0
unfolding mark_visited Settles Enough
mark_visited-Settles host port n (w, e) =
    elim (Bool-cases (contains (visit_key host port) n.visited)) [
      | inl f ↦ rw f (w, e)
      | inr f ↦ rw f (record { reachable = w.reachable; woken = w.woken }, e)
    ]

step-Settles : (c : Call) (n : Nat) → Settles n → Settles (step c n)
unfolding step peeroxide.Nat.freeze mark_visited destroy Settles Enough count_sample
step-Settles (adds addr sender) n (w, e) = elim (add-cases addr sender n) [
  | inl (two, eq) ↦ rw eq (w, e)
  | inr (two, eq) ↦
      let k : Nat = count_sample addr (visit_key sender.host sender.port) n in
      let m : Nat = update_if_due k in
      let counted : Waiting k = record { reachable = w.reachable; woken = w.woken } in
      rw eq (
        try_settle-Waiting m (Quiet-Waiting k m (update_if_due-Quiet k) counted),
        λ h.
            try_settle-settled m
              (omega (arith, h, (peeroxide.Nat.Calls.try_settle-Keeps m).sampled)),
      )
]
step-Settles updates n s = Quiet-Settles n _ (update-Quiet n) s
step-Settles freezes n s = Quiet-Settles n _ (Quiet-touch n n.firewall n.addresses true) s
step-Settles unfreezes n s = Quiet-Settles n _ (unfreeze-Quiet n) s
step-Settles destroys n (w, e) =
    let m : Nat = record n { frozen = true } in
    (
      settle-Waiting m (Quiet-Waiting n m (Quiet-touch n n.firewall n.addresses true) w),
      λ h. settle-settled m,
    )
step-Settles (marks host port) n s = mark_visited-Settles host port n s

run-Settles_from : (cs : List Call) (n : Nat) → Settles n → Settles (run cs n)
unfolding run
run-Settles_from [] n s = s
run-Settles_from (c ∷ cs) n s = run-Settles_from cs (step c n) (step-Settles c n s)

new-Settles : (firewalled : Bool) → Settles (new firewalled)
unfolding new Settles Enough
new-Settles true = (record { reachable = λ e. absurd cc; woken = refl }, λ h. absurd (omega arith))
new-Settles false = (record { reachable = λ e. refl; woken = refl }, λ h. refl)

-- After any calls on a new Nat, in any order, the waiters have been notified once if it is
-- firewalled and has settled, and else never; without a firewall it has settled from the start.
pub run-Waiting : (firewalled : Bool) (cs : List Call) → Waiting (run cs (new firewalled))
unfolding Settles
run-Waiting firewalled cs = (run-Settles_from cs (new firewalled) (new-Settles firewalled)).0

destroy_firewalled : (n : Nat) → (destroy n).firewalled ≡ n.firewalled
unfolding destroy
destroy_firewalled n = (settle-Keeps (record n { frozen = true })).firewalled

new_firewalled : (firewalled : Bool) → (new firewalled).firewalled ≡ firewalled
unfolding new
new_firewalled firewalled = refl

woken_once :
    (a b c : Bool) → a ≡ b → c ≡ true → ◌≡◌ {A = ℕ} (if a && c then 1 else 0) (if b then 1 else 0)
woken_once true true true p q = refl
woken_once true false c p q = absurd cc
woken_once true true false p q = absurd cc
woken_once false true c p q = absurd cc
woken_once false false c p q = refl

-- No call changes whether there is a firewall.
step_firewalled : (c : Call) (n : Nat) → (step c n).firewalled ≡ n.firewalled
unfolding step peeroxide.Nat.freeze mark_visited count_sample
step_firewalled (adds addr sender) n = elim (add-cases addr sender n) [
  | inl (two, eq) ↦ rw eq refl
  | inr (two, eq) ↦
      let k : Nat = count_sample addr (visit_key sender.host sender.port) n in
      let m : Nat = update_if_due k in
      rw eq
        ((peeroxide.Nat.Calls.try_settle-Keeps m).firewalled ∙ (update_if_due-Quiet k).0.firewalled)
]
step_firewalled updates n = (update-Quiet n).0.firewalled
step_firewalled freezes n = refl
step_firewalled unfreezes n = (unfreeze-Quiet n).0.firewalled
step_firewalled destroys n = destroy_firewalled n
step_firewalled (marks host port) n = elim (Bool-cases (contains (visit_key host port) n.visited)) [
  | inl f ↦ rw (step, mark_visited, f) refl
  | inr f ↦ rw (step, mark_visited, f) refl
]

run_firewalled : (cs : List Call) (n : Nat) → (run cs n).firewalled ≡ n.firewalled
unfolding run
run_firewalled [] n = refl
run_firewalled (c ∷ cs) n = run_firewalled cs (step c n) ∙ step_firewalled c n

-- Once the calls on a new Nat, fewer than 2^32 and in any order, include reports of four
-- senders, the verdict has settled, also where the samples were frozen, and those who wait for
-- it have been notified exactly once if the Nat is firewalled; if it is not, they have never
-- been notified.
pub run-settles :
    (firewalled : Bool) (cs : List Call)
    → length cs < 2 ^ 32
    → 4 ≤ length (reports [] cs)
    → let n = run cs (new firewalled) in
      (n.analyzing_settled ≡ true) × (n.notified ≡ (if firewalled then 1 else 0))
unfolding Settles Enough
run-settles firewalled cs h enough =
    let n : Nat = run cs (new firewalled) in
    let (w, settles) = run-Settles_from cs (new firewalled) (new-Settles firewalled) in
    let settled : n.analyzing_settled ≡ true =
      settles (omega (arith, enough, (run-Counted firewalled cs h).sampled)) in
    let who : n.firewalled ≡ firewalled =
      run_firewalled cs (new firewalled) ∙ new_firewalled firewalled in
    (settled, w.woken ∙ woken_once n.firewalled firewalled n.analyzing_settled who settled)
