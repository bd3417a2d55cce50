-- ===== src/Nat/Sampling.antt =====
-- The number that `auto_sample` returns.
use peeroxide.Common.{
  ℕ, ◌+◌, ◌-◌, ◌%◌, ◌^◌, ◌≤◌, ◌<◌, ◌≡◌, ap, ◌∙◌, inl, inr, ◌⊎◌, Bool, true, false, not, ltb, ◌==◌,
  if◌then◌else◌, none, some, List, [], ◌∷◌, length, arith,
}
use peeroxide.HyperMessages.{firewall_unknown}
use peeroxide.Messages.{Ipv4Peer}
use peeroxide.Nat.{Nat, add, count_sample, visit_key, Pinged, replied, failed, absorb, auto_sample}
use peeroxide.Nat.Calls.{add-cases, counted-Keeps}

-- A call of `add` counts one sample or none.
add-sampled :
    (addr sender : Ipv4Peer) (n : Nat)
    → n.sampled + 1 < 2 ^ 32
    → ((add addr sender n).sampled ≡ n.sampled) ⊎ ((add addr sender n).sampled ≡ n.sampled + 1)
unfolding count_sample
add-sampled addr sender n h = elim (add-cases addr sender n) [
  | inl (two, e) ↦ inl (ap (λ m. m.sampled) e)
  | inr (two, e) ↦
      let key : List ℕ = visit_key sender.host sender.port in
      let k : (count_sample addr key n).sampled ≡ n.sampled + 1 = omega arith in
      inr (ap (λ m. m.sampled) e ∙ (counted-Keeps addr key n).sampled ∙ k)
]

-- The loop's variables tell how many samples were counted.
Tells : ℕ → Nat × ℕ → Type 0
Tells before r = (before ≤ r.0.sampled) × (r.1 ≡ r.0.sampled - before)

Tells-if :
    (before : ℕ) (b : Bool) (x y : Nat × ℕ)
    → Tells before x
    → Tells before y
    → Tells before (if b then x else y)
Tells-if before true x y p q = p
Tells-if before false x y p q = q

more_lem :
    (before added now old : ℕ)
    → old + 1 < 2 ^ 32
    → before ≤ old
    → added ≡ old - before
    → (now ≡ old) ⊎ (now ≡ old + 1)
    → (before ≤ now)
      × ((if ltb ((before + added % 2 ^ 32) % 2 ^ 32) now then now - before else added)
          ≡ now - before)
more_lem before added now old h le e (inl q) = ground arith
more_lem before added now old h le e (inr q) = ground arith

absorb-Tells :
    (rs : List Pinged) (before added : ℕ) (n : Nat)
    → n.sampled + length rs < 2 ^ 32
    → before ≤ n.sampled
    → added ≡ n.sampled - before
    → Tells before (absorb before added rs n)
unfolding absorb Tells
absorb-Tells [] before added n h le e = (le, e)
absorb-Tells (failed ∷ rs) before added n h le e = absorb-Tells rs before added n (omega arith) le e
absorb-Tells (replied none sender ∷ rs) before added n h le e =
    absorb-Tells rs before added n (omega arith) le e
absorb-Tells (replied (some to) sender ∷ rs) before added n h le e =
    let m : Nat = add to sender n in
    let grows = add-sampled to sender n (omega arith) in
    let more : ℕ =
      if ltb ((before + added % 2 ^ 32) % 2 ^ 32) m.sampled then m.sampled - before else added in
    let (fits, told) = more_lem before added m.sampled n.sampled (omega arith) le e grows in
    let few : m.sampled ≤ n.sampled + 1 = elim grows [
      | inl g ↦ omega (arith, g)
      | inr g ↦ omega (arith, g)
    ] in
    Tells-if before (m.firewall == firewall_unknown) (absorb before more rs m) (m, more)
      (absorb-Tells rs before more m (omega (arith, few)) fits told) (fits, told)

-- Whatever the pings bring, and in whatever order, auto_sample returns by how much it has raised
-- `sampled`, which stays below 2^32.
pub auto_sample-counts :
    (results : List Pinged) (n : Nat)
    → n.sampled + length results < 2 ^ 32
    → (n.sampled ≤ (auto_sample results n).0.sampled)
      × ((auto_sample results n).1 ≡ (auto_sample results n).0.sampled - n.sampled)
unfolding auto_sample Tells
auto_sample-counts results n h =
    Tells-if n.sampled (not (n.firewall == firewall_unknown)) (n, 0) (absorb n.sampled 0 results n)
      (omega arith, omega arith) (absorb-Tells results n.sampled 0 n h (omega arith) (omega arith))
