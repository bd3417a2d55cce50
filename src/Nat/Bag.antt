-- ===== src/Nat/Bag.antt =====
-- The lists of samples as bags: how often each address has been seen.
use peeroxide.Common.{
  ℕ, ◌+◌, ◌%◌, ◌^◌, ◌≤◌, ◌<◌, ◌≡◌, refl, sym, ap₂, ◌∙◌, subst, inl, inr, ◌⊎◌, true, false, ltb,
  Bool-cases, if◌then◌else◌, List, [], ◌∷◌, arith, ==_iff, ==_refl,
}
use peeroxide.Common.Dict.{same_bytes_eq, same_bytes_refl, both_true}
use peeroxide.Nat.{Sample, matches, hit, rejoin, bubble_up, add_from, add_sample}
use peeroxide.Nat.Samples.{Falls, total, total_hits, Room}

-- The hits of an address, and the number of its samples.
unfoldable pub hits_of : List ℕ → ℕ → List Sample → ℕ
unfolding total
hits_of host port ss = total (λ s. if matches host port s then s.hits else 0) ss

unfoldable pub entries_of : List ℕ → ℕ → List Sample → ℕ
unfolding total
entries_of host port ss = total (λ s. if matches host port s then 1 else 0) ss

abbrev pub fresh : List ℕ → ℕ → Sample
fresh host port = record { host = host; port = port; hits = 1 }

matches_lem : (h : List ℕ) (p : ℕ) (s : Sample) → matches h p s ≡ true → (s.host ≡ h) × (s.port ≡ p)
matches_lem h p s m =
    let (a, b) = both_true _ _ m in (same_bytes_eq s.host h b, (==_iff s.port p).0 a)

-- A sample that matches one address matches another as that address does.
matches_trans :
    (h g : List ℕ) (p q : ℕ) (s : Sample)
    → matches h p s ≡ true
    → matches g q s ≡ matches g q (fresh h p)
matches_trans h g p q s m =
    let (a, b) = matches_lem h p s m in
    ap₂ (λ host port. matches g q (record { host = host; port = port; hits = 1 })) a b

total-rejoin :
    (f : Sample → ℕ) (before after : List Sample)
    → total f (rejoin before after) ≡ total f before + total f after
unfolding total
total-rejoin f [] after = omega arith
total-rejoin f (p ∷ before) after = omega (arith, total-rejoin f before (p ∷ after))

total-bubble_up :
    (f : Sample → ℕ) (before : List Sample) (s : Sample) (after : List Sample)
    → total f (bubble_up before s after) ≡ total f before + f s + total f after
unfolding bubble_up total
total-bubble_up f [] s after = omega arith
total-bubble_up f (p ∷ before) s after = elim (Bool-cases (ltb p.hits s.hits)) [
  | inl lt ↦ rw lt (omega (arith, total-bubble_up f before s (p ∷ after)))
  | inr ge ↦ rw ge (omega (arith, total-rejoin f before (p ∷ s ∷ after)))
]

-- Either one sample of the address has one hit more, or the address had none and has a fresh one.
pub record Hit (host : List ℕ) (port : ℕ) (old new : List Sample) : Type 0 where
  pub sample : Sample
  pub here : matches host port sample ≡ true
  pub room : sample.hits + 1 < 2 ^ 32
  pub change : (f : Sample → ℕ) → total f new + f sample ≡ total f old + f (hit sample)

pub record Fresh (host : List ℕ) (port : ℕ) (old new : List Sample) : Type 0 where
  pub absent : entries_of host port old ≡ 0
  pub change : (f : Sample → ℕ) → total f new ≡ total f old + f (fresh host port)

module _ (host : List ℕ) (port : ℕ) where
  Found : List Sample → List Sample → Type 0
  Found before after =
      Hit host port (rejoin before after) (add_from host port before after)
      ⊎ ((entries_of host port after ≡ 0)
          × ((f : Sample → ℕ)
              → total f (add_from host port before after)
                ≡ total f before + total f after + f (fresh host port)))

  add_from-cases : (before after : List Sample) → Room after → Found before after
  unfolding Found add_from total entries_of
  add_from-cases before [] room =
      inr (refl, λ f. omega (arith, total-rejoin f before (fresh host port ∷ [])))
  add_from-cases before (s ∷ after) room = elim (Bool-cases (matches host port s)) [
    | inl m ↦ inl (record {
      sample = s;
      here = m;
      room = omega arith;
      change = λ f. rw m (
          omega (arith, total-bubble_up f before (hit s) after, total-rejoin f before (s ∷ after)));
    })
    | inr m ↦ elim (add_from-cases (s ∷ before) after (omega arith)) [
      | inl h ↦ inl (rw m h)
      | inr (e, c) ↦ inr (rw m (omega (arith, e)), λ f. rw m (omega (arith, c f)))
    ]
  ]

  pub add_sample-cases :
      (ss : List Sample)
      → Room ss
      → Hit host port ss (add_sample host port ss) ⊎ Fresh host port ss (add_sample host port ss)
  unfolding add_sample Found total
  add_sample-cases ss room = elim (add_from-cases [] ss room) [
    | inl h ↦ inl h
    | inr (e, c) ↦ inr (record { absent = e; change = λ f. omega (arith, c f) })
  ]

  pub total_hits-add_sample :
      (ss : List Sample) → Room ss → total_hits (add_sample host port ss) ≡ total_hits ss + 1
  total_hits-add_sample ss room = elim (add_sample-cases ss room) [
    | inl h ↦ omega (arith, h.room, h.change (λ s. s.hits))
    | inr n ↦ n.change (λ s. s.hits)
  ]

  pub hits_of-add_sample :
      (g : List ℕ) (q : ℕ) (ss : List Sample)
      → Room ss
      → hits_of g q (add_sample host port ss)
        ≡ hits_of g q ss + (if matches g q (fresh host port) then 1 else 0)
  unfolding hits_of
  hits_of-add_sample g q ss room =
      let f : Sample → ℕ = λ s. if matches g q s then s.hits else 0 in
      elim (add_sample-cases ss room) [
        | inl h ↦ elim (Bool-cases (matches g q h.sample)) [
          | inl m ↦
              let e : matches g q (fresh host port) ≡ true =
                sym (matches_trans host g port q h.sample h.here) ∙ m in
              let c : total f (add_sample host port ss) + h.sample.hits
                  ≡ total f ss + (h.sample.hits + 1) % 2 ^ 32 =
                subst
                  (λ b.
                    total f (add_sample host port ss) + (if b then h.sample.hits else 0)
                    ≡ total f ss + (if b then (h.sample.hits + 1) % 2 ^ 32 else 0))
                  m (h.change f) in
              rw e (omega (arith, c, h.room))
          | inr m ↦
              let e : matches g q (fresh host port) ≡ false =
                sym (matches_trans host g port q h.sample h.here) ∙ m in
              let c : total f (add_sample host port ss) + 0 ≡ total f ss + 0 =
                subst
                  (λ b.
                    total f (add_sample host port ss) + (if b then h.sample.hits else 0)
                    ≡ total f ss + (if b then (h.sample.hits + 1) % 2 ^ 32 else 0))
                  m (h.change f) in
              rw e (omega (arith, c))
        ]
        | inr n ↦ n.change f
      ]

-- No address has two samples.
abbrev pub Apart : List Sample → Type 0
Apart ss = (host : List ℕ) (port : ℕ) → entries_of host port ss ≤ 1

matches-fresh : (h g : List ℕ) (p q : ℕ) → matches g q (fresh h p) ≡ true → (h ≡ g) × (p ≡ q)
matches-fresh h g p q m = matches_lem g q (fresh h p) m

pub add_sample-Apart :
    (host : List ℕ) (port : ℕ) (ss : List Sample)
    → Room ss
    → Apart ss
    → Apart (add_sample host port ss)
unfolding entries_of
add_sample-Apart host port ss room apart g q =
    let f : Sample → ℕ = λ s. if matches g q s then 1 else 0 in
    elim (add_sample-cases host port ss room) [
      | inl h ↦
          let c : total f (add_sample host port ss) + f h.sample ≡ total f ss + f h.sample =
            h.change f in
          omega (arith, c, apart g q)
      | inr n ↦ elim (Bool-cases (matches g q (fresh host port))) [
        | inl m ↦
            let (a, b) = matches-fresh host g port q m in
            let none_yet : entries_of g q ss ≡ 0 =
              subst (λ p. entries_of g p ss ≡ 0) b
                (subst (λ h. entries_of h port ss ≡ 0) a n.absent) in
            let c : total f (add_sample host port ss) ≡ total f ss + 1 =
              subst (λ b. total f (add_sample host port ss) ≡ total f ss + (if b then 1 else 0)) m
                (n.change f) in
            omega (arith, c, none_yet)
        | inr m ↦
            let c : total f (add_sample host port ss) ≡ total f ss + 0 =
              subst (λ b. total f (add_sample host port ss) ≡ total f ss + (if b then 1 else 0)) m
                (n.change f) in
            omega (arith, c, apart g q)
      ]
    ]

hits_of_none :
    (host : List ℕ) (port : ℕ) (ss : List Sample)
    → entries_of host port ss ≡ 0
    → hits_of host port ss ≡ 0
unfolding hits_of entries_of total
hits_of_none host port [] e = refl
hits_of_none host port (s ∷ ss) e = elim (Bool-cases (matches host port s)) [
  | inl m ↦
      let c : 1 + entries_of host port ss ≡ 0 =
        subst (λ b. (if b then 1 else 0) + entries_of host port ss ≡ 0) m e in
      absurd (omega (arith, c))
  | inr m ↦
      let c : 0 + entries_of host port ss ≡ 0 =
        subst (λ b. (if b then 1 else 0) + entries_of host port ss ≡ 0) m e in
      rw m (omega (arith, hits_of_none host port ss (omega (arith, c))))
]

-- No address has more hits than the bound, where each has one sample at most.
pub hits_of-le :
    (n : ℕ) (ss : List Sample) (host : List ℕ) (port : ℕ)
    → Falls n ss
    → entries_of host port ss ≤ 1
    → hits_of host port ss ≤ n
unfolding hits_of entries_of total
hits_of-le n [] host port f e = omega arith
hits_of-le n (s ∷ ss) host port (a, f) e = elim (Bool-cases (matches host port s)) [
  | inl m ↦
      let c : 1 + entries_of host port ss ≤ 1 =
        subst (λ b. (if b then 1 else 0) + entries_of host port ss ≤ 1) m e in
      rw m (omega (arith, hits_of_none host port ss (omega (arith, c))))
  | inr m ↦
      let c : 0 + entries_of host port ss ≤ 1 =
        subst (λ b. (if b then 1 else 0) + entries_of host port ss ≤ 1) m e in
      rw m (omega (arith, hits_of-le s.hits ss host port f (omega (arith, c))))
]

matches_self : (s : Sample) → matches s.host s.port s ≡ true
matches_self s = rw (==_refl s.port, same_bytes_refl s.host) refl

-- The address of the first sample has at least its hits.
pub hits_of-first : (s : Sample) (ss : List Sample) → s.hits ≤ hits_of s.host s.port (s ∷ ss)
unfolding hits_of total
hits_of-first s ss = rw (matches_self s) (omega arith)
