-- ===== src/Nat/Samples.antt =====
-- The lists of samples: their order.
use peeroxide.Common.{
  ℕ, ◌+◌, ◌^◌, ◌≤◌, ◌<◌, inl, inr, ltb, ltb→lt, Bool-cases, List, [], ◌∷◌, arith,
}
use peeroxide.Nat.{Sample, matches, hit, rejoin, bubble_up, add_from, add_sample}

-- Hits of at least one, which do not rise from `n` on.
abbrev pub Falls : ℕ → List Sample → Type 0
Falls n [] = 1 ≤ n
Falls n (s ∷ ss) = (s.hits ≤ n) × Falls s.hits ss

-- Hits that do not fall from `n` on.
abbrev pub Rises : ℕ → List Sample → Type 0
Rises n [] = Unit
Rises n (s ∷ ss) = (n ≤ s.hits) × Rises s.hits ss

-- Every sample has a hit, and the hits do not rise.
abbrev pub Descends : List Sample → Type 0
Descends [] = Unit
Descends (s ∷ ss) = Falls s.hits ss

unfoldable pub total : (Sample → ℕ) → List Sample → ℕ
total f [] = 0
total f (s ∷ ss) = f s + total f ss

abbrev pub total_hits : List Sample → ℕ
total_hits ss = total (λ s. s.hits) ss

Falls-le : (m n : ℕ) (ss : List Sample) → m ≤ n → Falls m ss → Falls n ss
Falls-le m n [] h f = omega arith
Falls-le m n (s ∷ ss) h (a, f) = (omega arith, f)

rejoin-Descends :
    (before : List Sample) (s : Sample) (after : List Sample)
    → Rises s.hits before
    → Falls s.hits after
    → Descends (rejoin before (s ∷ after))
rejoin-Descends [] s after r f = f
rejoin-Descends (p ∷ before) s after (a, r) f = rejoin-Descends before p (s ∷ after) r (a, f)

-- `m` stands for the hits that the sample had when the list was in order.
bubble_up-Descends :
    (m : ℕ) (before : List Sample) (s : Sample) (after : List Sample)
    → Rises m before
    → Falls m after
    → m ≤ s.hits
    → Descends (bubble_up before s after)
unfolding bubble_up
bubble_up-Descends m [] s after r f h = Falls-le m s.hits after h f
bubble_up-Descends m (p ∷ before) s after (a, r) f h = elim (Bool-cases (ltb p.hits s.hits)) [
  | inl lt ↦ rw lt (
      bubble_up-Descends p.hits before s (p ∷ after) r (omega arith, Falls-le m p.hits after a f)
        (ground (arith, ltb→lt p.hits s.hits)))
  | inr ge ↦
      rw ge (rejoin-Descends before p (s ∷ after) r (ground arith, Falls-le m s.hits after h f))
]

-- The samples before the loop's index, from the last on, fit the rest.
abbrev Fits : List Sample → List Sample → Type 0
Fits before [] = Rises 1 before
Fits before (s ∷ after) = Rises s.hits before × Falls s.hits after

Fits-next :
    (before : List Sample) (s : Sample) (after : List Sample)
    → Fits before (s ∷ after)
    → Fits (s ∷ before) after
Fits-next before s [] (r, f) = (f, r)
Fits-next before s (t ∷ after) (r, (a, f)) = ((a, r), f)

-- No sample has reached the largest `u32`.
abbrev pub Room : List Sample → Type 0
Room ss = total_hits ss + 1 < 2 ^ 32

add_from-Descends :
    (host : List ℕ) (port : ℕ) (before after : List Sample)
    → Fits before after
    → Room after
    → Descends (add_from host port before after)
unfolding add_from total
add_from-Descends host port before [] r room = rejoin-Descends before _ [] r (omega arith)
add_from-Descends host port before (s ∷ after) (r, f) room =
    elim (Bool-cases (matches host port s)) [
      | inl m ↦ rw m (bubble_up-Descends s.hits before (hit s) after r f (omega arith))
      | inr m ↦ rw m (
          add_from-Descends host port (s ∷ before) after (Fits-next before s after (r, f))
            (omega arith))
    ]

pub add_sample-Descends :
    (host : List ℕ) (port : ℕ) (ss : List Sample)
    → Descends ss
    → Room ss
    → Descends (add_sample host port ss)
unfolding add_sample
add_sample-Descends host port [] d room = add_from-Descends host port [] [] tt room
add_sample-Descends host port (s ∷ ss) d room = add_from-Descends host port [] (s ∷ ss) (tt, d) room
