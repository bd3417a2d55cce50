-- ===== src/Examples/Bandwidth.antt =====
-- filter.rs on concrete samples.
use peeroxide.Common.{ℕ, ◌≡◌, refl, Bool, true, false, leb, arith}
use peeroxide.Filter.{WindowedMaxFilter, expired, get, update, raise, forget}
use peeroxide.Filter.Laws.{IsOrder, Descends, update-Descends, update_young}

abbrev at_least : ℕ → ℕ → Bool
at_least a b = leb b a

at_least-IsOrder : IsOrder at_least
at_least-IsOrder = record {
  total = λ a b h. ground arith;
  itself = λ a. ground arith;
  chain = λ a b c h k. ground arith;
}

-- Samples of three rounds; the one of round 13 comes after the first has expired.
abbrev three : WindowedMaxFilter ℕ
three = record { e0 = (9, 2); e1 = (7, 4); e2 = (5, 8) }

three-Descends : Descends at_least three
three-Descends = record { first = refl; second = refl }

forgets_oldest : get (update at_least 3 13 10 three) ≡ 7
unfolding update raise forget get
forgets_oldest = refl

update-Descends_example :
    Descends at_least (update at_least 3 13 10 three)
    × (at_least (get (update at_least 3 13 10 three)) 3 ≡ true)
update-Descends_example = update-Descends at_least at_least-IsOrder 3 13 10 three three-Descends

update_young_example : expired 13 10 (update at_least 3 13 10 three).e0.1 ≡ false
update_young_example = update_young at_least 3 13 10 three (omega arith) (omega arith)
