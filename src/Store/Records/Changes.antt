-- ===== src/Store/Records/Changes.antt =====
-- Sequences of calls on the cache of records.
use peeroxide.Common.{ℕ, ◌≡◌, refl, List, [], ◌∷◌}
use peeroxide.Store.Records.{RecordCache, new, add, remove, get, destroy, record_count}
use peeroxide.Store.Records.Laws.{count, Tallies, add-Tallies, remove-Tallies, get-Tallies}

-- A call that changes the cache, with the time at which it is made.
pub data Change : Type 0 where
  adds : ℕ → List ℕ → List ℕ → List ℕ → Change
  removes : List ℕ → List ℕ → Change
  reads : ℕ → List ℕ → ℕ → Change
  destroys : Change

unfoldable pub change : Change → RecordCache → RecordCache
unfolding add remove get destroy
change (adds now key pk content) c = add now key pk content c
change (removes key pk) c = remove key pk c
change (reads now key max) c = (get now key max c).0
change destroys c = destroy c

unfoldable pub run : List Change → RecordCache → RecordCache
unfolding change
run [] c = c
run (x ∷ xs) c = run xs (change x c)

change-Tallies : (x : Change) (c : RecordCache) → Tallies c → Tallies (change x c)
unfolding change destroy Tallies count
change-Tallies (adds now key pk content) c t = add-Tallies now key pk content c t
change-Tallies (removes key pk) c t = remove-Tallies key pk c t
change-Tallies (reads now key max) c t = get-Tallies now key max c t
change-Tallies destroys c t = refl

run-Tallies : (xs : List Change) (c : RecordCache) → Tallies c → Tallies (run xs c)
unfolding run
run-Tallies [] c t = t
run-Tallies (x ∷ xs) c t = run-Tallies xs (change x c) (change-Tallies x c t)

-- After any calls on a new cache of records, in any order, at any times and for any limits,
-- record_count is the number of the records that it holds.
pub record_count-run :
    (xs : List Change) (max_size max_age max_per_key : ℕ)
    → record_count (run xs (new max_size max_age max_per_key))
      ≡ count (run xs (new max_size max_age max_per_key)).entries
unfolding record_count Tallies new count
record_count-run xs max_size max_age max_per_key =
    run-Tallies xs (new max_size max_age max_per_key) refl
