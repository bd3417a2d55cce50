-- ===== src/Store/Lru/Laws.antt =====
-- The cache of values: what is set is found, and its size.
use peeroxide.Common.{
  ℕ, ◌+◌, ◌-◌, ◌≤◌, ◌<◌, ◌≡◌, refl, ap, ◌∙◌, inl, inr, false, leb, Bool-cases, not_leb,
  if◌then◌else◌, Option, none, some, List, [], ◌∷◌, All, length, arith,
}
use peeroxide.Common.Dict.{Dict, erase, lookup-insert_self}
use peeroxide.Common.Dict.Size.{length-insert, length-erase, All-contains}
use peeroxide.Store.{earliest}
use peeroxide.Store.Lru.{CacheEntry, LruCache, live, get, drop_oldest, set}

pub earliest-All :
    {A : Type 0} {P : A → Type 0} (time : A → ℕ) (x : A) (xs : List A)
    → All P (x ∷ xs)
    → (y : A) × (earliest time (x ∷ xs) ≡ some y) × P y
earliest-All time x [] (a, h) = (x, refl, a)
earliest-All time x (z ∷ xs) (a, h) =
    let (y, e, p) = earliest-All time z xs h in
    elim (Bool-cases (leb (time x) (time y))) [
      | inl le ↦ (x, rw (e, le) refl, a)
      | inr gt ↦ (y, rw (e, gt) refl, p)
    ]

abbrev oldest_out : Dict CacheEntry → Option (List ℕ × CacheEntry) → Dict CacheEntry
oldest_out d o = elim o [ none ↦ d | some e ↦ erase e.0 d ]

length-drop_oldest : (d : Dict CacheEntry) → 0 < length d → length (drop_oldest d) + 1 ≡ length d
unfolding drop_oldest
length-drop_oldest [] h = absurd (omega arith)
length-drop_oldest (e ∷ d) h =
    let (y, found, here) = earliest-All (λ x. x.1.inserted_at) e d (All-contains (e ∷ d)) in
    ap (λ o. length (oldest_out (e ∷ d) o) + 1) found ∙ length-erase y.0 (e ∷ d) here

-- A cache of values with room for at least one, which is not over its size, is not over it after
-- set.
pub set_small :
    (now : ℕ) (key value : List ℕ) (c : LruCache)
    → 0 < c.max_size
    → length c.entries ≤ c.max_size
    → length (set now key value c).entries ≤ c.max_size
unfolding set
set_small now key value c pos h =
    let e : CacheEntry = record { value = value; inserted_at = now } in
    elim (Bool-cases (leb c.max_size (length c.entries))) [
      | inl full ↦ rw full (
          ground (arith, length-insert key e (drop_oldest c.entries), length-drop_oldest c.entries))
      | inr room ↦
          rw room (
            omega
              (arith, length-insert key e c.entries, not_leb c.max_size (length c.entries) room))
    ]

-- What is set is found at once.
pub get-set_self :
    (now : ℕ) (key value : List ℕ) (c : LruCache)
    → 0 < c.max_age
    → get now key (set now key value c) ≡ some value
unfolding get set live
get-set_self now key value c h =
    let e : CacheEntry = record { value = value; inserted_at = now } in
    let d : Dict CacheEntry =
      if leb c.max_size (length c.entries) then drop_oldest c.entries else c.entries in
    let young : leb c.max_age (now - now) ≡ false = ground arith in
    ap (live now c.max_age) (lookup-insert_self key e d)
    ∙ ap (λ b. if b then none else some value) young
