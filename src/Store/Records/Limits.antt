-- ===== src/Store/Records/Limits.antt =====
-- The limits of the cache of records: how many a key has, and how many there are.
pub mod Calls
use peeroxide.Common.{
  ℕ, zero, suc, ◌+◌, ◌-◌, ◌≤◌, ◌<◌, ◌≡◌, refl, sym, ap, ◌∙◌, subst, inl, inr, Bool, true, false,
  leb, Bool-cases, Option-cases, if◌then◌else◌, Option, none, some, List, [], ◌∷◌, ◌++◌, All,
  length, length-append, remove_at, arith,
}
use peeroxide.Common.Dict.{
  Dict, apart_bytes, same_bytes, same_bytes_eq, lookup, insert, erase, lookup-insert_self,
  lookup-insert_ne,
}
use peeroxide.Common.Dict.Size.{
  Unique, Unique-insert, Unique-erase, All-insert, All-erase, All-lookup, lookup-erase_self,
  lookup-erase_ne,
}
use peeroxide.Store.{earliest}
use peeroxide.Store.Lru.Laws.{earliest-All}
use peeroxide.Store.Records.{
  RecordEntry, RecordCache, or_empty, bucket_of, has_key, replace, oldest_index, take_out,
  make_room, add_time, oldest_times, oldest_key, put_bucket, evict_at, evict_key, evict_oldest,
  push, evict_if_full, add,
}
use peeroxide.Store.Records.Laws.{
  count, Tallies, Oldest, oldest_index-Oldest, length-remove_at, length-replace, make_room-Tallies,
}

-- No key has more than `m` records, and none two buckets.
pub record Within (m : ℕ) (d : Dict (List RecordEntry)) : Type 0 where
  pub unique : Unique d
  pub few : All (λ e. length e.1 ≤ m) d

pub bucket_of-few :
    (m : ℕ) (k : List ℕ) (d : Dict (List RecordEntry))
    → All (λ e. length e.1 ≤ m) d
    → length (bucket_of k d) ≤ m
bucket_of-few m k [] h = omega arith
bucket_of-few m k (e ∷ d) (a, h) = elim (Bool-cases (same_bytes k e.0)) [
  | inl p ↦ rw p a
  | inr p ↦ rw p (bucket_of-few m k d h)
]

pub insert-Within :
    (m : ℕ) (k : List ℕ) (b : List RecordEntry) (d : Dict (List RecordEntry))
    → length b ≤ m
    → Within m d
    → Within m (insert k b d)
insert-Within m k b d h w = record {
  unique = Unique-insert k b d w.unique;
  few = All-insert (λ e. length e.1 ≤ m) k b d h w.few;
}

pub put_bucket-Within :
    (m : ℕ) (k : List ℕ) (b : List RecordEntry) (d : Dict (List RecordEntry))
    → length b ≤ m
    → Within m d
    → Within m (put_bucket k b d)
put_bucket-Within m k [] d h w = record {
  unique = Unique-erase k d w.unique;
  few = All-erase (λ e. length e.1 ≤ m) k d w.few;
}
put_bucket-Within m k (e ∷ b) d h w = insert-Within m k (e ∷ b) d h w

-- A bucket that is put back shorter makes no bucket longer.
pub put_bucket-shrinks :
    (j k : List ℕ) (b : List RecordEntry) (d : Dict (List RecordEntry))
    → Unique d
    → length b ≤ length (bucket_of k d)
    → length (bucket_of j (put_bucket k b d)) ≤ length (bucket_of j d)
put_bucket-shrinks j k [] d u h = elim (Bool-cases (same_bytes j k)) [
  | inl p ↦
      let gone : lookup j (erase k d) ≡ none =
        ap (λ i. lookup i (erase k d)) (same_bytes_eq j k p) ∙ lookup-erase_self k d u in
      omega (arith, ap (λ o. length (or_empty o)) gone)
  | inr p ↦ omega (arith, ap (λ o. length (or_empty o)) (lookup-erase_ne j k d p))
]
put_bucket-shrinks j k (e ∷ b) d u h = elim (Bool-cases (same_bytes j k)) [
  | inl p ↦
      let here : lookup j (insert k (e ∷ b) d) ≡ some (e ∷ b) =
        ap (λ i. lookup i (insert k (e ∷ b) d)) (same_bytes_eq j k p)
        ∙ lookup-insert_self k (e ∷ b) d in
      let size : length (bucket_of j d) ≡ length (bucket_of k d) =
        ap (λ i. length (bucket_of i d)) (same_bytes_eq j k p) in
      omega (arith, h, size, ap (λ o. length (or_empty o)) here)
  | inr p ↦
      let other : lookup j (insert k (e ∷ b) d) ≡ lookup j d =
        lookup-insert_ne j k (e ∷ b) d (apart_bytes j k p) in
      omega (arith, ap (λ o. length (or_empty o)) other)
]

every : (b : List RecordEntry) → All (λ x. Unit {0}) (b)
every [] = tt
every (e ∷ b) = (tt, every b)

pub earliest_nonempty :
    {A : Type 0} {P : A → Type 0} (time : A → ℕ) (xs : List A)
    → 0 < length xs
    → All P xs
    → (y : A) × (earliest time xs ≡ some y) × P y
earliest_nonempty time [] h a = absurd (omega arith)
earliest_nonempty time (x ∷ xs) h a = earliest-All time x xs a

-- The keys of the oldest records have records.
oldest_times-All :
    (d es : Dict (List RecordEntry))
    → All (λ e. lookup e.0 d ≡ some e.1) es
    → All (λ p. 0 < length (bucket_of p.0 d)) (oldest_times es)
oldest_times-All d [] h = tt
oldest_times-All d ((k, []) ∷ es) (a, h) = oldest_times-All d es h
oldest_times-All d ((k, r ∷ b) ∷ es) (a, h) =
    let (y, found, _) = earliest-All {P = λ x. Unit} (λ x. x.inserted_at) r b (tt, every b) in
    let full : 0 < length (bucket_of k d) = omega (arith, ap (λ o. length (or_empty o)) a) in
    subst (λ o. All (λ p. 0 < length (bucket_of p.0 d)) (add_time k o (oldest_times es)))
      (sym found) (full, oldest_times-All d es h)

length-oldest_times : (es : Dict (List RecordEntry)) → 0 < count es → 0 < length (oldest_times es)
unfolding count
length-oldest_times [] h = absurd (omega arith)
length-oldest_times ((k, []) ∷ es) h = length-oldest_times es (omega arith)
length-oldest_times ((k, r ∷ b) ∷ es) h =
    let (y, found, _) = earliest-All {P = λ x. Unit} (λ x. x.inserted_at) r b (tt, every b) in
    subst (λ o. 0 < length (add_time k o (oldest_times es))) (sym found) (omega arith)

pub oldest_key-full :
    (d : Dict (List RecordEntry))
    → Unique d
    → 0 < count d
    → (p : List ℕ × ℕ) × (oldest_key d ≡ some p) × (0 < length (bucket_of p.0 d))
oldest_key-full d u h =
    earliest_nonempty (λ p. p.1) (oldest_times d) (length-oldest_times d h)
      (oldest_times-All d d (All-lookup d u))

-- The cache keeps its limits of `m` records for a key and `n` in all.
pub record Limited (m n : ℕ) (c : RecordCache) : Type 0 where
  pub per_key : c.max_per_key ≡ m
  pub limit : c.max_size ≡ n
  pub within : Within m c.entries
  pub size : c.total ≤ n
  pub sum : Tallies c

take_out-Limited :
    (m n : ℕ) (key : List ℕ) (c : RecordCache) (o : Option ℕ)
    → 0 < m
    → Oldest (bucket_of key c.entries) o
    → (e : Limited m n c)
    → (Within m (take_out key c o).entries
        × ((take_out key c o).total ≤ n)
        × ((take_out key c o).max_per_key ≡ m)
        × ((take_out key c o).max_size ≡ n))
      × (length (bucket_of key (take_out key c o).entries) < m)
unfolding take_out
take_out-Limited m n key c none pos h v =
    ((v.within, v.size, v.per_key, v.limit), omega (arith, h, pos))
take_out-Limited m n key c (some i) pos h v =
    let b : List RecordEntry = bucket_of key c.entries in
    let few : length b ≤ m = bucket_of-few m key c.entries v.within.few in
    let less : length (remove_at i b) + 1 ≡ length b = length-remove_at i b h in
    let here : length (bucket_of key (insert key (remove_at i b) c.entries))
        ≡ length (remove_at i b) =
      ap (λ o. length (or_empty o)) (lookup-insert_self key (remove_at i b) c.entries) in
    (
      (
        insert-Within m key (remove_at i b) c.entries (omega (arith, less, few)) v.within,
        omega (arith, v.size),
        v.per_key,
        v.limit,
      ),
      omega (arith, here, less, few),
    )

make_room-full :
    (key : List ℕ) (c : RecordCache)
    → leb c.max_per_key (length (bucket_of key c.entries)) ≡ true
    → make_room key c ≡ take_out key c (oldest_index (bucket_of key c.entries))
unfolding make_room
make_room-full key c full =
    ap (λ b. if b then take_out key c (oldest_index (bucket_of key c.entries)) else c) full

make_room-fits :
    (key : List ℕ) (c : RecordCache)
    → leb c.max_per_key (length (bucket_of key c.entries)) ≡ false
    → make_room key c ≡ c
unfolding make_room
make_room-fits key c fits =
    ap (λ b. if b then take_out key c (oldest_index (bucket_of key c.entries)) else c) fits

pub make_room-Limited :
    (m n : ℕ) (key : List ℕ) (c : RecordCache)
    → 0 < m
    → Limited m n c
    → Limited m n (make_room key c) × (length (bucket_of key (make_room key c).entries) < m)
make_room-Limited m n key c pos v =
    let t : Tallies (make_room key c) = make_room-Tallies key c v.sum in
    elim (Bool-cases (leb c.max_per_key (length (bucket_of key c.entries)))) [
      | inl full ↦
          let e : make_room key c ≡ take_out key c (oldest_index (bucket_of key c.entries)) =
            make_room-full key c full in
          let ((w, s, p, l), room) =
            take_out-Limited m n key c _ pos (oldest_index-Oldest (bucket_of key c.entries)) v in
          subst (λ x. Limited m n x × (length (bucket_of key x.entries) < m)) (sym e)
            (record { per_key = p; limit = l; within = w; size = s; sum = subst Tallies e t }, room)
      | inr fits ↦
          let e : make_room key c ≡ c = make_room-fits key c fits in
          let room : length (bucket_of key c.entries) < m = ground (arith, v.per_key) in
          subst (λ x. Limited m n x × (length (bucket_of key x.entries) < m)) (sym e) (v, room)
    ]
