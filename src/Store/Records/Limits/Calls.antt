-- ===== src/Store/Records/Limits/Calls.antt =====
-- The limits of the cache of records, through every call.
use peeroxide.Common.{
  ℕ, ◌+◌, ◌≤◌, ◌<◌, ◌≡◌, refl, sym, ap, subst, inl, inr, not, leb, leb→le, not_leb, Bool-cases,
  if◌then◌else◌, Option, none, some, List, [], ◌∷◌, ◌++◌, length, length-append, remove_at, arith,
}
use peeroxide.Common.Dict.{Dict, same_bytes, lookup, insert}
use peeroxide.Store.Records.{
  RecordEntry, RecordCache, new, or_empty, bucket_of, has_key, replace, make_room, evict_at,
  evict_key, evict_oldest, push, evict_if_full, add, retain, remove_from, remove, fresh, get_from,
  get, destroy,
}
use peeroxide.Store.Records.Laws.{
  count, Tallies, Oldest, oldest_index-Oldest, length-remove_at, length-replace, length-retain,
  add-Tallies, remove-Tallies, get-Tallies,
}
use peeroxide.Store.Records.Changes.{Change, adds, removes, reads, destroys, change, run}
use peeroxide.Store.Records.Limits.{
  Within, Limited, bucket_of-few, insert-Within, put_bucket-Within, put_bucket-shrinks,
  oldest_key-full, make_room-Limited,
}

-- Room for one more record of a key.
record Roomy (m n : ℕ) (key : List ℕ) (c : RecordCache) : Type 0 where
  pub within : Within m c.entries
  pub size : c.total < n
  pub bucket : length (bucket_of key c.entries) < m
  pub per_key : c.max_per_key ≡ m
  pub limit : c.max_size ≡ n

evict_at-Roomy :
    (m n : ℕ) (key k : List ℕ) (c : RecordCache) (o : Option ℕ)
    → 0 < n
    → Oldest (bucket_of k c.entries) o
    → 0 < length (bucket_of k c.entries)
    → Limited m n c
    → length (bucket_of key c.entries) < m
    → Roomy m n key (evict_at k c o)
unfolding evict_at
evict_at-Roomy m n key k c none pos h full v room = absurd (omega arith)
evict_at-Roomy m n key k c (some i) pos h full v room =
    let b : List RecordEntry = bucket_of k c.entries in
    let less : length (remove_at i b) + 1 ≡ length b = length-remove_at i b h in
    record {
      within =
          put_bucket-Within m k (remove_at i b) c.entries
            (omega (arith, less, bucket_of-few m k c.entries v.within.few)) v.within;
      size = omega (arith, v.size);
      bucket = omega (
        arith,
        room,
        put_bucket-shrinks key k (remove_at i b) c.entries v.within.unique (omega (arith, less)),
      );
      per_key = v.per_key;
      limit = v.limit;
    }

evict_oldest-Roomy :
    (m n : ℕ) (key : List ℕ) (c : RecordCache)
    → 0 < n
    → 0 < c.total
    → Limited m n c
    → length (bucket_of key c.entries) < m
    → Roomy m n key (evict_oldest c)
unfolding evict_oldest evict_key Tallies
evict_oldest-Roomy m n key c pos some_here v room =
    let (p, found, full) =
      oldest_key-full c.entries v.within.unique (omega (arith, some_here, v.sum)) in
    subst (λ o. Roomy m n key (evict_key c o)) (sym found)
      (evict_at-Roomy m n key p.0 c _ pos (oldest_index-Oldest (bucket_of p.0 c.entries)) full v
        room)

evict_if_full-Roomy :
    (m n : ℕ) (key : List ℕ) (c : RecordCache)
    → 0 < n
    → Limited m n c
    → length (bucket_of key c.entries) < m
    → Roomy m n key (evict_if_full c)
unfolding evict_if_full
evict_if_full-Roomy m n key c pos v room = elim (Bool-cases (leb c.max_size c.total)) [
  | inl full ↦
      subst (λ b. Roomy m n key (if b then evict_oldest c else c)) (sym full)
        (evict_oldest-Roomy m n key c pos (omega (arith, leb→le c.max_size c.total full, v.limit)) v
          room)
  | inr fits ↦
      subst (λ b. Roomy m n key (if b then evict_oldest c else c)) (sym fits)
        (record {
          within = v.within;
          size = omega (arith, not_leb c.max_size c.total fits, v.limit);
          bucket = room;
          per_key = v.per_key;
          limit = v.limit;
        })
]

push-Limited :
    (m n : ℕ) (key : List ℕ) (e : RecordEntry) (c : RecordCache)
    → Roomy m n key c
    → Tallies (push key e c)
    → Limited m n (push key e c)
unfolding push
push-Limited m n key e c r t =
    let b : List RecordEntry = bucket_of key c.entries in
    record {
      per_key = r.per_key;
      limit = r.limit;
      within =
          insert-Within m key (b ++ (e ∷ [])) c.entries
            (omega (arith, r.bucket, length-append b (e ∷ []))) r.within;
      size = omega (arith, r.size);
      sum = t;
    }

add-Limited :
    (m n now : ℕ) (key pk content : List ℕ) (c : RecordCache)
    → 0 < m
    → 0 < n
    → Limited m n c
    → Limited m n (add now key pk content c)
unfolding add
add-Limited m n now key pk content c pm pn v =
    let e : RecordEntry = record { public_key = pk; content = content; inserted_at = now } in
    let b : List RecordEntry = bucket_of key c.entries in
    let replaced : RecordCache = record c { entries = insert key (replace e b) c.entries } in
    let pushed : RecordCache = push key e (evict_if_full (make_room key c)) in
    let t : Tallies (add now key pk content c) = add-Tallies now key pk content c v.sum in
    elim (Bool-cases (has_key pk b)) [
      | inl old ↦
          subst (λ x. Limited m n (if x then replaced else pushed)) (sym old)
            (record {
              per_key = v.per_key;
              limit = v.limit;
              within =
                  insert-Within m key (replace e b) c.entries
                    (omega (arith, length-replace e b, bucket_of-few m key c.entries v.within.few))
                    v.within;
              size = v.size;
              sum = subst (λ x. Tallies (if x then replaced else pushed)) old t;
            })
      | inr new_key ↦
          let (w, room) = make_room-Limited m n key c pm v in
          subst (λ x. Limited m n (if x then replaced else pushed)) (sym new_key)
            (push-Limited m n key e _ (evict_if_full-Roomy m n key (make_room key c) pn w room)
              (subst (λ x. Tallies (if x then replaced else pushed)) new_key t))
    ]

found-few :
    (m : ℕ) (key : List ℕ) (d : Dict (List RecordEntry)) (b left : List RecordEntry)
    → Within m d
    → lookup key d ≡ some b
    → length left ≤ length b
    → length left ≤ m
found-few m key d b left w e h =
    let here : length (bucket_of key d) ≡ length b = ap (λ o. length (or_empty o)) e in
    omega (arith, here, h, bucket_of-few m key d w.few)

remove_from-Limited :
    (m n : ℕ) (key pk : List ℕ) (c : RecordCache) (o : Option (List RecordEntry))
    → lookup key c.entries ≡ o
    → Limited m n c
    → Tallies (remove_from key pk c o)
    → Limited m n (remove_from key pk c o)
unfolding remove_from
remove_from-Limited m n key pk c none e v t = v
remove_from-Limited m n key pk c (some b) e v t =
    let left : List RecordEntry = retain (λ r. not (same_bytes r.public_key pk)) b in
    record {
      per_key = v.per_key;
      limit = v.limit;
      within =
          put_bucket-Within m key left c.entries
            (found-few m key c.entries b left v.within e
              (length-retain (λ r. not (same_bytes r.public_key pk)) b))
            v.within;
      size = omega (arith, v.size);
      sum = t;
    }

get_from-Limited :
    (m n now : ℕ) (key : List ℕ) (max : ℕ) (c : RecordCache) (o : Option (List RecordEntry))
    → lookup key c.entries ≡ o
    → Limited m n c
    → Tallies (get_from now key max c o).0
    → Limited m n (get_from now key max c o).0
unfolding get_from
get_from-Limited m n now key max c none e v t = v
get_from-Limited m n now key max c (some b) e v t =
    let left : List RecordEntry = retain (fresh now c.max_age) b in
    record {
      per_key = v.per_key;
      limit = v.limit;
      within =
          insert-Within m key left c.entries
            (found-few m key c.entries b left v.within e (length-retain (fresh now c.max_age) b))
            v.within;
      size = omega (arith, v.size);
      sum = t;
    }

change-Limited :
    (m n : ℕ) (x : Change) (c : RecordCache)
    → 0 < m
    → 0 < n
    → Limited m n c
    → Limited m n (change x c)
unfolding change remove get destroy Tallies count
change-Limited m n (adds now key pk content) c pm pn v =
    add-Limited m n now key pk content c pm pn v
change-Limited m n (removes key pk) c pm pn v =
    remove_from-Limited m n key pk c (lookup key c.entries) refl v (remove-Tallies key pk c v.sum)
change-Limited m n (reads now key max) c pm pn v =
    get_from-Limited m n now key max c (lookup key c.entries) refl v
      (get-Tallies now key max c v.sum)
change-Limited m n destroys c pm pn v = record {
  per_key = v.per_key;
  limit = v.limit;
  within = record { unique = tt; few = tt };
  size = omega arith;
  sum = refl;
}

run-Limited_from :
    (m n : ℕ) (xs : List Change) (c : RecordCache)
    → 0 < m
    → 0 < n
    → Limited m n c
    → Limited m n (run xs c)
unfolding run
run-Limited_from m n [] c pm pn v = v
run-Limited_from m n (x ∷ xs) c pm pn v =
    run-Limited_from m n xs (change x c) pm pn (change-Limited m n x c pm pn v)

-- After any calls on a new cache of records with limits of at least one, in any order and at any
-- times, no key has more records than max_per_key and the cache no more than max_size; the
-- limits and the count are right, and no key has two buckets.
pub run-Limited :
    (xs : List Change) (max_size max_age max_per_key : ℕ)
    → 0 < max_per_key
    → 0 < max_size
    → Limited max_per_key max_size (run xs (new max_size max_age max_per_key))
unfolding new Tallies count
run-Limited xs max_size max_age max_per_key pm pn =
    run-Limited_from max_per_key max_size xs (new max_size max_age max_per_key) pm pn (record {
      per_key = refl;
      limit = refl;
      within = record { unique = tt; few = tt };
      size = omega arith;
      sum = refl;
    })
