-- ===== src/Store/Records/Laws.antt =====
-- The cache of records: its count is right, and only live records are read.
use peeroxide.Common.{
  ℕ, zero, suc, ◌+◌, ◌≤◌, ◌<◌, ◌≡◌, refl, sym, ap, subst, inl, inr, Bool, true, false, not, leb,
  Bool-cases, if◌then◌else◌, Option, none, some, List, [], ◌∷◌, ◌++◌, All, length, length-append,
  remove_at, arith,
}
use peeroxide.Common.Dict.{Dict, same_bytes, lookup, insert, erase}
use peeroxide.Store.Lru.Laws.{earliest-All}
use peeroxide.Store.Records.{
  RecordEntry, RecordCache, or_empty, bucket_of, has_key, replace, enumerate, oldest_index,
  index_of, take_out, make_room, oldest_key, put_bucket, evict_at, evict_key, evict_oldest, push,
  evict_if_full, add, retain, remove_from, remove, fresh, get_from, get,
}

-- The records of all keys.
unfoldable pub count : Dict (List RecordEntry) → ℕ
count [] = 0
count (e ∷ d) = length e.1 + count d

count-insert :
    (k : List ℕ) (b : List RecordEntry) (d : Dict (List RecordEntry))
    → count (insert k b d) + length (bucket_of k d) ≡ count d + length b
unfolding count
count-insert k b [] = omega arith
count-insert k b (e ∷ d) = elim (Bool-cases (same_bytes k e.0)) [
  | inl p ↦ rw p (omega arith)
  | inr p ↦ rw p (omega (arith, count-insert k b d))
]

count-erase :
    (k : List ℕ) (d : Dict (List RecordEntry))
    → count (erase k d) + length (bucket_of k d) ≡ count d
unfolding count
count-erase k [] = omega arith
count-erase k (e ∷ d) = elim (Bool-cases (same_bytes k e.0)) [
  | inl p ↦ rw p (omega arith)
  | inr p ↦ rw p (omega (arith, count-erase k d))
]

count-put_bucket :
    (k : List ℕ) (b : List RecordEntry) (d : Dict (List RecordEntry))
    → count (put_bucket k b d) + length (bucket_of k d) ≡ count d + length b
count-put_bucket k [] d = omega (arith, count-erase k d)
count-put_bucket k (e ∷ b) d = count-insert k (e ∷ b) d

pub length-remove_at :
    (i : ℕ) (b : List RecordEntry) → i < length b → length (remove_at i b) + 1 ≡ length b
length-remove_at i [] h = absurd (omega arith)
length-remove_at zero (e ∷ b) h = omega arith
length-remove_at (suc i) (e ∷ b) h = omega (arith, length-remove_at i b (omega arith))

enumerate-All :
    (n i : ℕ) (b : List RecordEntry) → i + length b ≤ n → All (λ p. p.0 < n) (enumerate i b)
enumerate-All n i [] h = tt
enumerate-All n i (e ∷ b) h = (omega arith, enumerate-All n (i + 1) b (omega arith))

-- An oldest record is one of the bucket, and only an empty bucket has none.
abbrev pub Oldest : List RecordEntry → Option ℕ → Type 0
Oldest b none = length b ≡ 0
Oldest b (some i) = i < length b

pub oldest_index-Oldest : (b : List RecordEntry) → Oldest b (oldest_index b)
unfolding oldest_index
oldest_index-Oldest [] = refl
oldest_index-Oldest (e ∷ b) =
    let (p, found, h) =
      earliest-All (λ q. q.1.inserted_at) (0, e) (enumerate 1 b)
        (enumerate-All (length b + 1) 0 (e ∷ b) (omega arith)) in
    subst (Oldest (e ∷ b)) (sym (ap index_of found)) (omega (arith, h))

-- The counter is the number of the records.
unfoldable pub Tallies : RecordCache → Type 0
Tallies c = c.total ≡ count c.entries

pub bucket-count : (k : List ℕ) (d : Dict (List RecordEntry)) → length (bucket_of k d) ≤ count d
bucket-count k d = omega (arith, count-erase k d)

take_out-Tallies :
    (key : List ℕ) (c : RecordCache) (o : Option ℕ)
    → Oldest (bucket_of key c.entries) o
    → Tallies c
    → Tallies (take_out key c o)
unfolding take_out Tallies
take_out-Tallies key c none o t = t
take_out-Tallies key c (some i) h t = omega (
  arith,
  t,
  count-insert key (remove_at i (bucket_of key c.entries)) c.entries,
  length-remove_at i (bucket_of key c.entries) h,
)

evict_at-Tallies :
    (key : List ℕ) (c : RecordCache) (o : Option ℕ)
    → Oldest (bucket_of key c.entries) o
    → Tallies c
    → Tallies (evict_at key c o)
unfolding evict_at Tallies
evict_at-Tallies key c none h t = omega (arith, t, count-erase key c.entries, h)
evict_at-Tallies key c (some i) h t = omega (
  arith,
  t,
  count-put_bucket key (remove_at i (bucket_of key c.entries)) c.entries,
  length-remove_at i (bucket_of key c.entries) h,
)

pub make_room-Tallies : (key : List ℕ) (c : RecordCache) → Tallies c → Tallies (make_room key c)
unfolding make_room
make_room-Tallies key c t =
    elim (leb c.max_per_key (length (bucket_of key c.entries)))
      as (λ b. Tallies (if b then take_out key c (oldest_index (bucket_of key c.entries)) else c)) [
        | true ↦ take_out-Tallies key c _ (oldest_index-Oldest (bucket_of key c.entries)) t
        | false ↦ t
      ]

evict_key-Tallies :
    (c : RecordCache) (o : Option (List ℕ × ℕ)) → Tallies c → Tallies (evict_key c o)
unfolding evict_key
evict_key-Tallies c none t = t
evict_key-Tallies c (some p) t =
    evict_at-Tallies p.0 c _ (oldest_index-Oldest (bucket_of p.0 c.entries)) t

pub evict_if_full-Tallies : (c : RecordCache) → Tallies c → Tallies (evict_if_full c)
unfolding evict_if_full evict_oldest
evict_if_full-Tallies c t =
    elim (leb c.max_size c.total)
      as (λ b. Tallies (if b then evict_key c (oldest_key c.entries) else c)) [
        | true ↦ evict_key-Tallies c (oldest_key c.entries) t
        | false ↦ t
      ]

push-Tallies :
    (key : List ℕ) (e : RecordEntry) (c : RecordCache) → Tallies c → Tallies (push key e c)
unfolding push Tallies
push-Tallies key e c t =
    let b : List RecordEntry = bucket_of key c.entries in
    omega (arith, t, count-insert key (b ++ (e ∷ [])) c.entries, length-append b (e ∷ []))

pub length-replace : (e : RecordEntry) (b : List RecordEntry) → length (replace e b) ≡ length b
length-replace e [] = refl
length-replace e (r ∷ b) = elim (Bool-cases (same_bytes r.public_key e.public_key)) [
  | inl p ↦ rw p refl
  | inr p ↦ rw p (ap suc (length-replace e b))
]

replaced-Tallies :
    (key : List ℕ) (e : RecordEntry) (c : RecordCache)
    → Tallies c
    → Tallies (record c { entries = insert key (replace e (bucket_of key c.entries)) c.entries })
unfolding Tallies
replaced-Tallies key e c t =
    let b : List RecordEntry = bucket_of key c.entries in
    omega (arith, t, count-insert key (replace e b) c.entries, length-replace e b)

pub add-Tallies :
    (now : ℕ) (key pk content : List ℕ) (c : RecordCache)
    → Tallies c
    → Tallies (add now key pk content c)
unfolding add
add-Tallies now key pk content c t =
    let e : RecordEntry = record { public_key = pk; content = content; inserted_at = now } in
    elim (has_key pk (bucket_of key c.entries))
      as (λ b. Tallies (
        if b
        then record c { entries = insert key (replace e (bucket_of key c.entries)) c.entries }
        else push key e (evict_if_full (make_room key c)))) [
          | true ↦ replaced-Tallies key e c t
          | false ↦
              push-Tallies key e _
                (evict_if_full-Tallies (make_room key c) (make_room-Tallies key c t))
        ]

pub length-retain :
    (keep : RecordEntry → Bool) (b : List RecordEntry) → length (retain keep b) ≤ length b
length-retain keep [] = omega arith
length-retain keep (e ∷ b) =
    elim (keep e)
      as (λ k. length (if k then e ∷ retain keep b else retain keep b) ≤ suc (length b)) [
        | true ↦ omega (arith, length-retain keep b)
        | false ↦ omega (arith, length-retain keep b)
      ]

remove_from-Tallies :
    (key pk : List ℕ) (c : RecordCache) (o : Option (List RecordEntry))
    → lookup key c.entries ≡ o
    → Tallies c
    → Tallies (remove_from key pk c o)
unfolding remove_from Tallies
remove_from-Tallies key pk c none e t = t
remove_from-Tallies key pk c (some b) e t =
    let keep : RecordEntry → Bool = λ r. not (same_bytes r.public_key pk) in
    let here : length (bucket_of key c.entries) ≡ length b = ap (λ o. length (or_empty o)) e in
    omega (
      arith,
      t,
      here,
      count-put_bucket key (retain keep b) c.entries,
      length-retain keep b,
      count-erase key c.entries,
    )

pub remove-Tallies : (key pk : List ℕ) (c : RecordCache) → Tallies c → Tallies (remove key pk c)
unfolding remove
remove-Tallies key pk c t = remove_from-Tallies key pk c _ refl t

get_from-Tallies :
    (now : ℕ) (key : List ℕ) (max : ℕ) (c : RecordCache) (o : Option (List RecordEntry))
    → lookup key c.entries ≡ o
    → Tallies c
    → Tallies (get_from now key max c o).0
unfolding get_from Tallies
get_from-Tallies now key max c none e t = t
get_from-Tallies now key max c (some b) e t =
    let left : List RecordEntry = retain (fresh now c.max_age) b in
    let here : length (bucket_of key c.entries) ≡ length b = ap (λ o. length (or_empty o)) e in
    omega (
      arith,
      t,
      here,
      count-insert key left c.entries,
      length-retain (fresh now c.max_age) b,
      count-erase key c.entries,
    )

pub get-Tallies :
    (now : ℕ) (key : List ℕ) (max : ℕ) (c : RecordCache) → Tallies c → Tallies (get now key max c).0
unfolding get
get-Tallies now key max c t = get_from-Tallies now key max c _ refl t
