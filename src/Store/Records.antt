-- ===== src/Store/Records.antt =====
-- persistent.rs: `RecordCache`.
pub mod Laws
pub mod Changes
pub mod Limits
use peeroxide.Common.{
  ℕ, ◌+◌, ◌-◌, ltb, leb, not, if◌then◌else◌, Option, none, some, List, [], ◌∷◌, ◌++◌, map, Bool,
  true, false, length, take, remove_at,
}
use peeroxide.Common.Dict.{Dict, same_bytes, lookup, contains, insert, erase}
use peeroxide.Store.{earliest}

pub record RecordEntry : Type 0 where
  pub public_key : List ℕ
  pub content : List ℕ
  pub inserted_at : ℕ

pub record RecordCache : Type 0 where
  pub entries : Dict (List RecordEntry)
  pub max_size : ℕ
  pub max_age : ℕ
  pub max_per_key : ℕ
  pub total : ℕ

unfoldable pub new : ℕ → ℕ → ℕ → RecordCache
new max_size max_age max_per_key = record {
  entries = [];
  max_size = max_size;
  max_age = max_age;
  max_per_key = max_per_key;
  total = 0;
}

abbrev pub or_empty : Option (List RecordEntry) → List RecordEntry
or_empty none = []
or_empty (some b) = b

-- The bucket of a key, empty where there is none.
abbrev pub bucket_of : List ℕ → Dict (List RecordEntry) → List RecordEntry
bucket_of key d = or_empty (lookup key d)

abbrev pub has_key : List ℕ → List RecordEntry → Bool
has_key pk [] = false
has_key pk (e ∷ b) = if same_bytes e.public_key pk then true else has_key pk b

-- The first entry with the public key, written over.
abbrev pub replace : RecordEntry → List RecordEntry → List RecordEntry
replace new [] = []
replace new (e ∷ b) = if same_bytes e.public_key new.public_key then new ∷ b else e ∷ replace new b

abbrev pub enumerate : ℕ → List RecordEntry → List (ℕ × RecordEntry)
enumerate i [] = []
enumerate i (e ∷ b) = (i, e) ∷ enumerate (i + 1) b

abbrev pub index_of : Option (ℕ × RecordEntry) → Option ℕ
index_of none = none
index_of (some p) = some p.0

unfoldable pub oldest_index : List RecordEntry → Option ℕ
oldest_index b = index_of (earliest (λ p. p.1.inserted_at) (enumerate 0 b))

-- The record at an index of a key's bucket is taken out.
unfoldable pub take_out : List ℕ → RecordCache → Option ℕ → RecordCache
take_out key c none = c
take_out key c (some i) = record c {
  entries = insert key (remove_at i (bucket_of key c.entries)) c.entries;
  total = c.total - 1;
}

-- A bucket that is full loses its oldest entry.
unfoldable pub make_room : List ℕ → RecordCache → RecordCache
unfolding oldest_index take_out
make_room key c =
    if leb c.max_per_key (length (bucket_of key c.entries))
    then take_out key c (oldest_index (bucket_of key c.entries))
    else c

-- For each key with a record, the time of its oldest.
abbrev pub add_time : List ℕ → Option RecordEntry → List (List ℕ × ℕ) → List (List ℕ × ℕ)
add_time key none times = times
add_time key (some r) times = (key, r.inserted_at) ∷ times

abbrev pub oldest_times : Dict (List RecordEntry) → List (List ℕ × ℕ)
oldest_times [] = []
oldest_times (e ∷ d) = add_time e.0 (earliest (λ r. r.inserted_at) e.1) (oldest_times d)

abbrev pub oldest_key : Dict (List RecordEntry) → Option (List ℕ × ℕ)
oldest_key d = earliest (λ p. p.1) (oldest_times d)

abbrev pub put_bucket :
    List ℕ → List RecordEntry → Dict (List RecordEntry) → Dict (List RecordEntry)
put_bucket key [] d = erase key d
put_bucket key (e ∷ b) d = insert key (e ∷ b) d

-- The oldest record of a key is removed, and the key with its last record.
unfoldable pub evict_at : List ℕ → RecordCache → Option ℕ → RecordCache
evict_at key c none = record c { entries = erase key c.entries }
evict_at key c (some i) = record c {
  entries = put_bucket key (remove_at i (bucket_of key c.entries)) c.entries;
  total = c.total - 1;
}

unfoldable pub evict_key : RecordCache → Option (List ℕ × ℕ) → RecordCache
unfolding evict_at oldest_index
evict_key c none = c
evict_key c (some p) = evict_at p.0 c (oldest_index (bucket_of p.0 c.entries))

unfoldable pub evict_oldest : RecordCache → RecordCache
unfolding evict_key
evict_oldest c = evict_key c (oldest_key c.entries)

-- A record that is new is stored once there is room.
unfoldable pub push : List ℕ → RecordEntry → RecordCache → RecordCache
push key e c = record c {
  entries = insert key (bucket_of key c.entries ++ (e ∷ [])) c.entries;
  total = c.total + 1;
}

unfoldable pub evict_if_full : RecordCache → RecordCache
unfolding evict_oldest
evict_if_full c = if leb c.max_size c.total then evict_oldest c else c

unfoldable pub add : ℕ → List ℕ → List ℕ → List ℕ → RecordCache → RecordCache
unfolding make_room evict_if_full push
add now key pk content c =
    let e : RecordEntry = record { public_key = pk; content = content; inserted_at = now } in
    if has_key pk (bucket_of key c.entries)
    then record c { entries = insert key (replace e (bucket_of key c.entries)) c.entries }
    else push key e (evict_if_full (make_room key c))

abbrev pub retain : (RecordEntry → Bool) → List RecordEntry → List RecordEntry
retain keep [] = []
retain keep (e ∷ b) = if keep e then e ∷ retain keep b else retain keep b

unfoldable pub remove_from : List ℕ → List ℕ → RecordCache → Option (List RecordEntry) → RecordCache
remove_from key pk c none = c
remove_from key pk c (some b) =
    let left = retain (λ e. not (same_bytes e.public_key pk)) b in
    record c { entries = put_bucket key left c.entries; total = c.total - (length b - length left) }

unfoldable pub remove : List ℕ → List ℕ → RecordCache → RecordCache
unfolding remove_from
remove key pk c = remove_from key pk c (lookup key c.entries)

abbrev pub fresh : ℕ → ℕ → RecordEntry → Bool
fresh now max_age e = ltb (now - e.inserted_at) max_age

unfoldable pub get_from :
    ℕ → List ℕ → ℕ → RecordCache → Option (List RecordEntry) → RecordCache × List (List ℕ)
get_from now key max c none = (c, [])
get_from now key max c (some b) =
    let left = retain (fresh now c.max_age) b in
    (
      record c { entries = insert key left c.entries; total = c.total - (length b - length left) },
      map (λ e. e.content) (take max left),
    )

unfoldable pub get : ℕ → List ℕ → ℕ → RecordCache → RecordCache × List (List ℕ)
unfolding get_from
get now key max c = get_from now key max c (lookup key c.entries)

unfoldable pub destroy : RecordCache → RecordCache
destroy c = record c { entries = []; total = 0 }

unfoldable pub record_count : RecordCache → ℕ
record_count c = c.total

unfoldable pub topic_count : RecordCache → ℕ
topic_count c = length c.entries
