-- ===== src/Store/Lru.antt =====
-- persistent.rs: `LruCache`.
pub mod Laws
use peeroxide.Common.{
  ℕ, ◌-◌, leb, if◌then◌else◌, Option, none, some, List, [], ◌∷◌, Bool, true, false, length,
}
use peeroxide.Common.Dict.{Dict, lookup, insert, erase}
use peeroxide.Store.{earliest}

pub record CacheEntry : Type 0 where
  pub value : List ℕ
  pub inserted_at : ℕ

pub record LruCache : Type 0 where
  pub entries : Dict CacheEntry
  pub max_size : ℕ
  pub max_age : ℕ

unfoldable pub new : ℕ → ℕ → LruCache
new max_size max_age = record { entries = []; max_size = max_size; max_age = max_age }

unfoldable pub live : ℕ → ℕ → Option CacheEntry → Option (List ℕ)
live now max_age none = none
live now max_age (some e) = if leb max_age (now - e.inserted_at) then none else some e.value

unfoldable pub get : ℕ → List ℕ → LruCache → Option (List ℕ)
unfolding live
get now key c = live now c.max_age (lookup key c.entries)

-- The oldest entry is removed.
unfoldable pub drop_oldest : Dict CacheEntry → Dict CacheEntry
drop_oldest d = elim (earliest (λ e. e.1.inserted_at) d) [ none ↦ d | some e ↦ erase e.0 d ]

unfoldable pub set : ℕ → List ℕ → List ℕ → LruCache → LruCache
unfolding drop_oldest
set now key value c = record c {
  entries =
      insert key (record { value = value; inserted_at = now })
        (if leb c.max_size (length c.entries) then drop_oldest c.entries else c.entries);
}

unfoldable pub delete : List ℕ → LruCache → LruCache
delete key c = record c { entries = erase key c.entries }

unfoldable pub destroy : LruCache → LruCache
destroy c = record c { entries = [] }

unfoldable pub len : LruCache → ℕ
len c = length c.entries

unfoldable pub is_empty : LruCache → Bool
is_empty c = elim c.entries [ [] ↦ true | e ∷ d ↦ false ]
