-- ===== src/Table.antt =====
-- peeroxide-dht/src/routing_table.rs: the Kademlia routing table.
-- A node id is a list of 32 bytes. `binary_search_by` is written as a scan: in a bucket whose ids
-- ascend strictly, the position that the standard library documents is unique.
pub mod Order
pub mod Bucket
pub mod Index
pub mod Invariant
pub mod Add
pub mod Remove
pub mod Closest
pub mod Fresh
pub mod Rebuild
pub mod Scan
use Prim.Native.Nat.{compare, Ordering}
use peeroxide.Common.{
  ℕ, zero, suc, ◌+◌, ◌-◌, ◌*◌, Bool, true, false, ltb, leb, ◌==◌, if◌then◌else◌, Option, none, some,
  List, [], ◌∷◌, ◌++◌, length, get_elem?, set, insert_at, remove_at, map, not, replicate, take,
  drop, bit_xor,
}

pub record Node : Type 0 where
  pub id : List ℕ
  pub host : List ℕ
  pub port : ℕ
  pub token : Option (List ℕ)
  pub added_tick : ℕ
  pub seen_tick : ℕ
  pub pinged_tick : ℕ
  pub down_hints : ℕ

pub data TableEvent : Type 0 where
  bucket_full : Node → ℕ → TableEvent

-- A bucket is its list of nodes.
abbrev pub Buckets : Type 0
Buckets = List (Option (List Node))

pub record RoutingTable : Type 0 where
  pub id : List ℕ
  pub k : ℕ
  pub buckets : Buckets
  pub size : ℕ
  pub pending_events : List TableEvent

abbrev pub num_buckets : ℕ
num_buckets = 256

abbrev pub default_k : ℕ
default_k = 20

unfoldable pub with_k : List ℕ → ℕ → RoutingTable
with_k id k = record {
  id = id;
  k = k;
  buckets = replicate num_buckets none;
  size = 0;
  pending_events = [];
}

unfoldable pub new : List ℕ → RoutingTable
unfolding with_k
new id = with_k id default_k

-- `u8::leading_zeros`
unfoldable pub leading_zeros : ℕ → ℕ
leading_zeros x =
    if leb 128 x
    then 0
    else if leb 64 x
    then 1
    else if leb 32 x
    then 2
    else if leb 16 x
    then 3
    else if leb 8 x
    then 4
    else if leb 4 x
    then 5
    else if leb 2 x
    then 6
    else if leb 1 x
    then 7
    else 8

-- The loop over the zipped bytes, from byte `i` on.
unfoldable pub index_from : ℕ → List ℕ → List ℕ → ℕ
index_from i [] bs = num_buckets - 1
index_from i (a ∷ xs) [] = num_buckets - 1
index_from i (a ∷ xs) (b ∷ bs) =
    let rest = index_from (i + 1) xs bs in
    if a == b then rest else i * 8 + leading_zeros (bit_xor a b)

unfoldable pub bucket_index : List ℕ → List ℕ → ℕ
bucket_index local id = index_from 0 id local

-- `[u8; 32]` in its derived order.
unfoldable pub compare_id : List ℕ → List ℕ → Ordering
compare_id [] [] = Ordering.eq
compare_id [] (b ∷ bs) = Ordering.lt
compare_id (a ∷ xs) [] = Ordering.gt
compare_id (a ∷ xs) (b ∷ bs) = elim (compare a b) [
  | Ordering.lt ↦ Ordering.lt
  | Ordering.eq ↦ compare_id xs bs
  | Ordering.gt ↦ Ordering.gt
]

-- The position of an id, or the one where it belongs.
pub data Search : Type 0 where
  found : ℕ → Search
  missing : ℕ → Search

abbrev pub one_later : Search → Search
one_later (found p) = found (suc p)
one_later (missing p) = missing (suc p)

unfoldable pub search_id : List ℕ → List Node → Search
search_id id [] = missing 0
search_id id (n ∷ ns) = elim (compare_id n.id id) [
  | Ordering.lt ↦ one_later (search_id id ns)
  | Ordering.eq ↦ found 0
  | Ordering.gt ↦ missing 0
]

abbrev pub bucket_at : Buckets → ℕ → Option (List Node)
bucket_at bs i = elim (get_elem? bs i) [ none ↦ none | some b ↦ b ]

abbrev pub is_none : {A : Type 0} → Option A → Bool
is_none none = true
is_none (some a) = false

-- `add` once the bucket is there.
unfoldable pub place : Node → ℕ → List Node → RoutingTable → RoutingTable × Bool
place n idx ns t = elim (search_id n.id ns) [
  | found pos ↦ (record t { buckets = set t.buckets idx (some (set ns pos n)) }, true)
  | missing pos ↦
      if ltb (length ns) t.k
      then (
        record t { buckets = set t.buckets idx (some (insert_at pos n ns)); size = t.size + 1 },
        true,
      )
      else (record t { pending_events = t.pending_events ++ (bucket_full n idx ∷ []) }, false)
]

-- `if self.buckets[idx].is_none() { self.buckets[idx] = Some(Bucket::new()); }`
unfoldable pub open_bucket : ℕ → RoutingTable → RoutingTable
open_bucket idx t =
    if is_none (bucket_at t.buckets idx)
    then record t { buckets = set t.buckets idx (some []) }
    else t

unfoldable pub add : Node → RoutingTable → RoutingTable × Bool
unfolding open_bucket place
add n t =
    let idx = bucket_index t.id n.id in
    let opened = open_bucket idx t in
    elim (bucket_at opened.buckets idx) [ none ↦ (opened, false) | some ns ↦ place n idx ns opened ]

-- The removed node is taken out of its bucket.
unfoldable pub take_out : ℕ → ℕ → List Node → RoutingTable → RoutingTable × Option Node
take_out idx pos ns t = elim (get_elem? ns pos) [
  | none ↦ (t, none)
  | some n ↦ (
    record t { buckets = set t.buckets idx (some (remove_at pos ns)); size = t.size - 1 },
    some n,
  )
]

unfoldable pub remove_from : List ℕ → ℕ → List Node → RoutingTable → RoutingTable × Option Node
unfolding take_out
remove_from id idx ns t = elim (search_id id ns) [
  | found pos ↦ take_out idx pos ns t
  | missing pos ↦ (t, none)
]

unfoldable pub remove : List ℕ → RoutingTable → RoutingTable × Option Node
unfolding remove_from
remove id t =
    let idx = bucket_index t.id id in
    elim (bucket_at t.buckets idx) [ none ↦ (t, none) | some ns ↦ remove_from id idx ns t ]

unfoldable pub find_in : List ℕ → List Node → Option Node
find_in id ns = elim (search_id id ns) [ found pos ↦ get_elem? ns pos | missing pos ↦ none ]

unfoldable pub get : List ℕ → RoutingTable → Option Node
unfolding find_in
get id t = elim (bucket_at t.buckets (bucket_index t.id id)) [
  | none ↦ none
  | some ns ↦ find_in id ns
]

unfoldable pub has : List ℕ → RoutingTable → Bool
unfolding get
has id t = not (is_none (get id t))

-- `get_mut`, with what the caller does to the node.
unfoldable pub update_in : List ℕ → (Node → Node) → ℕ → List Node → Buckets → Buckets
update_in id f idx ns bs = elim (search_id id ns) [
  | found pos ↦ elim (get_elem? ns pos) [
    | none ↦ bs
    | some n ↦ set bs idx (some (set ns pos (f n)))
  ]
  | missing pos ↦ bs
]

unfoldable pub get_mut : List ℕ → (Node → Node) → RoutingTable → RoutingTable
unfolding update_in
get_mut id f t =
    let idx = bucket_index t.id id in
    elim (bucket_at t.buckets idx) [
      | none ↦ t
      | some ns ↦ record t { buckets = update_in id f idx ns t.buckets }
    ]

unfoldable pub drain_events : RoutingTable → RoutingTable × List TableEvent
drain_events t = (record t { pending_events = [] }, t.pending_events)

unfoldable pub len : RoutingTable → ℕ
len t = t.size

unfoldable pub is_empty : RoutingTable → Bool
is_empty t = t.size == 0
