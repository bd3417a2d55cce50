-- ===== src/Examples/Tables.antt =====
-- routing_table.rs on concrete tables.
use peeroxide.Common.{
  ℕ, ◌+◌, ◌≡◌, arith, refl, true, false, if◌then◌else◌, some, none, List, [], ◌∷◌, ◌++◌, replicate,
  length, take,
}
use peeroxide.Table.{
  Node, RoutingTable, index_from, leading_zeros, search_id, compare_id, with_k, add, get, remove,
  bucket_index, bucket_full, is_none,
}
use peeroxide.Table.Scan.{closest, rebuild_with_id}
use peeroxide.Table.Invariant.{IsTable, nodes_at}
use peeroxide.Table.Fresh.{with_k-IsTable}
use peeroxide.Table.Rebuild.{rebuild_with_id-IsTable}
use peeroxide.Table.Add.Effect.{add-IsTable, get-add_stored, add_refused}
use peeroxide.Table.Remove.{remove-IsTable, remove_lem}
use peeroxide.Table.Closest.{Closest, closest-eq, length-closest, scan_order}

abbrev own_id : List ℕ
own_id = replicate 32 0

-- Two ids that differ from the own id in the first bit, so both belong to bucket 0.
abbrev left_id : List ℕ
left_id = 128 ∷ replicate 31 0

abbrev right_id : List ℕ
right_id = 192 ∷ replicate 31 0

abbrev node : List ℕ → Node
node id = record {
  id = id;
  host = [];
  port = 1;
  token = none;
  added_tick = 0;
  seen_tick = 0;
  pinged_tick = 0;
  down_hints = 0;
}

-- A table of one node per bucket, empty and with the node of bucket 0.
abbrev blank : RoutingTable
blank = with_k own_id 1

abbrev single : RoutingTable
single = (add (node left_id) blank).0

single-IsTable : IsTable single
single-IsTable = add-IsTable (node left_id) blank (with_k-IsTable own_id 1) refl

stored_first : add (node left_id) blank ≡ (single, true)
unfolding add with_k bucket_index index_from leading_zeros search_id
stored_first = refl

single_full : length (nodes_at single.buckets (bucket_index single.id right_id)) ≡ single.k
unfolding add with_k bucket_index index_from leading_zeros search_id
single_full = refl

right_absent : get right_id single ≡ none
unfolding add with_k get bucket_index index_from leading_zeros search_id compare_id
right_absent = refl

refused_second : add (node right_id) single ≡ ((add (node right_id) single).0, false)
unfolding add with_k bucket_index index_from leading_zeros search_id compare_id
refused_second = refl

add-IsTable_example : IsTable (add (node right_id) single).0
add-IsTable_example = add-IsTable (node right_id) single single-IsTable refl

get-add_stored_example : get left_id single ≡ some (node left_id)
unfolding compare_id
get-add_stored_example =
    get-add_stored (node left_id) blank single left_id (with_k-IsTable own_id 1) refl stored_first

add_refused_example :
    let u = (add (node right_id) single).0 in
    (get right_id single ≡ none)
    × (length (nodes_at single.buckets (bucket_index single.id right_id)) ≡ single.k)
    × (u.pending_events
        ≡ single.pending_events
          ++ (bucket_full (node right_id) (bucket_index single.id right_id) ∷ []))
    × (u.size ≡ single.size)
    × ((j : List ℕ) → get j u ≡ get j single)
add_refused_example =
    add_refused (node right_id) single (add (node right_id) single).0 single-IsTable refl
      refused_second

remove-IsTable_example : IsTable (remove left_id single).0
remove-IsTable_example = remove-IsTable left_id single single-IsTable refl

remove_lem_example :
    ((remove left_id single).1 ≡ get left_id single)
    × (get left_id (remove left_id single).0 ≡ none)
    × ((remove left_id single).0.size + (if is_none (get left_id single) then 0 else 1)
        ≡ single.size)
unfolding compare_id
remove_lem_example = remove_lem left_id left_id single single-IsTable refl

rebuild_with_id-IsTable_example : IsTable (rebuild_with_id right_id single)
rebuild_with_id-IsTable_example = rebuild_with_id-IsTable right_id single single-IsTable

length-closest_example : Closest 20 single (closest right_id 20 single)
length-closest_example = length-closest right_id 20 single single-IsTable

closest-eq_example :
    closest right_id 20 single
    ≡ some (take 20 (scan_order single.buckets (bucket_index single.id right_id)))
closest-eq_example = closest-eq right_id 20 single (omega arith)
