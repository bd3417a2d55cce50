-- ===== src/Table/Scan.antt =====
-- The queries of routing_table.rs that walk over the buckets, and the rebuilding.
use Prim.Native.Nat.{Ordering}
use peeroxide.Common.{
  ℕ, zero, suc, ◌+◌, ◌-◌, ◌*◌, ◌^◌, Bool, true, false, ltb, leb, ◌==◌, if◌then◌else◌, Option, none,
  some, List, [], ◌∷◌, ◌++◌, length, map, take, drop,
}
use peeroxide.Table.{
  Node, Buckets, RoutingTable, num_buckets, bucket_index, compare_id, bucket_at, add,
}

-- The inner loop of `closest`: push nodes until there are `k`.
unfoldable pub push_nodes : ℕ → List Node → List Node → List Node
push_nodes k result [] = result
push_nodes k result (n ∷ ns) =
    let rest = push_nodes k (result ++ (n ∷ [])) ns in
    if leb k (length result) then result else rest

unfoldable pub visit : ℕ → Buckets → ℕ → List Node → List Node
unfolding push_nodes
visit k bs i result = elim (bucket_at bs i) [ none ↦ result | some ns ↦ push_nodes k result ns ]

-- The buckets `n - 1`, …, 0, and then the `n` buckets from `j` on.
unfoldable pub scan_down : ℕ → Buckets → ℕ → List Node → List Node
scan_down k bs zero result = result
scan_down k bs (suc i) result =
    let rest = scan_down k bs i (visit k bs i result) in
    if leb k (length result) then result else rest

unfoldable pub scan_up : ℕ → Buckets → ℕ → ℕ → List Node → List Node
scan_up k bs zero j result = result
scan_up k bs (suc n) j result =
    let rest = scan_up k bs n (j + 1) (visit k bs j result) in
    if leb k (length result) then result else rest

-- The two loops of `closest`, from the target's bucket `d`.
unfoldable pub collect : ℕ → Buckets → ℕ → List Node
unfolding scan_down scan_up visit
collect k bs d = scan_up k bs (num_buckets - (d + 1)) (d + 1) (scan_down k bs (suc d) [])

-- A `&Node` is 8 bytes on a 64-bit machine.
abbrev pub node_ref_size : ℕ
node_ref_size = 8

-- `Vec::with_capacity(k)` panics on a capacity of more than `isize::MAX` bytes: that is `none`.
unfoldable pub closest : List ℕ → ℕ → RoutingTable → Option (List Node)
unfolding collect
closest target k t =
    if ltb (2 ^ 63 - 1) (k * node_ref_size)
    then none
    else some (collect k t.buckets (bucket_index t.id target))

-- All nodes, bucket by bucket.
unfoldable pub all_nodes : Buckets → List Node
all_nodes [] = []
all_nodes (none ∷ bs) = all_nodes bs
all_nodes (some ns ∷ bs) = ns ++ all_nodes bs

abbrev pub same_id : List ℕ → List ℕ → Bool
same_id a b = elim (compare_id a b) [ Ordering.eq ↦ true | _ ↦ false ]

unfoldable pub add_all : List ℕ → List Node → RoutingTable → RoutingTable
unfolding add
add_all new_id [] t = t
add_all new_id (n ∷ ns) t = add_all new_id ns (if same_id n.id new_id then t else (add n t).0)

unfoldable pub rebuild_with_id : List ℕ → RoutingTable → RoutingTable
unfolding add_all all_nodes
rebuild_with_id new_id t =
    if same_id t.id new_id
    then t
    else add_all new_id (all_nodes t.buckets) (record t {
      id = new_id;
      buckets = map (λ b. none) t.buckets;
      size = 0;
      pending_events = [];
    })

-- `sort_by_key(Reverse(seen_tick))`, which is stable.
unfoldable pub insert_recent : Node → List Node → List Node
insert_recent n [] = n ∷ []
insert_recent n (m ∷ ms) =
    let rest = insert_recent n ms in if ltb n.seen_tick m.seen_tick then m ∷ rest else n ∷ m ∷ ms

unfoldable pub sort_recent : List Node → List Node
unfolding insert_recent
sort_recent [] = []
sort_recent (n ∷ ns) = insert_recent n (sort_recent ns)

unfoldable pub recent : ℕ → RoutingTable → List Node
unfolding sort_recent all_nodes
recent limit t =
    let all = sort_recent (all_nodes t.buckets) in
    if limit == 0 then [] else take limit (drop (if leb 8 (length all) then 5 else 0) all)
