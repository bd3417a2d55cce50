-- ===== src/Table/Remove.antt =====
-- `remove`: the table it leaves and the node it returns.
use peeroxide.Common.{
  ℕ, zero, suc, ◌+◌, ◌-◌, ◌≤◌, ◌<◌, ◌≡◌, refl, ap, ◌∙◌, inl, inr, ◌⊎◌, ◌==◌, ==_iff, if◌then◌else◌,
  Bool-cases, none, some, Option-cases, List, [], ◌∷◌, arith, length, set,
}
use peeroxide.Table.{
  Node, Buckets, is_none, RoutingTable, bucket_index, bucket_at, search_id, remove, remove_from,
  take_out, get,
}
use peeroxide.Table.Scan.{same_id}
use peeroxide.Table.Order.{same_id→eq}
use peeroxide.Table.Bucket.{
  removed, looked_up, looked_up-removed, search_outcome, remove_found-search, Ascends-removed,
  All-removed, length-removed, found_length,
}
use peeroxide.Table.Index.{bucket_index-lt}
use peeroxide.Table.Invariant.{
  IsTable, nodes_of, nodes_at, total, IsTable-set, bucket_at-set_self, bucket_at-set_ne, ne_of_test,
}
use peeroxide.Table.Add.{get-eq}

module _ (id : List ℕ) (t : RoutingTable) where
  abbrev home : ℕ
  home = bucket_index t.id id

  abbrev residents : List Node
  residents = nodes_at t.buckets home

  -- The table without the id.
  abbrev without : RoutingTable
  without = record t {
    buckets = set t.buckets home (some (removed id residents));
    size = t.size - 1;
  }

  from_residents :
      (ns : List Node)
      → ((n : Node) × (remove_from id home ns t ≡ (
        record t { buckets = set t.buckets home (some (removed id ns)); size = t.size - 1 },
        some n,
      ))
          × (looked_up id ns ≡ some n)
          × (found_length (search_id id ns) ≡ 0))
        ⊎ ((remove_from id home ns t ≡ (t, none)) × (looked_up id ns ≡ none))
  unfolding remove_from take_out
  from_residents ns = elim (search_outcome id ns) [
    | inl (p, n, a, b, c) ↦ inl (
      n,
      rw (a, remove_from)
          (rw (b, take_out)
            (ap
              (λ ms.
                (record t { buckets = set t.buckets home (some ms); size = t.size - 1 }, some n))
              (rw a at (remove_found-search id ns)))),
      c,
      ap found_length a,
    )
    | inr (p, a, c) ↦ inr (rw (a, remove_from) refl, c)
  ]

  -- The branches of `remove`: the id is there and is taken out, or nothing happens.
  pub remove_cases :
      ((n : Node) × (remove id t ≡ (without, some n))
        × (looked_up id residents ≡ some n)
        × (found_length (search_id id residents) ≡ 0))
      ⊎ ((remove id t ≡ (t, none)) × (looked_up id residents ≡ none))
  unfolding remove
  remove_cases = elim (Option-cases (bucket_at t.buckets home)) [
    | inl e ↦ inr (rw (e, remove) refl, rw (e, nodes_of) refl)
    | inr (ns, e) ↦ rw (e, remove, nodes_of) (from_residents ns)
  ]

total-ge : (bs : Buckets) (i : ℕ) → length (nodes_at bs i) ≤ total bs
total-ge [] i = omega arith
total-ge (b ∷ bs) zero = omega arith
total-ge (b ∷ bs) (suc i) = omega (arith, total-ge bs i)

-- Removing an id of 32 bytes from a well-formed table gives a well-formed table.
pub remove-IsTable :
    (id : List ℕ) (t : RoutingTable) → IsTable t → length id ≡ 32 → IsTable (remove id t).0
remove-IsTable id t v w = elim (remove_cases id t) [
  | inl (n, e, h, z) ↦ rw e (
      IsTable-set t (home id t) (some (removed id (residents id t))) (t.size - 1) v
        (bucket_index-lt t.id id w)
        (record {
          ascends = Ascends-removed id (residents id t) (v.each (home id t)).ascends;
          fits = omega (arith, length-removed id (residents id t), (v.each (home id t)).fits);
          belong =
              All-removed (λ m. bucket_index t.id m.id ≡ home id t) id (residents id t)
                (v.each (home id t)).belong;
          widths =
              All-removed (λ m. length m.id ≡ 32) id (residents id t) (v.each (home id t)).widths;
        })
        (omega
          (arith, length-removed id (residents id t), total-ge t.buckets (home id t), v.sized)))
  | inr (e, h) ↦ rw e v
]

nodes_at-without :
    (id : List ℕ) (t : RoutingTable) (i : ℕ)
    → home id t < length t.buckets
    → nodes_at (without id t).buckets i
      ≡ (if home id t == i then removed id (residents id t) else nodes_at t.buckets i)
nodes_at-without id t i h = elim (Bool-cases (home id t == i)) [
  | inl p ↦ rw p (
      rw (← (==_iff (home id t) i).0 p)
        (ap nodes_of (bucket_at-set_self t.buckets (home id t) _ h)))
  | inr p ↦
      rw p (ap nodes_of (bucket_at-set_ne t.buckets (home id t) i _ (ne_of_test (home id t) i p)))
]

get-without :
    (j id : List ℕ) (t : RoutingTable)
    → IsTable t
    → home id t < length t.buckets
    → get j (without id t) ≡ (if same_id id j then none else get j t)
get-without j id t v h = elim (Bool-cases (home id t == bucket_index t.id j)) [
  | inl p ↦
      rw (get-eq j (without id t), get-eq j t, nodes_at-without id t (bucket_index t.id j) h, p)
        (looked_up-removed j id (residents id t) (v.each (home id t)).ascends
          ∙ ap (λ i. if same_id id j then none else looked_up j (nodes_at t.buckets i))
              ((==_iff (home id t) (bucket_index t.id j)).0 p))
  | inr p ↦ elim (Bool-cases (same_id id j)) [
    | inl q ↦ absurd (
        ne_of_test (home id t) (bucket_index t.id j) p (ap (bucket_index t.id) (same_id→eq id j q)))
    | inr q ↦
        rw
          (get-eq j (without id t), get-eq j t, nodes_at-without id t (bucket_index t.id j) h, p, q)
  ]
]

absent_kept :
    (j id : List ℕ) (t : RoutingTable)
    → get id t ≡ none
    → get j t ≡ (if same_id id j then none else get j t)
absent_kept j id t h = elim (Bool-cases (same_id id j)) [
  | inl q ↦ rw q (rw (← same_id→eq id j q) h)
  | inr q ↦ rw q
]

-- In a well-formed table, removing an id of 32 bytes returns what a lookup finds under it;
-- afterwards that id is absent and every other id is looked up as before, and the size falls by
-- one exactly if a node was returned.
pub remove_lem :
    (id j : List ℕ) (t : RoutingTable)
    → IsTable t
    → length id ≡ 32
    → ((remove id t).1 ≡ get id t)
      × (get j (remove id t).0 ≡ (if same_id id j then none else get j t))
      × ((remove id t).0.size + (if is_none (get id t) then 0 else 1) ≡ t.size)
remove_lem id j t v w = elim (remove_cases id t) [
  | inl (n, e, h, z) ↦
      let found_it : get id t ≡ some n = get-eq id t ∙ h in
      rw (e, found_it)
        (
          refl,
          get-without j id t v (omega (arith, bucket_index-lt t.id id w, v.count)),
          omega
              (arith, length-removed id (residents id t), total-ge t.buckets (home id t), v.sized),
        )
  | inr (e, h) ↦
      let absent : get id t ≡ none = get-eq id t ∙ h in
      rw (e, absent) (refl, absent_kept j id t absent, omega arith)
]
