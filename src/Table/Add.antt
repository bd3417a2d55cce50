-- ===== src/Table/Add.antt =====
-- `add`, by the branches it can take.
pub mod Effect
use peeroxide.Common.{
  ℕ, ◌+◌, ◌≤◌, ◌<◌, ◌≡◌, ◌≢◌, refl, sym, ap, ap₂, ◌∙◌, subst, inl, inr, ◌⊎◌, Bool, true, false, ltb,
  ltb→lt, lt→ltb, ◌==◌, ==_iff, if◌then◌else◌, Bool-cases, Option, none, some, Option-cases, List,
  [], ◌∷◌, ◌++◌, arith, length, set, insert_at,
}
use peeroxide.Table.{
  Node, TableEvent, bucket_full, Buckets, RoutingTable, num_buckets, bucket_index, bucket_at,
  search_id, Search, found, missing, open_bucket, place, add, get, compare_id,
}
use peeroxide.Table.Scan.{same_id}
use peeroxide.Table.Order.{compare_id→eq}
use peeroxide.Table.Bucket.{
  Ascends, stored, looked_up, looked_up-missing, looked_up-found, looked_up-stored, find_in-eq,
  store_at-search, Ascends-stored, All-stored, length-stored, found_length,
}
use peeroxide.Table.Index.{bucket_index-lt}
use peeroxide.Table.Invariant.{
  open_bucket_fields, IsTable, IsBucket, nodes_of, nodes_at, IsTable-set, IsTable-open_bucket,
  bucket_at-open_bucket, set-open_bucket, bucket_at-set_self, bucket_at-set_ne, ne_of_test,
}

Search-cases : (s : Search) → ((p : ℕ) × (s ≡ found p)) ⊎ ((p : ℕ) × (s ≡ missing p))
Search-cases (found p) = inl (p, refl)
Search-cases (missing p) = inr (p, refl)

-- `get` looks the id up among the nodes of its bucket.
pub get-eq :
    (j : List ℕ) (t : RoutingTable)
    → get j t ≡ looked_up j (nodes_at t.buckets (bucket_index t.id j))
unfolding get
get-eq j t = elim (Option-cases (bucket_at t.buckets (bucket_index t.id j))) [
  | inl e ↦ rw (e, nodes_of, get) refl
  | inr (ns, e) ↦ rw (e, nodes_of, get) (find_in-eq j ns)
]

module _ (n : Node) (t : RoutingTable) where
  abbrev home : ℕ
  home = bucket_index t.id n.id

  abbrev residents : List Node
  residents = nodes_at t.buckets home

  -- The table with the node stored.
  abbrev kept : RoutingTable
  kept = record t {
    buckets = set t.buckets home (some (stored n residents));
    size = t.size + found_length (search_id n.id residents);
  }

  -- The table of a refusal.
  abbrev refused : RoutingTable
  refused = record (open_bucket home t) {
    pending_events = t.pending_events ++ (bucket_full n home ∷ []);
  }

  module _ (v : IsTable t) (width : length n.id ≡ 32) where
    in_range : home < length t.buckets
    in_range = omega (arith, bucket_index-lt t.id n.id width, v.count)

    add-place : add n t ≡ place n home residents (open_bucket home t)
    unfolding add
    add-place = rw (bucket_at-open_bucket home t in_range, add) refl

    same_size : (open_bucket home t).size ≡ t.size
    same_size = (open_bucket_fields home t).2

    same_k : (open_bucket home t).k ≡ t.k
    same_k = (open_bucket_fields home t).1

    same_events : (open_bucket home t).pending_events ≡ t.pending_events
    same_events = (open_bucket_fields home t).3

    found_kept :
        (p : ℕ)
        → search_id n.id residents ≡ found p
        → place n home residents (open_bucket home t) ≡ (kept, true)
    unfolding place
    found_kept p e =
        rw (e, place)
          (ap (λ u. (u, true))
            (set-open_bucket home t _ (open_bucket home t).size
              ∙ ap₂ (λ ns m. record t { buckets = set t.buckets home (some ns); size = m })
                  (rw e at (store_at-search n residents)) (same_size ∙ omega arith)))

    missing_kept :
        (p : ℕ)
        → search_id n.id residents ≡ missing p
        → length residents < t.k
        → place n home residents (open_bucket home t) ≡ (kept, true)
    unfolding place
    missing_kept p e h =
        let room : ltb (length residents) (open_bucket home t).k ≡ true =
          rw same_k (lt→ltb _ _ h) in
        rw (e, place, room)
          (ap (λ u. (u, true))
            (set-open_bucket home t _ ((open_bucket home t).size + 1)
              ∙ ap₂ (λ ns m. record t { buckets = set t.buckets home (some ns); size = m })
                  (rw e at (store_at-search n residents)) (ap (λ m. m + 1) same_size)))

    missing_refused :
        (p : ℕ)
        → search_id n.id residents ≡ missing p
        → t.k ≤ length residents
        → place n home residents (open_bucket home t) ≡ (refused, false)
    unfolding place
    missing_refused p e h =
        let full : ltb (length residents) t.k ≡ false = ground arith in
        rw (e, place, same_k, full, same_events)

    -- The branches of `add`: the node is stored, over one of its id or where there is room, or it
    -- is refused, with an event, where its id is new and the bucket is full.
    pub add_cases :
        ((add n t ≡ (kept, true)) × ((looked_up n.id residents ≢ none) ⊎ (length residents < t.k)))
        ⊎ ((add n t ≡ (refused, false))
            × (looked_up n.id residents ≡ none)
            × (length residents ≡ t.k))
    add_cases = elim (Search-cases (search_id n.id residents)) [
      | inl (p, e) ↦
          inl (add-place ∙ found_kept p e, inl (looked_up-found n.id residents (rw e refl)))
      | inr (p, e) ↦ elim (Bool-cases (ltb (length residents) t.k)) [
        | inl r ↦
            let room = ltb→lt (length residents) t.k r in
            inl (add-place ∙ missing_kept p e room, inr room)
        | inr r ↦
            let full : t.k ≤ length residents = ground arith in
            inr (
              add-place ∙ missing_refused p e full,
              looked_up-missing n.id residents (rw e refl),
              omega (arith, (v.each home).fits),
            )
      ]
    ]
