-- ===== src/Table/Add/Effect.antt =====
-- What a caller sees of `add`: the invariant, and the lookups after each branch.
use peeroxide.Common.{
  ℕ, ◌≤◌, ◌<◌, ◌≡◌, ◌≢◌, refl, sym, ap, ◌∙◌, inl, inr, ◌⊎◌, true, false, ◌==◌, ==_iff,
  if◌then◌else◌, Bool-cases, none, some, List, [], ◌∷◌, ◌++◌, arith, length,
}
use peeroxide.Table.{
  Node, bucket_full, RoutingTable, bucket_index, search_id, Search, found, missing, open_bucket,
  add, get,
}
use peeroxide.Table.Scan.{same_id}
use peeroxide.Table.Order.{same_id→eq}
use peeroxide.Table.Bucket.{
  stored, looked_up, looked_up-stored, looked_up-missing, Ascends-stored, All-stored, length-stored,
  found_length,
}
use peeroxide.Table.Index.{bucket_index-lt}
use peeroxide.Table.Invariant.{
  nodes_at-open_bucket, IsTable, nodes_of, nodes_at, IsTable-set, IsTable-open_bucket,
  bucket_at-set_self, bucket_at-set_ne, ne_of_test, open_bucket_fields,
}
use peeroxide.Table.Add.{get-eq, home, residents, kept, refused, add_cases}

length_bounded :
    (n : Node) (t : RoutingTable)
    → IsTable t
    → (looked_up n.id (residents n t) ≢ none) ⊎ (length (residents n t) < t.k)
    → length (stored n (residents n t)) ≤ t.k
length_bounded n t v h = ground (
  arith,
  length-stored n (residents n t),
  looked_up-missing n.id (residents n t),
  (v.each (home n t)).fits,
  at_most_one (search_id n.id (residents n t)),
)
  where
    at_most_one : (s : Search) → found_length s ≤ 1
    at_most_one (found p) = omega arith
    at_most_one (missing p) = omega arith

IsTable-kept :
    (n : Node) (t : RoutingTable)
    → IsTable t
    → length n.id ≡ 32
    → (looked_up n.id (residents n t) ≢ none) ⊎ (length (residents n t) < t.k)
    → IsTable (kept n t)
IsTable-kept n t v w h =
    IsTable-set t (home n t) (some (stored n (residents n t))) _ v (bucket_index-lt t.id n.id w)
      (record {
        ascends = Ascends-stored n (residents n t) (v.each (home n t)).ascends;
        fits = length_bounded n t v h;
        belong =
            All-stored (λ m. bucket_index t.id m.id ≡ home n t) n (residents n t) refl
              (v.each (home n t)).belong;
        widths = All-stored (λ m. length m.id ≡ 32) n (residents n t) w (v.each (home n t)).widths;
      })
      (omega (arith, length-stored n (residents n t)))

IsTable-refused :
    (n : Node) (t : RoutingTable) → IsTable t → length n.id ≡ 32 → IsTable (refused n t)
IsTable-refused n t v w =
    let u = IsTable-open_bucket (home n t) t (bucket_index-lt t.id n.id w) v in
    record { count = u.count; each = u.each; sized = u.sized }

-- Adding a node with an id of 32 bytes to a well-formed table (256 buckets; in each the ids have
-- 32 bytes, belong there, ascend strictly and are at most k; the size is their number) gives a
-- well-formed table, whether the node is stored, replaced or refused.
pub add-IsTable : (n : Node) (t : RoutingTable) → IsTable t → length n.id ≡ 32 → IsTable (add n t).0
add-IsTable n t v w = elim (add_cases n t v w) [
  | inl (e, h) ↦ rw e (IsTable-kept n t v w h)
  | inr (e, h, f) ↦ rw e (IsTable-refused n t v w)
]

nodes_at-kept :
    (n : Node) (t : RoutingTable) (i : ℕ)
    → home n t < length t.buckets
    → nodes_at (kept n t).buckets i
      ≡ (if home n t == i then stored n (residents n t) else nodes_at t.buckets i)
nodes_at-kept n t i h = elim (Bool-cases (home n t == i)) [
  | inl p ↦
      rw p (
        rw (← (==_iff (home n t) i).0 p)
          (ap nodes_of (bucket_at-set_self t.buckets (home n t) _ h)))
  | inr p ↦
      rw p (ap nodes_of (bucket_at-set_ne t.buckets (home n t) i _ (ne_of_test (home n t) i p)))
]

-- A node that was stored is found under its id; every other id is found as before.
get-kept :
    (j : List ℕ) (n : Node) (t : RoutingTable)
    → home n t < length t.buckets
    → get j (kept n t) ≡ (if same_id n.id j then some n else get j t)
get-kept j n t h = elim (Bool-cases (home n t == bucket_index t.id j)) [
  | inl p ↦
      rw (get-eq j (kept n t), get-eq j t, nodes_at-kept n t (bucket_index t.id j) h, p)
        (looked_up-stored j n (residents n t)
          ∙ ap (λ i. if same_id n.id j then some n else looked_up j (nodes_at t.buckets i))
              ((==_iff (home n t) (bucket_index t.id j)).0 p))
  | inr p ↦ elim (Bool-cases (same_id n.id j)) [
    | inl q ↦ absurd (
        ne_of_test (home n t) (bucket_index t.id j) p
          (ap (bucket_index t.id) (same_id→eq n.id j q)))
    | inr q ↦ rw (get-eq j (kept n t), get-eq j t, nodes_at-kept n t (bucket_index t.id j) h, p, q)
  ]
]

get-refused :
    (j : List ℕ) (n : Node) (t : RoutingTable)
    → home n t < length t.buckets
    → get j (refused n t) ≡ get j t
get-refused j n t h =
    get-eq j (refused n t)
    ∙ ap (λ local. looked_up j (nodes_at (open_bucket (home n t) t).buckets (bucket_index local j)))
        (open_bucket_fields (home n t) t).0
    ∙ ap (looked_up j) (nodes_at-open_bucket (home n t) t (bucket_index t.id j) h)
    ∙ sym (get-eq j t)

-- If adding a node with an id of 32 bytes to a well-formed table returned true, then the node is
-- found under its id afterwards, and every other id is looked up as before.
pub get-add_stored :
    (n : Node) (t u : RoutingTable) (j : List ℕ)
    → IsTable t
    → length n.id ≡ 32
    → add n t ≡ (u, true)
    → get j u ≡ (if same_id n.id j then some n else get j t)
get-add_stored n t u j v w e = elim (add_cases n t v w) [
  | inl (q, h) ↦
      rw (← ap (λ r. r.0) (sym q ∙ e))
        (get-kept j n t (omega (arith, bucket_index-lt t.id n.id w, v.count)))
  | inr (q, h, f) ↦ cc
]

-- If adding a node with an id of 32 bytes to a well-formed table returned false, then its id was
-- not in the table and its bucket held k nodes; one bucket-full event with the node and its
-- bucket is appended, and neither the size nor any lookup changes.
pub add_refused :
    (n : Node) (t u : RoutingTable)
    → IsTable t
    → length n.id ≡ 32
    → add n t ≡ (u, false)
    → (get n.id t ≡ none)
      × (length (nodes_at t.buckets (bucket_index t.id n.id)) ≡ t.k)
      × (u.pending_events ≡ t.pending_events ++ (bucket_full n (bucket_index t.id n.id) ∷ []))
      × (u.size ≡ t.size)
      × ((j : List ℕ) → get j u ≡ get j t)
add_refused n t u v w e = elim (add_cases n t v w) [
  | inl (q, h) ↦ cc
  | inr (q, h, f) ↦ rw (← ap (λ r. r.0) (sym q ∙ e)) (
    get-eq n.id t ∙ h,
    f,
    refl,
    (open_bucket_fields (home n t) t).2,
    λ j. get-refused j n t (omega (arith, bucket_index-lt t.id n.id w, v.count)),
  )
]

-- In a well-formed table, adding a node with an id of 32 bytes that is not in the table returns
-- false if its bucket holds k nodes.
pub add_full :
    (n : Node) (t : RoutingTable)
    → IsTable t
    → length n.id ≡ 32
    → get n.id t ≡ none
    → length (nodes_at t.buckets (bucket_index t.id n.id)) ≡ t.k
    → (add n t).1 ≡ false
add_full n t v w a f = elim (add_cases n t v w) [
  | inl (q, inl h) ↦ absurd (h (sym (get-eq n.id t) ∙ a))
  | inl (q, inr h) ↦ absurd (omega arith)
  | inr (q, h, g) ↦ ap (λ r. r.1) q
]
