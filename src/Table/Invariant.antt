-- ===== src/Table/Invariant.antt =====
-- What makes a routing table well formed, and what an exchange of one bucket does to that.
use peeroxide.Common.{
  ℕ, zero, suc, ◌+◌, ◌≤◌, ◌<◌, ◌≡◌, ◌≢◌, refl, sym, ap, subst, ◌∙◌, inl, inr, false, ◌==◌, ==_iff,
  Bool-cases, Option, none, some, Option-cases, List, [], ◌∷◌, arith, All, length,
  get_elem?-set_self, get_elem?-set_ne, length-set, set-set, set,
}
use peeroxide.Table.{Node, Buckets, RoutingTable, num_buckets, bucket_index, bucket_at, open_bucket}
use peeroxide.Table.Bucket.{Ascends}

abbrev pub nodes_of : Option (List Node) → List Node
nodes_of none = []
nodes_of (some ns) = ns

abbrev pub nodes_at : Buckets → ℕ → List Node
nodes_at bs i = nodes_of (bucket_at bs i)

-- How many nodes the buckets hold.
abbrev pub total : Buckets → ℕ
total [] = 0
total (b ∷ bs) = length (nodes_of b) + total bs

-- Bucket `i`: ids of 32 bytes that ascend strictly, at most `k` of them, and all belong there.
pub record IsBucket (local : List ℕ) (k i : ℕ) (ns : List Node) : Type 0 where
  pub ascends : Ascends ns
  pub fits : length ns ≤ k
  pub belong : All (λ n. bucket_index local n.id ≡ i) ns
  pub widths : All (λ n. length n.id ≡ 32) ns

pub record IsTable (t : RoutingTable) : Type 0 where
  pub count : length t.buckets ≡ num_buckets
  pub each : (i : ℕ) → IsBucket t.id t.k i (nodes_at t.buckets i)
  pub sized : t.size ≡ total t.buckets

pub IsBucket-empty : (local : List ℕ) (k i : ℕ) → IsBucket local k i []
IsBucket-empty local k i = record { ascends = tt; fits = omega arith; belong = tt; widths = tt }

pub bucket_at-set_self :
    (bs : Buckets) (i : ℕ) (b : Option (List Node)) → i < length bs → bucket_at (set bs i b) i ≡ b
bucket_at-set_self bs i b h = rw (get_elem?-set_self bs i b h, bucket_at)

pub bucket_at-set_ne :
    (bs : Buckets) (i j : ℕ) (b : Option (List Node))
    → i ≢ j
    → bucket_at (set bs i b) j ≡ bucket_at bs j
bucket_at-set_ne bs i j b h = rw (get_elem?-set_ne bs i j b h, bucket_at)

pub total-set :
    (bs : Buckets) (i : ℕ) (b : Option (List Node))
    → i < length bs
    → total (set bs i b) + length (nodes_at bs i) ≡ total bs + length (nodes_of b)
total-set [] i b h = absurd (omega arith)
total-set (x ∷ bs) zero b h = omega arith
total-set (x ∷ bs) (suc i) b h = omega (arith, total-set bs i b (omega arith))

pub ne_of_test : (i j : ℕ) → (i == j) ≡ false → i ≢ j
ne_of_test i j h e = ground arith

-- One bucket exchanged for another good one keeps the table well formed, if the size follows.
pub IsTable-set :
    (t : RoutingTable) (i : ℕ) (b : Option (List Node)) (n : ℕ)
    → IsTable t
    → i < num_buckets
    → IsBucket t.id t.k i (nodes_of b)
    → n + length (nodes_at t.buckets i) ≡ t.size + length (nodes_of b)
    → IsTable (record t { buckets = set t.buckets i b; size = n })
IsTable-set t i b n v h g e = record {
  count = length-set t.buckets i b ∙ v.count;
  each = λ j. elim (Bool-cases (i == j)) [
    | inl p ↦
        subst (λ m. IsBucket t.id t.k m (nodes_at (set t.buckets i b) m)) ((==_iff i j).0 p)
          (rw (bucket_at-set_self t.buckets i b (omega (arith, v.count))) g)
    | inr p ↦ rw (bucket_at-set_ne t.buckets i j b (ne_of_test i j p)) (v.each j)
  ];
  sized = omega (arith, total-set t.buckets i b (omega (arith, v.count)), v.sized);
}

-- Opening a bucket shows the nodes that were there, and is undone by the write that follows.
pub bucket_at-open_bucket :
    (idx : ℕ) (t : RoutingTable)
    → idx < length t.buckets
    → bucket_at (open_bucket idx t).buckets idx ≡ some (nodes_at t.buckets idx)
unfolding open_bucket
bucket_at-open_bucket idx t h = elim (Option-cases (bucket_at t.buckets idx)) [
  | inl e ↦ rw (e, nodes_of) (bucket_at-set_self t.buckets idx (some []) h)
  | inr (ns, e) ↦ rw (e, nodes_of) e
]

pub set-open_bucket :
    (idx : ℕ) (t : RoutingTable) (b : Option (List Node)) (n : ℕ)
    → record (open_bucket idx t) { buckets = set (open_bucket idx t).buckets idx b; size = n }
      ≡ record t { buckets = set t.buckets idx b; size = n }
unfolding open_bucket
set-open_bucket idx t b n = elim (Option-cases (bucket_at t.buckets idx)) [
  | inl e ↦
      rw e (ap (λ bs. record t { buckets = bs; size = n }) (set-set t.buckets idx (some []) b))
  | inr (ns, e) ↦ rw e
]

pub IsTable-open_bucket :
    (idx : ℕ) (t : RoutingTable) → idx < num_buckets → IsTable t → IsTable (open_bucket idx t)
unfolding open_bucket
IsTable-open_bucket idx t h v = elim (Option-cases (bucket_at t.buckets idx)) [
  | inl e ↦
      rw e (
        IsTable-set t idx (some []) t.size v h (IsBucket-empty t.id t.k idx)
          (rw (e, nodes_of) refl))
  | inr (ns, e) ↦ rw e v
]

-- What opening a bucket leaves alone.
pub open_bucket_fields :
    (idx : ℕ) (t : RoutingTable)
    → let u = open_bucket idx t in
      (u.id ≡ t.id) × (u.k ≡ t.k) × (u.size ≡ t.size) × (u.pending_events ≡ t.pending_events)
unfolding open_bucket
open_bucket_fields idx t = ground arith

pub nodes_at-open_bucket :
    (idx : ℕ) (t : RoutingTable) (i : ℕ)
    → idx < length t.buckets
    → nodes_at (open_bucket idx t).buckets i ≡ nodes_at t.buckets i
unfolding open_bucket
nodes_at-open_bucket idx t i h = elim (Option-cases (bucket_at t.buckets idx)) [
  | inl e ↦ elim (Bool-cases (idx == i)) [
    | inl p ↦
        let q = (==_iff idx i).0 p in
        rw (e, ← q)
          (ap nodes_of (bucket_at-set_self t.buckets idx (some []) h) ∙ sym (ap nodes_of e))
    | inr p ↦ rw e (ap nodes_of (bucket_at-set_ne t.buckets idx i (some []) (ne_of_test idx i p)))
  ]
  | inr (ns, e) ↦ rw e
]
