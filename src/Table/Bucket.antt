-- ===== src/Table/Bucket.antt =====
-- One bucket: what search, replacement, insertion and removal by position do to the ids.
use Prim.Native.Nat.{Ordering}
use peeroxide.Common.{
  ℕ, suc, ◌+◌, ◌≡◌, ◌≢◌, refl, ap, inl, inr, ◌⊎◌, if◌then◌else◌, Option, none, some, List, [], ◌∷◌,
  arith, All, length, get_elem?, set, insert_at, remove_at,
}
use peeroxide.Table.{Node, compare_id, Search, found, missing, one_later, search_id, find_in}
use peeroxide.Table.Scan.{same_id}
use peeroxide.Table.Order.{
  compare_id_refl, compare_id→eq, compare_id_flip_lt, compare_id_flip_gt, compare_id_trans,
}

Order-cases : (o : Ordering) → (o ≡ Ordering.lt) ⊎ ((o ≡ Ordering.eq) ⊎ (o ≡ Ordering.gt))
Order-cases Ordering.lt = inl refl
Order-cases Ordering.eq = inr (inl refl)
Order-cases Ordering.gt = inr (inr refl)

-- `id` is smaller than every id of the list, and the ids ascend strictly.
abbrev pub Above : List ℕ → List Node → Type 0
Above id = All (λ m. compare_id id m.id ≡ Ordering.lt)

abbrev pub Ascends : List Node → Type 0
Ascends [] = Unit {0}
Ascends (n ∷ ns) = Above n.id ns × Ascends ns

-- What the bucket holds after a node is stored, or an id is removed, in one pass.
abbrev pub stored : Node → List Node → List Node
stored n [] = n ∷ []
stored n (m ∷ ms) = elim (compare_id m.id n.id) [
  | Ordering.lt ↦ m ∷ stored n ms
  | Ordering.eq ↦ n ∷ ms
  | Ordering.gt ↦ n ∷ m ∷ ms
]

abbrev pub removed : List ℕ → List Node → List Node
removed id [] = []
removed id (m ∷ ms) = elim (compare_id m.id id) [
  | Ordering.lt ↦ m ∷ removed id ms
  | Ordering.eq ↦ ms
  | Ordering.gt ↦ m ∷ ms
]

abbrev pub looked_up : List ℕ → List Node → Option Node
looked_up id [] = none
looked_up id (m ∷ ms) = elim (compare_id m.id id) [
  | Ordering.lt ↦ looked_up id ms
  | Ordering.eq ↦ some m
  | Ordering.gt ↦ none
]

abbrev found_at : Search → List Node → Option Node
found_at (found p) ns = get_elem? ns p
found_at (missing p) ns = none

pub find_in-eq : (id : List ℕ) (ns : List Node) → find_in id ns ≡ looked_up id ns
unfolding find_in search_id
find_in-eq id [] = refl
find_in-eq id (m ∷ ms) = ground (arith, find_in-eq id ms)

abbrev store_at : Search → Node → List Node → List Node
store_at (found p) n ns = set ns p n
store_at (missing p) n ns = insert_at p n ns

pub store_at-search : (n : Node) (ns : List Node) → store_at (search_id n.id ns) n ns ≡ stored n ns
unfolding search_id
store_at-search n [] = refl
store_at-search n (m ∷ ms) = ground (arith, store_at-search n ms)

abbrev remove_found : Search → List Node → List Node
remove_found (found p) ns = remove_at p ns
remove_found (missing p) ns = ns

pub remove_found-search :
    (id : List ℕ) (ns : List Node) → remove_found (search_id id ns) ns ≡ removed id ns
unfolding search_id
remove_found-search id [] = refl
remove_found-search id (m ∷ ms) = ground (arith, remove_found-search id ms)

module _ (P : Node → Type 0) where
  pub All-stored : (n : Node) (ns : List Node) → P n → All P ns → All P (stored n ns)
  All-stored n [] p h = (p, tt)
  All-stored n (m ∷ ms) p h = elim (Order-cases (compare_id m.id n.id)) [
    | inl e ↦ rw (e, All, stored) (h.0, All-stored n ms p h.1)
    | inr (inl e) ↦ rw (e, All, stored) (p, h.1)
    | inr (inr e) ↦ rw (e, All, stored) (p, h)
  ]

  pub All-removed : (id : List ℕ) (ns : List Node) → All P ns → All P (removed id ns)
  All-removed id [] h = tt
  All-removed id (m ∷ ms) h = elim (Order-cases (compare_id m.id id)) [
    | inl e ↦ rw (e, All, removed) (h.0, All-removed id ms h.1)
    | inr (inl e) ↦ rw (e, All, removed) h.1
    | inr (inr e) ↦ rw (e, All, removed) h
  ]

Above-trans :
    (a b : List ℕ) (ns : List Node) → compare_id a b ≡ Ordering.lt → Above b ns → Above a ns
Above-trans a b [] h k = tt
Above-trans a b (m ∷ ms) h k = (compare_id_trans a b m.id h k.0, Above-trans a b ms h k.1)

pub Ascends-stored : (n : Node) (ns : List Node) → Ascends ns → Ascends (stored n ns)
Ascends-stored n [] h = (tt, tt)
Ascends-stored n (m ∷ ms) h = elim (Order-cases (compare_id m.id n.id)) [
  | inl e ↦
      rw (e, Ascends, stored)
        (All-stored (λ x. compare_id m.id x.id ≡ Ordering.lt) n ms e h.0, Ascends-stored n ms h.1)
  | inr (inl e) ↦ rw (e, Ascends, stored) (rw (← compare_id→eq m.id n.id e) h.0, h.1)
  | inr (inr e) ↦
      let below = compare_id_flip_gt m.id n.id e in
      rw (e, Ascends, stored) ((below, Above-trans n.id m.id ms below h.0), h)
]

pub Ascends-removed : (id : List ℕ) (ns : List Node) → Ascends ns → Ascends (removed id ns)
Ascends-removed id [] h = tt
Ascends-removed id (m ∷ ms) h = elim (Order-cases (compare_id m.id id)) [
  | inl e ↦
      rw (e, Ascends, removed)
        (All-removed (λ x. compare_id m.id x.id ≡ Ordering.lt) id ms h.0, Ascends-removed id ms h.1)
  | inr (inl e) ↦ rw (e, Ascends, removed) h.1
  | inr (inr e) ↦ rw (e, Ascends, removed) h
]

abbrev pub found_length : Search → ℕ
found_length (found p) = 0
found_length (missing p) = 1

pub length-stored :
    (n : Node) (ns : List Node)
    → length (stored n ns) ≡ length ns + found_length (search_id n.id ns)
unfolding search_id
length-stored n [] = refl
length-stored n (m ∷ ms) = ground (arith, length-stored n ms)

pub length-removed :
    (id : List ℕ) (ns : List Node)
    → length (removed id ns) + 1 ≡ length ns + found_length (search_id id ns)
unfolding search_id
length-removed id [] = refl
length-removed id (m ∷ ms) = ground (arith, length-removed id ms)

-- Storing a node changes what is looked up under its own id, and nothing else.
pub looked_up-stored :
    (j : List ℕ) (n : Node) (ns : List Node)
    → looked_up j (stored n ns) ≡ (if same_id n.id j then some n else looked_up j ns)
looked_up-stored j n [] = ground arith
looked_up-stored j n (m ∷ ms) = ground (
  arith,
  looked_up-stored j n ms,
  compare_id→eq m.id n.id,
  compare_id→eq m.id j,
  compare_id_flip_gt m.id n.id,
  compare_id_flip_lt m.id n.id,
  compare_id_trans n.id m.id j,
  compare_id_flip_gt m.id j,
  compare_id_flip_lt j m.id,
  compare_id_trans j n.id m.id,
  compare_id_flip_gt n.id j,
  compare_id→eq n.id j,
  compare_id_trans m.id n.id j,
  compare_id_refl j,
  compare_id_refl m.id,
)

looked_up-Above : (id : List ℕ) (ns : List Node) → Above id ns → looked_up id ns ≡ none
looked_up-Above id [] h = refl
looked_up-Above id (m ∷ ms) h = rw (compare_id_flip_lt id m.id h.0, looked_up)

looked_up_below :
    (j : List ℕ) (m : Node) (ms : List Node)
    → Above m.id ms
    → compare_id m.id j ≡ Ordering.gt
    → looked_up j ms ≡ none
looked_up_below j m ms h e =
    looked_up-Above j ms (Above-trans j m.id ms (compare_id_flip_gt m.id j e) h)

-- Removing an id makes it absent, and changes nothing else.
pub looked_up-removed :
    (j id : List ℕ) (ns : List Node)
    → Ascends ns
    → looked_up j (removed id ns) ≡ (if same_id id j then none else looked_up j ns)
looked_up-removed j id [] h = ground arith
looked_up-removed j id (m ∷ ms) h = ground (
  arith,
  looked_up-removed j id ms h.1,
  compare_id→eq m.id id,
  compare_id→eq id j,
  compare_id→eq m.id j,
  looked_up-Above m.id ms h.0,
  looked_up_below j m ms h.0,
  compare_id_refl j,
  compare_id_refl m.id,
  compare_id_flip_gt m.id j,
  compare_id_trans j id m.id,
)

-- A search finds an id exactly if looking it up does.
pub looked_up-missing :
    (id : List ℕ) (ns : List Node) → found_length (search_id id ns) ≡ 1 → looked_up id ns ≡ none
unfolding search_id
looked_up-missing id [] h = refl
looked_up-missing id (m ∷ ms) h = ground (arith, looked_up-missing id ms)

pub looked_up-found :
    (id : List ℕ) (ns : List Node) → found_length (search_id id ns) ≡ 0 → looked_up id ns ≢ none
unfolding search_id
looked_up-found id [] h e = absurd (omega arith)
looked_up-found id (m ∷ ms) h e = ground (arith, looked_up-found id ms)

-- A search ends at the node that looking up gives, or nowhere if there is none.
pub search_outcome :
    (id : List ℕ) (ns : List Node)
    → ((p : ℕ) × (n : Node) × (search_id id ns ≡ found p)
        × (get_elem? ns p ≡ some n)
        × (looked_up id ns ≡ some n))
      ⊎ ((p : ℕ) × (search_id id ns ≡ missing p) × (looked_up id ns ≡ none))
unfolding search_id
search_outcome id [] = inr (0, refl, refl)
search_outcome id (m ∷ ms) = elim (Order-cases (compare_id m.id id)) [
  | inl e ↦ elim (search_outcome id ms) [
    | inl (p, n, a, b, c) ↦
        inl (suc p, n, rw (e, search_id) (ap one_later a), b, rw (e, looked_up) c)
    | inr (p, a, c) ↦ inr (suc p, rw (e, search_id) (ap one_later a), rw (e, looked_up) c)
  ]
  | inr (inl e) ↦ inl (0, m, rw (e, search_id) refl, refl, rw (e, looked_up) refl)
  | inr (inr e) ↦ inr (0, rw (e, search_id) refl, rw (e, looked_up) refl)
]
