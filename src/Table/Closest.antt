-- ===== src/Table/Closest.antt =====
-- `closest`, as a scan of the buckets in one order.
use peeroxide.Common.{
  ℕ, zero, suc, ◌+◌, ◌-◌, ◌^◌, ◌*◌, ◌≤◌, ◌<◌, ◌≡◌, refl, sym, ap, ◌∙◌, min, inl, inr, ltb, true,
  false, Option, none, some, leb, leb→le, not_leb, Bool-cases, Option-cases, List, [], ◌∷◌, ◌++◌,
  append-nil, append_assoc, arith, length, length-append, length-take, take, drop,
}
use peeroxide.Table.{Node, Buckets, RoutingTable, num_buckets, bucket_index, bucket_at}
use peeroxide.Table.Scan.{push_nodes, visit, scan_down, scan_up, collect, node_ref_size, closest}
use native.Mathlib.Numerals.{add-one}
use peeroxide.Table.Invariant.{IsTable, nodes_of, nodes_at, total}

-- The nodes of the buckets `n - 1`, …, 0, and of the `n` buckets from `j` on.
abbrev pub downwards : Buckets → ℕ → List Node
downwards bs zero = []
downwards bs (suc i) = nodes_at bs i ++ downwards bs i

abbrev pub upwards : Buckets → ℕ → ℕ → List Node
upwards bs zero j = []
upwards bs (suc n) j = nodes_at bs j ++ upwards bs n (j + 1)

-- The order of `closest`: from the target's bucket down to bucket 0, then up to the last bucket.
abbrev pub scan_order : Buckets → ℕ → List Node
scan_order bs d = downwards bs (suc d) ++ upwards bs (num_buckets - (d + 1)) (d + 1)

take_full : (k : ℕ) (xs ys : List Node) → k ≤ length (take k xs) → take k (xs ++ ys) ≡ take k xs
take_full zero xs ys h = refl
take_full (suc k) [] ys h = absurd (omega arith)
take_full (suc k) (x ∷ xs) ys h = ap (λ zs. x ∷ zs) (take_full k xs ys (omega arith))

take_short :
    (k : ℕ) (xs : List Node) (y : Node)
    → length (take k xs) < k
    → take k xs ++ (y ∷ []) ≡ take k (xs ++ (y ∷ []))
take_short zero xs y h = absurd (omega arith)
take_short (suc zero) [] y h = refl
take_short (suc (suc k)) [] y h = refl
take_short (suc k) (x ∷ xs) y h = ap (λ zs. x ∷ zs) (take_short k xs y (omega arith))

push_nodes-take : (k : ℕ) (acc ns : List Node) → push_nodes k (take k acc) ns ≡ take k (acc ++ ns)
unfolding push_nodes
push_nodes-take k acc [] = ap (take k) (sym (append-nil acc))
push_nodes-take k acc (n ∷ ns) = elim (Bool-cases (leb k (length (take k acc)))) [
  | inl e ↦ rw e (sym (take_full k acc (n ∷ ns) (leb→le _ _ e)))
  | inr e ↦
      rw (e, take_short k acc n (not_leb _ _ e))
        (push_nodes-take k (acc ++ (n ∷ [])) ns ∙ ap (take k) (append_assoc acc (n ∷ []) ns))
]

visit-take :
    (k : ℕ) (bs : Buckets) (i : ℕ) (acc : List Node)
    → visit k bs i (take k acc) ≡ take k (acc ++ nodes_at bs i)
unfolding visit
visit-take k bs i acc = elim (Option-cases (bucket_at bs i)) [
  | inl e ↦ rw (e, nodes_of, visit) (ap (take k) (sym (append-nil acc)))
  | inr (ns, e) ↦ rw (e, nodes_of, visit) (push_nodes-take k acc ns)
]

scan_down-take :
    (k : ℕ) (bs : Buckets) (i : ℕ) (acc : List Node)
    → scan_down k bs i (take k acc) ≡ take k (acc ++ downwards bs i)
unfolding scan_down
scan_down-take k bs zero acc = ap (take k) (sym (append-nil acc))
scan_down-take k bs (suc i) acc = elim (Bool-cases (leb k (length (take k acc)))) [
  | inl e ↦ rw e (sym (take_full k acc _ (leb→le _ _ e)))
  | inr e ↦
      rw (e, visit-take k bs i acc)
        (scan_down-take k bs i (acc ++ nodes_at bs i)
          ∙ ap (take k) (append_assoc acc (nodes_at bs i) (downwards bs i)))
]

scan_up-take :
    (k : ℕ) (bs : Buckets) (n j : ℕ) (acc : List Node)
    → scan_up k bs n j (take k acc) ≡ take k (acc ++ upwards bs n j)
unfolding scan_up
scan_up-take k bs zero j acc = ap (take k) (sym (append-nil acc))
scan_up-take k bs (suc n) j acc = elim (Bool-cases (leb k (length (take k acc)))) [
  | inl e ↦ rw e (sym (take_full k acc _ (leb→le _ _ e)))
  | inr e ↦
      rw (e, visit-take k bs j acc)
        (scan_up-take k bs n (j + 1) (acc ++ nodes_at bs j)
          ∙ ap (take k) (append_assoc acc (nodes_at bs j) (upwards bs n (j + 1))))
]

take-nil : (k : ℕ) → ◌≡◌ {A = List Node} (take k []) []
take-nil zero = refl
take-nil (suc k) = refl

collect-take : (k : ℕ) (bs : Buckets) (d : ℕ) → collect k bs d ≡ take k (scan_order bs d)
unfolding collect
collect-take k bs d =
    ap (λ r. scan_up k bs (num_buckets - (d + 1)) (d + 1) (scan_down k bs (suc d) r))
      (sym (take-nil k))
    ∙ ap (scan_up k bs (num_buckets - (d + 1)) (d + 1)) (scan_down-take k bs (suc d) [])
    ∙ scan_up-take k bs (num_buckets - (d + 1)) (d + 1) (downwards bs (suc d))

-- The vector of k references fits into memory exactly for k below 2^60.
closest-collect :
    (target : List ℕ) (k : ℕ) (t : RoutingTable)
    → k < 2 ^ 60
    → closest target k t ≡ some (collect k t.buckets (bucket_index t.id target))
unfolding closest
closest-collect target k t h =
    let fits : ltb (2 ^ 63 - 1) (k * node_ref_size) ≡ false = ground arith in rw fits refl

closest_full : (target : List ℕ) (k : ℕ) (t : RoutingTable) → 2 ^ 60 ≤ k → closest target k t ≡ none
unfolding closest
closest_full target k t h =
    let large : ltb (2 ^ 63 - 1) (k * node_ref_size) ≡ true = ground arith in rw large refl

-- For k below 2^60, closest does not panic and returns the first k nodes of one order that does
-- not depend on k: the target's bucket, then the buckets down to 0, then the later buckets
-- upwards.
pub closest-eq :
    (target : List ℕ) (k : ℕ) (t : RoutingTable)
    → k < 2 ^ 60
    → closest target k t ≡ some (take k (scan_order t.buckets (bucket_index t.id target)))
closest-eq target k t h =
    closest-collect target k t h ∙ ap some (collect-take k t.buckets (bucket_index t.id target))

total-take :
    (bs : Buckets) (i : ℕ) → total (take (suc i) bs) ≡ total (take i bs) + length (nodes_at bs i)
total-take [] zero = omega arith
total-take [] (suc i) = omega arith
total-take (b ∷ bs) zero = omega arith
total-take (b ∷ bs) (suc i) = omega (arith, total-take bs i)

total-drop :
    (bs : Buckets) (i : ℕ) → total (drop i bs) ≡ length (nodes_at bs i) + total (drop (suc i) bs)
total-drop [] zero = omega arith
total-drop [] (suc i) = omega arith
total-drop (b ∷ bs) zero = omega arith
total-drop (b ∷ bs) (suc i) = total-drop bs i

total-split : (bs : Buckets) (i : ℕ) → total (take i bs) + total (drop i bs) ≡ total bs
total-split bs zero = omega arith
total-split [] (suc i) = omega arith
total-split (b ∷ bs) (suc i) = omega (arith, total-split bs i)

length-downwards : (bs : Buckets) (i : ℕ) → length (downwards bs i) ≡ total (take i bs)
length-downwards bs zero = refl
length-downwards bs (suc i) =
    omega (
      arith,
      length-append (nodes_at bs i) (downwards bs i),
      length-downwards bs i,
      total-take bs i,
    )

drop_past : (bs : Buckets) (j : ℕ) → length bs ≤ j → total (drop j bs) ≡ 0
drop_past [] zero h = refl
drop_past [] (suc j) h = refl
drop_past (b ∷ bs) zero h = absurd (omega arith)
drop_past (b ∷ bs) (suc j) h = drop_past bs j (omega arith)

length-upwards :
    (bs : Buckets) (n j : ℕ) → length bs ≤ n + j → length (upwards bs n j) ≡ total (drop j bs)
length-upwards bs zero j h = sym (drop_past bs j (omega arith))
length-upwards bs (suc n) j h = omega (
  arith,
  length-append (nodes_at bs j) (upwards bs n (j + 1)),
  length-upwards bs n (j + 1) (omega arith),
  total-drop bs j,
  ap (λ i. total (drop i bs)) (add-one j),
)

length-scan_order :
    (d : ℕ) (t : RoutingTable) → IsTable t → length (scan_order t.buckets d) ≡ t.size
length-scan_order d t v =
    let bs = t.buckets in
    omega (
      arith,
      length-append (downwards bs (suc d)) (upwards bs (num_buckets - (d + 1)) (d + 1)),
      length-downwards bs (suc d),
      length-upwards bs (num_buckets - (d + 1)) (d + 1) (omega (arith, v.count)),
      total-split bs (suc d),
      v.sized,
      ap (λ i. total (drop i bs)) (add-one d),
    )

-- How `closest` ends: with the panic from 2^60 nodes on, and else with as many as there are.
pub data Closest (k : ℕ) (t : RoutingTable) : Option (List Node) → Type 0 where
  overflows : 2 ^ 60 ≤ k → Closest k t none
  found : (ns : List Node) → k < 2 ^ 60 → length ns ≡ min k t.size → Closest k t (some ns)

-- On a well-formed table, closest panics for k of 2^60 or more; for every other k it returns k
-- nodes, or as many as the table has where it has fewer.
pub length-closest :
    (target : List ℕ) (k : ℕ) (t : RoutingTable) → IsTable t → Closest k t (closest target k t)
length-closest target k t v = elim (Bool-cases (leb (2 ^ 60) k)) [
  | inl e ↦ rw (closest_full target k t (leb→le _ _ e)) (overflows (leb→le _ _ e))
  | inr e ↦
      let d : ℕ = bucket_index t.id target in
      let h : k < 2 ^ 60 = not_leb _ _ e in
      rw (closest-eq target k t h) (
        found (take k (scan_order t.buckets d)) h
          (omega (arith, length-take k (scan_order t.buckets d), length-scan_order d t v)))
]
