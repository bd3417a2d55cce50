-- ===== src/Table/Rebuild.antt =====
-- `rebuild_with_id`: the nodes are added again to an emptied table.
use peeroxide.Common.{
  ℕ, zero, suc, ◌≡◌, refl, ap, sym, ◌∙◌, List, [], ◌∷◌, ◌++◌, Option, none, some, Bool-cases, inl,
  inr, All, length, arith, map,
}
use peeroxide.Table.{Node, Buckets, RoutingTable, add}
use peeroxide.Table.Scan.{add_all, all_nodes, rebuild_with_id, same_id}
use peeroxide.Table.Invariant.{IsTable, IsBucket-empty, nodes_at, total}
use peeroxide.Table.Add.Effect.{add-IsTable}

abbrev Wide : Node → Type 0
Wide n = length n.id ≡ 32

All-append : (xs ys : List Node) → All Wide xs → All Wide ys → All Wide (xs ++ ys)
All-append [] ys hx hy = hy
All-append (x ∷ xs) ys (h, hx) hy = (h, All-append xs ys hx hy)

all_nodes-Wide : (bs : Buckets) → ((i : ℕ) → All Wide (nodes_at bs i)) → All Wide (all_nodes bs)
unfolding all_nodes
all_nodes-Wide [] h = tt
all_nodes-Wide (none ∷ bs) h = all_nodes-Wide bs (λ i. h (suc i))
all_nodes-Wide (some ns ∷ bs) h = All-append ns _ (h 0) (all_nodes-Wide bs (λ i. h (suc i)))

add_all-IsTable :
    (new_id : List ℕ) (ns : List Node) (t : RoutingTable)
    → IsTable t
    → All Wide ns
    → IsTable (add_all new_id ns t)
unfolding add_all
add_all-IsTable new_id [] t v h = v
add_all-IsTable new_id (n ∷ ns) t v (w, h) = elim (Bool-cases (same_id n.id new_id)) [
  | inl e ↦ rw e (add_all-IsTable new_id ns t v h)
  | inr e ↦ rw e (add_all-IsTable new_id ns (add n t).0 (add-IsTable n t v w) h)
]

emptied_at : (bs : Buckets) (i : ℕ) → nodes_at (map (λ b. none) bs) i ≡ []
emptied_at [] i = refl
emptied_at (b ∷ bs) zero = refl
emptied_at (b ∷ bs) (suc i) = emptied_at bs i

total-emptied : (bs : Buckets) → total (map (λ b. none) bs) ≡ 0
total-emptied [] = refl
total-emptied (b ∷ bs) = omega (arith, total-emptied bs)

length-emptied :
    (bs : Buckets) → ◌≡◌ {A = ℕ} (length {A = Option (List Node)} (map (λ b. none) bs)) (length bs)
length-emptied [] = refl
length-emptied (b ∷ bs) = ap suc (length-emptied bs)

-- Rebuilding a well-formed table under any other id gives a well-formed table.
pub rebuild_with_id-IsTable :
    (new_id : List ℕ) (t : RoutingTable) → IsTable t → IsTable (rebuild_with_id new_id t)
unfolding rebuild_with_id
rebuild_with_id-IsTable new_id t v = elim (Bool-cases (same_id t.id new_id)) [
  | inl e ↦ rw e v
  | inr e ↦ rw e (
      add_all-IsTable new_id (all_nodes t.buckets) _
        (record {
          count = length-emptied t.buckets ∙ v.count;
          each = λ j. rw (emptied_at t.buckets j) (IsBucket-empty new_id t.k j);
          sized = sym (total-emptied t.buckets);
        })
        (all_nodes-Wide t.buckets (λ i. (v.each i).widths)))
]
