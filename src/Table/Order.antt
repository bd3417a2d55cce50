-- ===== src/Table/Order.antt =====
-- The order of node ids.
use Prim.Native.Nat.{Ordering}
use peeroxide.Common.{ℕ, true, ◌≡◌, refl, List, [], ◌∷◌, arith}
use peeroxide.Table.{compare_id}
use peeroxide.Table.Scan.{same_id}

pub compare_id_refl : (a : List ℕ) → compare_id a a ≡ Ordering.eq
unfolding compare_id
compare_id_refl [] = refl
compare_id_refl (a ∷ xs) = ground (arith, compare_id_refl xs)

pub compare_id→eq : (a b : List ℕ) → compare_id a b ≡ Ordering.eq → a ≡ b
unfolding compare_id
compare_id→eq [] [] h = refl
compare_id→eq [] (b ∷ bs) h = cc
compare_id→eq (a ∷ xs) [] h = cc
compare_id→eq (a ∷ xs) (b ∷ bs) h = ground (arith, compare_id→eq xs bs)

pub compare_id_flip_lt :
    (a b : List ℕ) → compare_id a b ≡ Ordering.lt → compare_id b a ≡ Ordering.gt
unfolding compare_id
compare_id_flip_lt [] [] h = cc
compare_id_flip_lt [] (b ∷ bs) h = refl
compare_id_flip_lt (a ∷ xs) [] h = cc
compare_id_flip_lt (a ∷ xs) (b ∷ bs) h = ground (arith, compare_id_flip_lt xs bs)

pub compare_id_flip_gt :
    (a b : List ℕ) → compare_id a b ≡ Ordering.gt → compare_id b a ≡ Ordering.lt
unfolding compare_id
compare_id_flip_gt [] [] h = cc
compare_id_flip_gt [] (b ∷ bs) h = cc
compare_id_flip_gt (a ∷ xs) [] h = refl
compare_id_flip_gt (a ∷ xs) (b ∷ bs) h = ground (arith, compare_id_flip_gt xs bs)

pub compare_id_trans :
    (a b c : List ℕ)
    → compare_id a b ≡ Ordering.lt
    → compare_id b c ≡ Ordering.lt
    → compare_id a c ≡ Ordering.lt
unfolding compare_id
compare_id_trans [] [] [] h k = h
compare_id_trans [] (b ∷ bs) [] h k = cc
compare_id_trans [] b (c ∷ cs) h k = refl
compare_id_trans (a ∷ xs) [] c h k = cc
compare_id_trans (a ∷ xs) (b ∷ bs) [] h k = cc
compare_id_trans (a ∷ xs) (b ∷ bs) (c ∷ cs) h k = ground (arith, compare_id_trans xs bs cs)

pub same_id→eq : (a b : List ℕ) → same_id a b ≡ true → a ≡ b
same_id→eq a b h = ground (arith, compare_id→eq a b)

pub same_id_refl : (a : List ℕ) → same_id a a ≡ true
same_id_refl a = ground (arith, compare_id_refl a)
