-- ===== src/Table/Fresh.antt =====
-- `with_k`: the empty table.
use peeroxide.Common.{
  ℕ, zero, suc, ◌≡◌, refl, List, [], Option, none, replicate, length-replicate, arith,
}
use peeroxide.Table.{Node, num_buckets, with_k}
use peeroxide.Table.Invariant.{IsTable, IsBucket-empty, nodes_at, total}

bucket_at-replicate : (n j : ℕ) → nodes_at (replicate n none) j ≡ []
bucket_at-replicate zero j = refl
bucket_at-replicate (suc n) zero = refl
bucket_at-replicate (suc n) (suc j) = bucket_at-replicate n j

total-replicate : (n : ℕ) → total (replicate n none) ≡ 0
total-replicate zero = refl
total-replicate (suc n) = omega (arith, total-replicate n)

-- A table without nodes is well formed, whatever its id and bucket size.
pub with_k-IsTable : (id : List ℕ) (k : ℕ) → IsTable (with_k id k)
unfolding with_k
with_k-IsTable id k = record {
  count = length-replicate {A = Option (List Node)} num_buckets none;
  each = λ j. rw (bucket_at-replicate num_buckets j) (IsBucket-empty id k j);
  sized = total-replicate num_buckets;
}
