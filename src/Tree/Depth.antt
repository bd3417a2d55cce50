-- ===== src/Tree/Depth.antt =====
-- The depth of the tree, and the room in a tree of a given depth.
use peeroxide.Common.{
  ℕ, zero, suc, ◌+◌, ◌-◌, ◌*◌, ◌^◌, ◌≤◌, ◌<◌, ◌≡◌, ◌↔◌, ◌⊎◌, inl, inr, refl, min, leb, leb→le,
  le→leb, true, not_leb, ◌==◌, ◌||◌, Bool-cases, arith,
}
use peeroxide.Tree.{
  root_index_slot_cap, non_root_index_slot_cap, div_ceil_u64, depth_from, canonical_depth,
  max_data_chunks_for_depth,
}

-- How many data chunks a tree of depth `d` has room for.
abbrev pub capacity : ℕ → ℕ
capacity zero = root_index_slot_cap
capacity (suc d) = capacity d * non_root_index_slot_cap

pub capacity_mono : (d k : ℕ) → d ≤ k → capacity d ≤ capacity k
capacity_mono zero zero h = omega arith
capacity_mono (suc d) zero h = absurd (omega arith)
capacity_mono d (suc k) h = elim (Bool-cases (leb d k)) [
  | inl e ↦ omega (arith, capacity_mono d k (leb→le d k e))
  | inr e ↦ let same : d ≡ suc k = omega (arith, not_leb d k e) in rw same (omega arith)
]

pub div_ceil_le : (c m : ℕ) → c ≤ m * 31 → div_ceil_u64 c 31 ≤ m
div_ceil_le c m h = ground arith

pub le_div_ceil : (c m : ℕ) → div_ceil_u64 c 31 ≤ m → c ≤ m * 31
le_div_ceil c m h = ground arith

div_ceil_lt : (c : ℕ) → 30 < c → div_ceil_u64 c 31 < c
div_ceil_lt c h = ground arith

-- `k` more levels are just enough for a layer of `c` chunks.
record Enough (c k : ℕ) : Type 0 where
  fits : c ≤ capacity k
  least : (k ≡ 0) ⊎ ((j : ℕ) × (k ≡ suc j) × (capacity j < c))

above : (c m : ℕ) → m < div_ceil_u64 c 31 → m * 31 < c
above c m h = ground arith

Enough-deeper : (c k : ℕ) → 30 < c → Enough (div_ceil_u64 c 31) k → Enough c (suc k)
Enough-deeper c k big enough = record {
  fits = le_div_ceil c (capacity k) enough.fits;
  least = inr (
    k,
    refl,
    elim (enough.least) [ inl z ↦ rw z big | inr (j, s, l) ↦ rw s (above c (capacity j) l) ],
  );
}

-- The loop ends, with the depth it began at and just enough further levels.
loop_ends : (fuel c d : ℕ) → c ≤ fuel + 30 → (k : ℕ) × (depth_from fuel c d ≡ d + k) × Enough c k
unfolding depth_from
loop_ends zero c d h = (0, omega arith, record { fits = omega arith; least = inl refl })
loop_ends (suc fuel) c d h = elim (Bool-cases (leb c 30)) [
  | inl e ↦ (0, rw e (omega arith), record { fits = leb→le c 30 e; least = inl refl })
  | inr e ↦
      let big : 30 < c = not_leb c 30 e in
      let (k, r, enough) =
        loop_ends fuel (div_ceil_u64 c 31) (d + 1) (omega (arith, div_ceil_lt c big)) in
      (suc k, rw e (omega (arith, r)), Enough-deeper c k big enough)
]

-- The loop that computes the depth stops by its own test: with fuel enough to bring the chunks
-- down to 30, which n rounds are for n chunks, more fuel gives the same depth.
pub depth_from_ends :
    (fuel more c d : ℕ) → c ≤ fuel + 30 → fuel ≤ more → depth_from more c d ≡ depth_from fuel c d
unfolding depth_from
depth_from_ends zero zero c d h le = refl
depth_from_ends zero (suc more) c d h le =
    let small : leb c 30 ≡ true = le→leb c 30 (omega arith) in rw small refl
depth_from_ends (suc fuel) zero c d h le = absurd (omega arith)
depth_from_ends (suc fuel) (suc more) c d h le = elim (Bool-cases (leb c 30)) [
  | inl e ↦ rw e refl
  | inr e ↦
      let lower = div_ceil_lt c (not_leb c 30 e) in
      let same =
        depth_from_ends fuel more (div_ceil_u64 c 31) (d + 1) (omega (arith, lower))
          (omega arith) in
      rw e same
]

canonical_depth-Enough : (n : ℕ) → Enough n (canonical_depth n)
unfolding canonical_depth
canonical_depth-Enough n = elim (Bool-cases (n == 0 || leb n 30)) [
  | inl e ↦ rw e (record { fits = ground arith; least = inl refl })
  | inr e ↦
      let big : 30 < n = ground arith in
      let (k, r, enough) = loop_ends n (div_ceil_u64 n 31) 1 (omega (arith, div_ceil_lt n big)) in
      let deeper : 1 + k ≡ suc k = omega arith in rw (e, r, deeper) (Enough-deeper n k big enough)
]

pub canonical_depth-fits : (n : ℕ) → n ≤ capacity (canonical_depth n)
canonical_depth-fits n = (canonical_depth-Enough n).fits

-- The canonical depth for n chunks is the least depth whose tree, of 30 slots in the root and 31
-- in every other index chunk, has room for n: it is at most d exactly if n is at most 30 * 31^d.
pub canonical_depth_iff : (n d : ℕ) → (canonical_depth n ≤ d) ↔ (n ≤ capacity d)
canonical_depth_iff n d =
    let v = canonical_depth-Enough n in
    (
      λ h. omega (arith, v.fits, capacity_mono (canonical_depth n) d h),
      λ h. elim (v.least) [
        | inl z ↦ omega (arith, z)
        | inr (j, s, l) ↦ elim (Bool-cases (leb (canonical_depth n) d)) [
          | inl e ↦ leb→le (canonical_depth n) d e
          | inr e ↦ absurd (
              omega (
                arith,
                l,
                h,
                capacity_mono d j (omega (arith, s, not_leb (canonical_depth n) d e)),
              ))
        ]
      ],
    )

-- The capacity that max_data_chunks_for_depth computes is 30 * 31^d, or 2^64 - 1 where that is
-- larger, at every depth d.
pub max_data_chunks_for_depth-eq :
    (d : ℕ) → max_data_chunks_for_depth d ≡ min (capacity d) (2 ^ 64 - 1)
unfolding max_data_chunks_for_depth
max_data_chunks_for_depth-eq zero = omega arith
max_data_chunks_for_depth-eq (suc d) = omega (arith, max_data_chunks_for_depth-eq d)
