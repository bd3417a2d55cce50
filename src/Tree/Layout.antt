-- ===== src/Tree/Layout.antt =====
-- The layers of the tree.
use peeroxide.Common.{ℕ, zero, suc, ◌+◌, ◌*◌, ◌≤◌, ◌<◌, ◌≡◌, refl, ap, List, [], ◌∷◌, length, arith}
use peeroxide.Tree.{
  root_index_slot_cap, div_ceil_u64, data_chunk_count, canonical_depth, higher_layers, layers,
  compute_layout,
}
use peeroxide.Tree.Depth.{capacity, canonical_depth-fits, div_ceil_le}

-- The slots of the root: the topmost layer, or the data chunks where there is no layer.
abbrev pub root_slots : ℕ → List ℕ → ℕ
root_slots n [] = n
root_slots n (c ∷ cs) = root_slots c cs

-- Every layer has just the chunks that the one below needs, 31 slots to each.
abbrev pub Covers : ℕ → List ℕ → Type 0
Covers n [] = Unit {0}
Covers n (c ∷ cs) = (n ≤ c * 31) × (c * 31 < n + 31) × Covers c cs

div_ceil_close : (n : ℕ) → (n ≤ div_ceil_u64 n 31 * 31) × (div_ceil_u64 n 31 * 31 < n + 31)
div_ceil_close n = ground arith

higher_layers-Covers : (k c : ℕ) → Covers c (higher_layers k c)
unfolding higher_layers
higher_layers-Covers zero c = tt
higher_layers-Covers (suc k) c =
    let (h, l) = div_ceil_close c in (h, l, higher_layers-Covers k (div_ceil_u64 c 31))

layers-Covers : (n d : ℕ) → Covers n (layers n d)
unfolding layers
layers-Covers n zero = tt
layers-Covers n (suc d) =
    let (h, l) = div_ceil_close n in (h, l, higher_layers-Covers d (div_ceil_u64 n 31))

length-higher_layers : (k c : ℕ) → length (higher_layers k c) ≡ k
unfolding higher_layers
length-higher_layers zero c = refl
length-higher_layers (suc k) c = ap suc (length-higher_layers k (div_ceil_u64 c 31))

higher_layers_fit :
    (k c : ℕ) → c ≤ capacity k → root_slots c (higher_layers k c) ≤ root_index_slot_cap
unfolding higher_layers
higher_layers_fit zero c h = h
higher_layers_fit (suc k) c h =
    higher_layers_fit k (div_ceil_u64 c 31) (div_ceil_le c (capacity k) h)

length-layers : (n d : ℕ) → length (layers n d) ≡ d
unfolding layers
length-layers n zero = refl
length-layers n (suc d) = ap suc (length-higher_layers d (div_ceil_u64 n 31))

layers_fit : (n d : ℕ) → n ≤ capacity d → root_slots n (layers n d) ≤ root_index_slot_cap
unfolding layers
layers_fit n zero h = h
layers_fit n (suc d) h = higher_layers_fit d (div_ceil_u64 n 31) (div_ceil_le n (capacity d) h)

-- The layout of a file of any size has as many layers as its depth; each layer has just the
-- chunks that the one below needs at 31 slots to a chunk; and the topmost, or the data where
-- there is no layer, fits the 30 slots of the root.
pub compute_layout_lem :
    (file_size : ℕ)
    → let l = compute_layout file_size in
      (length l.layer_counts ≡ l.depth)
      × Covers l.data_chunk_count l.layer_counts
      × (root_slots l.data_chunk_count l.layer_counts ≤ root_index_slot_cap)
unfolding compute_layout
compute_layout_lem file_size =
    let n = data_chunk_count file_size in
    (
      length-layers n (canonical_depth n),
      layers-Covers n (canonical_depth n),
      layers_fit n (canonical_depth n) (canonical_depth-fits n),
    )
