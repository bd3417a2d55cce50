-- ===== src/Examples/Files.antt =====
-- tree.rs on concrete sizes.
use peeroxide.Common.{◌≤◌, arith, ◌≡◌, ◌↔◌, refl, length}
use peeroxide.Tree.{
  data_chunk_count, depth_from, canonical_depth, compute_layout, layers, higher_layers,
  root_index_slot_cap, total_non_root_index_chunks,
}
use peeroxide.Tree.Depth.{capacity, canonical_depth_iff, depth_from_ends}
use peeroxide.Tree.Layout.{Covers, root_slots, compute_layout_lem}

-- 931 chunks need two layers above the data, of 31 chunks and of one.
total_931 : total_non_root_index_chunks 929138 ≡ 32
unfolding total_non_root_index_chunks compute_layout data_chunk_count canonical_depth depth_from
    layers higher_layers
total_931 = refl

canonical_depth_iff_example : (canonical_depth 931 ≤ 1) ↔ (931 ≤ capacity 1)
canonical_depth_iff_example = canonical_depth_iff 931 1

compute_layout_lem_example :
    (length (compute_layout 929138).layer_counts ≡ (compute_layout 929138).depth)
    × Covers (compute_layout 929138).data_chunk_count (compute_layout 929138).layer_counts
    × (root_slots (compute_layout 929138).data_chunk_count (compute_layout 929138).layer_counts
        ≤ root_index_slot_cap)
compute_layout_lem_example = compute_layout_lem 929138

depth_from_ends_example : depth_from 5000 31 1 ≡ depth_from 1 31 1
depth_from_ends_example = depth_from_ends 1 5000 31 1 (omega arith) (omega arith)
