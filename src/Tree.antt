-- ===== src/Tree.antt =====
-- peeroxide-cli/src/cmd/deaddrop/v2/tree.rs: the shape of the index tree of a file.
-- A file size is a `u64`; the sums and quotients here stay below it.
pub mod Depth
pub mod Layout
use peeroxide.Common.{
  ℕ, zero, suc, ◌+◌, ◌-◌, ◌*◌, ◌/◌, ◌%◌, ◌^◌, min, leb, ◌==◌, ◌||◌, if◌then◌else◌, List, [], ◌∷◌,
}

-- The sizes of v2/wire.rs.
abbrev pub max_chunk_size : ℕ
max_chunk_size = 1000

abbrev pub data_header_size : ℕ
data_header_size = 2

abbrev pub data_payload_max : ℕ
data_payload_max = max_chunk_size - data_header_size

abbrev pub non_root_index_header_size : ℕ
non_root_index_header_size = 1

abbrev pub non_root_index_slot_cap : ℕ
non_root_index_slot_cap = (max_chunk_size - non_root_index_header_size) / 32

abbrev pub root_index_header_size : ℕ
root_index_header_size = 1 + 8 + 4

abbrev pub root_index_slot_cap : ℕ
root_index_slot_cap = (max_chunk_size - root_index_header_size) / 32

-- `u64::div_ceil`
abbrev pub div_ceil_u64 : ℕ → ℕ → ℕ
div_ceil_u64 a b = a / b + (if a % b == 0 then 0 else 1)

unfoldable pub data_chunk_count : ℕ → ℕ
data_chunk_count file_size = if file_size == 0 then 0 else div_ceil_u64 file_size data_payload_max

-- The loop of `canonical_depth`, on fuel.
unfoldable pub depth_from : ℕ → ℕ → ℕ → ℕ
depth_from zero layer_count depth = depth
depth_from (suc fuel) layer_count depth =
    let rest = depth_from fuel (div_ceil_u64 layer_count non_root_index_slot_cap) (depth + 1) in
    if leb layer_count root_index_slot_cap then depth else rest

-- With `n` rounds of fuel.
unfoldable pub canonical_depth : ℕ → ℕ
unfolding depth_from
canonical_depth n =
    if n == 0 || leb n root_index_slot_cap
    then 0
    else depth_from n (div_ceil_u64 n non_root_index_slot_cap) 1

-- `saturating_mul` of `u64`, once for each level.
unfoldable pub max_data_chunks_for_depth : ℕ → ℕ
max_data_chunks_for_depth zero = root_index_slot_cap
max_data_chunks_for_depth (suc depth) =
    min (max_data_chunks_for_depth depth * non_root_index_slot_cap) (2 ^ 64 - 1)

pub record TreeLayout : Type 0 where
  pub data_chunk_count : ℕ
  pub depth : ℕ
  pub layer_counts : List ℕ

-- The layers above one of `count` chunks.
unfoldable pub higher_layers : ℕ → ℕ → List ℕ
higher_layers zero count = []
higher_layers (suc rounds) count =
    let next = div_ceil_u64 count non_root_index_slot_cap in next ∷ higher_layers rounds next

unfoldable pub layers : ℕ → ℕ → List ℕ
unfolding higher_layers
layers n zero = []
layers n (suc rounds) =
    let count = div_ceil_u64 n non_root_index_slot_cap in count ∷ higher_layers rounds count

unfoldable pub compute_layout : ℕ → TreeLayout
unfolding layers
compute_layout file_size =
    let n = data_chunk_count file_size in
    let depth = canonical_depth n in
    record { data_chunk_count = n; depth = depth; layer_counts = layers n depth }

abbrev pub sum : List ℕ → ℕ
sum [] = 0
sum (x ∷ xs) = x + sum xs

unfoldable pub total_non_root_index_chunks : ℕ → ℕ
total_non_root_index_chunks file_size = sum (compute_layout file_size).layer_counts
