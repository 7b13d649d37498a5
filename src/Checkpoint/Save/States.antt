-- ===== src/Checkpoint/Save/States.antt =====
-- How checkpoint_bin.rs (rust/rwkv-srs-cpu/src/model) writes recurrent states: tensors, their sizes,
-- flat states, and the indexed maps that join both.
use rwkv_srs.Base.{
  ℕ, zero, suc, ◌+◌, ◌*◌, ℤ, compare_ℤ, Ordering, List, [], ◌∷◌, ◌++◌, length, Option, none, some,
  Result, ok, err, ◌>>=◌, ok_or, ◌==◌, Bool, false, ◌||◌, not, if◌then◌else◌,
}
use rwkv_srs.Bytes.{get_range, le_bytes}
use rwkv_srs.Checkpoint.Reader.{
  CheckpointError, tensor_rank, wrong_value_count, flat_layout, panicked, two_representations,
  two_global_states,
}
use rwkv_srs.Checkpoint.Tensor.{
  TensorOps, ModuleState, FlatState, checked_add, checked_mul, checked_product, product,
  flat_values, flat_state_channels, flat_state_heads, flat_state_head_size,
  flat_state_matrix_elements, flat_state_layer_elements,
}
use rwkv_srs.Checkpoint.Writer.{bin_write_u8, bin_write_u64, bin_write_i64, write_f32s, is_nan_f32}
use rwkv_srs.Map.{Map}
use rwkv_srs.Review.{F32}

-- A loop of `bin_write_u64`.
unfoldable pub write_dims : List ℕ → List ℕ
unfolding bin_write_u64
write_dims [] = []
write_dims (dim ∷ dims) = bin_write_u64 dim ++ write_dims dims

-- The bytes of a tensor with `rank` dimensions and `values` elements, with every operation checked.
unfoldable pub tensor_size : ℕ → ℕ → Result CheckpointError ℕ
unfolding checked_add checked_mul
tensor_size rank values = do
  shape ← checked_mul rank 8
  tagged ← checked_add 1 shape
  counted ← checked_add tagged 8
  value_bytes ← checked_mul values 4
  checked_add counted value_bytes

-- `bytemuck::cast_slice` on a little-endian target
unfoldable pub raw_f32s : List F32 → List ℕ
unfolding le_bytes
raw_f32s [] = []
raw_f32s (value ∷ values) = le_bytes 4 value ++ raw_f32s values

unfoldable pub any_nan : List F32 → Bool
unfolding is_nan_f32
any_nan [] = false
any_nan (value ∷ values) = is_nan_f32 value || any_nan values

unfoldable pub bin_write_flat_tensor : List ℕ → List F32 → Result CheckpointError (List ℕ)
unfolding checked_product bin_write_u8 write_dims bin_write_u64 raw_f32s any_nan write_f32s
bin_write_flat_tensor dims values = do
  expected_values ← checked_product 1 dims
  if expected_values == length values
      then ok (
          bin_write_u8 (length dims)
          ++ (write_dims dims
              ++ (bin_write_u64 (length values)
                  ++ (if any_nan values then write_f32s values else raw_f32s values))))
      else err (wrong_value_count expected_values (length values))

-- A loop over the layers, from a place in each on.
unfoldable pub write_layers : List ℕ → ℕ → List F32 → ℕ → ℕ → Result CheckpointError (List ℕ)
unfolding get_range bin_write_flat_tensor
write_layers dims width values base zero = ok []
write_layers dims width values base (suc left) = do
  slice ← ok_or (get_range values base (base + width)) panicked
  tensor ← bin_write_flat_tensor dims slice
  rest ← write_layers dims width values (base + flat_state_layer_elements) left
  ok (tensor ++ rest)

unfoldable pub bin_write_flat_entity_state : FlatState → Result CheckpointError (List ℕ)
unfolding flat_values write_layers bin_write_u64
bin_write_flat_entity_state state = do
  values ← flat_values state
  if not (length values == state.layers * flat_state_layer_elements) then err flat_layout else (do
    time_x ←
        write_layers (1 ∷ 1 ∷ flat_state_channels ∷ []) flat_state_channels values 0 state.layers
    recurrent ←
        write_layers (1 ∷ 1 ∷ flat_state_heads ∷ flat_state_head_size ∷ flat_state_head_size ∷ [])
          flat_state_matrix_elements values flat_state_channels state.layers
    channel ←
        write_layers (1 ∷ 1 ∷ flat_state_channels ∷ []) flat_state_channels values
          (flat_state_channels + flat_state_matrix_elements) state.layers
    ok (
        bin_write_u64 state.layers
        ++ (time_x
            ++ (bin_write_u64 state.layers
                ++ (recurrent ++ (bin_write_u64 state.layers ++ channel))))))

-- `tensor_vec_size` inside `bin_flat_entity_state_size`
unfoldable flat_tensor_vec_size : ℕ → ℕ → ℕ → Result CheckpointError ℕ
unfolding tensor_size checked_mul checked_add
flat_tensor_vec_size layers rank values = do
  size ← tensor_size rank values
  all ← checked_mul layers size
  checked_add 8 all

unfoldable pub bin_flat_entity_state_size : FlatState → Result CheckpointError ℕ
unfolding flat_tensor_vec_size checked_add
bin_flat_entity_state_size state = do
  time_x ← flat_tensor_vec_size state.layers 3 flat_state_channels
  recurrent ← flat_tensor_vec_size state.layers 5 flat_state_matrix_elements
  channel ← flat_tensor_vec_size state.layers 3 flat_state_channels
  both ← checked_add time_x recurrent
  checked_add both channel

module _ {T : Type 0} (ops : TensorOps T) where
  unfoldable pub bin_write_tensor : T → ℕ → Result CheckpointError (List ℕ)
  unfolding bin_write_u8 write_dims bin_write_u64 write_f32s
  bin_write_tensor tensor expected_rank =
      if length (ops.dims tensor) == expected_rank
      then ok (
          bin_write_u8 (length (ops.dims tensor))
          ++ (write_dims (ops.dims tensor)
              ++ (bin_write_u64 (length (ops.to_vec tensor)) ++ write_f32s (ops.to_vec tensor))))
      else err (tensor_rank expected_rank (length (ops.dims tensor)))

  unfoldable pub write_tensors : List T → ℕ → Result CheckpointError (List ℕ)
  unfolding bin_write_tensor
  write_tensors [] expected_rank = ok []
  write_tensors (tensor ∷ tensors) expected_rank = do
    first ← bin_write_tensor tensor expected_rank
    rest ← write_tensors tensors expected_rank
    ok (first ++ rest)

  unfoldable pub bin_write_tensor_vec : List T → ℕ → Result CheckpointError (List ℕ)
  unfolding bin_write_u64 write_tensors
  bin_write_tensor_vec tensors expected_rank = do
    all ← write_tensors tensors expected_rank
    ok (bin_write_u64 (length tensors) ++ all)

  unfoldable pub bin_write_entity_state : ModuleState T → Result CheckpointError (List ℕ)
  unfolding bin_write_tensor_vec
  bin_write_entity_state state = do
    time_x ← bin_write_tensor_vec state.time_x_shift_b1c_by_layer 3
    time_state ← bin_write_tensor_vec state.time_state_b1hkk_by_layer 5
    channel ← bin_write_tensor_vec state.channel_state_b1c_by_layer 3
    ok (time_x ++ (time_state ++ channel))

  -- The loop of `bin_tensor_vec_size`.
  unfoldable pub add_tensor_sizes : ℕ → List T → ℕ → Result CheckpointError ℕ
  unfolding tensor_size product checked_add
  add_tensor_sizes size [] expected_rank = ok size
  add_tensor_sizes size (tensor ∷ tensors) expected_rank =
      if length (ops.dims tensor) == expected_rank
      then (do
        one ← tensor_size expected_rank (product (ops.dims tensor))
        next ← checked_add size one
        add_tensor_sizes next tensors expected_rank)
      else err (tensor_rank expected_rank (length (ops.dims tensor)))

  unfoldable pub bin_tensor_vec_size : List T → ℕ → Result CheckpointError ℕ
  unfolding add_tensor_sizes
  bin_tensor_vec_size tensors expected_rank = add_tensor_sizes 8 tensors expected_rank

  unfoldable pub bin_entity_state_size : ModuleState T → Result CheckpointError ℕ
  unfolding bin_tensor_vec_size checked_add
  bin_entity_state_size state = do
    time_x ← bin_tensor_vec_size state.time_x_shift_b1c_by_layer 3
    time_state ← bin_tensor_vec_size state.time_state_b1hkk_by_layer 5
    channel ← bin_tensor_vec_size state.channel_state_b1c_by_layer 3
    both ← checked_add time_x time_state
    checked_add both channel

-- CpuStateEntry
pub data CpuStateEntry (T : Type 0) : Type 0 where
  canonical : ModuleState T → CpuStateEntry T
  flat : FlatState → CpuStateEntry T

module _ {T : Type 0} where
  -- The bytes of all visits, in the order of the identities.
  unfoldable pub for_each_cpu_state :
      (ℤ → CpuStateEntry T → Result CheckpointError (List ℕ))
      → Map (ModuleState T)
      → Map FlatState
      → Result CheckpointError (List ℕ)
  for_each_cpu_state visit [] [] = ok []
  for_each_cpu_state visit ((k, s) ∷ m) [] = do
    first ← visit k (canonical s)
    rest ← for_each_cpu_state visit m []
    ok (first ++ rest)
  for_each_cpu_state visit [] ((j, t) ∷ n) = do
    first ← visit j (flat t)
    rest ← for_each_cpu_state visit [] n
    ok (first ++ rest)
  for_each_cpu_state visit ((k, s) ∷ m) ((j, t) ∷ n) = elim (compare_ℤ k j) [
    | Ordering.lt ↦ (do
      first ← visit k (canonical s)
      rest ← for_each_cpu_state visit m ((j, t) ∷ n)
      ok (first ++ rest))
    | Ordering.gt ↦ (do
      first ← visit j (flat t)
      rest ← for_each_cpu_state visit ((k, s) ∷ m) n
      ok (first ++ rest))
    | Ordering.eq ↦ err (two_representations k)
  ]

module _ {T : Type 0} (ops : TensorOps T) where
  unfoldable pub entry_size : CpuStateEntry T → Result CheckpointError ℕ
  unfolding bin_entity_state_size bin_flat_entity_state_size
  entry_size (canonical state) = bin_entity_state_size ops state
  entry_size (flat state) = bin_flat_entity_state_size state

  unfoldable pub write_entry : CpuStateEntry T → Result CheckpointError (List ℕ)
  unfolding bin_write_entity_state bin_write_flat_entity_state
  write_entry (canonical state) = bin_write_entity_state ops state
  write_entry (flat state) = bin_write_flat_entity_state state

  unfoldable pub write_index_entry : ℤ → CpuStateEntry T → Result CheckpointError (List ℕ)
  unfolding entry_size bin_write_i64 bin_write_u64
  write_index_entry identity entry = do
    byte_len ← entry_size entry
    ok (bin_write_i64 identity ++ bin_write_u64 byte_len)

  unfoldable pub bin_write_indexed_state_map_combined :
      Map (ModuleState T) → Map FlatState → Result CheckpointError (List ℕ)
  unfolding checked_add for_each_cpu_state write_index_entry write_entry bin_write_u64
  bin_write_indexed_state_map_combined states flat_states = do
    len ← checked_add (length states) (length flat_states)
    index ← for_each_cpu_state write_index_entry states flat_states
    all ← for_each_cpu_state (λ identity entry. write_entry entry) states flat_states
    ok (bin_write_u64 len ++ (index ++ all))

  unfoldable pub bin_write_optional_state_combined :
      Option (ModuleState T) → Option FlatState → Result CheckpointError (List ℕ)
  unfolding bin_write_u8 bin_write_entity_state bin_write_flat_entity_state
  bin_write_optional_state_combined (some state) (some other) = err two_global_states
  bin_write_optional_state_combined (some state) none = do
    bytes ← bin_write_entity_state ops state
    ok (bin_write_u8 1 ++ bytes)
  bin_write_optional_state_combined none (some state) = do
    bytes ← bin_write_flat_entity_state state
    ok (bin_write_u8 1 ++ bytes)
  bin_write_optional_state_combined none none = ok (bin_write_u8 0)
