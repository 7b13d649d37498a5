-- ===== src/Checkpoint/Restore/States.antt =====
-- How checkpoint_bin.rs (rust/rwkv-srs-cpu/src/model) reads tensors and recurrent states: the indexed
-- maps, where a restore with a scope seeks over the states that it does not want, and the plain maps
-- of the old format.
use rwkv_srs.Base.{
  ℕ, zero, suc, ◌+◌, ◌-◌, ◌^◌, ℤ, List, [], ◌∷◌, ◌++◌, take, drop, Option, none, some, Result, ok,
  err, ltb, ◌==◌, if◌then◌else◌,
}
use rwkv_srs.Bytes.{of_le_bytes}
use rwkv_srs.Checkpoint.Maps.{is_selected}
use rwkv_srs.Checkpoint.Reader.{
  CheckpointError, Read, Reader, at, bytes_left, position, ◌>>=◌, done, fail, lift, tensor_rank,
  wrong_value_count, state_tag, offset_overflow, unread_bytes, bin_read_exact, bin_read_u8,
  bin_read_usize, bin_read_i64, bin_vec_with_capacity,
}
use rwkv_srs.Checkpoint.Tensor.{
  TensorOps, ModuleState, checked_mul, checked_product, from_vec, native_module_state_from_parts,
}
use rwkv_srs.Map.{Map, Set, insert}
use rwkv_srs.Review.{F32}

-- The bytes of a buffer of `f32` slots, four to each, on a little-endian target.
unfoldable pub f32s_of : ℕ → List ℕ → List F32
unfolding of_le_bytes
f32s_of zero bytes = []
f32s_of (suc n) bytes = of_le_bytes (take 4 bytes) ∷ f32s_of n (drop 4 bytes)

unfoldable pub bin_read_f32_vec_bulk : ℕ → Read (List F32)
unfolding checked_mul bin_vec_with_capacity bin_read_exact f32s_of
bin_read_f32_vec_bulk value_count = do
  byte_count ← lift (checked_mul value_count 4)
  if byte_count == 0 then done [] else (do
    room ← lift (bin_vec_with_capacity 4 value_count)
    bytes ← bin_read_exact byte_count
    done (f32s_of value_count bytes))

-- A loop of `bin_read_usize`.
unfoldable pub read_dims : ℕ → List ℕ → Read (List ℕ)
unfolding bin_read_usize
read_dims zero dims = done dims
read_dims (suc left) dims = do dim ← bin_read_usize; read_dims left (dims ++ dim ∷ [])

unfoldable pub check_equal : ℕ → ℕ → CheckpointError → Read (Unit {0})
check_equal a b e = if a == b then done tt else fail e

module _ {T : Type 0} (ops : TensorOps T) where
  unfoldable pub bin_read_tensor : ℕ → Read T
  unfolding bin_read_u8 check_equal read_dims checked_product bin_read_usize bin_read_f32_vec_bulk
      from_vec
  bin_read_tensor expected_rank = do
    rank ← bin_read_u8
    same_rank ← check_equal rank expected_rank (tensor_rank expected_rank rank)
    dims ← read_dims rank []
    expected_values ← lift (checked_product 1 dims)
    count ← bin_read_usize
    same_count ← check_equal count expected_values (wrong_value_count expected_values count)
    values ← bin_read_f32_vec_bulk count
    lift (from_vec ops values dims)

  unfoldable pub read_tensors : ℕ → ℕ → List T → Read (List T)
  unfolding bin_read_tensor
  read_tensors zero expected_rank tensors = done tensors
  read_tensors (suc left) expected_rank tensors = do
    tensor ← bin_read_tensor expected_rank
    read_tensors left expected_rank (tensors ++ tensor ∷ [])

  unfoldable pub bin_read_tensor_vec : ℕ → Read (List T)
  unfolding bin_read_usize bin_vec_with_capacity read_tensors
  bin_read_tensor_vec expected_rank = do
    len ← bin_read_usize
    room ← lift (bin_vec_with_capacity ops.handle_size len)
    read_tensors len expected_rank []

  unfoldable pub bin_read_entity_state : Read (ModuleState T)
  unfolding bin_read_tensor_vec native_module_state_from_parts
  bin_read_entity_state = do
    time_x ← bin_read_tensor_vec 3
    time_recurrent ← bin_read_tensor_vec 5
    channel ← bin_read_tensor_vec 3
    lift (native_module_state_from_parts time_x time_recurrent channel)

  unfoldable pub bin_read_optional_state : Read (Option (ModuleState T))
  unfolding bin_read_u8 bin_read_entity_state
  bin_read_optional_state = do
    tag ← bin_read_u8
    elim tag [
      | zero ↦ done none
      | suc zero ↦ (do state ← bin_read_entity_state; done (some state))
      | suc (suc n) ↦ fail (state_tag (n + 2))
    ]

  -- The old format: an identity and its state, in turn.
  unfoldable pub read_state_map : ℕ → Map (ModuleState T) → Read (Map (ModuleState T))
  unfolding bin_read_i64 bin_read_entity_state
  read_state_map zero states = done states
  read_state_map (suc left) states = do
    id ← bin_read_i64
    state ← bin_read_entity_state
    read_state_map left (insert id state states)

  unfoldable pub bin_read_state_map : Read (Map (ModuleState T))
  unfolding bin_read_usize read_state_map
  bin_read_state_map = do len ← bin_read_usize; read_state_map len []

-- `seek(SeekFrom::Start(offset))`, for an offset at or behind a reader that was kept. A reader may
-- stand behind the end, and reads nothing there.
unfoldable pub seek : Reader → ℕ → Reader
seek start offset = at offset (drop (offset - position start) (bytes_left start))

unfoldable pub read_index : ℕ → List (ℤ × ℕ) → Read (List (ℤ × ℕ))
unfolding bin_read_i64 bin_read_usize
read_index zero index = done index
read_index (suc left) index = do
  identity ← bin_read_i64
  byte_len ← bin_read_usize
  read_index left (index ++ (identity, byte_len) ∷ [])

-- A (i64, usize) of the index.
abbrev pub index_entry_size : ℕ
index_entry_size = 16

unfoldable pub next_offset_of : ℕ → ℕ → Result CheckpointError ℕ
next_offset_of offset byte_len =
    if ltb (offset + byte_len) (2 ^ 64) then ok (offset + byte_len) else err offset_overflow

module _ {T : Type 0} (ops : TensorOps T) where
  -- `(&mut *reader).take(byte_len)`: a read that sees that many bytes, and must take them all.
  unfoldable pub read_limited : ℤ → ℕ → Read (ModuleState T)
  unfolding bin_read_entity_state
  read_limited identity byte_len (at p bytes) =
      elim (bin_read_entity_state ops (at p (take byte_len bytes))) [
        | err e ↦ err e
        | ok (state, r) ↦
            if position r == p + byte_len
            then ok (state, at (position r) (drop byte_len bytes))
            else err (unread_bytes identity (position r - p))
      ]

  -- The loop over the index; `reader_position` is what the code keeps of the reader's place.
  unfoldable pub load_states :
      Option Set → Reader → List (ℤ × ℕ) → ℕ → ℕ → Map (ModuleState T) → Read (Map (ModuleState T))
  unfolding next_offset_of is_selected seek read_limited
  load_states selected start [] offset reader_position states reader =
      ok (states, if reader_position == offset then reader else seek start offset)
  load_states selected start ((identity, byte_len) ∷ index) offset reader_position states reader =
      elim (next_offset_of offset byte_len) [
        | err e ↦ err e
        | ok next_offset ↦
            let here = if reader_position == offset then reader else seek start offset in
            let chosen : Result CheckpointError (Map (ModuleState T) × Reader) =
              elim (read_limited identity byte_len here) [
                | err e ↦ err e
                | ok (state, later) ↦
                    load_states selected start index next_offset next_offset
                      (insert identity state states) later
              ] in
            let passed =
              load_states selected start index next_offset reader_position states reader in
            if is_selected selected identity then chosen else passed
      ]

  unfoldable pub read_states_from : Option Set → List (ℤ × ℕ) → Read (Map (ModuleState T))
  unfolding load_states
  read_states_from selected index start =
      load_states selected start index (position start) (position start) [] start

  unfoldable pub bin_read_indexed_state_map : Option Set → Read (Map (ModuleState T))
  unfolding bin_read_usize bin_vec_with_capacity read_index read_states_from
  bin_read_indexed_state_map selected_ids = do
    len ← bin_read_usize
    room ← lift (bin_vec_with_capacity index_entry_size len)
    index ← read_index len []
    read_states_from selected_ids index
