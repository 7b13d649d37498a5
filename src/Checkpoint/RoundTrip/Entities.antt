-- ===== src/Checkpoint/RoundTrip/Entities.antt =====
-- A recurrent state is read back from its bytes, and these are as many as bin_entity_state_size of
-- rust/rwkv-srs-cpu/src/model/checkpoint_bin.rs says.
use rwkv_srs.Checkpoint.Reader.{isize_max}
use rwkv_srs.Checkpoint.Restore.States.{bin_read_tensor_vec, read_tensors, bin_read_entity_state}
use rwkv_srs.Checkpoint.RoundTrip.Tensors.{IsStoredTensor, canonical_tensor, tensor-Reads}
use rwkv_srs.Checkpoint.Save.States.{
  write_tensors, bin_write_tensor_vec, bin_write_tensor, bin_write_entity_state,
}
use rwkv_srs.Checkpoint.Tensor.{TensorOps, ModuleState, native_module_state_from_parts}
use rwkv_srs.Base.{
  [], ◌∷◌, ◌++◌, ok, sym, length, map, List, ℕ, arith, ◌≡◌, ◌<◌, ◌^◌, ◌*◌, ◌≤◌, ok-injective,
  append-nil, length-map, >>=-split, ==_iff, append_assoc,
}
use rwkv_srs.Checkpoint.Reads.{
  Reads, Reads-bind, Reads-done, usize-Reads, Reads-last, Reads-lift, lift-Reads, vec_with_capacity,
}

module _ {T : Type 0} (ops : TensorOps T) where
  abbrev pub AllTensors : List T → Type 0
  AllTensors [] = Unit
  AllTensors (t ∷ ts) = IsStoredTensor ops t × AllTensors ts

  -- Tensors that a checkpoint can hold, and whose handles fit an allocation.
  pub record AreStoredTensors (ts : List T) : Type 0 where
    pub each : AllTensors ts
    pub count : length ts < 2 ^ 64
    pub memory : length ts * ops.handle_size ≤ isize_max

  pub write_tensors-cons :
      (t : T) (ts : List T) (rank : ℕ) (bytes : List ℕ)
      → write_tensors ops (t ∷ ts) rank ≡ ok bytes
      → (first rest : List ℕ) × (bin_write_tensor ops t rank ≡ ok first)
        × (write_tensors ops ts rank ≡ ok rest)
        × (bytes ≡ first ++ rest)
  unfolding write_tensors
  write_tensors-cons t ts rank bytes w =
      let (first, wrote, more) = >>=-split (bin_write_tensor ops t rank) _ w in
      let (rest, wrote_rest, whole) = >>=-split (write_tensors ops ts rank) _ more in
      (first, rest, wrote, wrote_rest, sym (ok-injective whole))

  pub write_tensors-nil :
      (rank : ℕ) (bytes : List ℕ) → write_tensors ops [] rank ≡ ok bytes → [] ≡ bytes
  unfolding write_tensors
  write_tensors-nil rank bytes w = ok-injective w

  tensors-Reads :
      (ts front : List T) (rank : ℕ) (bytes : List ℕ)
      → rank < 2 ^ 8
      → AllTensors ts
      → write_tensors ops ts rank ≡ ok bytes
      → Reads
          (read_tensors ops (length ts) rank front)
          bytes
          (front ++ map (canonical_tensor ops) ts)
  unfolding read_tensors
  tensors-Reads [] front rank bytes small h w =
      rw (← write_tensors-nil rank bytes w, append-nil) (Reads-done front)
  tensors-Reads (t ∷ ts) front rank bytes small (p, h) w =
      let (first, rest, wrote, wrote_rest, whole) = write_tensors-cons t ts rank bytes w in
      rw (whole, ← append_assoc front (canonical_tensor ops t ∷ []) (map (canonical_tensor ops) ts))
        (Reads-bind _ (tensor-Reads ops t rank first small p wrote)
          (tensors-Reads ts (front ++ canonical_tensor ops t ∷ []) rank rest small h wrote_rest))

  tensor_vec-Reads :
      (ts : List T) (rank : ℕ) (bytes : List ℕ)
      → rank < 2 ^ 8
      → AreStoredTensors ts
      → bin_write_tensor_vec ops ts rank ≡ ok bytes
      → Reads (bin_read_tensor_vec ops rank) bytes (map (canonical_tensor ops) ts)
  unfolding bin_read_tensor_vec bin_write_tensor_vec
  tensor_vec-Reads ts rank bytes small h w =
      let (all, wrote, whole) = >>=-split (write_tensors ops ts rank) _ w in
      rw (← ok-injective whole) (
        Reads-bind _ (usize-Reads (length ts) h.count) (
          Reads-lift _ (vec_with_capacity ops.handle_size (length ts) h.memory)
            (tensors-Reads ts [] rank all small h.each wrote)))

  -- Vectors of tensors for as many layers each.
  pub record IsStoredState (s : ModuleState T) : Type 0 where
    pub time_x : AreStoredTensors s.time_x_shift_b1c_by_layer
    pub time_state : AreStoredTensors s.time_state_b1hkk_by_layer
    pub channel : AreStoredTensors s.channel_state_b1c_by_layer
    pub layers : length s.time_x_shift_b1c_by_layer ≡ length s.time_state_b1hkk_by_layer
    pub same_layers : length s.time_x_shift_b1c_by_layer ≡ length s.channel_state_b1c_by_layer

  -- What a state becomes in a checkpoint.
  pub canonical_state : ModuleState T → ModuleState T
  canonical_state s = record {
    time_x_shift_b1c_by_layer = map (canonical_tensor ops) s.time_x_shift_b1c_by_layer;
    time_state_b1hkk_by_layer = map (canonical_tensor ops) s.time_state_b1hkk_by_layer;
    channel_state_b1c_by_layer = map (canonical_tensor ops) s.channel_state_b1c_by_layer;
  }

  from_parts-eq :
      (s : ModuleState T)
      → IsStoredState s
      → native_module_state_from_parts
          (map (canonical_tensor ops) s.time_x_shift_b1c_by_layer)
          (map (canonical_tensor ops) s.time_state_b1hkk_by_layer)
          (map (canonical_tensor ops) s.channel_state_b1c_by_layer)
        ≡ ok (canonical_state s)
  unfolding native_module_state_from_parts canonical_state
  from_parts-eq s h = rw (
    length-map s.time_x_shift_b1c_by_layer,
    length-map s.time_state_b1hkk_by_layer,
    length-map s.channel_state_b1c_by_layer,
    (==_iff _ _).1 h.layers,
    (==_iff _ _).1 h.same_layers,
  )

  pub entity-Reads :
      (s : ModuleState T) (bytes : List ℕ)
      → IsStoredState s
      → bin_write_entity_state ops s ≡ ok bytes
      → Reads (bin_read_entity_state ops) bytes (canonical_state s)
  unfolding bin_read_entity_state bin_write_entity_state
  entity-Reads s bytes h w =
      let (x, wrote_x, more) =
        >>=-split (bin_write_tensor_vec ops s.time_x_shift_b1c_by_layer 3) _ w in
      let (t, wrote_t, last) =
        >>=-split (bin_write_tensor_vec ops s.time_state_b1hkk_by_layer 5) _ more in
      let (c, wrote_c, whole) =
        >>=-split (bin_write_tensor_vec ops s.channel_state_b1c_by_layer 3) _ last in
      rw (← ok-injective whole) (
        Reads-bind _ (tensor_vec-Reads _ 3 x (omega arith) h.time_x wrote_x) (
          Reads-bind _ (tensor_vec-Reads _ 5 t (omega arith) h.time_state wrote_t) (
            Reads-last _ (tensor_vec-Reads _ 3 c (omega arith) h.channel wrote_c)
              (lift-Reads _ _ (from_parts-eq s h)))))
