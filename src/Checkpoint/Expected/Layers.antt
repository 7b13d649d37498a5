-- ===== src/Checkpoint/Expected/Layers.antt =====
-- The size that a module is expected to have is the size of its states as they are written:
-- expected_module_state_size of rust/rwkv-srs-cpu/src/model/checkpoint_bin.rs.
use rwkv_srs.Checkpoint.RoundTrip.Sizes.{checked_add-eq, length-tensor, length-write_u64}
use rwkv_srs.Checkpoint.Writer.{bin_write_u64}
use rwkv_srs.Checkpoint.RoundTrip.Tensors.{checked_mul-eq}
use rwkv_srs.Checkpoint.RoundTrip.Entities.{write_tensors-nil, write_tensors-cons}
use rwkv_srs.Checkpoint.Save.States.{write_tensors, bin_write_tensor_vec, bin_write_entity_state}
use rwkv_srs.Checkpoint.Tensor.{TensorOps, ModuleState, checked_mul, checked_add}
use rwkv_srs.Checkpoint.Expected.{
  expected_tensor_size, LayerShape, expected_module_state_size, expected_layers, checked_mul,
  checked_add,
}
use rwkv_srs.Base.{
  ℕ, ◌+◌, ◌*◌, List, [], ◌∷◌, map, length, ok, refl, ◌≡◌, arith, ok-injective, >>=-split,
  length-append, ◌++◌,
}

abbrev pub channels_of : LayerShape → ℕ
channels_of layer = layer.n_heads * layer.head_size

abbrev pub recurrent_of : LayerShape → ℕ
recurrent_of layer = layer.n_heads * layer.head_size * layer.head_size

-- The bytes of tensors of one rank, by the numbers of their values.
unfoldable pub vec_bytes : ℕ → List ℕ → ℕ
vec_bytes rank [] = 0
vec_bytes rank (v ∷ vs) = 9 + rank * 8 + v * 4 + vec_bytes rank vs

abbrev pub module_bytes : List ℕ → List ℕ → List ℕ → ℕ
module_bytes xs ts cs = 24 + vec_bytes 3 xs + vec_bytes 5 ts + vec_bytes 3 cs

expected_tensor-eq :
    (rank values n : ℕ) → expected_tensor_size rank values ≡ ok n → n ≡ 9 + rank * 8 + values * 4
unfolding expected_tensor_size
expected_tensor-eq rank values n h =
    let (shape, e1, h1) = >>=-split (checked_mul rank 8) _ h in
    let (value_bytes, e2, h2) = >>=-split (checked_mul values 4) _ h1 in
    let (shaped, e3, h3) = >>=-split (checked_add 1 shape) _ h2 in
    let (counted, e4, h4) = >>=-split (checked_add shaped 8) _ h3 in
    omega (
      arith,
      checked_mul-eq rank 8 shape e1,
      checked_mul-eq values 4 value_bytes e2,
      checked_add-eq 1 shape shaped e3,
      checked_add-eq shaped 8 counted e4,
      checked_add-eq counted value_bytes n h4,
    )

expected_layers-eq :
    (layers : List LayerShape) (size n : ℕ)
    → expected_layers size layers ≡ ok n
    → n + 24
      ≡ size
        + module_bytes (map channels_of layers) (map recurrent_of layers) (map channels_of layers)
unfolding expected_layers vec_bytes
expected_layers-eq [] size n h = omega (arith, ok-injective h)
expected_layers-eq (layer ∷ layers) size n h =
    let (channels, e1, h1) = >>=-split (checked_mul layer.n_heads layer.head_size) _ h in
    let (recurrent_values, e2, h2) = >>=-split (checked_mul channels layer.head_size) _ h1 in
    let (time_x, e3, h3) = >>=-split (expected_tensor_size 3 channels) _ h2 in
    let (size1, e4, h4) = >>=-split (checked_add size time_x) _ h3 in
    let (recurrent, e5, h5) = >>=-split (expected_tensor_size 5 recurrent_values) _ h4 in
    let (size2, e6, h6) = >>=-split (checked_add size1 recurrent) _ h5 in
    let (channel, e7, h7) = >>=-split (expected_tensor_size 3 channels) _ h6 in
    let (size3, e8, h8) = >>=-split (checked_add size2 channel) _ h7 in
    let c = checked_mul-eq layer.n_heads layer.head_size channels e1 in
    omega (
      arith,
      c,
      rw c at (checked_mul-eq channels layer.head_size recurrent_values e2),
      expected_tensor-eq 3 channels time_x e3,
      checked_add-eq size time_x size1 e4,
      expected_tensor-eq 5 recurrent_values recurrent e5,
      checked_add-eq size1 recurrent size2 e6,
      expected_tensor-eq 3 channels channel e7,
      checked_add-eq size2 channel size3 e8,
      expected_layers-eq layers size3 n h8,
    )

pub expected_module-eq :
    (blocks : List LayerShape) (n : ℕ)
    → expected_module_state_size blocks ≡ ok n
    → n ≡ module_bytes (map channels_of blocks) (map recurrent_of blocks) (map channels_of blocks)
unfolding expected_module_state_size
expected_module-eq blocks n h =
    let (size, e, h1) = >>=-split (checked_mul 3 8) (λ size. expected_layers size blocks) h in
    omega (arith, checked_mul-eq 3 8 size e, expected_layers-eq blocks size n h1)

module _ {T : Type 0} (ops : TensorOps T) where
  abbrev pub value_count : T → ℕ
  value_count t = length (ops.to_vec t)

  -- A state with the layers of a module.
  pub record HasShape (blocks : List LayerShape) (s : ModuleState T) : Type 0 where
    pub time_x : map value_count s.time_x_shift_b1c_by_layer ≡ map channels_of blocks
    pub time_state : map value_count s.time_state_b1hkk_by_layer ≡ map recurrent_of blocks
    pub channel : map value_count s.channel_state_b1c_by_layer ≡ map channels_of blocks

  length-write_tensors :
      (ts : List T) (rank : ℕ) (bytes : List ℕ)
      → write_tensors ops ts rank ≡ ok bytes
      → length bytes ≡ vec_bytes rank (map value_count ts)
  unfolding vec_bytes
  length-write_tensors [] rank bytes w = rw (← write_tensors-nil ops rank bytes w) refl
  length-write_tensors (t ∷ ts) rank bytes w =
      let (first, rest, wrote, wrote_rest, whole) = write_tensors-cons ops t ts rank bytes w in
      rw whole (
        omega (
          arith,
          length-append first rest,
          length-tensor ops t rank first wrote,
          length-write_tensors ts rank rest wrote_rest,
        ))

  length-tensor_vec :
      (ts : List T) (rank : ℕ) (bytes : List ℕ)
      → bin_write_tensor_vec ops ts rank ≡ ok bytes
      → length bytes ≡ 8 + vec_bytes rank (map value_count ts)
  unfolding bin_write_tensor_vec
  length-tensor_vec ts rank bytes w =
      let (all, wrote, whole) = >>=-split (write_tensors ops ts rank) _ w in
      rw (← ok-injective whole) (
        omega (
          arith,
          length-append (bin_write_u64 (length ts)) all,
          length-write_u64 (length ts),
          length-write_tensors ts rank all wrote,
        ))

  pub length-entity :
      (blocks : List LayerShape) (s : ModuleState T) (n : ℕ) (bytes : List ℕ)
      → expected_module_state_size blocks ≡ ok n
      → HasShape blocks s
      → bin_write_entity_state ops s ≡ ok bytes
      → length bytes ≡ n
  unfolding bin_write_entity_state
  length-entity blocks s n bytes sized shape w =
      let xs = s.time_x_shift_b1c_by_layer in
      let ts = s.time_state_b1hkk_by_layer in
      let cs = s.channel_state_b1c_by_layer in
      let (x, wrote_x, w1) = >>=-split (bin_write_tensor_vec ops xs 3) _ w in
      let (t, wrote_t, w2) = >>=-split (bin_write_tensor_vec ops ts 5) _ w1 in
      let (c, wrote_c, whole) = >>=-split (bin_write_tensor_vec ops cs 3) _ w2 in
      rw (← ok-injective whole) (
        omega (
          arith,
          expected_module-eq blocks n sized,
          rw shape.time_x at (length-tensor_vec xs 3 x wrote_x),
          rw shape.time_state at (length-tensor_vec ts 5 t wrote_t),
          rw shape.channel at (length-tensor_vec cs 3 c wrote_c),
          length-append x (t ++ c),
          length-append t c,
        ))
