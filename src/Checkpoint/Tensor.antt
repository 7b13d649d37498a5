-- ===== src/Checkpoint/Tensor.antt =====
-- The recurrent state of a module, on tensors and flat: NativeRnnModuleState and
-- FlatNativeRnnModuleState of rust/rwkv-srs-cpu/src/model/state.rs. Tensors are another library's.
use rwkv_srs.Base.{
  ℕ, zero, suc, ◌+◌, ◌*◌, ◌^◌, List, [], ◌∷◌, length, Option, none, Result, ok, err, ◌>>=◌, ok_or,
  ltb, ◌==◌, not, ◌||◌, if◌then◌else◌,
}
use rwkv_srs.Bytes.{get_range}
use rwkv_srs.Checkpoint.Reader.{
  CheckpointError, size_overflow, layer_counts, tensor_shape, flat_layout, panicked,
}
use rwkv_srs.Map.{Map}
use rwkv_srs.Review.{F32}

-- What the checkpoint uses of a tensor of `f32` in memory: its shape, its values in order
-- (`flatten_all` and `to_vec1`), the tensor of a shape and values that fit each other, and the bytes
-- that a handle takes in a vector.
pub record TensorOps (T : Type 0) : Type 0 where
  pub dims : T → List ℕ
  pub to_vec : T → List F32
  pub tensor_of : List F32 → List ℕ → T
  pub handle_size : ℕ

-- `checked_add` and `checked_mul` on `usize`
unfoldable pub checked_add : ℕ → ℕ → Result CheckpointError ℕ
checked_add a b = if ltb (a + b) (2 ^ 64) then ok (a + b) else err size_overflow

unfoldable pub checked_mul : ℕ → ℕ → Result CheckpointError ℕ
checked_mul a b = if ltb (a * b) (2 ^ 64) then ok (a * b) else err size_overflow

-- `dims.iter().try_fold(acc, checked_mul)`
unfoldable pub checked_product : ℕ → List ℕ → Result CheckpointError ℕ
unfolding checked_mul
checked_product acc [] = ok acc
checked_product acc (dim ∷ dims) = do next ← checked_mul acc dim; checked_product next dims

-- `Shape::elem_count`
unfoldable pub product : List ℕ → ℕ
product [] = 1
product (dim ∷ dims) = dim * product dims

pub record ModuleState (T : Type 0) : Type 0 where
  pub time_x_shift_b1c_by_layer : List T
  pub time_state_b1hkk_by_layer : List T
  pub channel_state_b1c_by_layer : List T

unfoldable pub native_module_state_from_parts :
    {T : Type 0} → List T → List T → List T → Result CheckpointError (ModuleState T)
native_module_state_from_parts time_x time_state channel =
    if not (length time_x == length time_state) || not (length time_x == length channel)
    then err (layer_counts (length time_x) (length time_state) (length channel))
    else ok (record {
      time_x_shift_b1c_by_layer = time_x;
      time_state_b1hkk_by_layer = time_state;
      channel_state_b1c_by_layer = channel;
    })

abbrev pub flat_state_channels : ℕ
flat_state_channels = 128

abbrev pub flat_state_heads : ℕ
flat_state_heads = 4

abbrev pub flat_state_head_size : ℕ
flat_state_head_size = 32

abbrev pub flat_state_matrix_elements : ℕ
flat_state_matrix_elements = flat_state_heads * flat_state_head_size * flat_state_head_size

abbrev pub flat_state_layer_elements : ℕ
flat_state_layer_elements = flat_state_channels + flat_state_matrix_elements + flat_state_channels

-- A state in the layout of the arena that it shares.
pub record FlatState : Type 0 where
  pub values : List F32
  pub offset : ℕ
  pub layers : ℕ

unfoldable pub from_shared_values : List F32 → ℕ → ℕ → Result CheckpointError FlatState
unfolding checked_mul checked_add
from_shared_values values entity layers = do
  entity_values ← checked_mul layers flat_state_layer_elements
  offset ← checked_mul entity entity_values
  end ← checked_add offset entity_values
  if ltb (length values) end
      then err flat_layout
      else ok (record { values = values; offset = offset; layers = layers })

-- `values()`, which panics where the slice is out of range.
unfoldable pub flat_values : FlatState → Result CheckpointError (List F32)
unfolding get_range
flat_values state =
    ok_or
      (get_range state.values state.offset
        (state.offset + state.layers * flat_state_layer_elements))
      panicked

module _ {T : Type 0} (ops : TensorOps T) where
  -- `Tensor::from_vec` refuses values that do not fill the shape.
  unfoldable pub from_vec : List F32 → List ℕ → Result CheckpointError T
  unfolding product
  from_vec values dims =
      if length values == product dims then ok (ops.tensor_of values dims) else err tensor_shape

  -- The tensors of one kind, from a place in each layer on: a loop of `materialize`.
  unfoldable pub layer_tensors : List ℕ → ℕ → List F32 → ℕ → ℕ → Result CheckpointError (List T)
  unfolding get_range from_vec
  layer_tensors dims width values base zero = ok []
  layer_tensors dims width values base (suc left) = do
    slice ← ok_or (get_range values base (base + width)) panicked
    tensor ← from_vec slice dims
    rest ← layer_tensors dims width values (base + flat_state_layer_elements) left
    ok (tensor ∷ rest)

  -- The three vectors grow in one loop of the source; no error depends on that.
  unfoldable pub materialize : FlatState → Result CheckpointError (ModuleState T)
  unfolding flat_values layer_tensors
  materialize state = do
    values ← flat_values state
    time_x ←
        layer_tensors (1 ∷ 1 ∷ flat_state_channels ∷ []) flat_state_channels values 0 state.layers
    time_state ←
        layer_tensors (1 ∷ 1 ∷ flat_state_heads ∷ flat_state_head_size ∷ flat_state_head_size ∷ [])
          flat_state_matrix_elements values flat_state_channels state.layers
    channel ←
        layer_tensors (1 ∷ 1 ∷ flat_state_channels ∷ []) flat_state_channels values
          (flat_state_channels + flat_state_matrix_elements) state.layers
    ok (record {
      time_x_shift_b1c_by_layer = time_x;
      time_state_b1hkk_by_layer = time_state;
      channel_state_b1c_by_layer = channel;
    })

-- FlatNativeRnnState: what has not been turned into tensors yet.
pub record FlatRnn : Type 0 where
  pub card_states : Map FlatState
  pub note_states : Map FlatState
  pub deck_states : Map FlatState
  pub preset_states : Map FlatState
  pub global_state : Option FlatState

abbrev pub no_flat : FlatRnn
no_flat = record {
  card_states = [];
  note_states = [];
  deck_states = [];
  preset_states = [];
  global_state = none;
}
