-- ===== src/Checkpoint/Expected.antt =====
-- The number of bytes that a checkpoint of processed reviews will have, from the numbers of its
-- identities: expected_checkpoint_bin_size of rust/rwkv-srs-cpu/src/model/checkpoint_bin.rs.
pub mod Layers
pub mod Sections
pub mod Encodings
pub mod States
pub mod Whole
use rwkv_srs.Base.{
  ℕ, ◌+◌, ◌*◌, ◌%◌, ◌^◌, List, [], ◌∷◌, ◌++◌, length, Result, ok, err, ◌>>=◌, ◌==◌, Bool, not, ◌||◌,
  if◌then◌else◌,
}
use rwkv_srs.Checkpoint.Reader.{CheckpointError, empty_metadata, impossible_counts, module_count}
use rwkv_srs.Checkpoint.Save.{checkpoint_bin_magic, submodule_bytes}
use rwkv_srs.Checkpoint.Tensor.{checked_add, checked_mul}
use rwkv_srs.State.{Submodule, card, note, deck, preset, id_submodules}

-- What the size needs of the weights of a layer: the shape of its time mixer.
pub record LayerShape : Type 0 where
  pub n_heads : ℕ
  pub head_size : ℕ

unfoldable pub expected_tensor_size : ℕ → ℕ → Result CheckpointError ℕ
unfolding checked_add checked_mul
expected_tensor_size rank value_count = do
  shape_bytes ← checked_mul rank 8
  value_bytes ← checked_mul value_count 4
  shaped ← checked_add 1 shape_bytes
  counted ← checked_add shaped 8
  checked_add counted value_bytes

-- The loop over the layers of a module.
unfoldable pub expected_layers : ℕ → List LayerShape → Result CheckpointError ℕ
unfolding checked_add checked_mul expected_tensor_size
expected_layers size [] = ok size
expected_layers size (layer ∷ layers) = do
  channels ← checked_mul layer.n_heads layer.head_size
  recurrent_values ← checked_mul channels layer.head_size
  time_x ← expected_tensor_size 3 channels
  with_time_x ← checked_add size time_x
  recurrent ← expected_tensor_size 5 recurrent_values
  with_recurrent ← checked_add with_time_x recurrent
  channel ← expected_tensor_size 3 channels
  with_channel ← checked_add with_recurrent channel
  expected_layers with_channel layers

unfoldable pub expected_module_state_size : List LayerShape → Result CheckpointError ℕ
unfolding checked_mul expected_layers
expected_module_state_size blocks = do size ← checked_mul 3 8; expected_layers size blocks

-- The two ways in which a part of the file adds to the size: `checked_size_add` of a number of bytes,
-- and `checked_counted_size_add` of a number of entries of one size.
pub data SizePart : Type 0 where
  plain : ℕ → SizePart
  counted : ℕ → ℕ → SizePart

unfoldable pub checked_counted_size_add : ℕ → ℕ → ℕ → Result CheckpointError ℕ
unfolding checked_add checked_mul
checked_counted_size_add size count entry_size = do
  headed ← checked_add size 8
  entries_size ← checked_mul count entry_size
  checked_add headed entries_size

unfoldable pub add_parts : ℕ → List SizePart → Result CheckpointError ℕ
unfolding checked_add checked_counted_size_add
add_parts size [] = ok size
add_parts size (plain value ∷ parts) = do next ← checked_add size value; add_parts next parts
add_parts size (counted count entry_size ∷ parts) = do
  next ← checked_counted_size_add size count entry_size
  add_parts next parts

-- The numbers of identities in the canonical state.
pub record Cardinalities : Type 0 where
  pub card_count : ℕ
  pub note_count : ℕ
  pub deck_count : ℕ
  pub preset_count : ℕ

abbrev pub count_of : Cardinalities → Submodule → ℕ
count_of counts card = counts.card_count
count_of counts note = counts.note_count
count_of counts deck = counts.deck_count
count_of counts preset = counts.preset_count

abbrev pub populated : Cardinalities → Bool
populated counts = not (counts.card_count == 0)

-- The bytes of the four states and of the global one.
pub record StateSizes : Type 0 where
  pub card_size : ℕ
  pub note_size : ℕ
  pub deck_size : ℕ
  pub preset_size : ℕ
  pub global_size : ℕ

abbrev pub counter_parts : ℕ → Cardinalities → List SizePart
counter_parts metadata_len counts =
    let option_f64_size = if populated counts then 9 else 1 in
    plain (length checkpoint_bin_magic)
    ∷ plain 4
    ∷ plain 8
    ∷ plain metadata_len
    ∷ plain option_f64_size
    ∷ plain option_f64_size
    ∷ plain 8
    ∷ counted counts.card_count 8
    ∷ counted counts.card_count 16
    ∷ plain 8
    ∷ counted counts.card_count 16
    ∷ plain 24
    ∷ counted counts.card_count 16
    ∷ counted counts.card_count 16
    ∷ counted counts.card_count 16
    ∷ []

-- The widths are constants, so the product with the size of a float does not overflow.
unfoldable pub encoding_parts : Cardinalities → List (Submodule × ℕ) → List SizePart
encoding_parts counts [] = []
encoding_parts counts ((submodule, dim) ∷ rest) =
    plain (8 + length (submodule_bytes submodule))
    ∷ counted (count_of counts submodule) (16 + dim * 4)
    ∷ encoding_parts counts rest

-- A sum of native integers that is not checked wraps around.
abbrev pub state_parts : Cardinalities → StateSizes → List SizePart
state_parts counts sizes =
    plain (8 + 5056)
    ∷ counted counts.card_count ((16 + sizes.card_size) % 2 ^ 64)
    ∷ counted counts.note_count ((16 + sizes.note_size) % 2 ^ 64)
    ∷ counted counts.deck_count ((16 + sizes.deck_size) % 2 ^ 64)
    ∷ counted counts.preset_count ((16 + sizes.preset_size) % 2 ^ 64)
    ∷ plain 1
    ∷ (if populated counts then plain sizes.global_size ∷ [] else [])

-- The modules stand in the order of the network: card, deck, note, preset, global.
unfoldable pub expected_state_sizes : List (List LayerShape) → Result CheckpointError StateSizes
unfolding expected_module_state_size
expected_state_sizes (m0 ∷ m1 ∷ m2 ∷ m3 ∷ m4 ∷ []) = do
  card_size ← expected_module_state_size m0
  deck_size ← expected_module_state_size m1
  note_size ← expected_module_state_size m2
  preset_size ← expected_module_state_size m3
  global_size ← expected_module_state_size m4
  ok (record {
    card_size = card_size;
    note_size = note_size;
    deck_size = deck_size;
    preset_size = preset_size;
    global_size = global_size;
  })
expected_state_sizes modules = err (module_count (length modules))

-- A count of notes, decks or presets that is zero where there are cards, or the other way around.
abbrev pub counts_disagree : Cardinalities → Bool
counts_disagree counts =
    if populated counts
    then counts.note_count == 0 || (counts.deck_count == 0 || counts.preset_count == 0)
    else not (counts.note_count == 0)
      || (not (counts.deck_count == 0) || not (counts.preset_count == 0))

unfoldable pub expected_checkpoint_bin_size :
    List (List LayerShape) → ℕ → Cardinalities → Result CheckpointError ℕ
unfolding expected_state_sizes add_parts encoding_parts
expected_checkpoint_bin_size modules metadata_len counts =
    if metadata_len == 0
    then err empty_metadata
    else if counts_disagree counts
    then err impossible_counts
    else (do
      sizes ← expected_state_sizes modules
      add_parts 0 (
          counter_parts metadata_len counts
          ++ (plain 8 ∷ (encoding_parts counts id_submodules ++ state_parts counts sizes))))
