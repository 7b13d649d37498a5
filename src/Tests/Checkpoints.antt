-- ===== src/Tests/Checkpoints.antt =====
-- Checkpoints of a small runtime, with tensors as pairs of a shape and values
-- (rust/rwkv-srs-cpu/src/model/checkpoint_bin.rs).
use rwkv_srs.Checkpoint.Expected.Layers.{HasShape}
use rwkv_srs.Checkpoint.Expected.Whole.{IsProcessed, expected_checkpoint_bin_size-length}
use rwkv_srs.Checkpoint.Expected.{expected_checkpoint_bin_size, LayerShape, Cardinalities}
use rwkv_srs.Checkpoint.Flat.{SameBytes, bin_write_flat_entity_state-materialize}
use rwkv_srs.Checkpoint.Merge.Copy.{bin_copy_merged_i64_map-overlay}
use rwkv_srs.Checkpoint.Reads.{canonical_f64}
use rwkv_srs.Checkpoint.Writer.{bin_write_f64}
use rwkv_srs.Checkpoint.Maps.{bin_write_i64_f64_map}
use rwkv_srs.Checkpoint.RoundTrip.Sizes.{bin_entity_state_size-length}
use rwkv_srs.Checkpoint.Merge.{bin_copy_merged_i64_map}
use rwkv_srs.Checkpoint.Flat.{TensorLaws}
use rwkv_srs.Checkpoint.Save.States.{bin_entity_state_size, bin_write_entity_state}
use rwkv_srs.Checkpoint.Merge.Laws.{overlay, without}
use rwkv_srs.Map.{get, Map, Set, insert, has}
use rwkv_srs.Floats.{is_nan}
use rwkv_srs.Checkpoint.Maps.RoundTrip.{IsStoredMap, map_values}
use rwkv_srs.Checkpoint.RoundTrip.States.{IsStoredStates}
use rwkv_srs.Rng.Torch.{bytes_of}
use rwkv_srs.Checkpoint.RoundTrip.Whole.{restore-write_runtime_checkpoint_bin}
use rwkv_srs.Tests.{seeded-IsStored}
use rwkv_srs.Checkpoint.RoundTrip.Tensors.{IsStoredTensor}
use rwkv_srs.Checkpoint.RoundTrip.Encodings.{AreStored}
use rwkv_srs.Checkpoint.RoundTrip.Stored.{IsStoredFeatures, IsStoredRuntime, canonical_runtime}
use rwkv_srs.Checkpoint.RoundTrip.Entities.{IsStoredState}
use rwkv_srs.Checkpoint.Restore.{restore_runtime_checkpoint_bin, filtered}
use rwkv_srs.Rng.{seed_from_u64}
use rwkv_srs.Checkpoint.Save.{write_runtime_checkpoint_bin}
use rwkv_srs.Review.{F32, F64}
use rwkv_srs.Checkpoint.Scope.{Runtime, CheckpointScope}
use rwkv_srs.Checkpoint.Tensor.{
  ModuleState, TensorOps, no_flat, checked_product, FlatState, from_shared_values,
}
use rwkv_srs.Base.{
  [], ◌∷◌, ok, err, some, true, refl, length, List, ℕ, pos, arith, ◌≡◌, Result, ltb, ltb→lt,
  replicate, ◌+◌, ◌==◌, ◌++◌, ==_iff,
}
use rwkv_srs.Checkpoint.Reader.{at, CheckpointError, bin_read_f64}
use rwkv_srs.State.{card, note, deck, preset, FeatureState, with_torch_seed, empty_id_encodings}

abbrev Plain : Type 0
Plain = List ℕ × List F32

abbrev plain : TensorOps Plain
plain = record {
  dims = λ t. t.0;
  to_vec = λ t. t.1;
  tensor_of = λ values dims. (dims, values);
  handle_size = 8;
}

-- Two values, one of them a NaN with a payload.
abbrev shift_tensor : Plain
shift_tensor = (1 ∷ 1 ∷ 2 ∷ [], 0x3f80_0000 ∷ 0xffc0_1234 ∷ [])

abbrev matrix_tensor : Plain
matrix_tensor = (1 ∷ 1 ∷ 1 ∷ 1 ∷ 1 ∷ [], 0x4000_0000 ∷ [])

abbrev state : ModuleState Plain
state = record {
  time_x_shift_b1c_by_layer = shift_tensor ∷ [];
  time_state_b1hkk_by_layer = matrix_tensor ∷ [];
  channel_state_b1c_by_layer = shift_tensor ∷ [];
}

abbrev features : FeatureState
features = record (with_torch_seed 12345) {
  first_day_offset = some 0x4059_0000_0000_0000;
  card_set = (pos 7, tt) ∷ (pos 9, tt) ∷ [];
  card_count = 2;
  last_i = (pos 7, pos 3) ∷ [];
}

abbrev runtime : Runtime Plain
runtime = record {
  deterministic = features;
  rnn = record {
    card_states = (pos 7, state) ∷ (pos 9, state) ∷ [];
    note_states = [];
    deck_states = [];
    preset_states = [];
    global_state = some state;
  };
  flat_cpu_state = no_flat;
}

abbrev bytes_of_result : Result CheckpointError (List ℕ) → List ℕ
bytes_of_result (ok bytes) = bytes
bytes_of_result (err e) = []

abbrev file : List ℕ
file = bytes_of_result (write_runtime_checkpoint_bin plain (b'{' ∷ b'}' ∷ []) runtime)

file-ok : write_runtime_checkpoint_bin plain (b'{' ∷ b'}' ∷ []) runtime ≡ ok file
unfolding write_runtime_checkpoint_bin with_torch_seed seed_from_u64 bytes_of
file-ok = refl

file-fits : ltb (length file) 8000 ≡ true
unfolding write_runtime_checkpoint_bin with_torch_seed seed_from_u64 bytes_of
file-fits = refl

matrix-count : checked_product 1 (1 ∷ 1 ∷ 1 ∷ 1 ∷ 1 ∷ []) ≡ ok 1
unfolding checked_product
matrix-count = refl

shift-count : checked_product 1 (1 ∷ 1 ∷ 2 ∷ []) ≡ ok 2
unfolding checked_product
shift-count = refl

matrix-stored : IsStoredTensor plain matrix_tensor
matrix-stored = record {
  shape = omega arith;
  count = matrix-count;
  memory = omega arith;
  values = omega arith;
}

shift-stored : IsStoredTensor plain shift_tensor
shift-stored = record {
  shape = omega arith;
  count = shift-count;
  memory = omega arith;
  values = omega arith;
}

state-stored : IsStoredState plain state
state-stored = record {
  time_x = record { each = (shift-stored, tt); count = omega arith; memory = omega arith };
  time_state = record { each = (matrix-stored, tt); count = omega arith; memory = omega arith };
  channel = record { each = (shift-stored, tt); count = omega arith; memory = omega arith };
  layers = refl;
  same_layers = refl;
}

nothing-stored : {V : Type 0} → IsStoredMap {V = V} []
nothing-stored = record { sorted = tt; keys = tt; count = omega arith }

no_states-stored : IsStoredStates plain []
no_states-stored = record { stored = nothing-stored; states = tt; memory = omega arith }

no_encodings-stored : AreStored empty_id_encodings
no_encodings-stored card = record { map = nothing-stored; values = tt }
no_encodings-stored note = record { map = nothing-stored; values = tt }
no_encodings-stored deck = record { map = nothing-stored; values = tt }
no_encodings-stored preset = record { map = nothing-stored; values = tt }

features-stored : IsStoredFeatures features
unfolding with_torch_seed
features-stored = record {
  first_day = omega arith;
  prev_day = tt;
  count = omega arith;
  cards = record { sorted = omega arith; keys = omega arith; count = omega arith };
  new_cards = nothing-stored;
  new_counts = tt;
  index = omega arith;
  last = record { sorted = omega arith; keys = omega arith; count = omega arith };
  last_values = omega arith;
  today_fits = omega arith;
  reviews = omega arith;
  new_today = omega arith;
  first_days = nothing-stored;
  first_values = tt;
  days = nothing-stored;
  days_values = tt;
  seconds = nothing-stored;
  seconds_values = tt;
  encodings = no_encodings-stored;
  rng = seeded-IsStored;
}

runtime-stored : IsStoredRuntime plain runtime
unfolding with_torch_seed
runtime-stored = record {
  features = features-stored;
  cards = record {
    stored = record { sorted = omega arith; keys = omega arith; count = omega arith };
    states = (state-stored, (state-stored, tt));
    memory = omega arith;
  };
  notes = no_states-stored;
  decks = no_states-stored;
  presets = no_states-stored;
  global = state-stored;
  no_flat_states = refl;
}

-- Card 9 alone.
abbrev scope : CheckpointScope
scope = record { card_ids = (pos 9, tt) ∷ []; note_ids = []; deck_ids = []; preset_ids = [] }

restore-write_runtime_checkpoint_bin_example :
    restore_runtime_checkpoint_bin plain (some scope) (at 0 file)
    ≡ ok (filtered plain (some scope) (canonical_runtime plain runtime), at (length file) [])
restore-write_runtime_checkpoint_bin_example =
    restore-write_runtime_checkpoint_bin plain (some scope) (b'{' ∷ b'}' ∷ []) runtime file
      runtime-stored (omega arith) (omega (arith, ltb→lt _ _ file-fits)) file-ok

plain-laws : TensorLaws plain
plain-laws = record {
  dims-tensor_of = λ vs dims fits. refl;
  to_vec-tensor_of = λ vs dims fits. refl;
}

abbrev arena : List F32
arena = replicate 4352 0x3f80_0000

abbrev flat_state : FlatState
flat_state = record { values = arena; offset = 0; layers = 1 }

flat_state-made : from_shared_values arena 0 1 ≡ ok flat_state
unfolding from_shared_values
flat_state-made = refl

bin_write_flat_entity_state-materialize_example : SameBytes plain plain-laws flat_state
bin_write_flat_entity_state-materialize_example =
    bin_write_flat_entity_state-materialize plain plain-laws arena 0 1 flat_state flat_state-made

abbrev state_bytes : List ℕ
state_bytes = bytes_of_result (bin_write_entity_state plain state)

state-written : bin_write_entity_state plain state ≡ ok state_bytes
unfolding bin_write_entity_state
state-written = refl

state-sized : bin_entity_state_size plain state ≡ ok 159
unfolding bin_entity_state_size
state-sized = refl

bin_entity_state_size-length_example : 159 ≡ length state_bytes
bin_entity_state_size-length_example =
    bin_entity_state_size-length plain state 159 state_bytes state-stored state-sized state-written

-- The backing file has cards 1, 4 and 6; cards 4 and 6 are loaded, and card 6 is gone meanwhile.
abbrev backing : Map F64
backing = (pos 1, 5) ∷ (pos 4, 6) ∷ (pos 6, 7) ∷ []

abbrev current : Map F64
current = (pos 2, 8) ∷ (pos 4, 9) ∷ []

abbrev loaded_cards : Set
loaded_cards = (pos 4, tt) ∷ (pos 6, tt) ∷ []

backing-fits : (0 + length (bin_write_i64_f64_map backing) == 56) ≡ true
unfolding bin_write_i64_f64_map bin_write_f64
backing-fits = refl

abbrev merged_map : Map F64
merged_map = overlay current (without loaded_cards (map_values canonical_f64 backing))

merged-entries : merged_map ≡ (pos 1, 5) ∷ (pos 2, 8) ∷ (pos 4, 9) ∷ []
unfolding overlay without map_values canonical_f64 insert has is_nan get
merged-entries = refl

bin_copy_merged_i64_map-overlay_example :
    bin_copy_merged_i64_map
      (λ v. ok (bin_write_f64 v))
      bin_read_f64
      current
      loaded_cards
      (at 0 (bin_write_i64_f64_map backing ++ []))
    ≡ ok (bin_write_i64_f64_map merged_map, at (0 + length (bin_write_i64_f64_map backing)) [])
bin_copy_merged_i64_map-overlay_example =
    bin_copy_merged_i64_map-overlay loaded_cards backing current 0 []
      (record { sorted = omega arith; keys = omega arith; count = omega arith }) (omega arith)
      (omega arith) (omega (arith, (==_iff _ _).0 backing-fits))

-- One review of one card, under a model whose modules have one layer of two heads.
abbrev layers : List LayerShape
layers = record { n_heads = 2; head_size = 1 } ∷ []

abbrev one_each : Cardinalities
one_each = record { card_count = 1; note_count = 1; deck_count = 1; preset_count = 1 }

abbrev two_matrices : Plain
two_matrices = (1 ∷ 1 ∷ 2 ∷ 1 ∷ 1 ∷ [], 0 ∷ 0 ∷ [])

abbrev two_heads : ModuleState Plain
two_heads = record {
  time_x_shift_b1c_by_layer = shift_tensor ∷ [];
  time_state_b1hkk_by_layer = two_matrices ∷ [];
  channel_state_b1c_by_layer = shift_tensor ∷ [];
}

abbrev reviewed : FeatureState
reviewed = record (with_torch_seed 12345) {
  first_day_offset = some 0x4059_0000_0000_0000;
  prev_day_offset = some 0x4059_0000_0000_0000;
  card_set = (pos 7, tt) ∷ [];
  card_count = 1;
  last_new_cards = (pos 7, 0) ∷ [];
  last_i = (pos 7, pos 1) ∷ [];
  card2first_day_offset = (pos 7, 0) ∷ [];
  card2elapsed_days_cumulative = (pos 7, 0) ∷ [];
  card2elapsed_seconds_cumulative = (pos 7, 0) ∷ [];
  id_encodings = record {
    of_card = (pos 7, replicate 12 0) ∷ [];
    of_note = (pos 3, replicate 12 0) ∷ [];
    of_deck = (pos 2, replicate 8 0) ∷ [];
    of_preset = (pos 1, replicate 8 0) ∷ [];
  };
}

abbrev processed : Runtime Plain
processed = record {
  deterministic = reviewed;
  rnn = record {
    card_states = (pos 7, two_heads) ∷ [];
    note_states = (pos 3, two_heads) ∷ [];
    deck_states = (pos 2, two_heads) ∷ [];
    preset_states = (pos 1, two_heads) ∷ [];
    global_state = some two_heads;
  };
  flat_cpu_state = no_flat;
}

two_heads-HasShape : HasShape plain layers two_heads
two_heads-HasShape = record { time_x = refl; time_state = refl; channel = refl }

processed-IsProcessed : IsProcessed plain layers layers layers layers layers one_each processed
unfolding with_torch_seed
processed-IsProcessed = record {
  features = record {
    first_day = refl;
    prev_day = refl;
    cards = refl;
    new_cards = refl;
    last = refl;
    first_days = refl;
    days = refl;
    seconds = refl;
    card_encodings = refl;
    note_encodings = refl;
    deck_encodings = refl;
    preset_encodings = refl;
  };
  rng = seeded-IsStored;
  no_flat_states = refl;
  cards = refl;
  notes = refl;
  decks = refl;
  presets = refl;
  global = refl;
  card_shapes = (two_heads-HasShape, tt);
  note_shapes = (two_heads-HasShape, tt);
  deck_shapes = (two_heads-HasShape, tt);
  preset_shapes = (two_heads-HasShape, tt);
  global_shape = two_heads-HasShape;
}

abbrev processed_file : List ℕ
processed_file = bytes_of_result (write_runtime_checkpoint_bin plain (b'{' ∷ b'}' ∷ []) processed)

processed_file-ok :
    write_runtime_checkpoint_bin plain (b'{' ∷ b'}' ∷ []) processed ≡ ok processed_file
unfolding write_runtime_checkpoint_bin with_torch_seed seed_from_u64 bytes_of
processed_file-ok = refl

processed_file-fits : ltb (length processed_file) 8000 ≡ true
unfolding write_runtime_checkpoint_bin with_torch_seed seed_from_u64 bytes_of
processed_file-fits = refl

processed-sized :
    expected_checkpoint_bin_size (layers ∷ layers ∷ layers ∷ layers ∷ layers ∷ []) 2 one_each
    ≡ ok 6525
unfolding expected_checkpoint_bin_size
processed-sized = refl

expected_checkpoint_bin_size-length_example : 6525 ≡ length processed_file
expected_checkpoint_bin_size-length_example =
    expected_checkpoint_bin_size-length plain layers layers layers layers layers one_each
      (b'{' ∷ b'}' ∷ []) processed 6525 processed_file processed-IsProcessed
      (omega (arith, ltb→lt _ _ processed_file-fits)) processed-sized processed_file-ok
