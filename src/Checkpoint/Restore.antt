-- ===== src/Checkpoint/Restore.antt =====
-- How a runtime is restored from a checkpoint, with or without a scope, in both versions:
-- restore_runtime_checkpoint_bin and below of rust/rwkv-srs-cpu/src/model/checkpoint_bin.rs.
pub mod States
use rwkv_srs.Base.{
  ℕ, zero, suc, ◌*◌, ℤ, List, [], ◌∷◌, ◌++◌, length, Option, none, some, is_some, Result, ok, err,
  ◌==◌, ◌||◌, not, Bool, true, false, if◌then◌else◌,
}
use rwkv_srs.Checkpoint.Maps.{
  is_selected, bin_read_i64_set_selected, bin_read_i64_set, bin_read_i64_usize_map_selected,
  bin_read_i64_usize_map, bin_read_i64_i64_map_selected, bin_read_i64_i64_map,
  bin_read_i64_f64_map_selected, bin_read_i64_f64_map,
}
use rwkv_srs.Checkpoint.Reader.{
  CheckpointError, Read, Reader, ◌>>=◌, done, fail, lift, unsupported_submodule, encoding_length,
  unsupported_magic, unsupported_version, rng_rejected, bin_read_exact, bin_read_exact_vec,
  bin_read_bytes, bin_read_usize, bin_read_u32, bin_read_i64, bin_read_f64, bin_read_f32,
  bin_read_option_f64, bin_vec_with_capacity,
}
use rwkv_srs.Checkpoint.Restore.States.{
  bin_read_indexed_state_map, bin_read_optional_state, bin_read_state_map,
}
use rwkv_srs.Checkpoint.Save.{
  submodule_bytes, checkpoint_bin_magic, checkpoint_bin_version, legacy_checkpoint_bin_version,
}
use rwkv_srs.Checkpoint.Scope.{
  CheckpointScope, ids_for_submodule, scoped, Runtime, filter_runtime_state,
  set_recurrent_state_keys,
}
use rwkv_srs.Checkpoint.Tensor.{TensorOps, ModuleState, no_flat}
use rwkv_srs.Map.{Map, Set, insert}
use rwkv_srs.Review.{F32}
use rwkv_srs.Rng.{Rng}
use rwkv_srs.Rng.Torch.{TorchError, from_torch_rng_state}
use rwkv_srs.State.{
  Submodule, card, note, deck, preset, IdEncodings, encodings, put_encodings, id_submodules,
  empty_id_encodings, FeatureState, with_torch_seed,
}
use rwkv_srs.Undo.{Rnn}
use rwkv_srs.Wire.Process.{bytes_eq}

-- `ID_SUBMODULES.iter().find(|(name, _)| *name == submodule)`
unfoldable pub find_submodule : List ℕ → List (Submodule × ℕ) → Option (Submodule × ℕ)
unfolding bytes_eq
find_submodule name [] = none
find_submodule name ((submodule, dim) ∷ rest) =
    if bytes_eq (submodule_bytes submodule) name
    then some (submodule, dim)
    else find_submodule name rest

-- The values of an encoding; the ones that are not selected are read and dropped.
unfoldable pub read_values : Bool → ℕ → List F32 → Read (List F32)
unfolding bin_read_f32
read_values selected zero encoding = done encoding
read_values selected (suc left) encoding = do
  value ← bin_read_f32
  read_values selected left (if selected then encoding ++ value ∷ [] else encoding)

unfoldable pub check_width : ℕ → ℕ → Read (Unit {0})
check_width dim count = if count == dim then done tt else fail (encoding_length dim count)

unfoldable pub read_encodings : ℕ → Option Set → ℕ → Map (List F32) → Read (Map (List F32))
unfolding bin_read_i64 bin_read_usize bin_vec_with_capacity is_selected read_values check_width
read_encodings dim selected_ids zero target = done target
read_encodings dim selected_ids (suc left) target = do
  id ← bin_read_i64
  value_count ← bin_read_usize
  width ← check_width dim value_count
  room ← lift (bin_vec_with_capacity 4 (if is_selected selected_ids id then value_count else 0))
  encoding ← read_values (is_selected selected_ids id) value_count []
  read_encodings dim selected_ids left
      (if is_selected selected_ids id then insert id encoding target else target)

unfoldable pub known_submodule : List ℕ → Read (Submodule × ℕ)
unfolding find_submodule
known_submodule name = elim (find_submodule name id_submodules) [
  | none ↦ fail (unsupported_submodule name)
  | some found ↦ done found
]

unfoldable pub read_submodules : Option CheckpointScope → ℕ → IdEncodings → Read IdEncodings
unfolding bin_read_bytes known_submodule bin_read_usize read_encodings
read_submodules scope zero out = done out
read_submodules scope (suc left) out = do
  name ← bin_read_bytes
  (submodule, dim) ← known_submodule name
  encoding_count ← bin_read_usize
  target ← read_encodings dim (scoped scope submodule) encoding_count (encodings submodule out)
  read_submodules scope left (put_encodings submodule target out)

unfoldable pub bin_read_id_encodings_selected : Option CheckpointScope → Read IdEncodings
unfolding bin_read_usize read_submodules
bin_read_id_encodings_selected scope = do
  module_count ← bin_read_usize
  read_submodules scope module_count empty_id_encodings

unfoldable pub bin_read_id_encodings : Read IdEncodings
unfolding bin_read_id_encodings_selected
bin_read_id_encodings = bin_read_id_encodings_selected none

unfoldable pub restored_rng : List ℕ → Result CheckpointError Rng
unfolding from_torch_rng_state
restored_rng bytes = elim (from_torch_rng_state bytes) [
  | err e ↦ err (rng_rejected e)
  | ok rng ↦ ok rng
]

-- The last assignments of both versions: no flat states, and the keys of the others.
unfoldable pub assemble : {T : Type 0} → FeatureState → Rnn (ModuleState T) → Runtime T
unfolding set_recurrent_state_keys
assemble deterministic rnn = record {
  deterministic = set_recurrent_state_keys deterministic rnn no_flat;
  rnn = rnn;
  flat_cpu_state = no_flat;
}

module _ {T : Type 0} (ops : TensorOps T) where
  -- An error leaves the runtime as it is, so a result carries the new one only.
  unfoldable pub read_runtime_state_bin_v2 : Option CheckpointScope → Read (Runtime T)
  unfolding bin_read_option_f64 bin_read_usize bin_read_i64_set_selected
      bin_read_i64_usize_map_selected bin_read_i64 bin_read_i64_i64_map_selected bin_read_f64
      bin_read_i64_f64_map_selected bin_read_id_encodings_selected bin_read_bytes
      bin_read_indexed_state_map bin_read_optional_state restored_rng assemble with_torch_seed
  read_runtime_state_bin_v2 scope = do
    first_day_offset ← bin_read_option_f64
    prev_day_offset ← bin_read_option_f64
    card_count ← bin_read_usize
    card_set ← bin_read_i64_set_selected (scoped scope card)
    last_new_cards ← bin_read_i64_usize_map_selected (scoped scope card)
    i ← bin_read_i64
    last_i ← bin_read_i64_i64_map_selected (scoped scope card)
    today ← bin_read_f64
    today_reviews ← bin_read_i64
    today_new_cards ← bin_read_i64
    card2first_day_offset ← bin_read_i64_f64_map_selected (scoped scope card)
    card2elapsed_days_cumulative ← bin_read_i64_f64_map_selected (scoped scope card)
    card2elapsed_seconds_cumulative ← bin_read_i64_f64_map_selected (scoped scope card)
    id_encodings ← bin_read_id_encodings_selected scope
    rng_state ← bin_read_bytes
    card_states ← bin_read_indexed_state_map ops (scoped scope card)
    note_states ← bin_read_indexed_state_map ops (scoped scope note)
    deck_states ← bin_read_indexed_state_map ops (scoped scope deck)
    preset_states ← bin_read_indexed_state_map ops (scoped scope preset)
    global_state ← bin_read_optional_state ops
    id_rng ← lift (restored_rng rng_state)
    done (
        assemble
          (record (with_torch_seed 5489) {
            first_day_offset = first_day_offset;
            prev_day_offset = prev_day_offset;
            card_set = card_set;
            card_count = card_count;
            last_new_cards = last_new_cards;
            i = i;
            last_i = last_i;
            today = today;
            today_reviews = today_reviews;
            today_new_cards = today_new_cards;
            card2first_day_offset = card2first_day_offset;
            card2elapsed_days_cumulative = card2elapsed_days_cumulative;
            card2elapsed_seconds_cumulative = card2elapsed_seconds_cumulative;
            id_encodings = id_encodings;
            id_rng = id_rng;
          })
          (record {
            card_states = card_states;
            note_states = note_states;
            deck_states = deck_states;
            preset_states = preset_states;
            global_state = global_state;
          }))

  -- The old format has no count of cards and no index before the states.
  unfoldable pub read_runtime_state_bin_v1 : Read (Runtime T)
  unfolding bin_read_option_f64 bin_read_i64_set bin_read_i64_usize_map bin_read_i64
      bin_read_i64_i64_map bin_read_f64 bin_read_i64_f64_map bin_read_id_encodings bin_read_bytes
      bin_read_state_map bin_read_optional_state restored_rng assemble with_torch_seed
  read_runtime_state_bin_v1 = do
    first_day_offset ← bin_read_option_f64
    prev_day_offset ← bin_read_option_f64
    card_set ← bin_read_i64_set
    last_new_cards ← bin_read_i64_usize_map
    i ← bin_read_i64
    last_i ← bin_read_i64_i64_map
    today ← bin_read_f64
    today_reviews ← bin_read_i64
    today_new_cards ← bin_read_i64
    card2first_day_offset ← bin_read_i64_f64_map
    card2elapsed_days_cumulative ← bin_read_i64_f64_map
    card2elapsed_seconds_cumulative ← bin_read_i64_f64_map
    id_encodings ← bin_read_id_encodings
    rng_state ← bin_read_bytes
    card_states ← bin_read_state_map ops
    note_states ← bin_read_state_map ops
    deck_states ← bin_read_state_map ops
    preset_states ← bin_read_state_map ops
    global_state ← bin_read_optional_state ops
    id_rng ← lift (restored_rng rng_state)
    done (
        assemble
          (record (with_torch_seed 5489) {
            first_day_offset = first_day_offset;
            prev_day_offset = prev_day_offset;
            card_set = card_set;
            card_count = length card_set;
            last_new_cards = last_new_cards;
            i = i;
            last_i = last_i;
            today = today;
            today_reviews = today_reviews;
            today_new_cards = today_new_cards;
            card2first_day_offset = card2first_day_offset;
            card2elapsed_days_cumulative = card2elapsed_days_cumulative;
            card2elapsed_seconds_cumulative = card2elapsed_seconds_cumulative;
            id_encodings = id_encodings;
            id_rng = id_rng;
          })
          (record {
            card_states = card_states;
            note_states = note_states;
            deck_states = deck_states;
            preset_states = preset_states;
            global_state = global_state;
          }))

  unfoldable pub filtered : Option CheckpointScope → Runtime T → Runtime T
  unfolding filter_runtime_state
  filtered none runtime = runtime
  filtered (some scope) runtime = filter_runtime_state scope runtime

  unfoldable pub read_version : ℕ → Option CheckpointScope → Read (Runtime T)
  unfolding read_runtime_state_bin_v1 read_runtime_state_bin_v2 filtered
  read_version version scope =
      if version == legacy_checkpoint_bin_version
      then (do runtime ← read_runtime_state_bin_v1; done (filtered scope runtime))
      else read_runtime_state_bin_v2 scope

  unfoldable pub check_magic : List ℕ → Read (Unit {0})
  unfolding bytes_eq
  check_magic magic =
      if bytes_eq magic checkpoint_bin_magic then done tt else fail unsupported_magic

  unfoldable pub check_version : ℕ → Read (Unit {0})
  check_version version =
      if (version == legacy_checkpoint_bin_version) || (version == checkpoint_bin_version)
      then done tt
      else fail (unsupported_version version)

  unfoldable pub restore_runtime_checkpoint_bin : Option CheckpointScope → Read (Runtime T)
  unfolding bin_read_exact check_magic bin_read_u32 check_version bin_read_usize bin_read_exact_vec
      read_version
  restore_runtime_checkpoint_bin scope = do
    magic ← bin_read_exact (length checkpoint_bin_magic)
    known ← check_magic magic
    version ← bin_read_u32
    supported ← check_version version
    metadata_len ← bin_read_usize
    metadata ← bin_read_exact_vec metadata_len
    read_version version scope
