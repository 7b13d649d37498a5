-- ===== src/Checkpoint/Scope.antt =====
-- The runtime that a checkpoint holds, and the part of it that a scope selects: CheckpointScope,
-- filter_runtime_state and set_recurrent_state_keys of
-- rust/rwkv-srs-cpu/src/model/checkpoint_bin.rs.
use rwkv_srs.Base.{[], ◌∷◌, Option, none, some, is_some, ◌||◌}
use rwkv_srs.Checkpoint.Select.{select}
use rwkv_srs.Checkpoint.Tensor.{ModuleState, FlatRnn}
use rwkv_srs.Map.{Map, Set, set_insert}
use rwkv_srs.State.{Submodule, card, note, deck, preset, RecurrentStateKeys, FeatureState}
use rwkv_srs.Undo.{Rnn}

pub record CheckpointScope : Type 0 where
  pub card_ids : Set
  pub note_ids : Set
  pub deck_ids : Set
  pub preset_ids : Set

abbrev pub ids_for_submodule : CheckpointScope → Submodule → Set
ids_for_submodule scope card = scope.card_ids
ids_for_submodule scope note = scope.note_ids
ids_for_submodule scope deck = scope.deck_ids
ids_for_submodule scope preset = scope.preset_ids

-- `scope.map(|value| &value.card_ids)` and the like
abbrev pub scoped : Option CheckpointScope → Submodule → Option Set
scoped none submodule = none
scoped (some scope) submodule = some (ids_for_submodule scope submodule)

-- The parts of a NativeRuntime that a checkpoint holds.
pub record Runtime (T : Type 0) : Type 0 where
  pub deterministic : FeatureState
  pub rnn : Rnn (ModuleState T)
  pub flat_cpu_state : FlatRnn

-- `retain` in each map of the feature state
unfoldable pub filter_feature_state : CheckpointScope → FeatureState → FeatureState
unfolding select
filter_feature_state scope s = record s {
  card_set = select (some scope.card_ids) s.card_set;
  last_new_cards = select (some scope.card_ids) s.last_new_cards;
  last_i = select (some scope.card_ids) s.last_i;
  card2first_day_offset = select (some scope.card_ids) s.card2first_day_offset;
  card2elapsed_days_cumulative = select (some scope.card_ids) s.card2elapsed_days_cumulative;
  card2elapsed_seconds_cumulative = select (some scope.card_ids) s.card2elapsed_seconds_cumulative;
  id_encodings = record {
    of_card = select (some scope.card_ids) s.id_encodings.of_card;
    of_note = select (some scope.note_ids) s.id_encodings.of_note;
    of_deck = select (some scope.deck_ids) s.id_encodings.of_deck;
    of_preset = select (some scope.preset_ids) s.id_encodings.of_preset;
  };
}

-- `keys().copied().collect()` into a set
unfoldable insert_keys {ℓ} : {V : Type ℓ} → Map V → Set → Set
insert_keys [] keys = keys
insert_keys ((k, v) ∷ m) keys = insert_keys m (set_insert k keys)

unfoldable pub recurrent_state_keys :
    {T : Type 0} → Rnn (ModuleState T) → FlatRnn → RecurrentStateKeys
unfolding insert_keys
recurrent_state_keys rnn flat = record {
  card_states = insert_keys flat.card_states (insert_keys rnn.card_states []);
  note_states = insert_keys flat.note_states (insert_keys rnn.note_states []);
  deck_states = insert_keys flat.deck_states (insert_keys rnn.deck_states []);
  preset_states = insert_keys flat.preset_states (insert_keys rnn.preset_states []);
  global_state = is_some rnn.global_state || is_some flat.global_state;
}

unfoldable pub set_recurrent_state_keys :
    {T : Type 0} → FeatureState → Rnn (ModuleState T) → FlatRnn → FeatureState
unfolding recurrent_state_keys
set_recurrent_state_keys s rnn flat = record s {
  recurrent_state_keys = recurrent_state_keys rnn flat;
}

-- The flat states are left alone: a restore has cleared them before.
unfoldable pub filter_runtime_state : {T : Type 0} → CheckpointScope → Runtime T → Runtime T
unfolding filter_feature_state set_recurrent_state_keys select
filter_runtime_state scope runtime =
    let rnn = record runtime.rnn {
      card_states = select (some scope.card_ids) runtime.rnn.card_states;
      note_states = select (some scope.note_ids) runtime.rnn.note_states;
      deck_states = select (some scope.deck_ids) runtime.rnn.deck_states;
      preset_states = select (some scope.preset_ids) runtime.rnn.preset_states;
    } in
    record runtime {
      deterministic =
          set_recurrent_state_keys (filter_feature_state scope runtime.deterministic) rnn
            runtime.flat_cpu_state;
      rnn = rnn;
    }
