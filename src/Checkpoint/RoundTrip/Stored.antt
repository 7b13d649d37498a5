-- ===== src/Checkpoint/RoundTrip/Stored.antt =====
-- The runtimes that a checkpoint can hold, and what becomes of them in one: for the round trip of
-- rust/rwkv-srs-cpu/src/model/checkpoint_bin.rs.
use rwkv_srs.Checkpoint.RoundTrip.States.{canonical_global, IsStoredStates, StoredOption}
use rwkv_srs.Checkpoint.RoundTrip.Entities.{canonical_state}
use rwkv_srs.Rng.Torch.{to_torch_rng_state_bytes}
use rwkv_srs.Checkpoint.Maps.RoundTrip.{map_values, IsStoredMap, AllValues}
use rwkv_srs.Rng.RoundTrip.{IsStored, from-to_torch_rng_state}
use rwkv_srs.Checkpoint.RoundTrip.Encodings.{canonical_values, AreStored}
use rwkv_srs.Rng.{Rng}
use rwkv_srs.Checkpoint.Scope.{Runtime}
use rwkv_srs.Checkpoint.Tensor.{TensorOps, no_flat}
use rwkv_srs.Checkpoint.Restore.{restored_rng, assemble}
use rwkv_srs.Base.{ok, ◌≡◌, ◌<◌, ◌^◌, IsI64}
use rwkv_srs.Checkpoint.Reads.{canonical_option, OptionFits, canonical_f64}
use rwkv_srs.State.{FeatureState}

-- A feature state that a checkpoint can hold: sorted maps, and numbers that fit.
pub record IsStoredFeatures (s : FeatureState) : Type 0 where
  pub first_day : OptionFits s.first_day_offset
  pub prev_day : OptionFits s.prev_day_offset
  pub count : s.card_count < 2 ^ 64
  pub cards : IsStoredMap s.card_set
  pub new_cards : IsStoredMap s.last_new_cards
  pub new_counts : AllValues (λ v. v < 2 ^ 64) s.last_new_cards
  pub index : IsI64 s.i
  pub last : IsStoredMap s.last_i
  pub last_values : AllValues IsI64 s.last_i
  pub today_fits : s.today < 2 ^ 64
  pub reviews : IsI64 s.today_reviews
  pub new_today : IsI64 s.today_new_cards
  pub first_days : IsStoredMap s.card2first_day_offset
  pub first_values : AllValues (λ v. v < 2 ^ 64) s.card2first_day_offset
  pub days : IsStoredMap s.card2elapsed_days_cumulative
  pub days_values : AllValues (λ v. v < 2 ^ 64) s.card2elapsed_days_cumulative
  pub seconds : IsStoredMap s.card2elapsed_seconds_cumulative
  pub seconds_values : AllValues (λ v. v < 2 ^ 64) s.card2elapsed_seconds_cumulative
  pub encodings : AreStored s.id_encodings
  pub rng : IsStored s.id_rng

-- A feature state whose floats have one NaN.
unfoldable pub canonical_features : FeatureState → FeatureState
canonical_features s = record s {
  first_day_offset = canonical_option s.first_day_offset;
  prev_day_offset = canonical_option s.prev_day_offset;
  today = canonical_f64 s.today;
  card2first_day_offset = map_values canonical_f64 s.card2first_day_offset;
  card2elapsed_days_cumulative = map_values canonical_f64 s.card2elapsed_days_cumulative;
  card2elapsed_seconds_cumulative = map_values canonical_f64 s.card2elapsed_seconds_cumulative;
  id_encodings = record {
    of_card = map_values canonical_values s.id_encodings.of_card;
    of_note = map_values canonical_values s.id_encodings.of_note;
    of_deck = map_values canonical_values s.id_encodings.of_deck;
    of_preset = map_values canonical_values s.id_encodings.of_preset;
  };
}

pub rng-restored : (r : Rng) → IsStored r → restored_rng (to_torch_rng_state_bytes r) ≡ ok r
unfolding restored_rng
rng-restored r h = rw (restored_rng, from-to_torch_rng_state r h)

module _ {T : Type 0} (ops : TensorOps T) where
  -- What a runtime becomes in a checkpoint: no flat states, the keys of its states, and one NaN.
  unfoldable pub canonical_runtime : Runtime T → Runtime T
  canonical_runtime r = assemble (canonical_features r.deterministic) (record {
    card_states = map_values (canonical_state ops) r.rnn.card_states;
    note_states = map_values (canonical_state ops) r.rnn.note_states;
    deck_states = map_values (canonical_state ops) r.rnn.deck_states;
    preset_states = map_values (canonical_state ops) r.rnn.preset_states;
    global_state = canonical_global ops r.rnn.global_state;
  })

  -- A runtime that a checkpoint can hold, with no flat states.
  pub record IsStoredRuntime (r : Runtime T) : Type 0 where
    pub features : IsStoredFeatures r.deterministic
    pub cards : IsStoredStates ops r.rnn.card_states
    pub notes : IsStoredStates ops r.rnn.note_states
    pub decks : IsStoredStates ops r.rnn.deck_states
    pub presets : IsStoredStates ops r.rnn.preset_states
    pub global : StoredOption ops r.rnn.global_state
    pub no_flat_states : r.flat_cpu_state ≡ no_flat
