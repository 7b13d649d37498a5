-- ===== src/Tests.antt =====
-- Runs of the model at concrete inputs, and one instance of each theorem that has hypotheses.
pub mod Sessions
pub mod Batches
pub mod Checkpoints
use rwkv_srs.Undo.{Rnn}
use rwkv_srs.Undo.Recurrent.{ReviewStates, IsSortedRnn, store_all, restore-store_all}
use rwkv_srs.Bulk.Direct.{SamePrediction, direct_predict_features-SamePrediction}
use rwkv_srs.Map.{get, insert}
use rwkv_srs.State.Direct.{
  append_process_feature_pair, append_process_feature_rows, append_rows, direct_columns,
  query_features, process_features, stored_encodings, ensure_encodings, finish_process_rows,
  direct_predict_features,
}
use rwkv_srs.Bulk.Pair.{SameStep, append_process_feature_pair-SameStep}
use rwkv_srs.Wire.RoundTrip.{parse-pack_process_review_payload}
use rwkv_srs.State.Panics.{predict_feature_vector-state}
use rwkv_srs.Undo.Restores.{identities, restore-capture_identities}
use rwkv_srs.State.Record.{record_recurrent_ids}
use rwkv_srs.Bulk.Rollback.{run_transaction-atomic}
use rwkv_srs.Bulk.Panics.{feature_prepass-IsReady}
use rwkv_srs.Undo.Process.{Covers, record_recurrent_ids-StateTouches}
use rwkv_srs.Wire.Packed.{IsProcessRow}
use rwkv_srs.State.Rows.{prepare_predict_row}
use rwkv_srs.Rng.Torch.{from_torch_rng_state, to_torch_rng_state_bytes}
use rwkv_srs.Undo.Batch.{
  BatchIdentitySets, restore_deterministic, keys, capture_identities, restore_recurrent,
  capture_recurrent_identities, from_ids,
}
use rwkv_srs.Rng.RoundTrip.{IsStored, from_torch_rng_state-panics, from-to_torch_rng_state}
use rwkv_srs.State.Vector.{predict_feature_vector}
use rwkv_srs.Bulk.{run_transaction, feature_prepass, feature_prepass_step}
use rwkv_srs.State.Direct.{process_features}
use rwkv_srs.Features
use rwkv_srs.Wire.Process.{pack_process_review_payload, parse_process_review_payload}
use rwkv_srs.Rng.{Rng, seed_from_u64, random_u32, id_encoding}
use rwkv_srs.Review.{is_finite, F32, ReviewInput, missing, present}
use rwkv_srs.Features.{FloatOps, CastsExact, one_f64, zero_f64, one_f32, id_placeholder}
use rwkv_srs.Rng.Safe.{
  IsReady, Draws, seed_from_u64-IsReady, random_u32-IsReady, id_encoding-IsReady,
}
use rwkv_srs.Undo.Touch.{IsSortedState, StateTouches-refl}
use rwkv_srs.State.{FeatureState, ReviewIds, with_torch_seed, normalize_id, is_panic}
use rwkv_srs.Base.{
  map, ◌++◌, none, ◌≡◌, refl, ok, pos, ℕ, List, [], ◌∷◌, ◌==◌, true, false, inl, some, none, arith,
  if◌then◌else◌, ◌≢◌, ◌+◌, ◌-◌, is_ok, length, ◌*◌, ◌<◌, ◌&&◌, pos_part, ◌^◌, ◌/◌, replicate,
  Option,
}

-- A stand-in for the arithmetic of the machine, on bit patterns: only the casts of 0.0 and 1.0 are
-- those of IEEE 754.
abbrev pub sample_ops : FloatOps
sample_ops = record {
  add = λ a b. a + b;
  sub = λ a b. a - b;
  mul = λ a b. a + b;
  div = λ a b. a - b;
  rem = λ a b. a - b;
  ln = λ a. a;
  sin = λ a. a;
  cos = λ a. a;
  feq = λ a b. a == b;
  of_i64 = pos_part;
  to_f32 = λ a. if a == one_f64 then one_f32 else a / 2 ^ 32;
  to_i64 = λ a. pos a;
  is_integral = λ a. true;
}

sample_exact : CastsExact sample_ops
sample_exact = record { cast_zero = refl; cast_one = refl }

abbrev pub sample_input : ReviewInput
sample_input = record {
  review_id = pos 7;
  card_id = pos 1;
  note_id = missing;
  deck_id = present (pos 3);
  preset_id = missing;
  day_offset = one_f64;
  elapsed_days = zero_f64;
  elapsed_seconds = one_f64;
  rating = some (pos 3);
  duration = some one_f64;
  state = some zero_f64;
}

abbrev fresh : FeatureState
fresh = with_torch_seed 12345

-- The state of a new runtime keeps its (empty) maps sorted.
fresh-IsSortedState : IsSortedState fresh
unfolding with_torch_seed
fresh-IsSortedState = record {
  card_set = tt;
  last_new_cards = tt;
  last_i = tt;
  first_days = tt;
  day_sums = tt;
  second_sums = tt;
  encoded_cards = tt;
  encoded_notes = tt;
  encoded_decks = tt;
  encoded_presets = tt;
  card_keys = tt;
  note_keys = tt;
  deck_keys = tt;
  preset_keys = tt;
}

run_transaction-atomic_example : (run_transaction sample_ops fresh (sample_input ∷ []) false).1 ≡ (
    if is_ok (feature_prepass sample_ops fresh (sample_input ∷ [])).0 && false
    then (feature_prepass sample_ops fresh (sample_input ∷ [])).1
    else fresh)
run_transaction-atomic_example =
    run_transaction-atomic sample_ops fresh (sample_input ∷ []) false fresh-IsSortedState

fresh-IsReady : IsReady fresh.id_rng
unfolding with_torch_seed
fresh-IsReady = seed_from_u64-IsReady 12345

feature_prepass-IsReady_example :
    (is_panic (feature_prepass sample_ops fresh (sample_input ∷ [])).0 ≡ false)
    × IsReady (feature_prepass sample_ops fresh (sample_input ∷ [])).1.id_rng
feature_prepass-IsReady_example =
    feature_prepass-IsReady sample_ops (sample_input ∷ []) fresh fresh-IsReady

predict_feature_vector-state_example :
    (is_panic
        (predict_feature_vector sample_ops fresh
          (prepare_predict_row sample_ops fresh sample_input)).0
      ≡ false)
    × ((predict_feature_vector sample_ops fresh
          (prepare_predict_row sample_ops fresh sample_input)).1
        ≡ fresh)
predict_feature_vector-state_example =
    predict_feature_vector-state sample_ops (prepare_predict_row sample_ops fresh sample_input)
      fresh fresh-IsReady

-- Journals.
abbrev sample_ids : ReviewIds
sample_ids = (pos 1, pos 2, pos 3, pos 4)

abbrev sample_sets : BatchIdentitySets
sample_sets = record {
  card_ids = (pos 1, tt) ∷ [];
  note_ids = (pos 2, tt) ∷ [];
  deck_ids = (pos 3, tt) ∷ [];
  preset_ids = (pos 4, tt) ∷ [];
}

sample-Covers : Covers (identities sample_sets) sample_ids
unfolding keys
sample-Covers = record {
  on_cards = inl refl;
  on_notes = inl refl;
  on_decks = inl refl;
  on_presets = inl refl;
}

restore-capture_identities_example :
    restore_deterministic
      (capture_identities fresh sample_sets)
      (record_recurrent_ids fresh sample_ids)
    ≡ fresh
restore-capture_identities_example =
    restore-capture_identities sample_sets fresh (record_recurrent_ids fresh sample_ids)
      fresh-IsSortedState
      (record_recurrent_ids-StateTouches (identities sample_sets) fresh sample_ids sample-Covers
        fresh (StateTouches-refl (identities sample_sets) fresh fresh-IsSortedState))

-- The generator.
random_u32-IsReady_example : Draws (random_u32 (seed_from_u64 12345))
random_u32-IsReady_example = random_u32-IsReady (seed_from_u64 12345) (seed_from_u64-IsReady 12345)

id_encoding-IsReady_example :
    (ys : List F32) × (r' : Rng) × (id_encoding (seed_from_u64 12345) 12 ≡ some (ys, r'))
    × (length ys ≡ 12)
    × IsReady r'
id_encoding-IsReady_example =
    id_encoding-IsReady 12 (seed_from_u64 12345) (seed_from_u64-IsReady 12345)

seed_from_u64-IsReady_example : IsReady (seed_from_u64 12345)
seed_from_u64-IsReady_example = seed_from_u64-IsReady 12345

pub seeded-IsStored : IsStored (seed_from_u64 12345)
unfolding seed_from_u64
seeded-IsStored = record {
  seed_fits = omega arith;
  left_fits = omega arith;
  next_fits = omega arith;
  array = (seed_from_u64-IsReady 12345).array;
}

from-to_torch_rng_state_example :
    from_torch_rng_state (to_torch_rng_state_bytes (seed_from_u64 12345)) ≡ ok (seed_from_u64 12345)
from-to_torch_rng_state_example = from-to_torch_rng_state (seed_from_u64 12345) seeded-IsStored

abbrev exhausted : Rng
exhausted = record { seed = 0; left = 2; next = 624; state = (seed_from_u64 0).state }

exhausted-IsStored : IsStored exhausted
exhausted-IsStored = record {
  seed_fits = omega arith;
  left_fits = omega arith;
  next_fits = omega arith;
  array = (seed_from_u64-IsReady 0).array;
}

left-ne-one : exhausted.left ≢ 1
left-ne-one = omega arith

from_torch_rng_state-panics_example :
    (from_torch_rng_state (to_torch_rng_state_bytes exhausted) ≡ ok exhausted)
    × (random_u32 exhausted ≡ none)
from_torch_rng_state-panics_example =
    from_torch_rng_state-panics exhausted exhausted-IsStored refl left-ne-one

-- The payload.
sample-IsProcessRow : IsProcessRow sample_input
unfolding is_finite
sample-IsProcessRow = record {
  base = record {
    review = (omega arith, omega arith);
    card = (omega arith, omega arith);
    note = tt;
    deck = (omega arith, omega arith);
    preset = tt;
    day = record { fits = omega arith; finite = refl };
    days = record { fits = omega arith; finite = refl };
    seconds = record { fits = omega arith; finite = refl };
  };
  rating = pos 3;
  duration = one_f64;
  state = zero_f64;
  has_rating = refl;
  has_duration = refl;
  has_state = refl;
  rating_fits = (omega arith, omega arith);
  duration_finite = record { fits = omega arith; finite = refl };
  state_finite = record { fits = omega arith; finite = refl };
}

sample_fits : 16 + 112 * length (sample_input ∷ []) < 2 ^ 64
sample_fits = omega arith

parse-pack_process_review_payload_example :
    (payload : List ℕ) × (pack_process_review_payload (sample_input ∷ []) ≡ some payload)
    × (length payload ≡ 16 + 112 * length (sample_input ∷ []))
    × (parse_process_review_payload payload ≡ ok (sample_input ∷ []))
parse-pack_process_review_payload_example =
    parse-pack_process_review_payload (sample_input ∷ []) (sample-IsProcessRow, tt) sample_fits

-- The fast path on one review, with a generator that does not have to refill.
abbrev steady : FeatureState
steady = record fresh {
  id_rng = record { seed = 0; left = 600; next = 0; state = replicate 624 7 };
}

abbrev named_input : ReviewInput
named_input = record sample_input { note_id = present (pos 2); preset_id = present (pos 4) }

steady_pair : (append_process_feature_pair sample_ops steady named_input []).outcome ≡ ok sample_ids
unfolding append_process_feature_pair append_process_feature_rows append_rows query_features
    process_features stored_encodings ensure_encodings finish_process_rows with_torch_seed get
    id_encoding insert Features.day_offset_encoding Features.encode_periods direct_columns
    normalize_id
steady_pair = refl

append_process_feature_pair-SameStep_example :
    SameStep steady []
      (append_process_feature_pair sample_ops steady named_input [])
      (feature_prepass_step sample_ops steady named_input)
append_process_feature_pair-SameStep_example =
    append_process_feature_pair-SameStep sample_ops sample_exact steady named_input [] steady_pair

-- The state after that review, where the next prediction for the card takes the direct path.
abbrev reviewed : FeatureState
reviewed = (append_process_feature_pair sample_ops steady named_input []).state

direct_predict_features-SamePrediction_example :
    SamePrediction sample_ops reviewed named_input
      (direct_predict_features sample_ops reviewed named_input)
direct_predict_features-SamePrediction_example =
    direct_predict_features-SamePrediction sample_ops reviewed named_input sample_exact

-- Recurrent states that are numbers, before a batch of three rows that fails at the third.
abbrev sample_rnn : Rnn ℕ
sample_rnn = record {
  card_states = (pos 1, 10) ∷ (pos 5, 50) ∷ [];
  note_states = [];
  deck_states = (pos 3, 30) ∷ [];
  preset_states = [];
  global_state = none;
}

sample_rnn-IsSortedRnn : IsSortedRnn sample_rnn
sample_rnn-IsSortedRnn = record {
  cards = ((omega arith, tt), (tt, tt));
  notes = tt;
  decks = (tt, tt);
  presets = tt;
}

abbrev stored_rows : List (ReviewIds × ReviewStates ℕ)
stored_rows = (sample_ids, (11, 12, 13, 14, 15)) ∷ (sample_ids, (21, 22, 23, 24, 25)) ∷ []

abbrev failing_row : ReviewIds
failing_row = (pos 5, pos 6, pos 7, pos 8)

restore-store_all_example :
    restore_recurrent
      (capture_recurrent_identities sample_rnn
        (from_ids (map (λ row. row.0) stored_rows ++ failing_row ∷ [])))
      (store_all sample_rnn stored_rows)
    ≡ sample_rnn
restore-store_all_example =
    restore-store_all sample_rnn stored_rows (failing_row ∷ []) sample_rnn-IsSortedRnn

-- The first two encodings from the seed 12345, as the unit test of id_encoding.rs has them.
abbrev values_of : Option (List F32 × Rng) → List F32
values_of none = []
values_of (some (ys, _)) = ys

seeded_encoding :
    values_of (id_encoding (seed_from_u64 12345) 24)
    ≡ 0x3f00_0000 ∷ 0xbf00_0000 ∷ 0xbf00_0000 ∷ 0xbf00_0000 ∷ 0xbfc0_0000 ∷ 0xbf00_0000
      ∷ 0x3f00_0000 ∷ 0x3f00_0000 ∷ 0xbf00_0000 ∷ 0x3f00_0000 ∷ 0xbf00_0000 ∷ 0xbf00_0000
      ∷ 0x3f00_0000 ∷ 0xbf00_0000 ∷ 0x3fc0_0000 ∷ 0x3f00_0000 ∷ 0xbf00_0000 ∷ 0x3fc0_0000
      ∷ 0x3fc0_0000 ∷ 0x3f00_0000 ∷ 0xbfc0_0000 ∷ 0x3f00_0000 ∷ 0xbf00_0000 ∷ 0x3fc0_0000 ∷ []
unfolding id_encoding seed_from_u64
seeded_encoding = refl
