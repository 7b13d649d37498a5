-- ===== src/State/Record.antt =====
-- Recording a processed review: `record_recurrent_ids`, `record_processed_values` and the versions
-- that read a prepared row (rust/rwkv-srs-cpu/src/state.rs).
use rwkv_srs.Base.{
  ◌+◌, ◌%◌, ◌^◌, ℤ, pos, negsuc, not, true, some, Result, ok, ◌>>=◌, unwrap_or, if◌then◌else◌,
}
use rwkv_srs.Map.{Map, get, has, insert, set_insert}
use rwkv_srs.Review.{F64}
use rwkv_srs.Features.{FloatOps, zero_f64}
use rwkv_srs.State.{FeatureState, PreparedRow, StateError, ReviewIds, increment}
use rwkv_srs.State.Rows.{get_f64, get_i64}

unfoldable pub record_recurrent_ids : FeatureState → ReviewIds → FeatureState
record_recurrent_ids s ids =
    let keys = s.recurrent_state_keys in
    record s {
      recurrent_state_keys = record {
        card_states = set_insert ids.0 keys.card_states;
        note_states = set_insert ids.1 keys.note_states;
        deck_states = set_insert ids.2 keys.deck_states;
        preset_states = set_insert ids.3 keys.preset_states;
        global_state = true;
      };
    }

module _ (fl : FloatOps) where
  open fl use {add, sub, feq}

  -- `*map.entry(key).or_insert(0.0) += value`
  unfoldable pub accumulate : ℤ → F64 → Map F64 → Map F64
  accumulate k value m = insert k (add (unwrap_or (get k m) zero_f64) value) m

  -- The two sums, and the first day.
  unfoldable pub add_elapsed : FeatureState → ℤ → F64 → F64 → F64 → FeatureState
  unfolding accumulate
  add_elapsed s card_id elapsed_days elapsed_seconds day_offset = record s {
    card2elapsed_days_cumulative = accumulate card_id elapsed_days s.card2elapsed_days_cumulative;
    card2elapsed_seconds_cumulative =
        accumulate card_id elapsed_seconds s.card2elapsed_seconds_cumulative;
    first_day_offset = some (unwrap_or s.first_day_offset day_offset);
  }

  -- A new day resets the counters of the day; then the review counts.
  unfoldable pub start_day : FeatureState → F64 → FeatureState
  start_day s day_offset =
      if not (feq day_offset s.today)
      then record s {
        today = day_offset;
        today_new_cards = pos 0;
        today_reviews = increment (negsuc 0);
      }
      else record s { today_reviews = increment s.today_reviews }

  -- A card that was not seen before.
  unfoldable pub admit_card : FeatureState → ℤ → F64 → FeatureState
  admit_card s card_id day_offset =
      if not (has card_id s.card_set)
      then record s {
        today_new_cards = increment s.today_new_cards;
        card_set = set_insert card_id s.card_set;
        card_count = (s.card_count + 1) % 2 ^ 64;
        card2first_day_offset =
            insert card_id (sub day_offset (unwrap_or s.first_day_offset day_offset))
              s.card2first_day_offset;
      }
      else s

  -- The positions of the card in the review and card counts.
  unfoldable pub mark_card : FeatureState → ℤ → F64 → FeatureState
  mark_card s card_id day_offset = record s {
    prev_day_offset = some day_offset;
    last_i = insert card_id s.i s.last_i;
    last_new_cards = insert card_id s.card_count s.last_new_cards;
    i = increment s.i;
  }

  -- The first day is set when `admit_card` reads it, so its `expect` does not fail.
  unfoldable pub record_processed_values : FeatureState → ℤ → F64 → F64 → F64 → FeatureState
  unfolding add_elapsed start_day admit_card mark_card
  record_processed_values s card_id elapsed_days elapsed_seconds day_offset =
      let added = add_elapsed s card_id elapsed_days elapsed_seconds day_offset in
      mark_card (admit_card (start_day added day_offset) card_id day_offset) card_id day_offset

  unfoldable pub record_recurrent_state_update :
      FeatureState → PreparedRow → Result StateError FeatureState
  unfolding record_recurrent_ids
  record_recurrent_state_update s row = do
    card_id ← get_i64 fl row "card_id"
    note_id ← get_i64 fl row "note_id"
    deck_id ← get_i64 fl row "deck_id"
    preset_id ← get_i64 fl row "preset_id"
    ok (record_recurrent_ids s (card_id, note_id, deck_id, preset_id))

  unfoldable pub record_processed_row : FeatureState → PreparedRow → Result StateError FeatureState
  unfolding record_processed_values
  record_processed_row s row = do
    card_id ← get_i64 fl row "card_id"
    elapsed_days ← get_f64 fl row "elapsed_days"
    elapsed_seconds ← get_f64 fl row "elapsed_seconds"
    day_offset ← get_f64 fl row "day_offset"
    ok (record_processed_values s card_id elapsed_days elapsed_seconds day_offset)
