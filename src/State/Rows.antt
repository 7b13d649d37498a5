-- ===== src/State/Rows.antt =====
-- Prepared rows: `add_same`, `prepare_predict_row`, `prepare_process_row` and the typed reads of a
-- row (rust/rwkv-srs-cpu/src/state.rs).
use Prim.Native.String.{String}
use rwkv_srs.Base.{
  ℕ, ℤ, pos, negsuc, eqb_ℤ, not, true, false, none, some, [], ◌∷◌, Result, ok, err, ◌>>=◌, ok_or,
  unwrap_or, if◌then◌else◌,
}
use rwkv_srs.Map.{get, has}
use rwkv_srs.Review.{F64, ReviewInput}
use rwkv_srs.Features
use rwkv_srs.Features.{FloatOps, zero_f64, one_f64, three_f64, seven_f64}
use rwkv_srs.State.{
  FeatureState, PreparedRow, RowValue, boolean, float, int, row_get, insert_all, StateError,
  not_numeric, not_an_integer, missing_field, no_rating, no_duration, no_state, normalize_id,
  max_zero, count_since, reviews_since, increment,
}

module _ (fl : FloatOps) where
  open fl use {add, sub, div, feq, of_i64, to_i64, is_integral}

  unfoldable pub as_f64 : String → RowValue → Result StateError F64
  as_f64 field (float v) = ok v
  as_f64 field (int v) = ok (of_i64 v)
  as_f64 field (boolean b) = err (not_numeric field)

  unfoldable pub as_i64 : String → RowValue → Result StateError ℤ
  as_i64 field (int v) = ok v
  as_i64 field (float v) = if is_integral v then ok (to_i64 v) else err (not_an_integer field)
  as_i64 field (boolean b) = err (not_an_integer field)

  unfoldable pub get_f64 : PreparedRow → String → Result StateError F64
  unfolding as_f64 row_get
  get_f64 row field = do value ← ok_or (row_get field row) (missing_field field); as_f64 field value

  unfoldable pub get_i64 : PreparedRow → String → Result StateError ℤ
  unfolding as_i64 row_get
  get_i64 row field = do value ← ok_or (row_get field row) (missing_field field); as_i64 field value

  -- The counters of the day, as the row sees them.
  unfoldable pub row_today : FeatureState → F64 → ℤ → ℤ × ℤ
  row_today s day_offset card_id =
      let reviews = if not (feq day_offset s.today) then negsuc 0 else s.today_reviews in
      let fresh = if not (feq day_offset s.today) then pos 0 else s.today_new_cards in
      (increment reviews, if not (has card_id s.card_set) then increment fresh else fresh)

  unfoldable pub add_same : FeatureState → ReviewInput → PreparedRow
  unfolding row_today insert_all
  add_same s input =
      let card_id = input.card_id in
      let days =
        add (unwrap_or (get card_id s.card2elapsed_days_cumulative) zero_f64) input.elapsed_days in
      let seconds =
        add (unwrap_or (get card_id s.card2elapsed_seconds_cumulative) zero_f64)
          input.elapsed_seconds in
      let day_offset : F64 = elim s.first_day_offset [
        | some first ↦ sub input.day_offset first
        | none ↦ zero_f64
      ] in
      let day_offset_first = unwrap_or (get card_id s.card2first_day_offset) day_offset in
      let (note_id, note_missing) = normalize_id input.note_id (some card_id) in
      let (deck_id, deck_missing) = normalize_id input.deck_id none in
      let (preset_id, preset_missing) = normalize_id input.preset_id none in
      let previous = unwrap_or s.prev_day_offset zero_f64 in
      let diff_new_cards : F64 = of_i64 (
        max_zero (elim (get card_id s.last_new_cards) [
          | some last ↦ count_since s.card_count last
          | none ↦ pos 0
        ])) in
      let diff_reviews : F64 =
        of_i64
          (elim (get card_id s.last_i) [ some last ↦ reviews_since s.i last | none ↦ pos 0 ]) in
      let (today_reviews, today_new_cards) = row_today s day_offset card_id in
      insert_all
        (("review_id", int input.review_id)
          ∷ ("card_id", int card_id)
          ∷ ("note_id", int note_id)
          ∷ ("deck_id", int deck_id)
          ∷ ("preset_id", int preset_id)
          ∷ ("day_offset", float day_offset)
          ∷ ("day_offset_first", float day_offset_first)
          ∷ ("elapsed_days", float input.elapsed_days)
          ∷ ("elapsed_days_cumulative", float days)
          ∷ (
            "scaled_elapsed_days_cumulative",
            float (Features.scale_elapsed_days_cumulative fl days),
          )
          ∷ ("elapsed_seconds", float input.elapsed_seconds)
          ∷ (
            "scaled_elapsed_seconds",
            float (Features.scale_elapsed_seconds fl input.elapsed_seconds),
          )
          ∷ ("scaled_elapsed_days", float (Features.scale_elapsed_days fl input.elapsed_days))
          ∷ ("elapsed_seconds_cumulative", float seconds)
          ∷ (
            "scaled_elapsed_seconds_cumulative",
            float (Features.scale_elapsed_seconds_cumulative fl seconds),
          )
          ∷ ("elapsed_seconds_sin", float (Features.elapsed_seconds_sin fl input.elapsed_seconds))
          ∷ ("elapsed_seconds_cos", float (Features.elapsed_seconds_cos fl input.elapsed_seconds))
          ∷ ("elapsed_seconds_cumulative_sin", float (Features.elapsed_seconds_sin fl seconds))
          ∷ ("elapsed_seconds_cumulative_cos", float (Features.elapsed_seconds_cos fl seconds))
          ∷ ("note_id_is_nan", float note_missing)
          ∷ ("deck_id_is_nan", float deck_missing)
          ∷ ("preset_id_is_nan", float preset_missing)
          ∷ ("day_offset_diff", float (Features.scale_day_offset_diff fl (sub day_offset previous)))
          ∷ (
            "day_of_week",
            float (div (sub (Features.py_mod fl day_offset seven_f64) three_f64) three_f64),
          )
          ∷ ("diff_new_cards", float (Features.scale_diff_new_cards fl diff_new_cards))
          ∷ ("diff_reviews", float (Features.scale_diff_reviews fl diff_reviews))
          ∷ (
            "cum_new_cards_today",
            float (Features.scale_cum_new_cards_today fl (of_i64 today_new_cards)),
          )
          ∷ (
            "cum_reviews_today",
            float (Features.scale_cum_reviews_today fl (of_i64 today_reviews)),
          )
          ∷ [])
        []

  unfoldable pub prepare_predict_row : FeatureState → ReviewInput → PreparedRow
  unfolding add_same insert_all
  prepare_predict_row s input =
      insert_all
        (("is_query", float one_f64)
          ∷ ("skip", boolean true)
          ∷ ("scaled_duration", float zero_f64)
          ∷ ("scaled_state", float zero_f64)
          ∷ ("rating_1", float zero_f64)
          ∷ ("rating_2", float zero_f64)
          ∷ ("rating_3", float zero_f64)
          ∷ ("rating_4", float zero_f64)
          ∷ [])
        (add_same s input)

  -- 1.0 in the column of the rating
  unfoldable pub one_hot : ℤ → ℕ → F64
  one_hot rating index = if eqb_ℤ rating (pos index) then one_f64 else zero_f64

  -- The row of a review whose outcome is known.
  unfoldable pub process_row : FeatureState → ReviewInput → ℤ → F64 → F64 → PreparedRow
  unfolding add_same one_hot insert_all
  process_row s input rating duration state =
      insert_all
        (("is_query", float zero_f64)
          ∷ ("skip", boolean false)
          ∷ ("scaled_duration", float (Features.scale_duration fl duration))
          ∷ ("scaled_state", float (Features.scale_state fl state))
          ∷ ("rating_1", float (one_hot rating 1))
          ∷ ("rating_2", float (one_hot rating 2))
          ∷ ("rating_3", float (one_hot rating 3))
          ∷ ("rating_4", float (one_hot rating 4))
          ∷ [])
        (add_same s input)

  unfoldable pub prepare_process_row : FeatureState → ReviewInput → Result StateError PreparedRow
  prepare_process_row s input = do
    rating ← ok_or input.rating no_rating
    duration ← ok_or input.duration no_duration
    state ← ok_or input.state no_state
    ok (process_row s input rating duration state)
