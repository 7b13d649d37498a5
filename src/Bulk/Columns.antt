-- ===== src/Bulk/Columns.antt =====
-- The columns of a prepared row are those that the direct path computes
-- (rust/rwkv-srs-cpu/src/state.rs).
use rwkv_srs.State.Record.{
  record_processed_row, record_recurrent_state_update, record_recurrent_ids,
  record_processed_values,
}
use rwkv_srs.State.Direct.{
  process_features, query_features, direct_columns, process_features, lay_out,
}
use rwkv_srs.State.Rows.{
  get_f64, as_f64, prepare_predict_row, add_same, row_today, process_row, one_hot, get_i64, as_i64,
}
use rwkv_srs.State.Vector.{append_card_features, append_columns, append_day_offset_features}
use rwkv_srs.Review.{ReviewInput, F32, F64}
use rwkv_srs.State.{FeatureState, row_get, insert_all, row_insert, normalized_review_ids}
use rwkv_srs.Features.{FloatOps, CastsExact, zero_f64, one_f32, zero_f32, one_f64}
use rwkv_srs.Features
use rwkv_srs.Base.{
  ◌∙◌, Bool-cases, if◌then◌else◌, inl, inr, ◌++◌, eqb_ℤ, pos, ◌≡◌, refl, ok, ℤ, ℕ, List, [],
}

module _ (fl : FloatOps) (s : FeatureState) (input : ReviewInput) where
  open fl use {to_f32}

  predict_row_columns :
      let c = direct_columns fl s input in
      append_card_features fl (prepare_predict_row fl s input) [] ≡ (
        ok tt,
        lay_out c.front
            (to_f32 zero_f64)
            (λ index. to_f32 zero_f64)
            c.middle
            (to_f32 zero_f64)
            (to_f32 one_f64),
      )
  unfolding append_card_features append_columns get_f64 row_get as_f64 prepare_predict_row
      insert_all row_insert add_same row_today direct_columns
  predict_row_columns = refl

  process_row_columns :
      (rating : ℤ) (duration state : F64)
      → let c = direct_columns fl s input in
        append_card_features fl (process_row fl s input rating duration state) [] ≡ (
          ok tt,
          lay_out c.front
              (to_f32 (Features.scale_duration fl duration))
              (λ index. to_f32 (one_hot fl rating index))
              c.middle
              (to_f32 (Features.scale_state fl state))
              (to_f32 zero_f64),
        )
  unfolding append_card_features append_columns get_f64 row_get as_f64 process_row insert_all
      row_insert add_same row_today direct_columns
  process_row_columns rating duration state = refl

  -- The days of both rows.
  pub predict_row_days :
      (features : List F32)
      → append_day_offset_features fl (prepare_predict_row fl s input) features
        ≡ ok (
            features
            ++ Features.day_offset_encoding fl
                (direct_columns fl s input).day_offset
                (direct_columns fl s input).day_offset_first)
  unfolding append_day_offset_features get_f64 row_get as_f64 prepare_predict_row insert_all
      row_insert add_same direct_columns
  predict_row_days features = refl

  pub process_row_days :
      (rating : ℤ) (duration state : F64) (features : List F32)
      → append_day_offset_features fl (process_row fl s input rating duration state) features
        ≡ ok (
            features
            ++ Features.day_offset_encoding fl
                (direct_columns fl s input).day_offset
                (direct_columns fl s input).day_offset_first)
  unfolding append_day_offset_features get_f64 row_get as_f64 process_row insert_all row_insert
      add_same direct_columns
  process_row_days rating duration state features = refl

  -- Both records read the values of the input back.
  pub process_row-recorded :
      (rating : ℤ) (duration state : F64) (t : FeatureState)
      → record_processed_row fl t (process_row fl s input rating duration state)
        ≡ ok (
            record_processed_values fl t input.card_id input.elapsed_days input.elapsed_seconds
              (direct_columns fl s input).day_offset)
  unfolding record_processed_row get_i64 get_f64 row_get as_i64 as_f64 process_row insert_all
      row_insert add_same direct_columns
  process_row-recorded rating duration state t = refl

  pub process_row-recurrent :
      (rating : ℤ) (duration state : F64) (t : FeatureState)
      → record_recurrent_state_update fl t (process_row fl s input rating duration state)
        ≡ ok (record_recurrent_ids t (normalized_review_ids input))
  unfolding record_recurrent_state_update get_i64 row_get as_i64 process_row insert_all row_insert
      add_same normalized_review_ids
  process_row-recurrent rating duration state t = refl

  pub direct_columns-ids : (direct_columns fl s input).ids ≡ normalized_review_ids input
  unfolding direct_columns normalized_review_ids
  direct_columns-ids = refl

  module _ (exact : CastsExact fl) where
    cast_one_hot :
        (rating : ℤ) (index : ℕ)
        → to_f32 (one_hot fl rating index)
          ≡ (if eqb_ℤ rating (pos index) then one_f32 else zero_f32)
    unfolding one_hot
    cast_one_hot rating index = elim (Bool-cases (eqb_ℤ rating (pos index))) [
      | inl e ↦ rw (e, one_hot) exact.cast_one
      | inr e ↦ rw (e, one_hot) exact.cast_zero
    ]

    pub predict_columns :
        append_card_features fl (prepare_predict_row fl s input) []
        ≡ (ok tt, query_features fl (direct_columns fl s input))
    unfolding query_features
    predict_columns = predict_row_columns ∙ rw (exact.cast_zero, exact.cast_one) refl

    pub process_columns :
        (rating : ℤ) (duration state : F64)
        → append_card_features fl (process_row fl s input rating duration state) []
          ≡ (ok tt, process_features fl (direct_columns fl s input) rating duration state)
    unfolding process_features
    process_columns rating duration state =
        process_row_columns rating duration state
        ∙ rw
            (
              exact.cast_zero,
              cast_one_hot rating 1,
              cast_one_hot rating 2,
              cast_one_hot rating 3,
              cast_one_hot rating 4,
            )
            refl
