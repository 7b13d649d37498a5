-- ===== src/Bulk/Panics.antt =====
-- From a generator in order the feature pass over a batch does not panic: `feature_prepass_step` and
-- its loop (rust/rwkv-srs-cpu/src/model/bulk.rs).
use rwkv_srs.State.Vector.{process_feature_vector, predict_feature_vector, feature_vector}
use rwkv_srs.Rng.Safe.{IsReady}
use rwkv_srs.State.Panics.{
  >>=-calm, get_i64-calm, predict_feature_vector-state, get_f64-calm, feature_vector-calm,
}
use rwkv_srs.Review.{ReviewInput, F64, F32}
use rwkv_srs.State.{is_panic, FeatureState, is_panicked, PreparedRow, ReviewIds}
use rwkv_srs.State.Rows.{prepare_process_row, as_i64, prepare_predict_row, get_i64, get_f64}
use rwkv_srs.State.Record.{
  record_processed_values, record_processed_row, record_recurrent_state_update, add_elapsed,
  start_day, admit_card, mark_card, record_recurrent_ids,
}
use rwkv_srs.Bulk.{
  review_ids_from_prepared, PreparedRow, FeatureState, ReviewInput, prepared_i64, feature_prepass,
  record_step, feature_prepass_step, process_step, process_feature_vector, as_i64,
  prepare_predict_row, BulkFeatureStep, String, ReviewIds, predict_feature_vector, F32,
}
use rwkv_srs.Features.{FloatOps}
use rwkv_srs.State.{StateError}
use rwkv_srs.Base.{
  ◌≡◌, refl, ok, ℤ, List, [], ◌∷◌, true, false, arith, inl, inr, Result-cases, Result, >>=-split,
  ok-injective,
}

module _ (fl : FloatOps) where
  prepared_i64-calm :
      (row : PreparedRow) (field : String) → is_panic (prepared_i64 fl row field) ≡ false
  unfolding prepared_i64 as_i64 is_panic is_panicked
  prepared_i64-calm row field = ground arith

  review_ids_from_prepared-calm :
      (row : PreparedRow) → is_panic (review_ids_from_prepared fl row) ≡ false
  unfolding review_ids_from_prepared is_panic
  review_ids_from_prepared-calm row = >>=-calm _ _ (prepared_i64-calm row "card_id") (λ card.
      >>=-calm _ _ (prepared_i64-calm row "note_id") (λ note.
        >>=-calm _ _ (prepared_i64-calm row "deck_id")
          (λ deck. >>=-calm _ _ (prepared_i64-calm row "preset_id") (λ preset. refl))))

  prepare_process_row-calm :
      (s : FeatureState) (input : ReviewInput) → is_panic (prepare_process_row fl s input) ≡ false
  unfolding prepare_process_row is_panic is_panicked
  prepare_process_row-calm s input = ground arith

  record_recurrent_state_update-calm :
      (s : FeatureState) (row : PreparedRow)
      → is_panic (record_recurrent_state_update fl s row) ≡ false
  unfolding record_recurrent_state_update is_panic
  record_recurrent_state_update-calm s row = >>=-calm _ _ (get_i64-calm fl row "card_id") (λ card.
      >>=-calm _ _ (get_i64-calm fl row "note_id") (λ note.
        >>=-calm _ _ (get_i64-calm fl row "deck_id")
          (λ deck. >>=-calm _ _ (get_i64-calm fl row "preset_id") (λ preset. refl))))

  record_processed_row-calm :
      (s : FeatureState) (row : PreparedRow) → is_panic (record_processed_row fl s row) ≡ false
  unfolding record_processed_row is_panic
  record_processed_row-calm s row = >>=-calm _ _ (get_i64-calm fl row "card_id") (λ card.
      >>=-calm _ _ (get_f64-calm fl row "elapsed_days") (λ days.
        >>=-calm _ _ (get_f64-calm fl row "elapsed_seconds")
          (λ seconds. >>=-calm _ _ (get_f64-calm fl row "day_offset") (λ day. refl))))

  record_processed_values-id_rng :
      (s : FeatureState) (card_id : ℤ) (days seconds day : F64)
      → (record_processed_values fl s card_id days seconds day).id_rng ≡ s.id_rng
  unfolding record_processed_values add_elapsed start_day admit_card mark_card
  record_processed_values-id_rng s card_id days seconds day = ground arith

  record_processed_row-id_rng :
      (s t : FeatureState) (row : PreparedRow)
      → record_processed_row fl s row ≡ ok t
      → t.id_rng ≡ s.id_rng
  unfolding record_processed_row
  record_processed_row-id_rng s t row e =
      let (card, _, e0) = >>=-split (get_i64 fl row "card_id") _ e in
      let (days, _, e1) = >>=-split (get_f64 fl row "elapsed_days") _ e0 in
      let (seconds, _, e2) = >>=-split (get_f64 fl row "elapsed_seconds") _ e1 in
      let (day, _, e3) = >>=-split (get_f64 fl row "day_offset") _ e2 in
      rw (← ok-injective e3) (record_processed_values-id_rng s card days seconds day)

  record_recurrent_state_update-id_rng :
      (s t : FeatureState) (row : PreparedRow)
      → record_recurrent_state_update fl s row ≡ ok t
      → t.id_rng ≡ s.id_rng
  unfolding record_recurrent_state_update record_recurrent_ids
  record_recurrent_state_update-id_rng s t row e =
      let (card, _, e0) = >>=-split (get_i64 fl row "card_id") _ e in
      let (note, _, e1) = >>=-split (get_i64 fl row "note_id") _ e0 in
      let (deck, _, e2) = >>=-split (get_i64 fl row "deck_id") _ e1 in
      let (preset, _, e3) = >>=-split (get_i64 fl row "preset_id") _ e2 in
      rw (← ok-injective e3) refl

  -- What a call leaves behind that does not panic and keeps the generator in order.
  abbrev Calm : {A : Type 0} → Result StateError A × FeatureState → Type 0
  Calm r = (is_panic r.0 ≡ false) × IsReady r.1.id_rng

  record_step-Calm :
      (s : FeatureState) (row : PreparedRow) (step : BulkFeatureStep)
      → IsReady s.id_rng
      → Calm (record_step fl s row step)
  unfolding record_step is_panic
  record_step-Calm s row step h = elim (Result-cases (record_recurrent_state_update fl s row)) [
    | inl (e, f) ↦ rw (f, record_step) (rw f at (record_recurrent_state_update-calm s row), h)
    | inr (t, f) ↦
        let same = record_recurrent_state_update-id_rng s t row f in
        elim (Result-cases (record_processed_row fl t row)) [
          | inl (e, g) ↦
              rw (f, g, record_step) (rw g at (record_processed_row-calm t row), rw same h)
          | inr (u, g) ↦
              rw (f, g, record_step) (refl, rw (record_processed_row-id_rng t u row g, same) h)
        ]
  ]

  process_step-Calm :
      (s : FeatureState) (input : ReviewInput) (ids : ReviewIds) (features : List F32)
      → IsReady s.id_rng
      → Calm (process_step fl s input ids features)
  unfolding process_step process_feature_vector is_panic
  process_step-Calm s input ids features h = elim (Result-cases (prepare_process_row fl s input)) [
    | inl (e, f) ↦ rw (f, process_step) (rw f at (prepare_process_row-calm s input), h)
    | inr (row, f) ↦
        let (calm, ready) = feature_vector-calm fl row true s h in
        elim (Result-cases (feature_vector fl s row true).0) [
          | inl (e, g) ↦ rw (f, g, process_step) (rw g at calm, ready)
          | inr (v, g) ↦ rw (f, g, process_step) (record_step-Calm _ row _ ready)
        ]
  ]

  feature_prepass_step-Calm :
      (s : FeatureState) (input : ReviewInput)
      → IsReady s.id_rng
      → Calm (feature_prepass_step fl s input)
  unfolding feature_prepass_step is_panic
  feature_prepass_step-Calm s input h =
      let row = prepare_predict_row fl s input in
      let (calm, same) = predict_feature_vector-state fl row s h in
      elim (Result-cases (review_ids_from_prepared fl row)) [
        | inl (e, f) ↦ rw (f, feature_prepass_step) (rw f at (review_ids_from_prepared-calm row), h)
        | inr (ids, f) ↦ elim (Result-cases (predict_feature_vector fl s row).0) [
          | inl (e, g) ↦ rw (f, g, feature_prepass_step) (rw g at calm, rw same h)
          | inr (v, g) ↦
              rw (f, g, feature_prepass_step) (process_step-Calm _ input ids v (rw same h))
        ]
      ]

  -- From a state whose generator is in order, the feature pass over any batch does not panic, and
  -- whether it succeeds or fails it leaves the generator in order.
  pub feature_prepass-IsReady :
      (inputs : List ReviewInput) (s : FeatureState)
      → IsReady s.id_rng
      → (is_panic (feature_prepass fl s inputs).0 ≡ false)
        × IsReady (feature_prepass fl s inputs).1.id_rng
  unfolding feature_prepass is_panic
  feature_prepass-IsReady [] s h = (refl, h)
  feature_prepass-IsReady (input ∷ inputs) s h =
      let (calm, ready) = feature_prepass_step-Calm s input h in
      let (calm', ready') =
        feature_prepass-IsReady inputs (feature_prepass_step fl s input).1 ready in
      elim (Result-cases (feature_prepass_step fl s input).0) [
        | inl (e, f) ↦ rw (f, feature_prepass) (rw f at calm, ready)
        | inr (step, f) ↦
            elim (Result-cases (feature_prepass fl (feature_prepass_step fl s input).1 inputs).0) [
              | inl (e, g) ↦ rw (f, g, feature_prepass) (rw g at calm', ready')
              | inr (steps, g) ↦ rw (f, g, feature_prepass) (refl, ready')
            ]
      ]
