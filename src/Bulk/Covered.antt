-- ===== src/Bulk/Covered.antt =====
-- A step of the feature pass changes the state at the identities of its input at most, whatever its
-- outcome is.
use rwkv_srs.State.Predict.{feature_vector-state, append_days-state}
use rwkv_srs.Bulk.{
  feature_prepass_step, process_step, record_step, process_feature_vector, prepare_predict_row,
  BulkFeatureStep, prepare_process_row,
}
use rwkv_srs.Map.{get}
use rwkv_srs.State.Direct.{id_of}
use rwkv_srs.State.Rows.{get_f64, prepare_predict_row, prepare_process_row}
use rwkv_srs.Rng.{Rng, id_encoding}
use rwkv_srs.Review.{F32, ReviewInput}
use rwkv_srs.State.Vector.{
  predict_feature_vector, feature_vector, append_encodings, append_feature_vector, remember,
  skip_needs_rng_restore, append_card_features, process_feature_vector,
}
use rwkv_srs.State.Record.{record_recurrent_state_update, record_processed_row}
use rwkv_srs.Bulk.Ids.{
  Reads, id_read, prepare_predict_row-Reads, review_ids_from_prepared-eq, prepare_process_row-Reads,
}
use rwkv_srs.Undo.Process.{
  Covers, record_processed_values-StateTouches, remember-StateTouches,
  record_recurrent_ids-StateTouches,
}
use rwkv_srs.State.{
  FeatureState, ReviewIds, PreparedRow, Submodule, id_submodules, normalized_review_ids, encodings,
  is_panic,
}
use rwkv_srs.Undo.Touch.{Identities, StateTouches}
use rwkv_srs.Features.{FloatOps}
use rwkv_srs.Base.{
  ◌∷◌, [], ◌≡◌, ok, Bool, List, ℕ, >>=-split, subst, ok-injective, Result-cases, true, [], inl, inr,
  false, Option-cases, Bool-cases,
}

module _ (fl : FloatOps) (k : Identities) (s0 : FeatureState) (ids : ReviewIds)
    (c : Covers k ids) where
  drawn-StateTouches :
      (mutate : Bool) (sub : Submodule) (encoding : List F32) (rng : Rng) (s : FeatureState)
      → StateTouches k s0 s
      → StateTouches k s0 (remember mutate sub (id_of sub ids) encoding rng s)
  drawn-StateTouches true sub e r s p = remember-StateTouches k s0 ids c sub e r s p
  drawn-StateTouches false sub e r s p = assumption p

  module _ (row : PreparedRow) (r : Reads fl row ids) where
    append_encodings-StateTouches :
        (mutate : Bool) (subs : List (Submodule × ℕ)) (s : FeatureState) (features : List F32)
        → StateTouches k s0 s
        → StateTouches k s0 (append_encodings fl row mutate subs s features).state
    unfolding append_encodings
    append_encodings-StateTouches mutate [] s features p = p
    append_encodings-StateTouches mutate ((sub, dim) ∷ subs) s features p =
        elim (Option-cases (get (id_of sub ids) (encodings sub s.id_encodings))) [
          | inr (known, f) ↦
              rw (id_read r sub, f, append_encodings)
                (append_encodings-StateTouches mutate subs s _ p)
          | inl f ↦ elim (Option-cases (id_encoding s.id_rng dim)) [
            | inl g ↦ rw (id_read r sub, f, g, append_encodings) (assumption p)
            | inr ((encoding, rng), g) ↦
                rw (id_read r sub, f, g, append_encodings)
                  (append_encodings-StateTouches mutate subs
                    (remember mutate sub (id_of sub ids) encoding rng s) _
                    (drawn-StateTouches mutate sub encoding rng s p))
          ]
        ]

    append_feature_vector-StateTouches :
        (mutate : Bool) (s : FeatureState)
        → StateTouches k s0 s
        → StateTouches k s0 (append_feature_vector fl s row mutate []).state
    unfolding append_feature_vector
    append_feature_vector-StateTouches mutate s p =
        elim (Result-cases (append_card_features fl row []).0) [
          | inl (e, f) ↦ rw (f, append_feature_vector) p
          | inr (u, f) ↦
              rw (f, append_feature_vector, append_days-state fl row)
                (append_encodings-StateTouches mutate id_submodules s _ p)
        ]

    feature_vector-StateTouches :
        (mutate : Bool) (s : FeatureState)
        → StateTouches k s0 s
        → StateTouches k s0 (feature_vector fl s row mutate).1
    feature_vector-StateTouches mutate s p =
        rw (feature_vector-state fl row mutate s) (append_feature_vector-StateTouches mutate s p)

    predict_feature_vector-StateTouches :
        (s : FeatureState)
        → StateTouches k s0 s
        → StateTouches k s0 (predict_feature_vector fl s row).1
    unfolding predict_feature_vector
    predict_feature_vector-StateTouches s p =
        elim (Result-cases (skip_needs_rng_restore fl s row true)) [
          | inl (e, f) ↦ rw (f, predict_feature_vector) p
          | inr (true, f) ↦
              let q = feature_vector-StateTouches false s p in
              elim (Bool-cases (is_panic (feature_vector fl s row false).0)) [
                | inl g ↦ rw (f, predict_feature_vector, g) q
                | inr g ↦ rw (f, predict_feature_vector, g) (assumption q)
              ]
          | inr (false, f) ↦ rw (f, predict_feature_vector) (feature_vector-StateTouches false s p)
        ]

    record_recurrent_state_update-StateTouches :
        (s : FeatureState) {s' : FeatureState}
        → StateTouches k s0 s
        → record_recurrent_state_update fl s row ≡ ok s'
        → StateTouches k s0 s'
    unfolding record_recurrent_state_update
    record_recurrent_state_update-StateTouches s p e =
        subst (StateTouches k s0)
          (ok-injective (rw (r.card_read, r.note_read, r.deck_read, r.preset_read) at e))
          (record_recurrent_ids-StateTouches k s0 ids c s p)

    record_processed_row-StateTouches :
        (s : FeatureState) {s' : FeatureState}
        → StateTouches k s0 s
        → record_processed_row fl s row ≡ ok s'
        → StateTouches k s0 s'
    unfolding record_processed_row
    record_processed_row-StateTouches s p e =
        let (days, _, e1) = >>=-split (get_f64 fl row "elapsed_days") _ (rw r.card_read at e) in
        let (seconds, _, e2) = >>=-split (get_f64 fl row "elapsed_seconds") _ e1 in
        let (day, _, e3) = >>=-split (get_f64 fl row "day_offset") _ e2 in
        subst (StateTouches k s0) (ok-injective e3)
          (record_processed_values-StateTouches k s0 ids c fl s days seconds day p)

  module _ (input : ReviewInput) (same : normalized_review_ids input ≡ ids) where
    record_step-StateTouches :
        (s : FeatureState) (row : PreparedRow) (step : BulkFeatureStep)
        → Reads fl row ids
        → StateTouches k s0 s
        → StateTouches k s0 (record_step fl s row step).1
    unfolding record_step
    record_step-StateTouches s row step r p =
        elim (Result-cases (record_recurrent_state_update fl s row)) [
          | inl (e, f) ↦ rw (f, record_step) p
          | inr (s', f) ↦
              let q = record_recurrent_state_update-StateTouches row r s p f in
              elim (Result-cases (record_processed_row fl s' row)) [
                | inl (e, g) ↦ rw (f, g, record_step) q
                | inr (s'', g) ↦
                    rw (f, g, record_step) (record_processed_row-StateTouches row r s' q g)
              ]
        ]

    process_step-StateTouches :
        (s : FeatureState) (features : List F32)
        → StateTouches k s0 s
        → StateTouches k s0 (process_step fl s input ids features).1
    unfolding process_step process_feature_vector
    process_step-StateTouches s features p = elim (Result-cases (prepare_process_row fl s input)) [
      | inl (e, f) ↦ rw (f, process_step) p
      | inr (row, f) ↦
          let r = subst (Reads fl row) same (prepare_process_row-Reads fl s input f) in
          let q = feature_vector-StateTouches row r true s p in
          elim (Result-cases (feature_vector fl s row true).0) [
            | inl (e, g) ↦ rw (f, g, process_step) q
            | inr (v, g) ↦ rw (f, g, process_step) (record_step-StateTouches _ row _ r q)
          ]
    ]

    pub feature_prepass_step-StateTouches :
        (s : FeatureState)
        → StateTouches k s0 s
        → StateTouches k s0 (feature_prepass_step fl s input).1
    unfolding feature_prepass_step
    feature_prepass_step-StateTouches s p =
        let row = prepare_predict_row fl s input in
        let r = subst (Reads fl row) same (prepare_predict_row-Reads fl s input) in
        let q = predict_feature_vector-StateTouches row r s p in
        elim (Result-cases (predict_feature_vector fl s row).0) [
          | inl (e, g) ↦ rw (review_ids_from_prepared-eq fl row ids r, g, feature_prepass_step) q
          | inr (v, g) ↦
              rw (review_ids_from_prepared-eq fl row ids r, g, feature_prepass_step)
                (process_step-StateTouches _ v q)
        ]
