-- ===== src/Bulk.antt =====
-- The feature pass over a batch: `feature_prepass_step` (rust/rwkv-srs-cpu/src/model/bulk.rs), the
-- reads of model/state.rs, and the transaction of model/pipeline.rs around it. A call returns its
-- outcome and the state it leaves, also when it fails.
pub mod Ids
pub mod Covered
pub mod Rollback
pub mod Panics
pub mod Draws
pub mod Columns
pub mod Vectors
pub mod Pair
pub mod Direct
use rwkv_srs.State.Vector.{predict_feature_vector, process_feature_vector}
use rwkv_srs.State.Record.{record_recurrent_state_update, record_processed_row}
use rwkv_srs.State.Rows.{as_i64, prepare_predict_row, prepare_process_row}
use rwkv_srs.Undo.Batch.{capture_deterministic, restore_deterministic, BatchDeterministicUndoFrame}
use rwkv_srs.Features.{FloatOps}
use rwkv_srs.State.{
  FeatureState, normalized_review_ids, ReviewIds, PreparedRow, StateError, row_get, missing_field,
}
use Prim.Native.String.{String}
use rwkv_srs.Base.{
  ◌>>=◌, ℤ, Bool, true, false, Option, none, some, List, [], ◌∷◌, Result, ok, err, map,
  if◌then◌else◌, ok_or,
}
use rwkv_srs.Review.{F32, ReviewInput}

pub record BulkFeatureStep : Type 0 where
  pub ids : ReviewIds
  pub predict_features : List F32
  pub process_features : List F32

module _ (fl : FloatOps) where
  unfoldable pub prepared_i64 : PreparedRow → String → Result StateError ℤ
  unfolding as_i64 row_get
  prepared_i64 row field = do
    value ← ok_or (row_get field row) (missing_field field)
    as_i64 fl field value

  unfoldable pub review_ids_from_prepared : PreparedRow → Result StateError ReviewIds
  unfolding prepared_i64
  review_ids_from_prepared row = do
    card_id ← prepared_i64 row "card_id"
    note_id ← prepared_i64 row "note_id"
    deck_id ← prepared_i64 row "deck_id"
    preset_id ← prepared_i64 row "preset_id"
    ok (card_id, note_id, deck_id, preset_id)

  -- The two records at the end of the step.
  unfoldable pub record_step :
      FeatureState
      → PreparedRow
      → BulkFeatureStep
      → Result StateError BulkFeatureStep × FeatureState
  record_step s process_row step = elim (record_recurrent_state_update fl s process_row) [
    | err e ↦ (err e, s)
    | ok s' ↦ elim (record_processed_row fl s' process_row) [
      | err e ↦ (err e, s')
      | ok s'' ↦ (ok step, s'')
    ]
  ]

  -- The step from the process row on.
  unfoldable pub process_step :
      FeatureState
      → ReviewInput
      → ReviewIds
      → List F32
      → Result StateError BulkFeatureStep × FeatureState
  process_step s input ids predict_features = elim (prepare_process_row fl s input) [
    | err e ↦ (err e, s)
    | ok process_row ↦
        let (outcome, s') = process_feature_vector fl s process_row in
        elim outcome [
          | err e ↦ (err e, s')
          | ok process_features ↦ record_step s' process_row (record {
            ids = ids;
            predict_features = predict_features;
            process_features = process_features;
          })
        ]
  ]

  unfoldable pub feature_prepass_step :
      FeatureState → ReviewInput → Result StateError BulkFeatureStep × FeatureState
  feature_prepass_step s input =
      let predict_row = prepare_predict_row fl s input in
      elim (review_ids_from_prepared predict_row) [
        | err e ↦ (err e, s)
        | ok ids ↦
            let (outcome, s') = predict_feature_vector fl s predict_row in
            elim outcome [
              | err e ↦ (err e, s')
              | ok predict_features ↦ process_step s' input ids predict_features
            ]
      ]

  -- The loop over the inputs, which ends at the first error.
  unfoldable pub feature_prepass :
      FeatureState → List ReviewInput → Result StateError (List BulkFeatureStep) × FeatureState
  feature_prepass s [] = (ok [], s)
  feature_prepass s (input ∷ inputs) =
      let (outcome, s') = feature_prepass_step s input in
      let (rest, s'') = feature_prepass s' inputs in
      elim outcome [
        | err e ↦ (err e, s')
        | ok step ↦ elim rest [ err e ↦ (err e, s'') | ok steps ↦ (ok (step ∷ steps), s'') ]
      ]

-- `DeterministicPipelineTransaction`
pub record Transaction : Type 0 where
  pub deterministic : FeatureState
  pub undo : Option BatchDeterministicUndoFrame
  pub committed : Bool

unfoldable pub begin : FeatureState → List ReviewIds → Transaction
unfolding capture_deterministic
begin s ids = record {
  deterministic = s;
  undo = some (capture_deterministic s ids);
  committed = false;
}

-- `commit` takes the transaction, and its drop follows at once.
unfoldable pub commit : Transaction → Transaction
commit t = record t { committed = true; undo = none }

-- The state that is left when the transaction is dropped.
unfoldable pub drop_transaction : Transaction → FeatureState
drop_transaction t = elim t.committed [
  | true ↦ t.deterministic
  | false ↦ elim t.undo [
    | none ↦ t.deterministic
    | some frame ↦ restore_deterministic frame t.deterministic
  ]
]

-- The steps of `build_pipeline_rows` inside the transaction of a batch; then the rest of the run,
-- which fails or commits and does not touch the feature state.
unfoldable pub run_transaction :
    FloatOps
    → FeatureState
    → List ReviewInput
    → Bool
    → Result StateError (List BulkFeatureStep) × FeatureState
unfolding begin commit drop_transaction feature_prepass normalized_review_ids
run_transaction fl s inputs rest_succeeds =
    let t = begin s (map normalized_review_ids inputs) in
    let (outcome, s') = feature_prepass fl t.deterministic inputs in
    let stepped = record t { deterministic = s' } in
    elim outcome [
      | err e ↦ (err e, drop_transaction stepped)
      | ok steps ↦ (ok steps, drop_transaction (if rest_succeeds then commit stepped else stepped))
    ]
