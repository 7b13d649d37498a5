-- ===== src/Bulk/Vectors.antt =====
-- The vectors that `feature_vector` (rust/rwkv-srs-cpu/src/state.rs) gives for the two rows of a
-- review, and the step of model/bulk.rs in these terms.
use rwkv_srs.State.Predict.{predict_feature_vector-restores}
use rwkv_srs.Bulk.{
  feature_prepass_step, record_step, prepare_process_row, process_step, BulkFeatureStep,
  process_feature_vector,
}
use rwkv_srs.Bulk.Draws.{
  id_submodules-AreDistinct, append_encodings-predict, append_encodings-mutate, Agrees-refl,
}
use rwkv_srs.Bulk.Columns.{
  process_columns, process_row_days, predict_columns, predict_row_days, process_row-recurrent,
  process_row-recorded,
}
use rwkv_srs.State.Rows.{process_row, prepare_predict_row, prepare_process_row}
use rwkv_srs.Map.{has}
use rwkv_srs.State.Encodings.{ensure_encodings-prefixed}
use rwkv_srs.State.Vector.{
  any_missing, predict_feature_vector, skip_needs_rng_restore, feature_vector,
  append_feature_vector, append_days, append_card_features, Appended, append_day_offset_features,
  append_encodings, process_feature_vector,
}
use rwkv_srs.Bulk.Ids.{
  process_row-Reads, Reads, id_read, prepare_predict_row-Reads, review_ids_from_prepared-eq,
}
use rwkv_srs.State.Record.{record_processed_values, record_recurrent_ids}
use rwkv_srs.Review.{ReviewInput, F32, F64}
use rwkv_srs.State.{
  PreparedRow, FeatureState, ReviewIds, id_submodules, Submodule, normalized_review_ids, encodings,
  StateError, is_panic,
}
use rwkv_srs.Features.{FloatOps, CastsExact, day_offset_encoding}
use rwkv_srs.Base.{
  ◌≡◌, refl, ok, err, ℤ, ℕ, List, [], ◌∷◌, ◌++◌, Bool, true, false, some, inl, inr, Result, ap, ◌≢◌,
  Bool-cases, ◌∙◌, subst, sym,
}
use rwkv_srs.State.Direct.{
  process_features, Columns, ensure_encodings, direct_columns, query_features, id_of,
}

pub err-ne-ok {ℓ κ} :
    {E : Type ℓ} {A : Type κ} {e : E} {a : A} {r : Result E A} → r ≡ err e → r ≢ ok a
err-ne-ok f h = cc

-- What both paths leave behind, given the encodings and the state with those drawn.
module _ (fl : FloatOps) (s : FeatureState) (input : ReviewInput) where
  abbrev pub columns : Columns
  columns = direct_columns fl s input

  abbrev pub days : List F32
  days = day_offset_encoding fl columns.day_offset columns.day_offset_first

  abbrev pub query_row : List F32 → List F32
  query_row e = (query_features fl columns ++ e) ++ days

  abbrev pub outcome_row : List F32 → ℤ → F64 → F64 → List F32
  outcome_row e rating duration state =
      (process_features fl columns rating duration state ++ e) ++ days

  abbrev pub recorded : FeatureState → FeatureState
  recorded t =
      record_processed_values fl (record_recurrent_ids t (normalized_review_ids input))
        input.card_id input.elapsed_days input.elapsed_seconds columns.day_offset

module _ (fl : FloatOps) (row : PreparedRow) (ids : ReviewIds) (r : Reads fl row ids) where
  any_missing-ok :
      (s : FeatureState) (subs : List (Submodule × ℕ))
      → (b : Bool) × (any_missing fl s row subs ≡ ok b)
  unfolding any_missing
  any_missing-ok s [] = (false, refl)
  any_missing-ok s ((sub, dim) ∷ subs) =
      elim (Bool-cases (has (id_of sub ids) (encodings sub s.id_encodings))) [
        | inl e ↦ let (b, f) = any_missing-ok s subs in (b, rw (id_read r sub, e, any_missing) f)
        | inr e ↦ (true, rw (id_read r sub, e, any_missing) refl)
      ]

  predict_feature_vector-outcome :
      (s : FeatureState) → (predict_feature_vector fl s row).0 ≡ (feature_vector fl s row false).0
  unfolding predict_feature_vector skip_needs_rng_restore
  predict_feature_vector-outcome s =
      let (b, f) = any_missing-ok s id_submodules in
      rw (f, predict_feature_vector, skip_needs_rng_restore) refl

ok-calm : (features : List F32) → is_panic (ok features) ≡ false
unfolding is_panic
ok-calm features = refl

-- `feature_vector`, given what its three parts do.
module _ (fl : FloatOps) (row : PreparedRow) (mutate : Bool) (s : FeatureState) where
  abbrev appended : FeatureState → List F32 → Appended
  appended t x = record { outcome = ok tt; state = t; features = x }

  append_days-eq :
      (a : Appended) {x : List F32}
      → a.outcome ≡ ok tt
      → append_day_offset_features fl row a.features ≡ ok x
      → append_days fl row a ≡ appended a.state x
  unfolding append_days
  append_days-eq a {x = x} f g =
      rw (f, g, append_days)
        (ap
          (λ (o : Result StateError (Unit {0})).
            let b : Appended = record { outcome = o; state = a.state; features = x } in b)
          f)

  abbrev vector_of : Appended → Result StateError (List F32) × FeatureState
  vector_of a = elim a.outcome [ err e ↦ (err e, a.state) | ok _ ↦ (ok a.features, a.state) ]

  append_feature_vector-eq :
      {v x : List F32}
      → append_card_features fl row [] ≡ (ok tt, v)
      → (append_encodings fl row mutate id_submodules s v).outcome ≡ ok tt
      → append_day_offset_features fl row
          (append_encodings fl row mutate id_submodules s v).features
        ≡ ok x
      → append_feature_vector fl s row mutate []
        ≡ appended (append_encodings fl row mutate id_submodules s v).state x
  unfolding append_feature_vector
  append_feature_vector-eq f g h = rw (f, append_feature_vector, f) (append_days-eq _ g h)

  feature_vector-eq :
      {v w x : List F32}
      → append_card_features fl row [] ≡ (ok tt, v)
      → (append_encodings fl row mutate id_submodules s v).outcome ≡ ok tt
      → (append_encodings fl row mutate id_submodules s v).features ≡ w
      → append_day_offset_features fl row w ≡ ok x
      → feature_vector fl s row mutate
        ≡ (ok x, (append_encodings fl row mutate id_submodules s v).state)
  unfolding feature_vector
  feature_vector-eq {x = x} f g k h = ap vector_of (
      append_feature_vector-eq {x = x} f g
        (subst (λ y. append_day_offset_features fl row y ≡ ok x) (sym k) h))

module _ (fl : FloatOps) (exact : CastsExact fl) (s : FeatureState) (input : ReviewInput)
    {s' : FeatureState} {e : List F32}
    (h : ensure_encodings true id_submodules (normalized_review_ids input) s []
      ≡ some (s', e)) where
  pub encoded :
      (f : List F32)
      → ensure_encodings true id_submodules (normalized_review_ids input) s f ≡ some (s', f ++ e)
  encoded f = rw (ensure_encodings-prefixed (normalized_review_ids input) id_submodules s f, h) refl

  query_vector :
      (feature_vector fl s (prepare_predict_row fl s input) false).0 ≡ ok (query_row fl s input e)
  query_vector =
      let row = prepare_predict_row fl s input in
      let (o, v) =
        append_encodings-predict fl row (normalized_review_ids input)
          (prepare_predict_row-Reads fl s input) id_submodules s s _ id_submodules-AreDistinct refl
          (Agrees-refl id_submodules s) (encoded (query_features fl (columns fl s input))) in
      ap (λ (p : Result StateError (List F32) × FeatureState). p.0)
        (feature_vector-eq fl row false s (predict_columns fl s input exact) o v
          (predict_row_days fl s input _))

  outcome_vector :
      (rating : ℤ) (duration state : F64)
      → feature_vector fl s (process_row fl s input rating duration state) true
        ≡ (ok (outcome_row fl s input e rating duration state), s')
  outcome_vector rating duration state =
      let row = process_row fl s input rating duration state in
      let a =
        append_encodings-mutate fl row (normalized_review_ids input)
          (process_row-Reads fl s input rating duration state) id_submodules s _
          (encoded (process_features fl (columns fl s input) rating duration state)) in
      feature_vector-eq fl row true s (process_columns fl s input exact rating duration state)
        (ap (λ (x : Appended). x.outcome) a) (ap (λ (x : Appended). x.features) a)
        (process_row_days fl s input rating duration state _)
      ∙ ap
          (λ (x : Appended).
            let r : Result StateError (List F32) × FeatureState =
              (ok (outcome_row fl s input e rating duration state), x.state) in
            r)
          a

  module _ (rating : ℤ) (duration state : F64) (q : List F32) where
    abbrev pub step : BulkFeatureStep
    step = record {
      ids = normalized_review_ids input;
      predict_features = q;
      process_features = outcome_row fl s input e rating duration state;
    }

    record_step-eq :
        record_step fl s' (process_row fl s input rating duration state) step
        ≡ (ok step, recorded fl s input s')
    unfolding record_step
    record_step-eq =
        rw
          (
            process_row-recurrent fl s input rating duration state,
            record_step,
            process_row-recorded fl s input rating duration state,
          )
          refl

    process_step-eq :
        prepare_process_row fl s input ≡ ok (process_row fl s input rating duration state)
        → process_step fl s input (normalized_review_ids input) q
          ≡ (ok step, recorded fl s input s')
    unfolding process_step process_feature_vector
    process_step-eq p =
        rw
          (
            p,
            outcome_vector rating duration state,
            process_step,
            outcome_vector rating duration state,
          )
          record_step-eq

  -- The step, given the outcome of the review.
  pub prepass_step :
      (rating : ℤ) (duration state : F64)
      → input.rating ≡ some rating
      → input.duration ≡ some duration
      → input.state ≡ some state
      → feature_prepass_step fl s input
        ≡ (ok (step rating duration state (query_row fl s input e)), recorded fl s input s')
  unfolding feature_prepass_step prepare_process_row
  prepass_step rating duration state r d t =
      let row = prepare_predict_row fl s input in
      let reads = prepare_predict_row-Reads fl s input in
      let calm : is_panic (predict_feature_vector fl s row).0 ≡ false =
        rw
          (
            predict_feature_vector-outcome fl row (normalized_review_ids input) reads s,
            query_vector,
          )
          (ok-calm (query_row fl s input e)) in
      rw
        (
          review_ids_from_prepared-eq fl row (normalized_review_ids input) reads,
          predict_feature_vector-outcome fl row (normalized_review_ids input) reads s,
          query_vector,
          predict_feature_vector-restores fl row s calm,
          feature_prepass_step,
        )
        (process_step-eq rating duration state (query_row fl s input e)
          (rw (r, d, t, prepare_process_row) refl))
