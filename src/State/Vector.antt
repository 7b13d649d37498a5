-- ===== src/State/Vector.antt =====
-- Feature vectors of prepared rows: `append_feature_vector` and its callers
-- (rust/rwkv-srs-cpu/src/state.rs). A call returns its outcome, the state and the values so far.
use Prim.Native.String.{String}
use rwkv_srs.Base.{
  ℕ, ℤ, not, ◌&&◌, Bool, true, false, none, some, List, [], ◌∷◌, ◌++◌, Result, ok, err, ◌>>=◌,
  if◌then◌else◌,
}
use rwkv_srs.Map.{get, has, insert}
use rwkv_srs.Review.{F32}
use rwkv_srs.Features.{FloatOps, day_offset_encoding}
use rwkv_srs.Rng.{Rng, id_encoding, unwound}
use rwkv_srs.State.{
  FeatureState, PreparedRow, StateError, no_encoding, panicked, is_panic, Submodule, submodule_name,
  id_submodules, encodings, put_encodings,
}
use rwkv_srs.State.Rows.{get_f64, get_i64}

-- CARD_FEATURE_COLUMNS
abbrev pub card_feature_columns : List String
card_feature_columns =
    "scaled_elapsed_days" ∷ "scaled_elapsed_days_cumulative" ∷ "scaled_elapsed_seconds"
    ∷ "elapsed_seconds_sin" ∷ "elapsed_seconds_cos" ∷ "scaled_elapsed_seconds_cumulative"
    ∷ "elapsed_seconds_cumulative_sin" ∷ "elapsed_seconds_cumulative_cos" ∷ "scaled_duration"
    ∷ "rating_1" ∷ "rating_2" ∷ "rating_3" ∷ "rating_4" ∷ "note_id_is_nan" ∷ "deck_id_is_nan"
    ∷ "preset_id_is_nan" ∷ "day_offset_diff" ∷ "day_of_week" ∷ "diff_new_cards" ∷ "diff_reviews"
    ∷ "cum_new_cards_today" ∷ "cum_reviews_today" ∷ "scaled_state" ∷ "is_query" ∷ []

-- What a call that appends to a buffer leaves behind.
pub record Appended : Type 0 where
  pub outcome : Result StateError (Unit {0})
  pub state : FeatureState
  pub features : List F32

-- The write of a drawn encoding, made only when the call mutates.
abbrev pub remember : Bool → Submodule → ℤ → List F32 → Rng → FeatureState → FeatureState
remember mutate sub id encoding rng s =
    let e = s.id_encodings in
    let written = put_encodings sub (insert id encoding (encodings sub e)) e in
    record s { id_encodings = if mutate then written else e; id_rng = rng }

module _ (fl : FloatOps) where
  open fl use {to_f32}

  -- The loop of `append_card_features` over the columns left.
  unfoldable pub append_columns :
      PreparedRow → List String → List F32 → Result StateError (Unit {0}) × List F32
  append_columns row [] features = (ok tt, features)
  append_columns row (column ∷ columns) features = elim (get_f64 fl row column) [
    | err e ↦ (err e, features)
    | ok value ↦ append_columns row columns (features ++ to_f32 value ∷ [])
  ]

  unfoldable pub append_card_features :
      PreparedRow → List F32 → Result StateError (Unit {0}) × List F32
  unfolding append_columns
  append_card_features row features = append_columns row card_feature_columns features

  unfoldable pub append_day_offset_features : PreparedRow → List F32 → Result StateError (List F32)
  append_day_offset_features row features = do
    day_offset ← get_f64 fl row "day_offset"
    day_offset_first ← get_f64 fl row "day_offset_first"
    ok (features ++ day_offset_encoding fl day_offset day_offset_first)

  -- The loop of `append_feature_vector` over the submodules left.
  unfoldable pub append_encodings :
      PreparedRow → Bool → List (Submodule × ℕ) → FeatureState → List F32 → Appended
  append_encodings row mutate [] s features = record {
    outcome = ok tt;
    state = s;
    features = features;
  }
  append_encodings row mutate ((sub, dim) ∷ rest) s features =
      elim (get_i64 fl row (submodule_name sub)) [
        | err e ↦ record { outcome = err e; state = s; features = features }
        | ok id ↦ elim (get id (encodings sub s.id_encodings)) [
          | some encoding ↦ append_encodings row mutate rest s (features ++ encoding)
          | none ↦ elim (id_encoding s.id_rng dim) [
            | none ↦ record {
              outcome = err panicked;
              state = record s { id_rng = unwound s.id_rng dim };
              features = features;
            }
            | some (encoding, rng) ↦
                append_encodings row mutate rest (remember mutate sub id encoding rng s)
                  (features ++ encoding)
          ]
        ]
      ]

  -- The last part of `append_feature_vector`, behind the encodings.
  unfoldable pub append_days : PreparedRow → Appended → Appended
  append_days row a = elim a.outcome [
    | err e ↦ a
    | ok _ ↦ elim (append_day_offset_features row a.features) [
      | err e ↦ record a { outcome = err e }
      | ok features ↦ record a { features = features }
    ]
  ]

  unfoldable pub append_feature_vector : FeatureState → PreparedRow → Bool → List F32 → Appended
  unfolding append_days
  append_feature_vector s row mutate features =
      let (outcome, values) = append_card_features row features in
      elim outcome [
        | err e ↦ record { outcome = err e; state = s; features = values }
        | ok _ ↦ append_days row (append_encodings row mutate id_submodules s values)
      ]

  unfoldable pub feature_vector :
      FeatureState → PreparedRow → Bool → Result StateError (List F32) × FeatureState
  feature_vector s row mutate =
      let a = append_feature_vector s row mutate [] in
      elim a.outcome [ err e ↦ (err e, a.state) | ok _ ↦ (ok a.features, a.state) ]

  unfoldable pub process_feature_vector :
      FeatureState → PreparedRow → Result StateError (List F32) × FeatureState
  process_feature_vector s row = feature_vector s row true

  -- The loop of `skip_needs_rng_restore` over the submodules left.
  unfoldable pub any_missing :
      FeatureState → PreparedRow → List (Submodule × ℕ) → Result StateError Bool
  any_missing s row [] = ok false
  any_missing s row ((sub, dim) ∷ rest) = elim (get_i64 fl row (submodule_name sub)) [
    | err e ↦ err e
    | ok id ↦
        if not (has id (encodings sub s.id_encodings)) then ok true else any_missing s row rest
  ]

  unfoldable pub skip_needs_rng_restore : FeatureState → PreparedRow → Bool → Result StateError Bool
  unfolding any_missing
  skip_needs_rng_restore s row skip = if not skip then ok false else any_missing s row id_submodules

  -- A panic unwinds past the restore.
  unfoldable pub predict_feature_vector :
      FeatureState → PreparedRow → Result StateError (List F32) × FeatureState
  predict_feature_vector s row = elim (skip_needs_rng_restore s row true) [
    | err e ↦ (err e, s)
    | ok restore ↦
        let (result, s') = feature_vector s row false in
        (result, if restore && not (is_panic result) then record s' { id_rng = s.id_rng } else s')
  ]

  -- The encodings of one row of `feature_vectors`, which must all be known.
  unfoldable pub known_encodings :
      FeatureState → PreparedRow → List (Submodule × ℕ) → List F32 → Result StateError (List F32)
  known_encodings s row [] features = ok features
  known_encodings s row ((sub, dim) ∷ rest) features = elim (get_i64 fl row (submodule_name sub)) [
    | err e ↦ err e
    | ok id ↦ elim (get id (encodings sub s.id_encodings)) [
      | none ↦ err (no_encoding sub id)
      | some encoding ↦ known_encodings s row rest (features ++ encoding)
    ]
  ]

  -- One row of `feature_vectors`.
  unfoldable pub known_feature_vector : FeatureState → PreparedRow → Result StateError (List F32)
  unfolding known_encodings
  known_feature_vector s row =
      let (outcome, values) = append_card_features row [] in
      elim outcome [
        | err e ↦ err e
        | ok _ ↦ known_encodings s row id_submodules values >>= append_day_offset_features row
      ]

  unfoldable pub feature_vectors :
      FeatureState → List PreparedRow → Result StateError (List (List F32))
  unfolding known_feature_vector
  feature_vectors s [] = ok []
  feature_vectors s (row ∷ rows) = do
    vector ← known_feature_vector s row
    vectors ← feature_vectors s rows
    ok (vector ∷ vectors)

  -- The encodings of all four identities, and the recurrent states of all four.
  unfoldable pub can_batch_predict : FeatureState → PreparedRow → Result StateError Bool
  can_batch_predict s row = elim (any_missing s row id_submodules) [
    | err e ↦ err e
    | ok true ↦ ok false
    | ok false ↦ (do
      card_id ← get_i64 fl row "card_id"
      if not (has card_id s.recurrent_state_keys.card_states) then ok false else (do
        note_id ← get_i64 fl row "note_id"
        if not (has note_id s.recurrent_state_keys.note_states) then ok false else (do
          deck_id ← get_i64 fl row "deck_id"
          if not (has deck_id s.recurrent_state_keys.deck_states) then ok false else (do
            preset_id ← get_i64 fl row "preset_id"
            ok (has preset_id s.recurrent_state_keys.preset_states)))))
  ]
