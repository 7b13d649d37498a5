-- ===== src/State/Direct.antt =====
-- Feature vectors without prepared rows: `direct_predict_features` and `append_process_feature_rows`
-- (rust/rwkv-srs-cpu/src/state.rs).
use rwkv_srs.State.Record.{record_processed_values, record_recurrent_ids}
use rwkv_srs.Base.{
  ℕ, ◌==◌, ℤ, pos, negsuc, eqb_ℤ, not, Bool, true, ◌&&◌, Option, none, some, List, [], ◌∷◌, ◌++◌,
  length, Result, ok, err, unwrap_or, if◌then◌else◌, false, ◌+◌, ◌-◌,
}
use rwkv_srs.Map.{get, has}
use rwkv_srs.Review.{F64, F32, ReviewInput}
use rwkv_srs.Features
use rwkv_srs.Features.{FloatOps, zero_f64, one_f64, three_f64, seven_f64, zero_f32, one_f32}
use rwkv_srs.Rng.{id_encoding, unwound}
use rwkv_srs.State.{
  FeatureState, StateError, predict_width, Submodule, card, note, deck, preset, id_submodules,
  encodings, ReviewIds, normalize_id, max_zero, count_since, reviews_since, increment, panicked,
  no_rating, pair_width, no_duration, no_state,
}
use rwkv_srs.State.Vector.{remember}

-- The values that both direct functions compute first: the identities, the days, and the columns
-- before and behind those that only a processed review fills.
pub record Columns : Type 0 where
  pub ids : ReviewIds
  pub day_offset : F64
  pub day_offset_first : F64
  pub front : List F32
  pub middle : List F32

-- The identity of each submodule.
abbrev pub id_of : Submodule → ReviewIds → ℤ
id_of card ids = ids.0
id_of note ids = ids.1
id_of deck ids = ids.2
id_of preset ids = ids.3

-- The first eight columns, the four that only a processed review fills, and the rest.
abbrev pub lay_out : List F32 → F32 → (ℕ → F32) → List F32 → F32 → F32 → List F32
lay_out front duration rating middle state query =
    front ++ duration ∷ rating 1 ∷ rating 2 ∷ rating 3 ∷ rating 4 ∷ (middle ++ state ∷ query ∷ [])

module _ (fl : FloatOps) where
  open fl use {add, sub, div, feq, of_i64, to_f32}

  unfoldable pub direct_columns : FeatureState → ReviewInput → Columns
  direct_columns s input =
      let card_id = input.card_id in
      let (note_id, note_missing) = normalize_id input.note_id (some card_id) in
      let (deck_id, deck_missing) = normalize_id input.deck_id none in
      let (preset_id, preset_missing) = normalize_id input.preset_id none in
      let days =
        add (unwrap_or (get card_id s.card2elapsed_days_cumulative) zero_f64) input.elapsed_days in
      let seconds =
        add (unwrap_or (get card_id s.card2elapsed_seconds_cumulative) zero_f64)
          input.elapsed_seconds in
      let day_offset : F64 = elim s.first_day_offset [
        | none ↦ zero_f64
        | some first ↦ sub input.day_offset first
      ] in
      let day_offset_first = unwrap_or (get card_id s.card2first_day_offset) day_offset in
      let previous = unwrap_or s.prev_day_offset zero_f64 in
      let diff_new_cards : F64 = of_i64 (
        max_zero (elim (get card_id s.last_new_cards) [
          | some last ↦ count_since s.card_count last
          | none ↦ pos 0
        ])) in
      let diff_reviews : F64 =
        of_i64
          (elim (get card_id s.last_i) [ some last ↦ reviews_since s.i last | none ↦ pos 0 ]) in
      let new_day = not (feq day_offset s.today) in
      let today_new_cards = if new_day then pos 0 else s.today_new_cards in
      let today_reviews = increment (if new_day then negsuc 0 else s.today_reviews) in
      let today_cards =
        if not (has card_id s.card_set) then increment today_new_cards else today_new_cards in
      record {
        ids = (card_id, note_id, deck_id, preset_id);
        day_offset = day_offset;
        day_offset_first = day_offset_first;
        front =
            to_f32 (Features.scale_elapsed_days fl input.elapsed_days)
            ∷ to_f32 (Features.scale_elapsed_days_cumulative fl days)
            ∷ to_f32 (Features.scale_elapsed_seconds fl input.elapsed_seconds)
            ∷ to_f32 (Features.elapsed_seconds_sin fl input.elapsed_seconds)
            ∷ to_f32 (Features.elapsed_seconds_cos fl input.elapsed_seconds)
            ∷ to_f32 (Features.scale_elapsed_seconds_cumulative fl seconds)
            ∷ to_f32 (Features.elapsed_seconds_sin fl seconds)
            ∷ to_f32 (Features.elapsed_seconds_cos fl seconds)
            ∷ [];
        middle =
            to_f32 note_missing
            ∷ to_f32 deck_missing
            ∷ to_f32 preset_missing
            ∷ to_f32 (Features.scale_day_offset_diff fl (sub day_offset previous))
            ∷ to_f32 (div (sub (Features.py_mod fl day_offset seven_f64) three_f64) three_f64)
            ∷ to_f32 (Features.scale_diff_new_cards fl diff_new_cards)
            ∷ to_f32 (Features.scale_diff_reviews fl diff_reviews)
            ∷ to_f32 (Features.scale_cum_new_cards_today fl (of_i64 today_cards))
            ∷ to_f32 (Features.scale_cum_reviews_today fl (of_i64 today_reviews))
            ∷ [];
      }

  -- The columns of a query row.
  unfoldable pub query_features : Columns → List F32
  query_features c = lay_out c.front zero_f32 (λ index. zero_f32) c.middle zero_f32 one_f32

  -- The same array with the outcome written into columns 8 to 12, 22 and 23.
  unfoldable pub process_features : Columns → ℤ → F64 → F64 → List F32
  process_features c rating duration state =
      lay_out c.front (to_f32 (Features.scale_duration fl duration))
        (λ index. if eqb_ℤ rating (pos index) then one_f32 else zero_f32) c.middle
        (to_f32 (Features.scale_state fl state)) zero_f32

-- The encodings of the identities, all of which are known.
unfoldable pub stored_encodings :
    FeatureState → ReviewIds → List (Submodule × ℕ) → Option (List F32)
stored_encodings s ids [] = some []
stored_encodings s ids ((sub, dim) ∷ rest) =
    elim (get (id_of sub ids) (encodings sub s.id_encodings)) [
      | none ↦ none
      | some encoding ↦ elim (stored_encodings s ids rest) [
        | none ↦ none
        | some more ↦ some (encoding ++ more)
      ]
    ]

-- The recurrent states of all four identities.
unfoldable pub has_states : FeatureState → ReviewIds → Bool
has_states s ids =
    let keys = s.recurrent_state_keys in
    has ids.0 keys.card_states
    && (has ids.1 keys.note_states && (has ids.2 keys.deck_states && has ids.3 keys.preset_states))

-- The first loop over the identities: a missing encoding is drawn and stored, and with a query row
-- each encoding is appended. `none` is a panic.
unfoldable pub ensure_encodings :
    Bool
    → List (Submodule × ℕ)
    → ReviewIds
    → FeatureState
    → List F32
    → Option (FeatureState × List F32)
ensure_encodings include_query [] ids s features = some (s, features)
ensure_encodings include_query ((sub, dim) ∷ rest) ids s features =
    let id = id_of sub ids in
    elim (get id (encodings sub s.id_encodings)) [
      | some encoding ↦
          ensure_encodings include_query rest ids s
            (if include_query then features ++ encoding else features)
      | none ↦ elim (id_encoding s.id_rng dim) [
        | none ↦ none
        | some (encoding, rng) ↦
            ensure_encodings include_query rest ids (remember true sub id encoding rng s)
              (if include_query then features ++ encoding else features)
      ]
    ]

-- The state and the values that the loop leaves behind where it panics.
unfoldable pub unwound_encodings :
    Bool → List (Submodule × ℕ) → ReviewIds → FeatureState → List F32 → FeatureState × List F32
unwound_encodings include_query [] ids s features = (s, features)
unwound_encodings include_query ((sub, dim) ∷ rest) ids s features =
    let id = id_of sub ids in
    elim (get id (encodings sub s.id_encodings)) [
      | some encoding ↦
          unwound_encodings include_query rest ids s
            (if include_query then features ++ encoding else features)
      | none ↦ elim (id_encoding s.id_rng dim) [
        | none ↦ (record s { id_rng = unwound s.id_rng dim }, features)
        | some (encoding, rng) ↦
            unwound_encodings include_query rest ids (remember true sub id encoding rng s)
              (if include_query then features ++ encoding else features)
      ]
    ]

-- What `append_process_feature_rows` leaves behind.
pub record Processed : Type 0 where
  pub outcome : Result StateError ReviewIds
  pub state : FeatureState
  pub features : List F32

module _ (fl : FloatOps) where
  unfoldable pub direct_predict_features :
      FeatureState → ReviewInput → Result StateError (Option (List F32 × ReviewIds))
  direct_predict_features s input =
      let c = direct_columns fl s input in
      elim (stored_encodings s c.ids id_submodules) [
        | none ↦ ok none
        | some encoding ↦
            let features =
              query_features fl c
              ++ (encoding ++ Features.day_offset_encoding fl c.day_offset c.day_offset_first) in
            if not (has_states s c.ids)
            then ok none
            else (if length features == 92
                then ok (some (features, c.ids))
                else err (predict_width (length features)))
      ]

  -- The second half: the process row, the check of the width, and the records.
  unfoldable pub finish_process_rows :
      FeatureState → ReviewInput → Columns → ℕ → ℕ → List F32 → Processed
  finish_process_rows s input c start expected features =
      if not (length features == start + expected)
      then record {
        outcome = err (pair_width (length features - start));
        state = s;
        features = features;
      }
      else record {
        outcome = ok c.ids;
        state =
            record_processed_values fl (record_recurrent_ids s c.ids) input.card_id
              input.elapsed_days input.elapsed_seconds c.day_offset;
        features = features;
      }

  -- A row whose outcome is known.
  unfoldable pub append_rows :
      FeatureState → ReviewInput → List F32 → Bool → ℤ → F64 → F64 → Processed
  append_rows s input features include_query rating duration state =
      let c = direct_columns fl s input in
      let days = Features.day_offset_encoding fl c.day_offset c.day_offset_first in
      let queried = if include_query then features ++ query_features fl c else features in
      elim (ensure_encodings include_query id_submodules c.ids s queried) [
        | none ↦
            let (left, values) = unwound_encodings include_query id_submodules c.ids s queried in
            record { outcome = err panicked; state = left; features = values }
        | some (s', encoded) ↦
            let dated = if include_query then encoded ++ days else encoded in
            let row = dated ++ process_features fl c rating duration state in
            elim (stored_encodings s' c.ids id_submodules) [
              | none ↦ record { outcome = err panicked; state = s'; features = row }
              | some encoding ↦
                  finish_process_rows s' input c (length features)
                    (if include_query then 184 else 92) (row ++ (encoding ++ days))
            ]
      ]

  unfoldable pub append_process_feature_rows :
      FeatureState → ReviewInput → List F32 → Bool → Processed
  append_process_feature_rows s input features include_query =
      let fail = λ (e : StateError).
        let p : Processed = record { outcome = err e; state = s; features = features } in p in
      elim input.rating [
        | none ↦ fail no_rating
        | some rating ↦ elim input.duration [
          | none ↦ fail no_duration
          | some duration ↦ elim input.state [
            | none ↦ fail no_state
            | some state ↦ append_rows s input features include_query rating duration state
          ]
        ]
      ]

  unfoldable pub append_process_feature_pair : FeatureState → ReviewInput → List F32 → Processed
  append_process_feature_pair s input features = append_process_feature_rows s input features true

  unfoldable pub append_process_feature_only : FeatureState → ReviewInput → List F32 → Processed
  append_process_feature_only s input features = append_process_feature_rows s input features false
