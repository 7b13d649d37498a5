-- ===== src/Bulk/Pair.antt =====
-- The fast path that appends both rows of a review to one buffer, `append_process_feature_pair`
-- (rust/rwkv-srs-cpu/src/state.rs), against `feature_prepass_step` (model/bulk.rs), which goes row by
-- row.
use rwkv_srs.Bulk.Vectors.{columns, prepass_step, err-ne-ok, encoded, step, days, query_row}
use rwkv_srs.Bulk.{feature_prepass_step, BulkFeatureStep}
use rwkv_srs.Bulk.Columns.{direct_columns-ids}
use rwkv_srs.State.Encodings.{ensure_encodings-prefixed, ensure-stored_encodings}
use rwkv_srs.State.Record.{record_processed_values, record_recurrent_ids}
use rwkv_srs.Review.{ReviewInput, F32, F64}
use rwkv_srs.State.{
  FeatureState, ReviewIds, id_submodules, normalized_review_ids, StateError, panicked,
}
use rwkv_srs.Features.{FloatOps, CastsExact}
use rwkv_srs.Base.{
  ◌≡◌, refl, ok, err, ℤ, ℕ, List, [], ◌++◌, true, some, inl, inr, Result, ap, Bool-cases, ◌∙◌,
  subst, sym, length, append_assoc, Option-cases, ◌==◌, ◌+◌, none,
}
use rwkv_srs.State.Direct.{
  process_features, Columns, ensure_encodings, direct_columns, query_features, append_rows,
  finish_process_rows, stored_encodings, Processed, append_process_feature_pair,
  append_process_feature_rows,
}

module _ (fl : FloatOps) (exact : CastsExact fl) (s : FeatureState) (input : ReviewInput)
    {s' : FeatureState} {e : List F32}
    (h : ensure_encodings true id_submodules (normalized_review_ids input) s []
      ≡ some (s', e)) where
  -- The loops of the pair.
  pair_encoded :
      (f : List F32)
      → ensure_encodings true id_submodules (columns fl s input).ids s f ≡ some (s', f ++ e)
  pair_encoded f = rw (direct_columns-ids fl s input) (encoded fl exact s input h f)

  pair_stored : stored_encodings s' (columns fl s input).ids id_submodules ≡ some e
  pair_stored =
      rw (direct_columns-ids fl s input)
        (ensure-stored_encodings (normalized_review_ids input) id_submodules s h)

  abbrev pair_row : List F32 → ℤ → F64 → F64 → List F32
  pair_row features rating duration state =
      (((features ++ query_features fl (columns fl s input)) ++ e) ++ days fl s input)
      ++ process_features fl (columns fl s input) rating duration state

  -- The pair, given the same.
  append_rows-finish :
      (features : List F32) (rating : ℤ) (duration state : F64)
      → append_rows fl s input features true rating duration state
        ≡ finish_process_rows fl s' input
            (columns fl s input)
            (length features)
            184
            (pair_row features rating duration state ++ (e ++ days fl s input))
  unfolding append_rows
  append_rows-finish features rating duration state =
      rw
        (
          pair_encoded (features ++ query_features fl (columns fl s input)),
          append_rows,
          pair_stored,
        )
        refl

-- The last part of the pair, when it succeeds.
finish_process_rows-ok :
    (fl : FloatOps) (s : FeatureState) (input : ReviewInput) (c : Columns) (start expected : ℕ)
    (features : List F32) {ids : ReviewIds}
    → (finish_process_rows fl s input c start expected features).outcome ≡ ok ids
    → (finish_process_rows fl s input c start expected features ≡ (
        let p : Processed = record {
          outcome = ok c.ids;
          state =
              record_processed_values fl
                (record_recurrent_ids s c.ids)
                input.card_id
                input.elapsed_days
                input.elapsed_seconds
                c.day_offset;
          features = features;
        } in
        p))
unfolding finish_process_rows
finish_process_rows-ok fl s input c start expected features w =
    elim (Bool-cases (length features == start + expected)) [
      | inl f ↦ rw (f, finish_process_rows) refl
      | inr f ↦ absurd (err-ne-ok refl (rw (f, finish_process_rows) at w))
    ]

rows_assoc :
    (f q e d p : List F32)
    → ((((f ++ q) ++ e) ++ d) ++ p) ++ (e ++ d) ≡ f ++ (((q ++ e) ++ d) ++ ((p ++ e) ++ d))
rows_assoc f q e d p = simp (append_assoc)

-- What the two paths have in common when the fast one succeeds.
abbrev pub SameStep :
    FeatureState → List F32 → Processed → Result StateError BulkFeatureStep × FeatureState → Type 0
SameStep s features pair slow =
    (step : BulkFeatureStep) × (slow ≡ (ok step, pair.state))
    × (pair.outcome ≡ ok step.ids)
    × (pair.features ≡ features ++ (step.predict_features ++ step.process_features))

module _ (fl : FloatOps) (exact : CastsExact fl) (s : FeatureState) (input : ReviewInput)
    (features : List F32) where
  pair_panics :
      ensure_encodings true id_submodules (normalized_review_ids input) s [] ≡ none
      → (f : List F32) → ensure_encodings true id_submodules (columns fl s input).ids s f ≡ none
  pair_panics g f =
      rw
        (
          direct_columns-ids fl s input,
          ensure_encodings-prefixed (normalized_review_ids input) id_submodules s f,
          g,
        )
        refl

  pair_known :
      (rating : ℤ) (duration state : F64)
      → input.rating ≡ some rating
      → input.duration ≡ some duration
      → input.state ≡ some state
      → append_process_feature_pair fl s input features
        ≡ append_rows fl s input features true rating duration state
  unfolding append_process_feature_pair append_process_feature_rows append_rows direct_columns
      finish_process_rows
  pair_known rating duration state r d t = rw (r, d, t, append_process_feature_rows) refl

  append_rows-panics :
      (rating : ℤ) (duration state : F64)
      → ensure_encodings true id_submodules (normalized_review_ids input) s [] ≡ none
      → (append_rows fl s input features true rating duration state).outcome ≡ err panicked
  unfolding append_rows
  append_rows-panics rating duration state g =
      rw (pair_panics g (features ++ query_features fl (columns fl s input)), append_rows) refl

  module _ {s' : FeatureState} {e : List F32}
      (h : ensure_encodings true id_submodules (normalized_review_ids input) s []
        ≡ some (s', e)) where
    append_rows-ok :
        (rating : ℤ) (duration state : F64) {ids : ReviewIds}
        → (append_rows fl s input features true rating duration state).outcome ≡ ok ids
        → append_rows fl s input features true rating duration state ≡ (
            let p : Processed = record {
              outcome = ok (columns fl s input).ids;
              state =
                  record_processed_values fl
                    (record_recurrent_ids s' (columns fl s input).ids)
                    input.card_id
                    input.elapsed_days
                    input.elapsed_seconds
                    (columns fl s input).day_offset;
              features =
                  pair_row fl exact s input h features rating duration state
                  ++ (e ++ days fl s input);
            } in
            p)
    append_rows-ok rating duration state w =
        let finish = append_rows-finish fl exact s input h features rating duration state in
        finish
        ∙ finish_process_rows-ok fl s' input (columns fl s input) (length features) 184 _
            (ap (λ (p : Processed). p.outcome) (sym finish) ∙ w)

    append_rows-SameStep :
        (rating : ℤ) (duration state : F64) {ids : ReviewIds}
        → input.rating ≡ some rating
        → input.duration ≡ some duration
        → input.state ≡ some state
        → (append_rows fl s input features true rating duration state).outcome ≡ ok ids
        → SameStep s features
            (append_rows fl s input features true rating duration state)
            (feature_prepass_step fl s input)
    append_rows-SameStep rating duration state r d t w =
        let same = append_rows-ok rating duration state w in
        let slow = prepass_step fl exact s input h rating duration state r d t in
        let taken = step fl exact s input h rating duration state (query_row fl s input e) in
        (
          taken,
          slow
              ∙ ap
                  (λ (ids : ReviewIds).
                    let out : Result StateError BulkFeatureStep × FeatureState = (
                      ok taken,
                      record_processed_values fl (record_recurrent_ids s' ids) input.card_id
                          input.elapsed_days input.elapsed_seconds (columns fl s input).day_offset,
                    ) in
                    out)
                  (sym (direct_columns-ids fl s input))
              ∙ ap
                  (λ (p : Processed).
                    let out : Result StateError BulkFeatureStep × FeatureState =
                      (ok taken, p.state) in
                    out)
                  (sym same),
          ap (λ (p : Processed). p.outcome) same
              ∙ ap (λ (ids : ReviewIds). let out : Result StateError ReviewIds = ok ids in out)
                  (direct_columns-ids fl s input),
          ap (λ (p : Processed). p.features) same ∙ rows_assoc features _ e (days fl s input) _,
        )

  -- Where the casts of 0.0 and 1.0 are exact and the fast path succeeds, the slow step succeeds too:
  -- it returns the same identities and leaves the same state, and the fast path has appended its two
  -- vectors to the buffer.
  pub append_process_feature_pair-SameStep :
      {ids : ReviewIds}
      → (append_process_feature_pair fl s input features).outcome ≡ ok ids
      → SameStep s features
          (append_process_feature_pair fl s input features)
          (feature_prepass_step fl s input)
  unfolding append_process_feature_pair append_process_feature_rows
  append_process_feature_pair-SameStep w = elim (Option-cases input.rating) [
    | inl r ↦ absurd (err-ne-ok refl (rw (r, append_process_feature_rows) at w))
    | inr (rating, r) ↦ elim (Option-cases input.duration) [
      | inl d ↦ absurd (err-ne-ok refl (rw (r, d, append_process_feature_rows) at w))
      | inr (duration, d) ↦ elim (Option-cases input.state) [
        | inl t ↦ absurd (err-ne-ok refl (rw (r, d, t, append_process_feature_rows) at w))
        | inr (state, t) ↦
            let same = pair_known rating duration state r d t in
            let run = ap (λ (p : Processed). p.outcome) (sym same) ∙ w in
            elim (Option-cases
              (ensure_encodings true id_submodules (normalized_review_ids input) s [])) [
                | inl g ↦ absurd (err-ne-ok (append_rows-panics rating duration state g) run)
                | inr ((s', e), g) ↦
                    subst (λ p. SameStep s features p (feature_prepass_step fl s input)) (sym same)
                      (append_rows-SameStep g rating duration state r d t run)
              ]
      ]
    ]
  ]
