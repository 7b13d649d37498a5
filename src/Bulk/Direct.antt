-- ===== src/Bulk/Direct.antt =====
-- The prediction without a prepared row, `direct_predict_features`, against `feature_vectors` and
-- `can_batch_predict` on the row (rust/rwkv-srs-cpu/src/state.rs).
use rwkv_srs.Bulk.Columns.{direct_columns-ids, predict_columns, predict_row_days}
use rwkv_srs.Bulk.Vectors.{columns, days}
use rwkv_srs.State.Rows.{prepare_predict_row}
use rwkv_srs.Review.{F32, ReviewInput}
use rwkv_srs.State.Encodings.{known, some-injective, some-ne-none}
use rwkv_srs.Map.{has}
use rwkv_srs.State.Direct.{stored_encodings, has_states, direct_predict_features, query_features}
use rwkv_srs.State.Vector.{
  can_batch_predict, any_missing, known_encodings, feature_vectors, known_feature_vector,
}
use rwkv_srs.Bulk.Ids.{Reads, id_read, prepare_predict_row-Reads}
use rwkv_srs.State.{
  PreparedRow, ReviewIds, Submodule, FeatureState, id_submodules, StateError, normalized_review_ids,
}
use rwkv_srs.Features.{FloatOps, CastsExact}
use rwkv_srs.Base.{
  none, ◌≡◌, refl, sym, ap, ◌∙◌, ok, ℕ, List, [], ◌∷◌, ◌++◌, inl, inr, some, Option-cases,
  Bool-cases, is_some, append-nil, append_assoc, Result, not, ◌&&◌, Option, false, length, true,
  err, ◌==◌, subst,
}

module _ (fl : FloatOps) (row : PreparedRow) (ids : ReviewIds) (r : Reads fl row ids) where
  known_encodings-stored :
      (subs : List (Submodule × ℕ)) (s : FeatureState) (f : List F32) {e : List F32}
      → stored_encodings s ids subs ≡ some e
      → known_encodings fl s row subs f ≡ ok (f ++ e)
  unfolding known_encodings stored_encodings
  known_encodings-stored [] s f h =
      ap (λ x. let o : Result StateError (List F32) = ok x in o)
        (sym (append-nil f) ∙ ap (λ x. f ++ x) (some-injective h))
  known_encodings-stored ((sub, dim) ∷ subs) s f h = elim (Option-cases (known ids sub s)) [
    | inl g ↦ absurd (some-ne-none (rw (g, stored_encodings) at h) refl)
    | inr (enc, g) ↦ elim (Option-cases (stored_encodings s ids subs)) [
      | inl k ↦ absurd (some-ne-none (rw (g, k, stored_encodings) at h) refl)
      | inr (more, k) ↦
          rw (id_read r sub, g, known_encodings, known_encodings-stored subs s (f ++ enc) k)
            (ap (λ x. let o : Result StateError (List F32) = ok x in o)
              (append_assoc f enc more
                ∙ ap (λ x. f ++ x) (some-injective (rw (g, k, stored_encodings) at h))))
    ]
  ]

  any_missing-stored :
      (subs : List (Submodule × ℕ)) (s : FeatureState)
      → any_missing fl s row subs ≡ ok (not (is_some (stored_encodings s ids subs)))
  unfolding any_missing stored_encodings has
  any_missing-stored [] s = refl
  any_missing-stored ((sub, dim) ∷ subs) s = elim (Option-cases (known ids sub s)) [
    | inl g ↦ rw (id_read r sub, g, any_missing, stored_encodings) refl
    | inr (enc, g) ↦ elim (Option-cases (stored_encodings s ids subs)) [
      | inl k ↦
          rw (id_read r sub, g, any_missing, stored_encodings, any_missing-stored subs s, k) refl
      | inr (more, k) ↦
          rw (id_read r sub, g, any_missing, stored_encodings, any_missing-stored subs s, k) refl
    ]
  ]

  -- A row can join a batch when every encoding and every recurrent state is there.
  can_batch_predict-eq :
      (s : FeatureState)
      → can_batch_predict fl s row
        ≡ ok (is_some (stored_encodings s ids id_submodules) && has_states s ids)
  unfolding can_batch_predict has_states
  can_batch_predict-eq s =
      let keys = s.recurrent_state_keys in
      elim (Option-cases (stored_encodings s ids id_submodules)) [
        | inl k ↦ rw (any_missing-stored id_submodules s, k, can_batch_predict) refl
        | inr (e, k) ↦ elim (Bool-cases (has ids.0 keys.card_states)) [
          | inr a ↦
              rw (any_missing-stored id_submodules s, k, r.card_read, a, can_batch_predict) refl
          | inl a ↦ elim (Bool-cases (has ids.1 keys.note_states)) [
            | inr b ↦
                rw
                  (
                    any_missing-stored id_submodules s,
                    k,
                    r.card_read,
                    r.note_read,
                    a,
                    b,
                    can_batch_predict,
                  )
                  refl
            | inl b ↦ elim (Bool-cases (has ids.2 keys.deck_states)) [
              | inr c ↦
                  rw
                    (
                      any_missing-stored id_submodules s,
                      k,
                      r.card_read,
                      r.note_read,
                      r.deck_read,
                      a,
                      b,
                      c,
                      can_batch_predict,
                    )
                    refl
              | inl c ↦
                  rw
                    (
                      any_missing-stored id_submodules s,
                      k,
                      r.card_read,
                      r.note_read,
                      r.deck_read,
                      r.preset_read,
                      a,
                      b,
                      c,
                      can_batch_predict,
                    )
                    refl
            ]
          ]
        ]
      ]

module _ (fl : FloatOps) (s : FeatureState) (input : ReviewInput) where
  abbrev predict_row : PreparedRow
  predict_row = prepare_predict_row fl s input

  -- What an outcome of the direct path says of the row.
  abbrev pub SamePrediction : Result StateError (Option (List F32 × ReviewIds)) → Type 0
  SamePrediction (ok none) = can_batch_predict fl s predict_row ≡ ok false
  SamePrediction (ok (some (features, ids))) =
      (ids ≡ normalized_review_ids input)
      × (can_batch_predict fl s predict_row ≡ ok true)
      × (feature_vectors fl s (predict_row ∷ []) ≡ ok (features ∷ []))
  SamePrediction (err e) =
      (can_batch_predict fl s predict_row ≡ ok true)
      × (v : List F32) × (feature_vectors fl s (predict_row ∷ []) ≡ ok (v ∷ []))
      × ((length v == 92) ≡ false)

  batch_row-eq :
      can_batch_predict fl s predict_row
      ≡ ok (
          is_some (stored_encodings s (columns fl s input).ids id_submodules)
          && has_states s (columns fl s input).ids)
  batch_row-eq = rw (direct_columns-ids fl s input) (
      can_batch_predict-eq fl predict_row (normalized_review_ids input)
        (prepare_predict_row-Reads fl s input) s)

  module _ (exact : CastsExact fl) where
    stored_vector :
        {e : List F32}
        → stored_encodings s (columns fl s input).ids id_submodules ≡ some e
        → feature_vectors fl s (predict_row ∷ [])
          ≡ ok ((query_features fl (columns fl s input) ++ (e ++ days fl s input)) ∷ [])
    unfolding feature_vectors known_feature_vector
    stored_vector {e = e} h =
        let known =
          known_encodings-stored fl predict_row (normalized_review_ids input)
            (prepare_predict_row-Reads fl s input) id_submodules s
            (query_features fl (columns fl s input))
            (subst (λ ids. stored_encodings s ids id_submodules ≡ some e)
              (direct_columns-ids fl s input) h) in
        rw
          (
            ← append_assoc (query_features fl (columns fl s input)) e (days fl s input),
            predict_columns fl s input exact,
            known_feature_vector,
            predict_columns fl s input exact,
            known,
            predict_row_days fl s input,
          )
          refl

    -- Where the casts of 0.0 and 1.0 are exact, for every state and input: the direct path gives up exactly where the row may not join a
    -- batch. Where it returns features, they are the vector of the row, under the same identities;
    -- and where it fails, the vector of the row does not have 92 columns.
    pub direct_predict_features-SamePrediction : SamePrediction (direct_predict_features fl s input)
    unfolding direct_predict_features
    direct_predict_features-SamePrediction =
        elim (Option-cases (stored_encodings s (columns fl s input).ids id_submodules)) [
          | inl g ↦ rw (g, direct_predict_features) (rw (batch_row-eq, g) refl)
          | inr (e, g) ↦ elim (Bool-cases (has_states s (columns fl s input).ids)) [
            | inr b ↦ rw (g, b, direct_predict_features) (rw (batch_row-eq, g, b) refl)
            | inl b ↦
                elim (Bool-cases (
                  length (query_features fl (columns fl s input) ++ (e ++ days fl s input))
                  == 92)) [
                    | inl l ↦
                        rw (g, b, l, direct_predict_features)
                          (
                            direct_columns-ids fl s input,
                            rw (batch_row-eq, g, b) refl,
                            stored_vector g,
                          )
                    | inr l ↦
                        rw (g, b, l, direct_predict_features)
                          (rw (batch_row-eq, g, b) refl, _, stored_vector g, l)
                  ]
          ]
        ]
