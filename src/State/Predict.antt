-- ===== src/State/Predict.antt =====
-- A prediction that does not panic leaves the feature state as it was: `predict_feature_vector`
-- (rust/rwkv-srs-cpu/src/state.rs).
use rwkv_srs.Rng.{id_encoding}
use rwkv_srs.State.Rows.{get_i64}
use rwkv_srs.Map.{has, get}
use rwkv_srs.Review.{F32}
use rwkv_srs.State.Vector.{
  append_days, feature_vector, append_feature_vector, append_encodings, predict_feature_vector,
  Appended, any_missing, skip_needs_rng_restore, append_card_features, remember,
}
use rwkv_srs.Features.{FloatOps}
use rwkv_srs.State.{
  FloatOps, PreparedRow, FeatureState, id_submodules, Submodule, F32, submodule_name, encodings,
  is_panic,
}
use rwkv_srs.Base.{
  ◌≡◌, refl, ok, ℕ, List, [], ◌∷◌, Bool, true, false, arith, inl, inr, Option-cases, Result-cases,
  ◌⊎◌, ap, ◌≢◌, ok-injective,
}

true-ne-false : true ≢ false
true-ne-false e = cc

module _ (fl : FloatOps) (row : PreparedRow) where
  -- Without `mutate` the draws move the generator alone.
  append_encodings-keeps :
      (subs : List (Submodule × ℕ)) (s : FeatureState) (features : List F32)
      → (record (append_encodings fl row false subs s features).state { id_rng = s.id_rng }) ≡ s
  unfolding append_encodings
  append_encodings-keeps [] s features = refl
  append_encodings-keeps ((sub, dim) ∷ subs) s features =
      elim (Result-cases (get_i64 fl row (submodule_name sub))) [
        | inl (e, f) ↦ rw (f, append_encodings) refl
        | inr (id, f) ↦ elim (Option-cases (get id (encodings sub s.id_encodings))) [
          | inr (known, g) ↦ rw (f, g, append_encodings) (append_encodings-keeps subs s _)
          | inl g ↦ elim (Option-cases (id_encoding s.id_rng dim)) [
            | inl h ↦ rw (f, g, h, append_encodings) refl
            | inr ((encoding, rng), h) ↦
                rw (f, g, h, append_encodings)
                  (ap (λ (t : FeatureState). record t { id_rng = s.id_rng })
                    (append_encodings-keeps subs (remember false sub id encoding rng s) _))
          ]
        ]
      ]

  -- Where no encoding is missing there is no draw.
  append_encodings-no_draw :
      (subs : List (Submodule × ℕ)) (s : FeatureState) (features : List F32)
      → any_missing fl s row subs ≡ ok false
      → (append_encodings fl row false subs s features).state ≡ s
  unfolding append_encodings any_missing has
  append_encodings-no_draw [] s features m = refl
  append_encodings-no_draw ((sub, dim) ∷ subs) s features m =
      elim (Result-cases (get_i64 fl row (submodule_name sub))) [
        | inl (e, f) ↦ rw (f, append_encodings) refl
        | inr (id, f) ↦ elim (Option-cases (get id (encodings sub s.id_encodings))) [
          | inr (known, g) ↦
              rw (f, g, append_encodings)
                (append_encodings-no_draw subs s _ (rw (f, g, any_missing) at m))
          | inl g ↦ absurd (true-ne-false (ok-injective (rw (f, g, any_missing) at m)))
        ]
      ]

  pub append_days-state : (a : Appended) → (append_days fl row a).state ≡ a.state
  unfolding append_days
  append_days-state a = ground arith

  pub feature_vector-state :
      (mutate : Bool) (s : FeatureState)
      → (feature_vector fl s row mutate).1 ≡ (append_feature_vector fl s row mutate []).state
  unfolding feature_vector
  feature_vector-state mutate s = ground arith

  append_feature_vector-state :
      (s : FeatureState)
      → ((append_feature_vector fl s row false []).state ≡ s)
        ⊎ ((append_feature_vector fl s row false []).state
            ≡ (append_encodings fl row false id_submodules s
                (append_card_features fl row []).1).state)
  unfolding append_feature_vector
  append_feature_vector-state s = elim (Result-cases (append_card_features fl row []).0) [
    | inl (e, f) ↦ inl (rw (f, append_feature_vector) refl)
    | inr (u, f) ↦ inr (rw (f, append_feature_vector, append_days-state) refl)
  ]

  feature_vector-rng :
      (s : FeatureState) → (record (feature_vector fl s row false).1 { id_rng = s.id_rng }) ≡ s
  feature_vector-rng s = elim (append_feature_vector-state s) [
    | inl e ↦ rw (feature_vector-state false s, e) refl
    | inr e ↦ rw (feature_vector-state false s, e) (append_encodings-keeps id_submodules s _)
  ]

  feature_vector-no_draw :
      (s : FeatureState)
      → any_missing fl s row id_submodules ≡ ok false
      → (feature_vector fl s row false).1 ≡ s
  feature_vector-no_draw s m = elim (append_feature_vector-state s) [
    | inl e ↦ rw (feature_vector-state false s, e) refl
    | inr e ↦ rw (feature_vector-state false s, e) (append_encodings-no_draw id_submodules s _ m)
  ]

  -- A prediction that does not panic puts the generator back.
  pub predict_feature_vector-restores :
      (s : FeatureState)
      → is_panic (predict_feature_vector fl s row).0 ≡ false
      → (predict_feature_vector fl s row).1 ≡ s
  unfolding predict_feature_vector skip_needs_rng_restore
  predict_feature_vector-restores s h = elim (Result-cases (any_missing fl s row id_submodules)) [
    | inl (e, f) ↦ rw (f, predict_feature_vector, skip_needs_rng_restore) refl
    | inr (true, f) ↦
        let calm : is_panic (feature_vector fl s row false).0 ≡ false =
          rw (f, predict_feature_vector, skip_needs_rng_restore) at h in
        rw (f, predict_feature_vector, skip_needs_rng_restore, calm) (feature_vector-rng s)
    | inr (false, f) ↦
        rw (f, predict_feature_vector, skip_needs_rng_restore) (feature_vector-no_draw s f)
  ]
