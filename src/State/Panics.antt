-- ===== src/State/Panics.antt =====
-- From a generator in order no feature vector panics, and the generator stays in order:
-- `feature_vector` and its callers (rust/rwkv-srs-cpu/src/state.rs).
use rwkv_srs.State.Predict.{predict_feature_vector-restores}
use rwkv_srs.Map.{get, has}
use rwkv_srs.Review.{F32}
use rwkv_srs.Rng.Safe.{IsReady, id_encoding-IsReady}
use rwkv_srs.State.Vector.{
  Appended, append_columns, append_encodings, remember, append_days, feature_vector, any_missing,
  append_feature_vector, predict_feature_vector, skip_needs_rng_restore, append_day_offset_features,
  append_card_features, card_feature_columns,
}
use rwkv_srs.State.Rows.{get_f64, get_i64, as_f64, as_i64}
use rwkv_srs.State.{
  PreparedRow, is_panic, is_panicked, Submodule, String, F32, FeatureState, submodule_name, get,
  encodings, id_submodules, StateError,
}
use rwkv_srs.Features.{FloatOps}
use rwkv_srs.Base.{
  ◌>>=◌, Bool-cases, ◌≡◌, refl, ℕ, List, [], ◌∷◌, Bool, false, arith, inl, inr, Option-cases,
  Result-cases, Result, ok, err,
}

pub >>=-calm :
    {A B : Type 0} (first : Result StateError A) (next : A → Result StateError B)
    → is_panic first ≡ false
    → ((a : A) → is_panic (next a) ≡ false)
    → is_panic (first >>= next) ≡ false
unfolding is_panic
>>=-calm (ok a) next p q = q a
>>=-calm (err e) next p q = p

module _ (fl : FloatOps) (row : PreparedRow) where
  pub get_i64-calm : (field : String) → is_panic (get_i64 fl row field) ≡ false
  unfolding get_i64 is_panic is_panicked as_i64
  get_i64-calm field = ground arith

  pub get_f64-calm : (field : String) → is_panic (get_f64 fl row field) ≡ false
  unfolding get_f64 is_panic is_panicked as_f64
  get_f64-calm field = ground arith

  append_columns-calm :
      (columns : List String) (features : List F32)
      → is_panic (append_columns fl row columns features).0 ≡ false
  unfolding append_columns is_panic
  append_columns-calm [] features = refl
  append_columns-calm (column ∷ columns) features = elim (Result-cases (get_f64 fl row column)) [
    | inl (e, f) ↦ rw (f, append_columns) (rw f at (get_f64-calm column))
    | inr (v, f) ↦ rw (f, append_columns) (append_columns-calm columns _)
  ]

  any_missing-calm :
      (subs : List (Submodule × ℕ)) (s : FeatureState)
      → is_panic (any_missing fl s row subs) ≡ false
  unfolding any_missing is_panic
  any_missing-calm [] s = refl
  any_missing-calm ((sub, dim) ∷ subs) s =
      elim (Result-cases (get_i64 fl row (submodule_name sub))) [
        | inl (e, f) ↦ rw (f, any_missing) (rw f at (get_i64-calm (submodule_name sub)))
        | inr (id, f) ↦ elim (Bool-cases (has id (encodings sub s.id_encodings))) [
          | inl g ↦ rw (f, g, any_missing) (any_missing-calm subs s)
          | inr g ↦ rw (f, g, any_missing) refl
        ]
      ]

  -- What a call that appends leaves behind, where it does not panic.
  pub record IsCalm (a : Appended) : Type 0 where
    pub calm : is_panic a.outcome ≡ false
    pub ready : IsReady a.state.id_rng

  append_encodings-IsCalm :
      (mutate : Bool) (subs : List (Submodule × ℕ)) (s : FeatureState) (features : List F32)
      → IsReady s.id_rng
      → IsCalm (append_encodings fl row mutate subs s features)
  unfolding append_encodings is_panic
  append_encodings-IsCalm mutate [] s features h = record { calm = refl; ready = h }
  append_encodings-IsCalm mutate ((sub, dim) ∷ subs) s features h =
      elim (Result-cases (get_i64 fl row (submodule_name sub))) [
        | inl (e, f) ↦
            rw (f, append_encodings)
              (record { calm = rw f at (get_i64-calm (submodule_name sub)); ready = h })
        | inr (id, f) ↦ elim (Option-cases (get id (encodings sub s.id_encodings))) [
          | inr (known, g) ↦ rw (f, g, append_encodings) (append_encodings-IsCalm mutate subs s _ h)
          | inl g ↦
              let (encoding, rng, drawn, _, later) = id_encoding-IsReady dim s.id_rng h in
              rw (f, g, drawn, append_encodings)
                (append_encodings-IsCalm mutate subs (remember mutate sub id encoding rng s) _
                  later)
        ]
      ]

  append_days-IsCalm : (a : Appended) → IsCalm a → IsCalm (append_days fl row a)
  unfolding append_days append_day_offset_features is_panic
  append_days-IsCalm a h = elim (Result-cases a.outcome) [
    | inl (e, f) ↦ rw (f, append_days) h
    | inr (u, f) ↦ elim (Result-cases (get_f64 fl row "day_offset")) [
      | inl (e, g) ↦
          rw (f, g, append_days)
            (record { calm = rw g at (get_f64-calm "day_offset"); ready = h.ready })
      | inr (day, g) ↦ elim (Result-cases (get_f64 fl row "day_offset_first")) [
        | inl (e, k) ↦
            rw (f, g, k, append_days)
              (record { calm = rw k at (get_f64-calm "day_offset_first"); ready = h.ready })
        | inr (first, k) ↦ rw (f, g, k, append_days) (record { calm = h.calm; ready = h.ready })
      ]
    ]
  ]

  append_feature_vector-IsCalm :
      (mutate : Bool) (s : FeatureState)
      → IsReady s.id_rng
      → IsCalm (append_feature_vector fl s row mutate [])
  unfolding append_feature_vector append_card_features is_panic
  append_feature_vector-IsCalm mutate s h = elim (Result-cases (append_card_features fl row []).0) [
    | inl (e, f) ↦
        rw (f, append_feature_vector)
          (record { calm = rw f at (append_columns-calm card_feature_columns []); ready = h })
    | inr (u, f) ↦
        rw (f, append_feature_vector)
          (append_days-IsCalm _ (append_encodings-IsCalm mutate id_submodules s _ h))
  ]

  pub feature_vector-calm :
      (mutate : Bool) (s : FeatureState)
      → IsReady s.id_rng
      → (is_panic (feature_vector fl s row mutate).0 ≡ false)
        × IsReady (feature_vector fl s row mutate).1.id_rng
  unfolding feature_vector is_panic
  feature_vector-calm mutate s h =
      let c = append_feature_vector-IsCalm mutate s h in
      elim (Result-cases (append_feature_vector fl s row mutate []).outcome) [
        | inl (e, f) ↦ rw (f, feature_vector) (rw f at c.calm, c.ready)
        | inr (u, f) ↦ rw (f, feature_vector) (refl, c.ready)
      ]

  predict_feature_vector-calm :
      (s : FeatureState) → IsReady s.id_rng → is_panic (predict_feature_vector fl s row).0 ≡ false
  unfolding predict_feature_vector skip_needs_rng_restore is_panic
  predict_feature_vector-calm s h = elim (Result-cases (any_missing fl s row id_submodules)) [
    | inl (e, f) ↦
        rw (f, predict_feature_vector, skip_needs_rng_restore)
          (rw f at (any_missing-calm id_submodules s))
    | inr (restore, f) ↦
        rw (f, predict_feature_vector, skip_needs_rng_restore) (feature_vector-calm false s h).0
  ]

  -- From a state whose generator is in order, a prediction does not panic, for every row and whatever
  -- it gives, and it leaves the feature state as it was, the generator included.
  pub predict_feature_vector-state :
      (s : FeatureState)
      → IsReady s.id_rng
      → (is_panic (predict_feature_vector fl s row).0 ≡ false)
        × ((predict_feature_vector fl s row).1 ≡ s)
  predict_feature_vector-state s h =
      let calm = predict_feature_vector-calm s h in
      (calm, predict_feature_vector-restores fl row s calm)
