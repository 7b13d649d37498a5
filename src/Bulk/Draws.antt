-- ===== src/Bulk/Draws.antt =====
-- The encodings of a prepared row are those of the direct path: the loop of `append_feature_vector`
-- against that of `append_process_feature_rows`, with and without `mutate`
-- (rust/rwkv-srs-cpu/src/state.rs).
use rwkv_srs.Map.{insert}
use rwkv_srs.State.Direct.{ensure_encodings, id_of}
use rwkv_srs.State.Encodings.{put_encodings-other, some-injective, known, some-ne-none}
use rwkv_srs.State.Vector.{remember, append_encodings, Appended}
use rwkv_srs.Bulk.Ids.{Reads, id_read}
use rwkv_srs.Rng.{Rng, id_encoding}
use rwkv_srs.Review.{F32}
use rwkv_srs.Features.{FloatOps}
use rwkv_srs.State.{id_submodules, Submodule, FeatureState, PreparedRow, encodings, ReviewIds}
use rwkv_srs.Base.{
  ◌≡◌, ◌≢◌, refl, ap, ◌∙◌, ok, ℤ, ℕ, List, [], ◌∷◌, true, false, inl, inr, some, Option-cases,
}

-- A submodule that none of the list is, and a list that names each once.
abbrev IsFresh : Submodule → List (Submodule × ℕ) → Type 0
IsFresh sub [] = Unit
IsFresh sub ((other, _) ∷ subs) = (sub ≢ other) × IsFresh sub subs

abbrev AreDistinct : List (Submodule × ℕ) → Type 0
AreDistinct [] = Unit
AreDistinct ((sub, _) ∷ subs) = IsFresh sub subs × AreDistinct subs

pub id_submodules-AreDistinct : AreDistinct id_submodules
id_submodules-AreDistinct = (
  ((λ e. cc), ((λ e. cc), ((λ e. cc), tt))),
  (((λ e. cc), ((λ e. cc), tt)), (((λ e. cc), tt), (tt, tt))),
)

-- Two states with the same encodings of the submodules that are left.
abbrev Agrees : List (Submodule × ℕ) → FeatureState → FeatureState → Type 0
Agrees [] s t = Unit
Agrees ((sub, _) ∷ subs) s t =
    (encodings sub s.id_encodings ≡ encodings sub t.id_encodings) × Agrees subs s t

pub Agrees-refl : (subs : List (Submodule × ℕ)) (s : FeatureState) → Agrees subs s s
Agrees-refl [] s = tt
Agrees-refl (_ ∷ subs) s = (refl, Agrees-refl subs s)

remember-Agrees :
    (subs : List (Submodule × ℕ)) (sub : Submodule) (id : ℤ) (e : List F32) (rng : Rng)
    (s t : FeatureState)
    → IsFresh sub subs
    → Agrees subs s t
    → Agrees subs (remember true sub id e rng s) (remember false sub id e rng t)
remember-Agrees [] sub id e rng s t fresh a = tt
remember-Agrees ((other, _) ∷ subs) sub id e rng s t (ne, fresh) (same, a) = (
  elim (put_encodings-other sub other (insert id e (encodings sub s.id_encodings)) s.id_encodings) [
    | inl same_sub ↦ absurd (ne same_sub)
    | inr kept ↦ kept ∙ same
  ],
  remember-Agrees subs sub id e rng s t fresh a,
)

module _ (fl : FloatOps) (row : PreparedRow) (ids : ReviewIds) (r : Reads fl row ids) where
  -- With `mutate` the two loops do the same.
  pub append_encodings-mutate :
      (subs : List (Submodule × ℕ)) (s : FeatureState) (f : List F32) {p : FeatureState × List F32}
      → ensure_encodings true subs ids s f ≡ some p
      → append_encodings fl row true subs s f
        ≡ (let a : Appended = record { outcome = ok tt; state = p.0; features = p.1 } in a)
  unfolding append_encodings ensure_encodings
  append_encodings-mutate [] s f h =
      ap
        (λ (p : FeatureState × List F32).
          let a : Appended = record { outcome = ok tt; state = p.0; features = p.1 } in a)
        (some-injective h)
  append_encodings-mutate ((sub, dim) ∷ subs) s f h = elim (Option-cases (known ids sub s)) [
    | inr (enc, g) ↦
        rw (id_read r sub, g, append_encodings)
          (append_encodings-mutate subs s _ (rw (g, ensure_encodings) at h))
    | inl g ↦ elim (Option-cases (id_encoding s.id_rng dim)) [
      | inl k ↦ absurd (some-ne-none (rw (g, k, ensure_encodings) at h) refl)
      | inr ((enc, rng), k) ↦
          rw (id_read r sub, g, k, append_encodings)
            (append_encodings-mutate subs (remember true sub (id_of sub ids) enc rng s) _
              (rw (g, k, ensure_encodings) at h))
    ]
  ]

  -- Without `mutate` the values are the same, although no drawn encoding is stored.
  pub append_encodings-predict :
      (subs : List (Submodule × ℕ)) (s t : FeatureState) (f : List F32)
      {p : FeatureState × List F32}
      → AreDistinct subs
      → s.id_rng ≡ t.id_rng
      → Agrees subs s t
      → ensure_encodings true subs ids s f ≡ some p
      → ((append_encodings fl row false subs t f).outcome ≡ ok tt)
        × ((append_encodings fl row false subs t f).features ≡ p.1)
  unfolding append_encodings ensure_encodings
  append_encodings-predict [] s t f d rng a h =
      (refl, ap (λ (p : FeatureState × List F32). p.1) (some-injective h))
  append_encodings-predict ((sub, dim) ∷ subs) s t f (fresh, d) same (here, a) h =
      elim (Option-cases (known ids sub s)) [
        | inr (enc, g) ↦
            rw (id_read r sub, ← here, g, append_encodings)
              (append_encodings-predict subs s t _ d same a (rw (g, ensure_encodings) at h))
        | inl g ↦ elim (Option-cases (id_encoding s.id_rng dim)) [
          | inl k ↦ absurd (some-ne-none (rw (g, k, ensure_encodings) at h) refl)
          | inr ((enc, rng), k) ↦
              rw (id_read r sub, ← here, g, ← same, k, append_encodings)
                (append_encodings-predict subs (remember true sub (id_of sub ids) enc rng s)
                  (remember false sub (id_of sub ids) enc rng t) _ d refl
                  (remember-Agrees subs sub (id_of sub ids) enc rng s t fresh a)
                  (rw (g, k, ensure_encodings) at h))
        ]
      ]
