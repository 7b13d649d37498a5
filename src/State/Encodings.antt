-- ===== src/State/Encodings.antt =====
-- The encodings of one review: the loops of the direct and of the prepared path draw the same ones
-- (rust/rwkv-srs-cpu/src/state.rs).
use rwkv_srs.Map.Laws.{get-insert_self}
use rwkv_srs.State.Vector.{remember}
use rwkv_srs.Map.{Map, get, insert}
use rwkv_srs.Rng.{Rng, id_encoding}
use rwkv_srs.State.Direct.{ensure_encodings, id_of, stored_encodings}
use rwkv_srs.Review.{F32}
use rwkv_srs.State.{
  card, note, deck, preset, Submodule, F32, ReviewIds, Rng, Map, FeatureState, IdEncodings,
  encodings, put_encodings,
}
use rwkv_srs.Base.{
  ◌≡◌, ◌≢◌, ◌⊎◌, refl, ap, ℕ, List, [], ◌∷◌, ◌++◌, true, inl, inr, none, some, Option, Option-cases,
  append_assoc, subst, append-nil,
}

-- A write to the map of a submodule leaves the other maps.
pub put_encodings-other :
    (sub other : Submodule) (m : Map (List F32)) (e : IdEncodings)
    → (sub ≡ other) ⊎ (encodings other (put_encodings sub m e) ≡ encodings other e)
put_encodings-other card card m e = inl refl
put_encodings-other card note m e = inr refl
put_encodings-other card deck m e = inr refl
put_encodings-other card preset m e = inr refl
put_encodings-other note card m e = inr refl
put_encodings-other note note m e = inl refl
put_encodings-other note deck m e = inr refl
put_encodings-other note preset m e = inr refl
put_encodings-other deck card m e = inr refl
put_encodings-other deck note m e = inr refl
put_encodings-other deck deck m e = inl refl
put_encodings-other deck preset m e = inr refl
put_encodings-other preset card m e = inr refl
put_encodings-other preset note m e = inr refl
put_encodings-other preset deck m e = inr refl
put_encodings-other preset preset m e = inl refl

put_encodings-same :
    (sub : Submodule) (m : Map (List F32)) (e : IdEncodings)
    → encodings sub (put_encodings sub m e) ≡ m
put_encodings-same card m e = refl
put_encodings-same note m e = refl
put_encodings-same deck m e = refl
put_encodings-same preset m e = refl

pub some-ne-none {ℓ} : {A : Type ℓ} {a : A} {o : Option A} → o ≡ some a → o ≢ none
some-ne-none e f = cc

pub some-injective {ℓ} : {A : Type ℓ} {a b : A} → some a ≡ some b → a ≡ b
some-injective e = cc

-- What the loop gives behind a prefix.
abbrev pub prefixed : List F32 → Option (FeatureState × List F32) → Option (FeatureState × List F32)
prefixed f none = none
prefixed f (some (s, e)) = some (s, f ++ e)

prefixed_twice :
    (f g : List F32) (o : Option (FeatureState × List F32))
    → prefixed f (prefixed g o) ≡ prefixed (f ++ g) o
prefixed_twice f g none = refl
prefixed_twice f g (some (s, e)) = rw (append_assoc f g e) refl

module _ (ids : ReviewIds) where
  -- The encoding that the state has for the identity of a submodule.
  abbrev pub known : Submodule → FeatureState → Option (List F32)
  known sub s = get (id_of sub ids) (encodings sub s.id_encodings)

  remember-known :
      (sub : Submodule) (encoding : List F32) (rng : Rng) (s : FeatureState)
      → known sub (remember true sub (id_of sub ids) encoding rng s) ≡ some encoding
  remember-known sub encoding rng s =
      rw (put_encodings-same sub)
        (get-insert_self (id_of sub ids) encoding (encodings sub s.id_encodings))

  remember-keeps :
      (sub other : Submodule) (encoding e : List F32) (rng : Rng) (s : FeatureState)
      → known sub s ≡ none
      → known other s ≡ some e
      → known other (remember true sub (id_of sub ids) encoding rng s) ≡ some e
  remember-keeps sub other encoding e rng s missing here =
      elim (put_encodings-other sub other
        (insert (id_of sub ids) encoding (encodings sub s.id_encodings)) s.id_encodings) [
          | inl same ↦ absurd (some-ne-none here (subst (λ x. known x s ≡ none) same missing))
          | inr kept ↦ rw kept here
        ]

  -- The loop keeps the encodings that are known.
  ensure_encodings-keeps :
      (subs : List (Submodule × ℕ)) (other : Submodule) (e : List F32) (s : FeatureState)
      (f : List F32) {s' : FeatureState} {f' : List F32}
      → known other s ≡ some e
      → ensure_encodings true subs ids s f ≡ some (s', f')
      → known other s' ≡ some e
  unfolding ensure_encodings
  ensure_encodings-keeps [] other e s f here h =
      subst (λ x. known other x ≡ some e)
        (ap (λ (p : FeatureState × List F32). p.0) (some-injective h)) here
  ensure_encodings-keeps ((sub, dim) ∷ subs) other e s f here h =
      elim (Option-cases (known sub s)) [
        | inr (enc, g) ↦
            ensure_encodings-keeps subs other e s _ here (rw (g, ensure_encodings) at h)
        | inl g ↦ elim (Option-cases (id_encoding s.id_rng dim)) [
          | inl k ↦ absurd (some-ne-none (rw (g, k, ensure_encodings) at h) refl)
          | inr ((enc, rng), k) ↦
              ensure_encodings-keeps subs other e (remember true sub (id_of sub ids) enc rng s) _
                (remember-keeps sub other enc e rng s g here) (rw (g, k, ensure_encodings) at h)
        ]
      ]

  -- The values before the encodings do not matter.
  pub ensure_encodings-prefixed :
      (subs : List (Submodule × ℕ)) (s : FeatureState) (f : List F32)
      → ensure_encodings true subs ids s f ≡ prefixed f (ensure_encodings true subs ids s [])
  unfolding ensure_encodings
  ensure_encodings-prefixed [] s f = rw (append-nil f) refl
  ensure_encodings-prefixed ((sub, dim) ∷ subs) s f = elim (Option-cases (known sub s)) [
    | inr (enc, g) ↦
        rw
          (
            g,
            ensure_encodings,
            ensure_encodings-prefixed subs s (f ++ enc),
            ensure_encodings-prefixed subs s enc,
            prefixed_twice,
          )
          refl
    | inl g ↦ elim (Option-cases (id_encoding s.id_rng dim)) [
      | inl k ↦ rw (g, k, ensure_encodings) refl
      | inr ((enc, rng), k) ↦
          let t = remember true sub (id_of sub ids) enc rng s in
          rw
            (
              g,
              k,
              ensure_encodings,
              ensure_encodings-prefixed subs t (f ++ enc),
              ensure_encodings-prefixed subs t enc,
              prefixed_twice,
            )
            refl
    ]
  ]

  -- The run of the loop behind a prefix, split.
  ensure_encodings-split :
      (subs : List (Submodule × ℕ)) (t : FeatureState) (f : List F32) {p : FeatureState × List F32}
      → ensure_encodings true subs ids t f ≡ some p
      → (q : FeatureState × List F32) × (ensure_encodings true subs ids t [] ≡ some q)
        × ((q.0, f ++ q.1) ≡ p)
  ensure_encodings-split subs t f h = elim (Option-cases (ensure_encodings true subs ids t [])) [
    | inl g ↦ absurd (some-ne-none (rw (ensure_encodings-prefixed subs t f, g) at h) refl)
    | inr (q, g) ↦ (q, g, some-injective (rw (ensure_encodings-prefixed subs t f, g) at h))
  ]

  -- One round of the lemma below.
  stored_round :
      (sub : Submodule) (dim : ℕ) (subs : List (Submodule × ℕ)) (t : FeatureState) (enc : List F32)
      {s' : FeatureState} {e : List F32}
      → ((q : FeatureState × List F32)
          → ensure_encodings true subs ids t [] ≡ some q
          → stored_encodings q.0 ids subs ≡ some q.1)
      → known sub t ≡ some enc
      → ensure_encodings true subs ids t enc ≡ some (s', e)
      → stored_encodings s' ids ((sub, dim) ∷ subs) ≡ some e
  unfolding stored_encodings
  stored_round sub dim subs t enc rest here h =
      let (q, g, same) = ensure_encodings-split subs t enc h in
      subst
        (λ (p : FeatureState × List F32). stored_encodings p.0 ids ((sub, dim) ∷ subs) ≡ some p.1)
        same (rw (ensure_encodings-keeps subs sub enc t [] here g, stored_encodings, rest q g) refl)

  -- After the loop the state has every encoding, and they are those that the loop appended.
  pub ensure-stored_encodings :
      (subs : List (Submodule × ℕ)) (s : FeatureState) {s' : FeatureState} {e : List F32}
      → ensure_encodings true subs ids s [] ≡ some (s', e)
      → stored_encodings s' ids subs ≡ some e
  unfolding ensure_encodings stored_encodings
  ensure-stored_encodings [] s h = ap (λ (p : FeatureState × List F32). some p.1) (some-injective h)
  ensure-stored_encodings ((sub, dim) ∷ subs) s h = elim (Option-cases (known sub s)) [
    | inr (enc, g) ↦
        stored_round sub dim subs s enc (λ q. ensure-stored_encodings subs s) g
          (rw (g, ensure_encodings) at h)
    | inl g ↦ elim (Option-cases (id_encoding s.id_rng dim)) [
      | inl k ↦ absurd (some-ne-none (rw (g, k, ensure_encodings) at h) refl)
      | inr ((enc, rng), k) ↦
          stored_round sub dim subs (remember true sub (id_of sub ids) enc rng s) enc
            (λ q. ensure-stored_encodings subs _) (remember-known sub enc rng s)
            (rw (g, k, ensure_encodings) at h)
    ]
  ]
