-- ===== src/Live/Final/Boundary.antt =====
-- The loop of next_boundary ends.
use rwkv_srs.Base.{
  zero, suc, some, true, false, ℕ, pos_part, ◌+◌, ◌<ℤ◌, ◌≤ℤ◌, neg_part, ◌≡◌, ◌<◌, ◌⊎◌, ◌≤◌,
  Bool-cases, arith, inr, ◌^◌, inl, ◌-◌, compare_ℤ_cases, add_one_parts, pos, refl, subst, Option,
  ◌&&◌, ◌∙◌, none, not, ◌||◌,
}
use rwkv_srs.Features.{FloatOps, one_f64}
use rwkv_srs.Floats.{rank, next_up, infinity, is_nan, le_f64, clamp_f64, lt_f64}
use rwkv_srs.Floats.Keys.{
  magnitude-lt, rank-lt, next_up_pos, IsFinite-of_pos, next_up_zero, next_up_neg, IsFinite-of_neg,
  rank-next_up, rank_pos,
}
use rwkv_srs.Live.{LivePredictionSessionState, prediction_at, status_at}
use rwkv_srs.Live.Final.{raise_required, falls_short, next_boundary, first_required}
use rwkv_srs.Live.Rank.{calculate_eligibility, applicable_target}
use rwkv_srs.Live.Status.{prediction_is_usable}
use rwkv_srs.Map.Laws.{none-ne-some}
use rwkv_srs.Review.{is_finite, F64, IsFinite}
use rwkv_srs.State.Encodings.{some-injective}

-- Adding grows past a prediction: from some finite number on the sum is above it.
pub record Reaches (fl : FloatOps) (prediction target : F64) (limit : F64) : Type 0 where
  pub finite : IsFinite limit
  pub above :
      (r : F64) → IsFinite r → rank limit ≤ℤ rank r → falls_short fl prediction target r ≡ false

next_up-IsFinite :
    (w limit : F64) → IsFinite w → IsFinite limit → rank w <ℤ rank limit → IsFinite (next_up w)
next_up-IsFinite w limit f g lt =
    let m = magnitude-lt w f.fits f.finite in
    let bound = rank-lt limit g in
    let fits = f.fits in
    elim (compare_cases w (2 ^ 63)) [
      | inl low ↦
          let below : w < infinity = omega arith in
          let further : pos w <ℤ rank limit = subst (λ z. z <ℤ rank limit) (rank_pos w low) lt in
          let room : w + 1 < infinity = omega arith in
          rw (next_up_pos w below) (IsFinite-of_pos (w + 1) room)
      | inr (inl same) ↦
          let one : IsFinite (next_up (2 ^ 63)) =
            rw next_up_zero (IsFinite-of_pos 1 (omega arith)) in
          rw same one
      | inr (inr high) ↦
          let below : w < 2 ^ 63 + infinity = omega arith in
          rw (next_up_neg w high below) (IsFinite-of_neg (w - 1) (omega arith) (omega arith))
    ]
  where
    compare_cases : (a b : ℕ) → (a < b) ⊎ ((a ≡ b) ⊎ (b < a))
    compare_cases a b = ground arith

not_yet :
    (fl : FloatOps) (prediction target limit r : F64)
    → Reaches fl prediction target limit
    → IsFinite r
    → falls_short fl prediction target r ≡ true
    → rank r <ℤ rank limit
not_yet fl prediction target limit r reaches f short =
    elim (compare_ℤ_cases (rank r) (rank limit)) [
      | inl (e, lt) ↦ lt
      | inr (inl (e, same)) ↦ let ends = reaches.above r f (rw same (omega arith)) in ground arith
      | inr (inr (e, gt)) ↦ let ends = reaches.above r f (omega arith) in ground arith
    ]

rank-next_up-parts :
    (r : F64)
    → IsFinite r
    → pos_part (rank (next_up r)) + neg_part (rank r)
      ≡ pos_part (rank r) + neg_part (rank (next_up r)) + 1
rank-next_up-parts r f = rw (rank-next_up r f) (add_one_parts (rank r))

-- Enough rounds are one more than the numbers up to the limit.
raise_required-ends :
    (fl : FloatOps) (prediction target limit : F64) (rounds : ℕ) (r : F64)
    → Reaches fl prediction target limit
    → IsFinite r
    → pos_part (rank limit) + neg_part (rank r) ≤ pos_part (rank r) + neg_part (rank limit) + rounds
    → (required : F64) × (raise_required fl prediction target (suc rounds) r ≡ some required)
      × ((falls_short fl prediction target required ≡ false) × IsFinite required)
unfolding raise_required
raise_required-ends fl prediction target limit zero r reaches f h =
    elim (Bool-cases (falls_short fl prediction target r)) [
      | inr ends ↦ (r, rw (ends, raise_required) refl, (ends, f))
      | inl short ↦
          let lt = not_yet fl prediction target limit r reaches f short in absurd (omega arith)
    ]
raise_required-ends fl prediction target limit (suc rounds) r reaches f h =
    elim (Bool-cases (falls_short fl prediction target r)) [
      | inr ends ↦ (r, rw (ends, raise_required) refl, (ends, f))
      | inl short ↦
          let lt = not_yet fl prediction target limit r reaches f short in
          let step = rank-next_up-parts r f in
          let (required, found, rest) =
            raise_required-ends fl prediction target limit rounds (next_up r) reaches
              (next_up-IsFinite r limit f reaches.finite lt) (omega arith) in
          (required, rw (short, raise_required) found, rest)
    ]

-- The sum of two finite numbers is a number.
pub record SumsAreNumbers (fl : FloatOps) : Type 0 where
  pub sum : (a b : F64) → is_finite a ≡ true → is_finite b ≡ true → is_nan (fl.add a b) ≡ false

nan_zero : is_nan 0 ≡ false
unfolding is_nan
nan_zero = refl

nan_one : is_nan one_f64 ≡ false
unfolding is_nan
nan_one = refl

clamp-number : (w : F64) → is_nan w ≡ false → is_nan (clamp_f64 w 0 one_f64) ≡ false
unfolding clamp_f64
clamp-number w h = elim (Bool-cases (lt_f64 w 0)) [
  | inl e ↦ rw (e, clamp_f64) nan_zero
  | inr e ↦ elim (Bool-cases (lt_f64 one_f64 w)) [
    | inl g ↦ rw (e, g, clamp_f64) nan_one
    | inr g ↦ rw (e, g, clamp_f64) h
  ]
]

le-or-lt :
    (a b : F64) → is_nan a ≡ false → is_nan b ≡ false → le_f64 a b ≡ false → lt_f64 b a ≡ true
unfolding le_f64 lt_f64
le-or-lt a b ha hb h = ground arith

pub finite-number : (w : F64) → is_finite w ≡ true → is_nan w ≡ false
unfolding is_nan is_finite
finite-number w h = ground arith

falls_short-lem :
    (fl : FloatOps) (prediction target required : F64)
    → falls_short fl prediction target required ≡ false
    → le_f64 (clamp_f64 (fl.add target required) 0 one_f64) prediction ≡ false
unfolding falls_short
falls_short-lem fl prediction target required h = h

eligibility_lem :
    (fl : FloatOps) (s : LivePredictionSessionState) (slot : ℕ) (extra : F64)
    → calculate_eligibility fl (record s { retention_extra = extra }) slot ≡ (
        prediction_is_usable (status_at s slot)
        && (is_finite (prediction_at s slot)
            && (is_finite (applicable_target s slot)
                && lt_f64
                    (prediction_at s slot)
                    (clamp_f64 (fl.add (applicable_target s slot) extra) 0 one_f64))))
unfolding calculate_eligibility applicable_target
eligibility_lem fl s slot extra = refl

-- With a retention that does not fall short the slot is eligible.
enough-eligible :
    (fl : FloatOps) (s : LivePredictionSessionState) (slot : ℕ) (required : F64)
    → SumsAreNumbers fl
    → prediction_is_usable (status_at s slot) ≡ true
    → is_finite (prediction_at s slot) ≡ true
    → is_finite (applicable_target s slot) ≡ true
    → is_finite required ≡ true
    → falls_short fl (prediction_at s slot) (applicable_target s slot) required ≡ false
    → calculate_eligibility fl (record s { retention_extra = required }) slot ≡ true
enough-eligible fl s slot required sums usable p t r short =
    let target = applicable_target s slot in
    let less : lt_f64 (prediction_at s slot) (clamp_f64 (fl.add target required) 0 one_f64) ≡ true =
      le-or-lt (clamp_f64 (fl.add target required) 0 one_f64) (prediction_at s slot)
        (clamp-number (fl.add target required) (sums.sum target required t r))
        (finite-number (prediction_at s slot) p) (falls_short-lem fl _ _ required short) in
    eligibility_lem fl s slot required ∙ rw (usable, p, t, less) refl

-- Where sums of finite numbers are numbers, some finite number is enough for the sums from it on to
-- exceed the prediction, and the search starts at a finite number, the search for the least retention
-- ends within its rounds, and a retention that it gives makes the slot eligible.
pub next_boundary-ends :
    (fl : FloatOps) (s : LivePredictionSessionState) (slot : ℕ) (limit : F64)
    → SumsAreNumbers fl
    → Reaches fl (prediction_at s slot) (applicable_target s slot) limit
    → IsFinite (first_required fl (prediction_at s slot) (applicable_target s slot))
    → (boundary : Option F64) × (next_boundary fl s slot ≡ some boundary)
      × ((required : F64)
          → boundary ≡ some required
          → calculate_eligibility fl (record s { retention_extra = required }) slot ≡ true)
unfolding next_boundary
next_boundary-ends fl s slot limit sums reaches first =
    let p = prediction_at s slot in
    let t = applicable_target s slot in
    elim (Bool-cases (prediction_is_usable (status_at s slot))) [
      | inr refused ↦ (none, rw (refused, next_boundary) refl, λ r e. absurd (none-ne-some r e))
      | inl usable ↦
          elim (Bool-cases (not (is_finite p) || (not (is_finite t) || le_f64 one_f64 p))) [
            | inl skip ↦
                (none, rw (usable, skip, next_boundary) refl, λ r e. absurd (none-ne-some r e))
            | inr go ↦
                let finite : (is_finite p ≡ true) × (is_finite t ≡ true) = ground arith in
                let (required, found, (short, fits)) =
                  raise_required-ends fl p t limit (2 ^ 64 - 1) (first_required fl p t) reaches
                    first
                    (let a = rank-lt limit reaches.finite in
                      let b = rank-lt (first_required fl p t) first in omega arith) in
                elim (Bool-cases (lt_f64 s.retention_extra required)) [
                  | inr refused ↦ (
                    none,
                    rw (usable, go, found, refused, next_boundary) refl,
                    λ r e. absurd (none-ne-some r e),
                  )
                  | inl more ↦ (
                    some required,
                    rw (usable, go, found, more, next_boundary) refl,
                    λ r e.
                        subst
                          (λ extra.
                            calculate_eligibility fl (record s { retention_extra = extra }) slot
                            ≡ true)
                          (some-injective e)
                          (enough-eligible fl s slot required sums usable finite.0 finite.1
                            fits.finite short),
                  )
                ]
          ]
    ]
