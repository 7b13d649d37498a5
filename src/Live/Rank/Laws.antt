-- ===== src/Live/Rank/Laws.antt =====
-- The comparison of slots is an order that tells the cards apart.
use rwkv_srs.Base.{
  ℕ, ◌≡◌, refl, Ordering, arith, compare_ℤ_cases, get_or, ◌∙◌, Bool, if◌then◌else◌, sym, ◌&&◌, not,
  false, true,
}
use rwkv_srs.Features.{FloatOps, one_f64}
use rwkv_srs.Floats.{le_f64, lt_f64}
use rwkv_srs.Live.{
  random, retrievability_ascending, retrievability_descending, relative_overdueness,
  LivePredictionSessionState, candidate_at, eligible_at, prediction_at, LiveOrder, RankKey,
}
use rwkv_srs.Live.Rank.{
  rank_key, tie_breaker_at, compare_slots, compare_slot_to_rank_entry, rank_entry,
  compare_key_to_rank_entry, applicable_target, bit, keyed, finite_value, overdueness,
}
use rwkv_srs.Review.{F64}
use rwkv_srs.Sorting.{IsOrder}
use rwkv_srs.Sorting.Laws.{compare-IsOrder, compare_ℤ-IsOrder, then_with-IsOrder}

module _ (fl : FloatOps) (s : LivePredictionSessionState) where
  pub compare_slots-IsOrder : IsOrder (compare_slots fl s)
  unfolding compare_slots
  compare_slots-IsOrder =
      then_with-IsOrder
        (then_with-IsOrder
          (then_with-IsOrder (compare-IsOrder λ slot. (rank_key fl s slot).class)
            (compare-IsOrder λ slot. (rank_key fl s slot).order_key))
          (compare-IsOrder (tie_breaker_at fl s)))
        (compare_ℤ-IsOrder λ slot. (candidate_at s slot).card_id)

  -- Slots that compare as equal hold one card.
  pub compare_slots-eq :
      (a b : ℕ)
      → compare_slots fl s a b ≡ Ordering.eq
      → (candidate_at s a).card_id ≡ (candidate_at s b).card_id
  unfolding compare_slots
  compare_slots-eq a b h =
      ground (arith, compare_ℤ_cases (candidate_at s a).card_id (candidate_at s b).card_id)

  pub compare_slot_to_rank_entry-compare_slots :
      (a b : ℕ) → compare_slot_to_rank_entry fl s a (rank_entry fl s b) ≡ compare_slots fl s a b
  unfolding compare_slots compare_slot_to_rank_entry rank_entry compare_key_to_rank_entry
  compare_slot_to_rank_entry-compare_slots a b = refl

-- Two sessions agree on a slot: its columns and the order are the same.
pub record SameAt (s t : LivePredictionSessionState) (v : ℕ) : Type 0 where
  pub same_eligible : eligible_at s v ≡ eligible_at t v
  pub same_prediction : prediction_at s v ≡ prediction_at t v
  pub same_random : get_or s.random_keys v 0 ≡ get_or t.random_keys v 0
  pub same_normal : get_or s.normal_targets v 0 ≡ get_or t.normal_targets v 0
  pub same_intraday : get_or s.intraday_targets v 0 ≡ get_or t.intraday_targets v 0
  pub same_tie : get_or s.tie_breakers v 0 ≡ get_or t.tie_breakers v 0
  pub same_candidate : candidate_at s v ≡ candidate_at t v

-- The rank key from the values that it reads.
abbrev target_of : F64 → F64 → F64 → F64
target_of elapsed_days intraday normal =
    if le_f64 0 elapsed_days && lt_f64 elapsed_days one_f64 then intraday else normal

applicable_target_lem :
    (s : LivePredictionSessionState) (v : ℕ)
    → applicable_target s v
      ≡ target_of
          (candidate_at s v).queried_elapsed_days
          (get_or s.intraday_targets v 0)
          (get_or s.normal_targets v 0)
unfolding applicable_target
applicable_target_lem s v = refl

abbrev key_of : FloatOps → LiveOrder → Bool → F64 → ℕ → F64 → RankKey
key_of fl order eligible prediction key target = elim order [
  | random ↦ record { class = bit (not eligible); order_key = key }
  | retrievability_ascending ↦ keyed false eligible (finite_value prediction)
  | retrievability_descending ↦ keyed true eligible (finite_value prediction)
  | relative_overdueness ↦ keyed false eligible (overdueness fl prediction target)
]

rank_key_lem :
    (fl : FloatOps) (s : LivePredictionSessionState) (v : ℕ)
    → rank_key fl s v
      ≡ key_of fl s.order
          (eligible_at s v)
          (prediction_at s v)
          (get_or s.random_keys v 0)
          (applicable_target s v)
unfolding rank_key
rank_key_lem fl s v = refl

applicable_target-agree :
    (s t : LivePredictionSessionState) (v : ℕ)
    → SameAt s t v
    → applicable_target s v ≡ applicable_target t v
applicable_target-agree s t v same =
    applicable_target_lem s v
    ∙ rw (same.same_candidate, same.same_intraday, same.same_normal)
        (sym (applicable_target_lem t v))

module _ (fl : FloatOps) (s t : LivePredictionSessionState) (same_order : s.order ≡ t.order) where
  rank_key-agree : (v : ℕ) → SameAt s t v → rank_key fl s v ≡ rank_key fl t v
  unfolding rank_key applicable_target
  rank_key-agree v same =
      rank_key_lem fl s v
      ∙ rw
          (
            same.same_eligible,
            same.same_prediction,
            same.same_random,
            applicable_target-agree s t v same,
            same_order,
          )
          (sym (rank_key_lem fl t v))

  pub compare_slots-agree :
      (a b : ℕ) → SameAt s t a → SameAt s t b → compare_slots fl s a b ≡ compare_slots fl t a b
  unfolding compare_slots
  compare_slots-agree a b at_a at_b = rw (
    rank_key-agree a at_a,
    rank_key-agree b at_b,
    at_a.same_tie,
    at_b.same_tie,
    at_a.same_candidate,
    at_b.same_candidate,
  )
