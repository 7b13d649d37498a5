-- ===== src/Live/Rank.antt =====
-- The rank of a slot in live_session.rs: its key, the comparison of two slots, and the comparison
-- of a slot with an entry that carries its key.
pub mod Laws
use Prim.Native.Nat.{compare}
use rwkv_srs.Base.{
  ℕ, ◌+◌, ◌*◌, ◌-◌, ◌^◌, Ordering, compare_ℤ, Bool, true, false, not, ◌&&◌, Option, none, some,
  if◌then◌else◌, get_or,
}
use rwkv_srs.Features.{FloatOps, one_f64}
use rwkv_srs.Floats.{le_f64, lt_f64, max_f64, clamp_f64, ordered_f64_key}
use rwkv_srs.Live.{
  LivePredictionSessionState, RankKey, RankEntry, retrievability_ascending,
  retrievability_descending, relative_overdueness, random, candidate_at, prediction_at, status_at,
  eligible_at,
}
use rwkv_srs.Live.Status.{prediction_is_usable}
use rwkv_srs.Review.{F64, is_finite}
use rwkv_srs.Sorting.{then_with}

-- 0.0001
abbrev pub score_floor : F64
score_floor = 0x3f1a_36e2_eb1c_432d

-- applicable_target, and the same over the parts of the session: the target of a card that was seen
-- less than a day ago is the intraday one.
unfoldable pub applicable_target : LivePredictionSessionState → ℕ → F64
unfolding le_f64 lt_f64
applicable_target s slot =
    let elapsed_days = (candidate_at s slot).queried_elapsed_days in
    if le_f64 0 elapsed_days && lt_f64 elapsed_days one_f64
    then get_or s.intraday_targets slot 0
    else get_or s.normal_targets slot 0

abbrev pub bit : Bool → ℕ
bit true = 1
bit false = 0

abbrev pub finite_value : F64 → Option F64
finite_value value = if is_finite value then some value else none

-- RankKey of a slot whose order has a value to sort by, or none.
unfoldable pub keyed : Bool → Bool → Option F64 → RankKey
unfolding ordered_f64_key
keyed descending eligible none = record { class = bit (not eligible) * 2 + 1; order_key = 0 }
keyed descending eligible (some value) =
    let ascending_key = ordered_f64_key value in
    record {
      class = bit (not eligible) * 2 + 0;
      order_key = if descending then 2 ^ 64 - 1 - ascending_key else ascending_key;
    }

module _ (fl : FloatOps) where
  open fl use {add, div}

  unfoldable pub calculate_eligibility : LivePredictionSessionState → ℕ → Bool
  calculate_eligibility s slot =
      let prediction = prediction_at s slot in
      let target = applicable_target s slot in
      prediction_is_usable (status_at s slot)
      && (is_finite prediction
          && (is_finite target
              && lt_f64 prediction (clamp_f64 (add target s.retention_extra) 0 one_f64)))

  -- The overdueness of a prediction for its target, where both are finite.
  unfoldable pub overdueness : F64 → F64 → Option F64
  unfolding is_finite max_f64
  overdueness prediction target =
      if is_finite prediction && is_finite target
      then finite_value (div (max_f64 prediction score_floor) (max_f64 target score_floor))
      else none

  unfoldable pub rank_key : LivePredictionSessionState → ℕ → RankKey
  unfolding keyed overdueness applicable_target is_finite
  rank_key s slot =
      let eligible = eligible_at s slot in
      let prediction = prediction_at s slot in
      elim s.order [
        | random ↦ record { class = bit (not eligible); order_key = get_or s.random_keys slot 0 }
        | retrievability_ascending ↦ keyed false eligible (finite_value prediction)
        | retrievability_descending ↦ keyed true eligible (finite_value prediction)
        | relative_overdueness ↦
            keyed false eligible (overdueness prediction (applicable_target s slot))
      ]

  -- The derived `Ord` of RankKey.
  abbrev pub compare_keys : RankKey → RankKey → Ordering
  compare_keys a b = then_with (compare a.class b.class) (compare a.order_key b.order_key)

  abbrev pub tie_breaker_at : LivePredictionSessionState → ℕ → ℕ
  tie_breaker_at s slot = get_or s.tie_breakers slot 0

  unfoldable pub compare_slots : LivePredictionSessionState → ℕ → ℕ → Ordering
  unfolding rank_key
  compare_slots s left right =
      then_with
        (then_with (compare_keys (rank_key s left) (rank_key s right))
          (compare (tie_breaker_at s left) (tie_breaker_at s right)))
        (compare_ℤ (candidate_at s left).card_id (candidate_at s right).card_id)

  unfoldable pub compare_key_to_rank_entry :
      LivePredictionSessionState → RankKey → ℕ → RankEntry → Ordering
  compare_key_to_rank_entry s left_key left_slot right =
      then_with
        (then_with (compare_keys left_key right.key)
          (compare (tie_breaker_at s left_slot) (tie_breaker_at s right.slot)))
        (compare_ℤ (candidate_at s left_slot).card_id (candidate_at s right.slot).card_id)

  unfoldable pub compare_slot_to_rank_entry : LivePredictionSessionState → ℕ → RankEntry → Ordering
  unfolding rank_key compare_key_to_rank_entry
  compare_slot_to_rank_entry s left_slot right =
      compare_key_to_rank_entry s (rank_key s left_slot) left_slot right

  -- The entry of a slot, and the comparison by which entries are sorted.
  unfoldable pub rank_entry : LivePredictionSessionState → ℕ → RankEntry
  unfolding rank_key
  rank_entry s slot = record { key = rank_key s slot; slot = slot }

  unfoldable pub compare_entries : LivePredictionSessionState → RankEntry → RankEntry → Ordering
  unfolding compare_key_to_rank_entry
  compare_entries s left right = compare_key_to_rank_entry s left.key left.slot right
