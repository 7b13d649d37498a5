-- ===== src/Tests/Sessions.antt =====
-- Runs and instances of the live session.
use rwkv_srs.Base.{
  ok, none, some, refl, [], ◌∷◌, true, false, err, pos, List, ℤ, Result, ◌≡◌, take, Option, ltb,
  ◌+ℤ◌, arith, ◌==◌, ◌<◌, length, ◌≤ℤ◌,
}
use rwkv_srs.Features.{two_f64, minus_one_f64, one_f64, FloatOps}
use rwkv_srs.Floats.{lt_f64, rank, next_up, ordered_f64_key, eq_f64, is_nan, le_f64, clamp_f64}
use rwkv_srs.Floats.Keys.{rank-next_up, lt_f64-ordered_f64_key, IsFinite-of_pos}
use rwkv_srs.Live.{
  gpu, active, random, fast, LivePredictionSessionState, LiveError, LiveCandidateSeedNative,
  status_at,
}
use rwkv_srs.Live.Edit.{drop_slot, remove_card, include_card, exclude_card}
use rwkv_srs.Live.Final.{next_boundary, falls_short, first_required}
use rwkv_srs.Live.Final.Boundary.{SumsAreNumbers, Reaches, finite-number, next_boundary-ends}
use rwkv_srs.Live.New.{new_unranked, empty_session}
use rwkv_srs.Live.Order.{rebuild_order, all_slots, merge_updated_order}
use rwkv_srs.Live.Order.Invariant.{merge_updated_order-rebuild_order}
use rwkv_srs.Live.Rank.{applicable_target, calculate_eligibility}
use rwkv_srs.Live.Select.{select_refresh_membership, named_slots}
use rwkv_srs.Live.Select.Membership.{refresh_queue}
use rwkv_srs.Live.Select.Spec.{select_refresh_membership-queue}
use rwkv_srs.Live.Session.{IsSession, IsIndexed}
use rwkv_srs.Live.Session.Edits.{drop_slot-Written, include_card-exclude_card}
use rwkv_srs.Live.Session.Start.{new_unranked-IsSession}
use rwkv_srs.Live.Session.Steps.{Step, Reach, Reach-IsSession}
use rwkv_srs.Live.Session.Written.{Written, dropped-IsIndexed, written-ChangedAt, one-AreSlots}
use rwkv_srs.Live.Slots.{advance_generation}
use rwkv_srs.Live.Status.{is_excluded, parse_order, order_name, parse_mode, mode_name}
use rwkv_srs.Live.Status.Names.{parse_order-order_name}
use rwkv_srs.Map.{get}
use rwkv_srs.Review.{F64, missing, is_finite, IsFinite}
use rwkv_srs.Sorting.{keep, elem}
use rwkv_srs.Tests.{sample_ops}

abbrev seed_of : ℤ → F64 → LiveCandidateSeedNative
seed_of card_id elapsed = record {
  row = record {
    review_id = pos 7;
    card_id = card_id;
    note_id = missing;
    deck_id = missing;
    preset_id = missing;
    day_offset = one_f64;
    elapsed_days = elapsed;
    elapsed_seconds = elapsed;
    rating = none;
    duration = none;
    state = none;
  };
  target_retrievability = 0x3fec_cccc_cccc_cccd;
  intraday_target_retrievability = 0x3fec_cccc_cccc_cccd;
  tie_breaker = 5;
  random_key = 9;
}

abbrev seeds : List LiveCandidateSeedNative
seeds = seed_of (pos 1) minus_one_f64 ∷ seed_of (pos 2) one_f64 ∷ []

abbrev session_of : Result LiveError LivePredictionSessionState → LivePredictionSessionState
session_of (ok s) = s
session_of (err e) = empty_session 0 0 0 random fast 0

abbrev created : Result LiveError LivePredictionSessionState
created = new_unranked sample_ops 1 seeds two_f64 two_f64 random fast 4 2

abbrev unsorted : LivePredictionSessionState
unsorted = session_of created

abbrev session : LivePredictionSessionState
session = rebuild_order sample_ops unsorted

created-ok : created ≡ ok unsorted
unfolding new_unranked
created-ok = refl

session-IsSession : IsSession sample_ops session
session-IsSession =
    new_unranked-IsSession sample_ops 1 seeds two_f64 two_f64 random fast 4 2 unsorted created-ok

new_unranked-IsSession_example : IsSession sample_ops session
new_unranked-IsSession_example =
    new_unranked-IsSession sample_ops 1 seeds two_f64 two_f64 random fast 4 2 unsorted created-ok

session_slots : session.ordered_slots ≡ 0 ∷ 1 ∷ []
unfolding rebuild_order new_unranked
session_slots = refl

select_refresh_membership-queue_example :
    ((select_refresh_membership session (pos 1 ∷ [])).selected_scratch
      ≡ take session.refresh_limit (refresh_queue session (named_slots session (pos 1 ∷ []))))
    × ((select_refresh_membership session (pos 1 ∷ [])).transport_slots
        ≡ keep
            (λ v. elem v (select_refresh_membership session (pos 1 ∷ [])).selected_scratch)
            (all_slots session))
select_refresh_membership-queue_example =
    select_refresh_membership-queue sample_ops session (pos 1 ∷ []) session-IsSession

-- The first card is in slot 0.
named_first : get (pos 1) session.slot_by_card_id ≡ some 0
unfolding rebuild_order new_unranked
named_first = refl

Reach-IsSession_example :
    IsSession sample_ops
      (remove_card sample_ops (exclude_card session (pos 2) none).1.0 (pos 1) none).1.0
Reach-IsSession_example = Reach-IsSession sample_ops session-IsSession (
    Reach.next (Reach.next Reach.here (Step.exclude session (pos 2) none))
      (Step.remove (exclude_card session (pos 2) none).1.0 (pos 1) none))

abbrev dropped : LivePredictionSessionState
dropped = advance_generation (drop_slot session 0 (pos 1))

dropped-Written : Written session dropped 0
dropped-Written = drop_slot-Written session 0 (pos 1) session-IsSession.indexed.lengths

dropped-index : IsIndexed dropped
unfolding drop_slot rebuild_order advance_generation new_unranked
dropped-index =
    dropped-IsIndexed session dropped 0 dropped-Written session-IsSession.indexed (pos 1)
      named_first refl refl

dropped-range : 0 < length dropped.update_marks
unfolding drop_slot rebuild_order advance_generation new_unranked
dropped-range = omega arith

merge_updated_order-rebuild_order_example :
    (merge_updated_order sample_ops dropped (0 ∷ [])).ordered_slots
    ≡ (rebuild_order sample_ops dropped).ordered_slots
merge_updated_order-rebuild_order_example =
    merge_updated_order-rebuild_order sample_ops session dropped (0 ∷ []) session-IsSession.ranked
      (written-ChangedAt session dropped 0 dropped-Written sample_ops) dropped-index.marks
      (one-AreSlots dropped 0 dropped-range) dropped-index.named

first_included : is_excluded (status_at session 0) ≡ false
unfolding rebuild_order new_unranked
first_included = refl

include_card-exclude_card_example :
    (include_card (exclude_card session (pos 1) none).1.0 (pos 1) none).1.0.statuses
    ≡ session.statuses
include_card-exclude_card_example =
    include_card-exclude_card sample_ops session (pos 1) 0 session-IsSession named_first
      first_included

parse_order-order_name_example :
    (parse_order (order_name random) ≡ ok random) × (parse_mode (mode_name gpu) ≡ ok gpu)
parse_order-order_name_example = parse_order-order_name random gpu

one-IsFinite : IsFinite one_f64
unfolding is_finite
one-IsFinite = record { fits = omega arith; finite = refl }

two-IsFinite : IsFinite two_f64
unfolding is_finite
two-IsFinite = record { fits = omega arith; finite = refl }

lt_f64-ordered_f64_key_example :
    (lt_f64 one_f64 two_f64 ≡ ltb (ordered_f64_key one_f64) (ordered_f64_key two_f64))
    × (eq_f64 one_f64 two_f64 ≡ (ordered_f64_key one_f64 == ordered_f64_key two_f64))
lt_f64-ordered_f64_key_example = lt_f64-ordered_f64_key one_f64 two_f64 one-IsFinite two-IsFinite

rank-next_up_example : rank (next_up one_f64) ≡ rank one_f64 +ℤ pos 1
rank-next_up_example = rank-next_up one_f64 one-IsFinite

abbrev half : F64
half = 0x3fe0_0000_0000_0000

-- Arithmetic in which a sum is its second number.
abbrev second_ops : FloatOps
second_ops = record sample_ops { add = λ a b. b; sub = λ a b. 0 }

-- A session whose second card has a prediction of 0.5.
abbrev predicted : LivePredictionSessionState
predicted = record session { predictions = half ∷ half ∷ []; statuses = active ∷ active ∷ [] }

second-SumsAreNumbers : SumsAreNumbers second_ops
second-SumsAreNumbers = record { sum = λ a b h g. finite-number b g }

rank-half : rank half ≡ pos half
unfolding rank
rank-half = refl

rank_one : rank one_f64 ≡ pos one_f64
unfolding rank
rank_one = refl

rank_zero : rank 0 ≡ pos 0
unfolding rank
rank_zero = refl

half-number : is_nan half ≡ false
unfolding is_nan
half-number = refl

above_half :
    (target r : F64)
    → IsFinite r
    → rank one_f64 ≤ℤ rank r
    → falls_short second_ops half target r ≡ false
unfolding falls_short le_f64 clamp_f64 lt_f64
above_half target r f h =
    ground (arith, finite-number r f.finite, rank-half, rank_one, rank_zero, half-number)

first_one : (target : F64) → first_required second_ops half target ≡ 1
unfolding first_required next_up le_f64 eq_f64 is_nan rank
first_one target = refl

second-Reaches : Reaches second_ops half (applicable_target predicted 1) one_f64
second-Reaches = record {
  finite = one-IsFinite;
  above = above_half (applicable_target predicted 1);
}

next_boundary-ends_example :
    (boundary : Option F64) × (next_boundary second_ops predicted 1 ≡ some boundary)
    × ((required : F64)
        → boundary ≡ some required
        → calculate_eligibility second_ops (record predicted { retention_extra = required }) 1
          ≡ true)
next_boundary-ends_example =
    next_boundary-ends second_ops predicted 1 one_f64 second-SumsAreNumbers second-Reaches
      (rw (first_one (applicable_target predicted 1)) (IsFinite-of_pos 1 (omega arith)))
