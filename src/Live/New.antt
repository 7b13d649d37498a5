-- ===== src/Live/New.antt =====
-- The start of a live session: new_empty, push_seed and new_unranked of live_session.rs. The batch
-- size is checked and then kept for the prediction; the counts of threads and the profile are left
-- out.
use rwkv_srs.Base.{◌>>=◌, [], ◌∷◌, ℕ, List, Result, err, ok, if◌then◌else◌, ◌==◌}
use rwkv_srs.Features.{FloatOps}
use rwkv_srs.Live.{
  LiveCandidateSeedNative, LiveOrder, LivePredictionSessionState, LivePredictionMode, LiveError,
  zero_batch_size, zero_refresh_limit,
}
use rwkv_srs.Live.Candidate.{validate_target_time, candidate_value_from_seed}
use rwkv_srs.Live.Slots.{push_value}
use rwkv_srs.Review.{F64}

-- A session without candidates.
abbrev pub empty_session :
    ℕ → F64 → F64 → LiveOrder → LivePredictionMode → ℕ → LivePredictionSessionState
empty_session token timestamp day order mode refresh_limit = record {
  token = token;
  candidates = [];
  slot_by_card_id = [];
  predictions = [];
  normal_targets = [];
  intraday_targets = [];
  tie_breakers = [];
  random_keys = [];
  statuses = [];
  eligibilities = [];
  ordered_slots = [];
  transport_slots = [];
  generation = 1;
  retention_extra = 0;
  target_timestamp_seconds = timestamp;
  target_day_offset = day;
  order = order;
  mode = mode;
  refresh_limit = refresh_limit;
  selected_scratch = [];
  update_marks = [];
  update_mark_generation = 0;
  last_membership_slots = [];
  last_transport_slots = [];
}

unfoldable pub new_empty :
    ℕ
    → F64
    → F64
    → LiveOrder
    → LivePredictionMode
    → ℕ
    → ℕ
    → Result LiveError LivePredictionSessionState
unfolding validate_target_time
new_empty token timestamp day order mode batch_size refresh_limit = do
  checked ← validate_target_time timestamp day
  if batch_size == 0
      then err zero_batch_size
      else (if refresh_limit == 0
          then err zero_refresh_limit
          else ok (empty_session token timestamp day order mode refresh_limit))

module _ (fl : FloatOps) where
  unfoldable pub push_seed :
      LivePredictionSessionState
      → LiveCandidateSeedNative
      → F64
      → F64
      → Result LiveError ℕ × LivePredictionSessionState
  unfolding candidate_value_from_seed push_value
  push_seed s seed timestamp day = elim (candidate_value_from_seed fl seed timestamp day) [
    | err failure ↦ (err failure, s)
    | ok v ↦ push_value s v
  ]

  unfoldable pub push_seeds :
      List LiveCandidateSeedNative
      → LivePredictionSessionState
      → F64
      → F64
      → Result LiveError LivePredictionSessionState
  unfolding push_seed
  push_seeds [] s timestamp day = ok s
  push_seeds (seed ∷ rest) s timestamp day =
      let (outcome, next) = push_seed s seed timestamp day in
      elim outcome [ err failure ↦ err failure | ok _ ↦ push_seeds rest next timestamp day ]

  unfoldable pub new_unranked :
      ℕ
      → List LiveCandidateSeedNative
      → F64
      → F64
      → LiveOrder
      → LivePredictionMode
      → ℕ
      → ℕ
      → Result LiveError LivePredictionSessionState
  unfolding new_empty push_seeds
  new_unranked token seeds timestamp day order mode batch_size refresh_limit = do
    s ← new_empty token timestamp day order mode batch_size refresh_limit
    push_seeds seeds s timestamp day
