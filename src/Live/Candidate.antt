-- ===== src/Live/Candidate.antt =====
-- LiveCandidate of live_session.rs: how a candidate is built from its seed, and the rows that it
-- sends for a prediction.
use rwkv_srs.Base.{
  Bool, true, false, not, ◌&&◌, ◌||◌, Option, none, some, Result, ok, err, ◌>>=◌, if◌then◌else◌,
}
use rwkv_srs.Features.{FloatOps, minus_one_f64}
use rwkv_srs.Floats.{eq_f64, lt_f64}
use rwkv_srs.Live.{
  LiveCandidate, LiveCandidateSeedNative, LiveCandidateValue, LiveError, elapsed_not_finite,
  sentinel_mixed, elapsed_negative, anchors_not_finite, target_not_finite, retention_not_finite,
  pending_refresh,
}
use rwkv_srs.Review.{F64, ReviewInput, is_finite}

-- f64::NAN
abbrev pub nan : F64
nan = 0x7ff8_0000_0000_0000

unfoldable pub review_input : LiveCandidate → F64 → F64 → F64 → ReviewInput
review_input c target_day_offset days seconds = record {
  review_id = c.review_id;
  card_id = c.card_id;
  note_id = c.note_id;
  deck_id = c.deck_id;
  preset_id = c.preset_id;
  day_offset = target_day_offset;
  elapsed_days = days;
  elapsed_seconds = seconds;
  rating = none;
  duration = none;
  state = none;
}

unfoldable pub initial_prediction_input : LiveCandidate → ReviewInput
unfolding review_input
initial_prediction_input c =
    review_input c c.query_day_offset c.queried_elapsed_days c.queried_elapsed_seconds

-- What `from_seed` refuses: infinite elapsed values, one sentinel of a new card without the other,
-- and negative values that are no sentinel.
unfoldable pub check_elapsed : ReviewInput → Result LiveError Bool
unfolding is_finite eq_f64 lt_f64
check_elapsed row =
    let days = row.elapsed_days in
    let seconds = row.elapsed_seconds in
    let day_is_new = eq_f64 days minus_one_f64 in
    let seconds_is_new = eq_f64 seconds minus_one_f64 in
    if not (is_finite days) || not (is_finite seconds)
    then err (elapsed_not_finite row.card_id)
    else (if (if day_is_new then not seconds_is_new else seconds_is_new)
        then err (sentinel_mixed row.card_id)
        else (if not day_is_new && (lt_f64 days 0 || lt_f64 seconds 0)
            then err (elapsed_negative row.card_id)
            else ok day_is_new))

module _ (fl : FloatOps) where
  open fl use {add, sub}

  -- The moment and the day of the last review, which a new card has not.
  unfoldable pub anchors :
      ReviewInput → F64 → F64 → Bool → Result LiveError (Option F64 × Option F64)
  unfolding is_finite
  anchors row timestamp day true = ok (none, none)
  anchors row timestamp day false =
      let timestamp_anchor = sub timestamp row.elapsed_seconds in
      let day_anchor = sub day row.elapsed_days in
      if not (is_finite timestamp_anchor) || not (is_finite day_anchor)
      then err (anchors_not_finite row.card_id)
      else ok (some timestamp_anchor, some day_anchor)

  unfoldable pub from_seed : LiveCandidateSeedNative → F64 → F64 → Result LiveError LiveCandidate
  unfolding check_elapsed anchors
  from_seed seed timestamp day = do
    day_is_new ← check_elapsed seed.row
    (timestamp_anchor, day_anchor) ← anchors seed.row timestamp day day_is_new
    ok (record {
      review_id = seed.row.review_id;
      card_id = seed.row.card_id;
      note_id = seed.row.note_id;
      deck_id = seed.row.deck_id;
      preset_id = seed.row.preset_id;
      has_prior_review = not day_is_new;
      new_elapsed_days = seed.row.elapsed_days;
      new_elapsed_seconds = seed.row.elapsed_seconds;
      last_review_timestamp_seconds = timestamp_anchor;
      last_review_day_offset = day_anchor;
      query_timestamp_seconds = timestamp;
      query_day_offset = day;
      queried_elapsed_days = seed.row.elapsed_days;
      queried_elapsed_seconds = seed.row.elapsed_seconds;
    })

  -- `none` is the panic of a reviewed candidate without an anchor.
  unfoldable pub prediction_input : LiveCandidate → F64 → F64 → Option ReviewInput
  unfolding review_input
  prediction_input c timestamp day = elim c.has_prior_review [
    | false ↦ some (review_input c day c.new_elapsed_days c.new_elapsed_seconds)
    | true ↦ elim c.last_review_day_offset [
      | none ↦ none
      | some day_anchor ↦ elim c.last_review_timestamp_seconds [
        | none ↦ none
        | some timestamp_anchor ↦
            some (review_input c day (sub day day_anchor) (sub timestamp timestamp_anchor))
      ]
    ]
  ]

  unfoldable pub answer_timestamp_seconds : LiveCandidate → F64 → F64 → Option F64
  answer_timestamp_seconds c timestamp seconds = elim c.has_prior_review [
    | false ↦ some timestamp
    | true ↦ elim c.last_review_timestamp_seconds [
      | none ↦ none
      | some anchor ↦ some (add anchor seconds)
    ]
  ]

  unfoldable pub candidate_value_from_seed :
      LiveCandidateSeedNative → F64 → F64 → Result LiveError LiveCandidateValue
  unfolding from_seed
  candidate_value_from_seed seed timestamp day = do
    c ← from_seed seed timestamp day
    ok (record {
      candidate = c;
      prediction = nan;
      normal_target = seed.target_retrievability;
      intraday_target = seed.intraday_target_retrievability;
      tie_breaker = seed.tie_breaker;
      random_key = seed.random_key;
      status = pending_refresh;
      eligible = false;
    })

unfoldable pub validate_target_time : F64 → F64 → Result LiveError (Unit {0})
unfolding is_finite
validate_target_time timestamp day =
    if not (is_finite timestamp) || not (is_finite day) then err target_not_finite else ok tt

unfoldable pub validate_retention_extra : F64 → Result LiveError (Unit {0})
unfolding is_finite
validate_retention_extra value = if is_finite value then ok tt else err retention_not_finite
