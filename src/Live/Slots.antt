-- ===== src/Live/Slots.antt =====
-- The slots of a session as whole values: value, restore_value, refresh_undo_value,
-- restore_refresh_value, push_value and candidate_slot of live_session.rs.
use rwkv_srs.Base.{
  ℕ, ℤ, ◌+◌, ◌%◌, ◌^◌, none, some, Result, ok, err, ok_or, [], ◌∷◌, ◌++◌, length, set, get_or,
  get_elem?, Bool, true, false,
}
use rwkv_srs.Live.{
  LivePredictionSessionState, LiveCandidate, LiveCandidateValue, CandidateStatus, LiveError,
  absent_card, duplicate_card, candidate_at, prediction_at, status_at, eligible_at,
}
use rwkv_srs.Live.Status.{is_removed}
use rwkv_srs.Map.{Map, get, insert, remove}
use rwkv_srs.Review.{F64}

pub record LiveRefreshUndoValue : Type 0 where
  pub query_timestamp_seconds : F64
  pub query_day_offset : F64
  pub queried_elapsed_days : F64
  pub queried_elapsed_seconds : F64
  pub prediction : F64
  pub status : CandidateStatus
  pub eligible : Bool

unfoldable pub candidate_slot : LivePredictionSessionState → ℤ → Result LiveError ℕ
unfolding get
candidate_slot s card_id = ok_or (get card_id s.slot_by_card_id) (absent_card card_id)

unfoldable pub advance_generation : LivePredictionSessionState → LivePredictionSessionState
advance_generation s = record s { generation = (s.generation + 1) % 2 ^ 64 }

unfoldable pub value : LivePredictionSessionState → ℕ → LiveCandidateValue
value s slot = record {
  candidate = candidate_at s slot;
  prediction = prediction_at s slot;
  normal_target = get_or s.normal_targets slot 0;
  intraday_target = get_or s.intraday_targets slot 0;
  tie_breaker = get_or s.tie_breakers slot 0;
  random_key = get_or s.random_keys slot 0;
  status = status_at s slot;
  eligible = eligible_at s slot;
}

unfoldable pub refresh_undo_value : LivePredictionSessionState → ℕ → LiveRefreshUndoValue
refresh_undo_value s slot =
    let candidate : LiveCandidate = candidate_at s slot in
    record {
      query_timestamp_seconds = candidate.query_timestamp_seconds;
      query_day_offset = candidate.query_day_offset;
      queried_elapsed_days = candidate.queried_elapsed_days;
      queried_elapsed_seconds = candidate.queried_elapsed_seconds;
      prediction = prediction_at s slot;
      status = status_at s slot;
      eligible = eligible_at s slot;
    }

-- The query fields of a candidate, put back.
abbrev pub with_query : LiveCandidate → LiveRefreshUndoValue → LiveCandidate
with_query c v = record c {
  query_timestamp_seconds = v.query_timestamp_seconds;
  query_day_offset = v.query_day_offset;
  queried_elapsed_days = v.queried_elapsed_days;
  queried_elapsed_seconds = v.queried_elapsed_seconds;
}

unfoldable pub restore_refresh_value :
    LivePredictionSessionState → ℕ → LiveRefreshUndoValue → LivePredictionSessionState
restore_refresh_value s slot v = record s {
  candidates = set s.candidates slot (with_query (candidate_at s slot) v);
  predictions = set s.predictions slot v.prediction;
  statuses = set s.statuses slot v.status;
  eligibilities = set s.eligibilities slot v.eligible;
}

-- LiveRefreshUndoValue::restore_full_value
unfoldable pub restore_full_value : LiveRefreshUndoValue → LiveCandidateValue → LiveCandidateValue
restore_full_value v full = record full {
  candidate = with_query full.candidate v;
  prediction = v.prediction;
  status = v.status;
  eligible = v.eligible;
}

-- The columns of a slot without its name in the map.
abbrev pub write_value :
    LivePredictionSessionState → ℕ → LiveCandidateValue → LivePredictionSessionState
write_value s slot v = record s {
  candidates = set s.candidates slot v.candidate;
  predictions = set s.predictions slot v.prediction;
  normal_targets = set s.normal_targets slot v.normal_target;
  intraday_targets = set s.intraday_targets slot v.intraday_target;
  tie_breakers = set s.tie_breakers slot v.tie_breaker;
  random_keys = set s.random_keys slot v.random_key;
  statuses = set s.statuses slot v.status;
  eligibilities = set s.eligibilities slot v.eligible;
}

-- The name of the slot's old card goes, and the new card is named unless it is removed.
unfoldable pub rename_slot :
    LivePredictionSessionState → ℕ → LiveCandidateValue → LivePredictionSessionState
unfolding insert remove
rename_slot s slot v =
    let names : Map ℕ = elim (get_elem? s.candidates slot) [
      | none ↦ s.slot_by_card_id
      | some current ↦ remove current.card_id s.slot_by_card_id
    ] in
    record s {
      slot_by_card_id = elim (is_removed v.status) [
        | true ↦ names
        | false ↦ insert v.candidate.card_id slot names
      ];
    }

unfoldable pub restore_value :
    LivePredictionSessionState → ℕ → LiveCandidateValue → LivePredictionSessionState
unfolding rename_slot
restore_value s slot v = write_value (rename_slot s slot v) slot v

-- A new slot at the end of every vector, under the name of its card.
unfoldable pub append_value :
    LivePredictionSessionState → LiveCandidateValue → LivePredictionSessionState
unfolding insert
append_value s v = record s {
  slot_by_card_id = insert v.candidate.card_id (length s.candidates) s.slot_by_card_id;
  candidates = s.candidates ++ v.candidate ∷ [];
  predictions = s.predictions ++ v.prediction ∷ [];
  normal_targets = s.normal_targets ++ v.normal_target ∷ [];
  intraday_targets = s.intraday_targets ++ v.intraday_target ∷ [];
  tie_breakers = s.tie_breakers ++ v.tie_breaker ∷ [];
  random_keys = s.random_keys ++ v.random_key ∷ [];
  statuses = s.statuses ++ v.status ∷ [];
  eligibilities = s.eligibilities ++ v.eligible ∷ [];
  update_marks = s.update_marks ++ 0 ∷ [];
}

unfoldable pub push_value :
    LivePredictionSessionState
    → LiveCandidateValue
    → Result LiveError ℕ × LivePredictionSessionState
unfolding get append_value
push_value s v = elim (get v.candidate.card_id s.slot_by_card_id) [
  | some _ ↦ (err (duplicate_card v.candidate.card_id), s)
  | none ↦ (ok (length s.candidates), append_value s v)
]
