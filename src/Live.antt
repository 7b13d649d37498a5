-- ===== src/Live.antt =====
-- The live prediction session: rust/rwkv-srs-cpu/src/model/live_session.rs. A session holds the
-- candidates of a review queue in parallel vectors, a map from the identity of a card to its slot,
-- and the slots in rank order. A read of a vector out of range, where the source panics, gives a
-- default here: the slots of a session are in range.
use rwkv_srs.Base.{ℕ, ℤ, pos, Bool, true, false, Option, none, List, [], get_or}
use rwkv_srs.Map.{Map}
use rwkv_srs.Review.{F64, MaybeId, missing, ReviewInput}
pub mod Status
pub mod Candidate
pub mod Rank
pub mod Order
pub mod Slots
pub mod Undo
pub mod Edit
pub mod New
pub mod Select
pub mod Final
pub mod Session

pub data LiveOrder : Type 0 where
  retrievability_ascending : LiveOrder
  retrievability_descending : LiveOrder
  relative_overdueness : LiveOrder
  random : LiveOrder

pub data LivePredictionMode : Type 0 where
  oracle : LivePredictionMode
  fast : LivePredictionMode
  gpu : LivePredictionMode

pub data CandidateStatus : Type 0 where
  active : CandidateStatus
  excluded : CandidateStatus
  pending_refresh : CandidateStatus
  excluded_pending_refresh : CandidateStatus
  removed : CandidateStatus

pub record LiveCandidate : Type 0 where
  pub review_id : ℤ
  pub card_id : ℤ
  pub note_id : MaybeId
  pub deck_id : MaybeId
  pub preset_id : MaybeId
  pub has_prior_review : Bool
  pub new_elapsed_days : F64
  pub new_elapsed_seconds : F64
  pub last_review_timestamp_seconds : Option F64
  pub last_review_day_offset : Option F64
  pub query_timestamp_seconds : F64
  pub query_day_offset : F64
  pub queried_elapsed_days : F64
  pub queried_elapsed_seconds : F64

pub record LiveCandidateSeedNative : Type 0 where
  pub row : ReviewInput
  pub target_retrievability : F64
  pub intraday_target_retrievability : F64
  pub tie_breaker : ℕ
  pub random_key : ℕ

pub record LiveCandidateValue : Type 0 where
  pub candidate : LiveCandidate
  pub prediction : F64
  pub normal_target : F64
  pub intraday_target : F64
  pub tie_breaker : ℕ
  pub random_key : ℕ
  pub status : CandidateStatus
  pub eligible : Bool

pub record RankKey : Type 0 where
  pub class : ℕ
  pub order_key : ℕ

pub record RankEntry : Type 0 where
  pub key : RankKey
  pub slot : ℕ

-- The errors that the session's methods raise, with the card they name.
pub data LiveError : Type 0 where
  unknown_name : LiveError
  elapsed_not_finite : ℤ → LiveError
  sentinel_mixed : ℤ → LiveError
  elapsed_negative : ℤ → LiveError
  anchors_not_finite : ℤ → LiveError
  duplicate_card : ℤ → LiveError
  absent_card : ℤ → LiveError
  retention_not_finite : LiveError
  target_not_finite : LiveError
  other_session : LiveError
  zero_batch_size : LiveError
  zero_refresh_limit : LiveError
  prediction_not_finite : ℤ → LiveError
  panicked : LiveError

-- LivePredictionSessionState without its scratch buffers, which every method leaves empty, and its
-- batch size, thread count and profile, which no method modelled here reads.
pub record LivePredictionSessionState : Type 0 where
  pub token : ℕ
  pub candidates : List LiveCandidate
  pub slot_by_card_id : Map ℕ
  pub predictions : List F64
  pub normal_targets : List F64
  pub intraday_targets : List F64
  pub tie_breakers : List ℕ
  pub random_keys : List ℕ
  pub statuses : List CandidateStatus
  pub eligibilities : List Bool
  pub ordered_slots : List ℕ
  pub transport_slots : List ℕ
  pub generation : ℕ
  pub retention_extra : F64
  pub target_timestamp_seconds : F64
  pub target_day_offset : F64
  pub order : LiveOrder
  pub mode : LivePredictionMode
  pub refresh_limit : ℕ
  pub selected_scratch : List ℕ
  pub update_marks : List ℕ
  pub update_mark_generation : ℕ
  pub last_membership_slots : List ℕ
  pub last_transport_slots : List ℕ

abbrev pub no_candidate : LiveCandidate
no_candidate = record {
  review_id = pos 0;
  card_id = pos 0;
  note_id = missing;
  deck_id = missing;
  preset_id = missing;
  has_prior_review = false;
  new_elapsed_days = 0;
  new_elapsed_seconds = 0;
  last_review_timestamp_seconds = none;
  last_review_day_offset = none;
  query_timestamp_seconds = 0;
  query_day_offset = 0;
  queried_elapsed_days = 0;
  queried_elapsed_seconds = 0;
}

-- The reads `candidates[slot]`, `statuses[slot]` and so on.
module _ (s : LivePredictionSessionState) (slot : ℕ) where
  abbrev pub candidate_at : LiveCandidate
  candidate_at = get_or s.candidates slot no_candidate

  abbrev pub prediction_at : F64
  prediction_at = get_or s.predictions slot 0

  abbrev pub status_at : CandidateStatus
  status_at = get_or s.statuses slot removed

  abbrev pub eligible_at : Bool
  eligible_at = get_or s.eligibilities slot false
