-- ===== src/Live/Session.antt =====
-- The invariant of a live session: its vectors have one length, its map names the live slots, its
-- marks are old, and its slots are in rank order.
pub mod Update
pub mod Names
pub mod Columns
pub mod Written
pub mod Edits
pub mod Answer
pub mod Retention
pub mod Restore
pub mod Append
pub mod Upsert
pub mod Start
pub mod Steps
use rwkv_srs.Base.{ℕ, ℤ, Bool, true, List, length, some, ◌≡◌}
use rwkv_srs.Features.{FloatOps}
use rwkv_srs.Live.{LivePredictionSessionState, candidate_at}
use rwkv_srs.Live.Order.{is_live}
use rwkv_srs.Live.Order.Invariant.{IsNamed, IsRanked}
use rwkv_srs.Live.Order.Marks.{MarksOk}
use rwkv_srs.Map.{get, IsSorted}

-- All vectors are as long as the candidates.
pub record SameLengths (s : LivePredictionSessionState) : Type 0 where
  pub predictions_length : length s.predictions ≡ length s.candidates
  pub normal_length : length s.normal_targets ≡ length s.candidates
  pub intraday_length : length s.intraday_targets ≡ length s.candidates
  pub tie_length : length s.tie_breakers ≡ length s.candidates
  pub random_length : length s.random_keys ≡ length s.candidates
  pub status_length : length s.statuses ≡ length s.candidates
  pub eligible_length : length s.eligibilities ≡ length s.candidates
  pub marks_length : length s.update_marks ≡ length s.candidates

-- What the map names is live and holds the card.
abbrev pub NamesLive : LivePredictionSessionState → Type 0
NamesLive s =
    (card_id : ℤ) (slot : ℕ)
    → get card_id s.slot_by_card_id ≡ some slot
    → (is_live s slot ≡ true) × ((candidate_at s slot).card_id ≡ card_id)

-- The part of the invariant that does not look at the order.
pub record IsIndexed (s : LivePredictionSessionState) : Type 0 where
  pub lengths : SameLengths s
  pub marks : MarksOk s
  pub sorted : IsSorted s.slot_by_card_id
  pub named : IsNamed s
  pub names_live : NamesLive s

pub record IsSession (fl : FloatOps) (s : LivePredictionSessionState) : Type 0 where
  pub indexed : IsIndexed s
  pub ranked : IsRanked fl s
