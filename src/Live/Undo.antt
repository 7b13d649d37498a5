-- ===== src/Live/Undo.antt =====
-- The undo frame of a live session: LiveIndexUndoFrame of live_session.rs, what it records, and
-- restore_undo.
use Prim.Native.Nat.{max}
use rwkv_srs.Base.{
  ℕ, ◌+◌, ◌-◌, ◌%◌, ◌^◌, ◌==◌, ltb, not, Option, none, some, List, [], ◌∷◌, ◌++◌, length, set,
  get_or, replicate, map, false, Bool, if◌then◌else◌, Result, ok, err,
}
use rwkv_srs.Features.{FloatOps}
use rwkv_srs.Live.{
  LivePredictionSessionState, LiveCandidate, LiveCandidateValue, CandidateStatus, LiveError,
  other_session, removed, candidate_at,
}
use rwkv_srs.Live.Order.{rebuild_order, recompute_all_eligibilities, update_order_after_refresh}
use rwkv_srs.Live.Slots.{
  LiveRefreshUndoValue, value, refresh_undo_value, restore_full_value, restore_refresh_value,
  restore_value,
}
use rwkv_srs.Map.{Map, get, remove}
use rwkv_srs.Review.{F64}

pub record LiveReconciliationUndoState : Type 0 where
  pub candidates : List LiveCandidate
  pub slot_by_card_id : Map ℕ
  pub predictions : List F64
  pub normal_targets : List F64
  pub intraday_targets : List F64
  pub tie_breakers : List ℕ
  pub random_keys : List ℕ
  pub statuses : List CandidateStatus
  pub eligibilities : List Bool
  pub ordered_slots : List ℕ
  pub retention_extra : F64
  pub target_timestamp_seconds : F64
  pub target_day_offset : F64

pub record LiveIndexUndoFrame : Type 0 where
  pub session_token : ℕ
  pub previous_generation : ℕ
  pub previous_retention_extra : F64
  pub previous_target_timestamp_seconds : F64
  pub previous_target_day_offset : F64
  pub candidate_deltas : List (ℕ × Option LiveCandidateValue)
  pub refresh_deltas : List (ℕ × LiveRefreshUndoValue)
  pub recorded_slots : List ℕ
  pub pre_reconciliation_state : Option LiveReconciliationUndoState

abbrev pub undo_slot_unrecorded : ℕ
undo_slot_unrecorded = 0

abbrev pub undo_slot_refresh_delta : ℕ
undo_slot_refresh_delta = 1

abbrev pub undo_slot_full_delta : ℕ
undo_slot_full_delta = 2

unfoldable pub capture : LivePredictionSessionState → ℕ → LiveIndexUndoFrame
unfolding value
capture s answered_slot = record {
  session_token = s.token;
  previous_generation = s.generation;
  previous_retention_extra = s.retention_extra;
  previous_target_timestamp_seconds = s.target_timestamp_seconds;
  previous_target_day_offset = s.target_day_offset;
  candidate_deltas = (answered_slot, some (value s answered_slot)) ∷ [];
  refresh_deltas = [];
  recorded_slots =
      set (replicate (length s.candidates) undo_slot_unrecorded) answered_slot undo_slot_full_delta;
  pre_reconciliation_state = none;
}

unfoldable pub ensure_recorded_slot : List ℕ → ℕ → List ℕ
ensure_recorded_slot recorded slot =
    recorded ++ replicate (slot + 1 - length recorded) undo_slot_unrecorded

-- The first refresh delta of a slot.
unfoldable pub find_refresh : ℕ → List (ℕ × LiveRefreshUndoValue) → Option LiveRefreshUndoValue
find_refresh slot [] = none
find_refresh slot ((recorded, v) ∷ rest) =
    if recorded == slot then some v else find_refresh slot rest

-- The frame with the full value of a slot; `none` is the panic of a slot that is recorded as
-- refreshed and has no refresh delta.
unfoldable pub record_slot :
    LiveIndexUndoFrame → LivePredictionSessionState → ℕ → Option LiveIndexUndoFrame
unfolding ensure_recorded_slot find_refresh value restore_full_value
record_slot f s slot = elim f.pre_reconciliation_state [
  | some _ ↦ some f
  | none ↦
      let recorded = ensure_recorded_slot f.recorded_slots slot in
      let kind = get_or recorded slot 0 in
      if kind == undo_slot_unrecorded
      then some (record f {
        candidate_deltas = f.candidate_deltas ++ (slot, some (value s slot)) ∷ [];
        recorded_slots = set recorded slot undo_slot_full_delta;
      })
      else (if kind == undo_slot_refresh_delta
          then (elim (find_refresh slot f.refresh_deltas) [
            | none ↦ none
            | some v ↦ some (record f {
              candidate_deltas =
                  f.candidate_deltas ++ (slot, some (restore_full_value v (value s slot))) ∷ [];
              recorded_slots = set recorded slot undo_slot_full_delta;
            })
          ])
          else some (record f { recorded_slots = recorded }))
]

unfoldable pub record_refresh_slot :
    LiveIndexUndoFrame → LivePredictionSessionState → ℕ → LiveIndexUndoFrame
unfolding ensure_recorded_slot refresh_undo_value
record_refresh_slot f s slot = elim f.pre_reconciliation_state [
  | some _ ↦ f
  | none ↦
      let recorded = ensure_recorded_slot f.recorded_slots slot in
      if get_or recorded slot 0 == undo_slot_unrecorded
      then record f {
        refresh_deltas = f.refresh_deltas ++ (slot, refresh_undo_value s slot) ∷ [];
        recorded_slots = set recorded slot undo_slot_refresh_delta;
      }
      else record f { recorded_slots = recorded }
]

unfoldable pub record_new_slot : LiveIndexUndoFrame → ℕ → LiveIndexUndoFrame
unfolding ensure_recorded_slot
record_new_slot f slot = elim f.pre_reconciliation_state [
  | some _ ↦ f
  | none ↦
      let recorded = ensure_recorded_slot f.recorded_slots slot in
      if get_or recorded slot 0 == undo_slot_unrecorded
      then record f {
        candidate_deltas = f.candidate_deltas ++ (slot, none) ∷ [];
        recorded_slots = set recorded slot undo_slot_full_delta;
      }
      else record f { recorded_slots = recorded }
]

-- A value of the frame, or the removal of a slot that was new.
unfoldable pub restore_delta :
    LivePredictionSessionState → ℕ → Option LiveCandidateValue → LivePredictionSessionState
unfolding restore_value get remove
restore_delta s slot (some v) = restore_value s slot v
restore_delta s slot none =
    let card_id = (candidate_at s slot).card_id in
    if ltb slot (length s.statuses)
    then record s {
      slot_by_card_id = elim (get card_id s.slot_by_card_id) [
        | none ↦ s.slot_by_card_id
        | some named ↦ if named == slot then remove card_id s.slot_by_card_id else s.slot_by_card_id
      ];
      statuses = set s.statuses slot removed;
      eligibilities = set s.eligibilities slot false;
    }
    else s

unfoldable pub restore_candidates :
    List (ℕ × Option LiveCandidateValue) → LivePredictionSessionState → LivePredictionSessionState
unfolding restore_delta
restore_candidates [] s = s
restore_candidates ((slot, previous) ∷ rest) s =
    restore_candidates rest (restore_delta s slot previous)

-- A refresh delta whose slot has a full delta as well is passed over.
unfoldable pub restore_refreshes :
    List ℕ
    → List (ℕ × LiveRefreshUndoValue)
    → LivePredictionSessionState
    → LivePredictionSessionState
unfolding restore_refresh_value
restore_refreshes recorded [] s = s
restore_refreshes recorded ((slot, previous) ∷ rest) s =
    if get_or recorded slot 0 == undo_slot_refresh_delta
    then restore_refreshes recorded rest (restore_refresh_value s slot previous)
    else restore_refreshes recorded rest s

unfoldable pub refreshed_slots : List ℕ → List (ℕ × LiveRefreshUndoValue) → List ℕ
refreshed_slots recorded [] = []
refreshed_slots recorded ((slot, previous) ∷ rest) =
    if get_or recorded slot 0 == undo_slot_refresh_delta
    then slot ∷ refreshed_slots recorded rest
    else refreshed_slots recorded rest

unfoldable pub restore_reconciliation_undo_state :
    LivePredictionSessionState → LiveReconciliationUndoState → LivePredictionSessionState
restore_reconciliation_undo_state s previous = record s {
  candidates = previous.candidates;
  slot_by_card_id = previous.slot_by_card_id;
  predictions = previous.predictions;
  normal_targets = previous.normal_targets;
  intraday_targets = previous.intraday_targets;
  tie_breakers = previous.tie_breakers;
  random_keys = previous.random_keys;
  statuses = previous.statuses;
  eligibilities = previous.eligibilities;
  ordered_slots = previous.ordered_slots;
  retention_extra = previous.retention_extra;
  target_timestamp_seconds = previous.target_timestamp_seconds;
  target_day_offset = previous.target_day_offset;
  transport_slots = [];
  selected_scratch = [];
  update_marks = replicate (length previous.candidates) 0;
  update_mark_generation = 0;
  last_membership_slots = [];
  last_transport_slots = [];
}

unfoldable pub restore_reconciled :
    LivePredictionSessionState → Option LiveReconciliationUndoState → LivePredictionSessionState
unfolding restore_reconciliation_undo_state
restore_reconciled s none = s
restore_reconciled s (some previous) = restore_reconciliation_undo_state s previous

-- The columns of the session as the frame has them.
unfoldable pub restore_columns :
    LiveIndexUndoFrame → LivePredictionSessionState → LivePredictionSessionState
unfolding restore_candidates restore_refreshes restore_reconciled
restore_columns f s =
    let base = restore_reconciled s f.pre_reconciliation_state in
    restore_candidates f.candidate_deltas (
      restore_refreshes f.recorded_slots f.refresh_deltas (record base {
        retention_extra = f.previous_retention_extra;
        target_timestamp_seconds = f.previous_target_timestamp_seconds;
        target_day_offset = f.previous_target_day_offset;
      }))

module _ (fl : FloatOps) where
  unfoldable pub restore_undo :
      LivePredictionSessionState
      → LiveIndexUndoFrame
      → Result LiveError (Unit {0}) × LivePredictionSessionState
  unfolding restore_columns refreshed_slots restore_reconciled
  restore_undo s f =
      let next_generation = (s.generation + 1) % 2 ^ 64 in
      let base = restore_reconciled s f.pre_reconciliation_state in
      let retention_changed = not (base.retention_extra == f.previous_retention_extra) in
      let restored_slots =
        refreshed_slots f.recorded_slots f.refresh_deltas
        ++ map (λ delta. delta.0) f.candidate_deltas in
      let columns = restore_columns f s in
      let aged = record columns {
        generation = max next_generation ((f.previous_generation + 1) % 2 ^ 64);
      } in
      let ordered =
        if retention_changed
        then rebuild_order fl (recompute_all_eligibilities fl aged)
        else (update_order_after_refresh fl aged restored_slots false).0 in
      if f.session_token == s.token
      then (ok tt, record ordered { last_membership_slots = []; last_transport_slots = [] })
      else (err other_session, s)
