-- ===== src/Live/Edit.antt =====
-- The methods of a live session that change its candidates: exclude, include, remove, upsert,
-- answer, and the retention that shifts the targets. Each may carry the undo frame of an answer.
use rwkv_srs.Base.{
  ℕ, ℤ, Option, none, some, List, [], ◌∷◌, length, set, Bool, true, false, if◌then◌else◌, Result,
  ok, err, ◌>>=◌, eqb_ℤ,
}
use rwkv_srs.Features.{FloatOps}
use rwkv_srs.Live.{
  LivePredictionSessionState, LiveCandidate, LiveCandidateValue, LiveCandidateSeedNative,
  LivePredictionMode, CandidateStatus, LiveError, duplicate_card, anchors_not_finite, panicked,
  removed, pending_refresh, excluded_pending_refresh, candidate_at, status_at,
}
use rwkv_srs.Live.Candidate.{
  answer_timestamp_seconds, candidate_value_from_seed, validate_retention_extra, nan,
}
use rwkv_srs.Live.Order.{rebuild_order, recompute_all_eligibilities, update_order_after_refresh}
use rwkv_srs.Live.Slots.{candidate_slot, advance_generation, restore_value, append_value}
use rwkv_srs.Live.Status.{is_excluded, to_excluded, to_included}
use rwkv_srs.Live.Undo.{LiveIndexUndoFrame, record_slot, record_new_slot}
use rwkv_srs.Map.{get, remove}
use rwkv_srs.Review.{F64, ReviewInput, is_finite}

-- What a method gives back: its outcome, the session and the undo frame that it was handed.
abbrev pub Edited : Type 0 → Type 0
Edited A = Result LiveError A × (LivePredictionSessionState × Option LiveIndexUndoFrame)

-- `if let Some(undo) = undo { undo.record_slot(self, slot) }`
unfoldable pub recorded :
    Option LiveIndexUndoFrame
    → LivePredictionSessionState
    → ℕ
    → Result LiveError (Option LiveIndexUndoFrame)
unfolding record_slot
recorded none s slot = ok none
recorded (some frame) s slot = elim (record_slot frame s slot) [
  | none ↦ err panicked
  | some after ↦ ok (some after)
]

-- The slot of a card, recorded in the frame.
unfoldable pub find_recorded :
    LivePredictionSessionState
    → ℤ
    → Option LiveIndexUndoFrame
    → Result LiveError (ℕ × Option LiveIndexUndoFrame)
unfolding candidate_slot recorded
find_recorded s card_id undo = do
  slot ← candidate_slot s card_id
  after ← recorded undo s slot
  ok (slot, after)

unfoldable pub set_status :
    LivePredictionSessionState → ℕ → CandidateStatus → LivePredictionSessionState
set_status s slot status = record s { statuses = set s.statuses slot status }

unfoldable pub exclude_card : LivePredictionSessionState → ℤ → Option LiveIndexUndoFrame → Edited ℕ
unfolding find_recorded set_status advance_generation
exclude_card s card_id undo = elim (find_recorded s card_id undo) [
  | err failure ↦ (err failure, (s, undo))
  | ok found ↦
      let slot : ℕ = found.0 in
      let next = advance_generation (set_status s slot (to_excluded (status_at s slot))) in
      (ok next.generation, (next, found.1))
]

unfoldable pub include_card : LivePredictionSessionState → ℤ → Option LiveIndexUndoFrame → Edited ℕ
unfolding find_recorded set_status advance_generation
include_card s card_id undo = elim (find_recorded s card_id undo) [
  | err failure ↦ (err failure, (s, undo))
  | ok found ↦
      let slot : ℕ = found.0 in
      let next = advance_generation (set_status s slot (to_included (status_at s slot))) in
      (ok next.generation, (next, found.1))
]

-- The slot without a card: what remove_card writes before it orders the slots again.
unfoldable pub drop_slot : LivePredictionSessionState → ℕ → ℤ → LivePredictionSessionState
unfolding remove
drop_slot s slot card_id = record s {
  statuses = set s.statuses slot removed;
  eligibilities = set s.eligibilities slot false;
  slot_by_card_id = remove card_id s.slot_by_card_id;
}

-- The candidate after its answer.
abbrev pub answered : LiveCandidate → ReviewInput → F64 → LiveCandidate
answered c input timestamp = record c {
  review_id = input.review_id;
  note_id = input.note_id;
  deck_id = input.deck_id;
  preset_id = input.preset_id;
  last_review_timestamp_seconds = some timestamp;
  last_review_day_offset = some input.day_offset;
  has_prior_review = true;
}

-- What apply_answer writes before it orders the slots again.
unfoldable pub write_answer :
    LivePredictionSessionState → ℕ → ReviewInput → F64 → Bool → LivePredictionSessionState
unfolding remove
write_answer s slot input timestamp requeue =
    let candidate : LiveCandidate = candidate_at s slot in
    record s {
      candidates = set s.candidates slot (answered candidate input timestamp);
      predictions = set s.predictions slot nan;
      eligibilities = set s.eligibilities slot false;
      statuses = set s.statuses slot (
          if requeue
          then (if is_excluded (status_at s slot)
              then excluded_pending_refresh
              else pending_refresh)
          else removed);
      slot_by_card_id =
          if requeue then s.slot_by_card_id else remove candidate.card_id s.slot_by_card_id;
    }

unfoldable pub first_duplicate : List LiveCandidateSeedNative → List ℤ → Option ℤ
first_duplicate [] seen = none
first_duplicate (seed ∷ rest) seen =
    if stands seed.row.card_id seen
    then some seed.row.card_id
    else first_duplicate rest (seed.row.card_id ∷ seen)
  where
    stands : ℤ → List ℤ → Bool
    stands card [] = false
    stands card (other ∷ others) = if eqb_ℤ other card then true else stands card others

module _ (fl : FloatOps) where
  unfoldable pub remove_card : LivePredictionSessionState → ℤ → Option LiveIndexUndoFrame → Edited ℕ
  unfolding find_recorded drop_slot advance_generation update_order_after_refresh
  remove_card s card_id undo = elim (find_recorded s card_id undo) [
    | err failure ↦ (err failure, (s, undo))
    | ok found ↦
        let slot : ℕ = found.0 in
        let dropped = advance_generation (drop_slot s slot card_id) in
        let next = (update_order_after_refresh fl dropped (slot ∷ []) false).0 in
        (ok next.generation, (next, found.1))
  ]

  -- `none` is the panic of a reviewed candidate without an anchor.
  unfoldable pub apply_answer :
      LivePredictionSessionState → ℕ → ReviewInput → Bool → Option LivePredictionSessionState
  unfolding answer_timestamp_seconds write_answer advance_generation update_order_after_refresh
  apply_answer s slot input requeue =
      elim (answer_timestamp_seconds fl (candidate_at s slot) s.target_timestamp_seconds
        input.elapsed_seconds) [
          | none ↦ none
          | some timestamp ↦
              some
                (update_order_after_refresh fl
                  (advance_generation (write_answer s slot input timestamp requeue)) (slot ∷ [])
                  false).0
        ]

  unfoldable pub validate_answer_update :
      LivePredictionSessionState → ℕ → ReviewInput → Result LiveError (Unit {0})
  unfolding answer_timestamp_seconds is_finite
  validate_answer_update s slot input =
      elim (answer_timestamp_seconds fl (candidate_at s slot) s.target_timestamp_seconds
        input.elapsed_seconds) [
          | none ↦ err panicked
          | some timestamp ↦
              if is_finite timestamp
              then (if is_finite input.day_offset
                  then ok tt
                  else err (anchors_not_finite input.card_id))
              else err (anchors_not_finite input.card_id)
        ]

  unfoldable pub set_retention_extra :
      LivePredictionSessionState → F64 → Option LiveIndexUndoFrame → Edited ℕ
  unfolding validate_retention_extra recompute_all_eligibilities rebuild_order advance_generation
  set_retention_extra s extra undo = elim (validate_retention_extra extra) [
    | err failure ↦ (err failure, (s, undo))
    | ok _ ↦
        let next = advance_generation (
          rebuild_order fl
            (recompute_all_eligibilities fl (record s { retention_extra = extra }))) in
        (ok next.generation, (next, undo))
  ]

  -- `seeds.iter().map(...).collect::<PyResult<Vec<_>>>()`
  unfoldable pub values_from_seeds :
      List LiveCandidateSeedNative → F64 → F64 → Result LiveError (List LiveCandidateValue)
  unfolding candidate_value_from_seed
  values_from_seeds [] timestamp day = ok []
  values_from_seeds (seed ∷ rest) timestamp day = do
    v ← candidate_value_from_seed fl seed timestamp day
    values ← values_from_seeds rest timestamp day
    ok (v ∷ values)

-- A value over the slot of its card, which stays excluded, or at a new slot.
unfoldable pub upsert_value :
    LivePredictionSessionState → LiveCandidateValue → Option LiveIndexUndoFrame → Edited (Unit {0})
unfolding get recorded restore_value record_new_slot append_value
upsert_value s v undo = elim (get v.candidate.card_id s.slot_by_card_id) [
  | none ↦
      let after : Option LiveIndexUndoFrame = elim undo [
        | none ↦ none
        | some frame ↦ some (record_new_slot frame (length s.candidates))
      ] in
      (ok tt, (append_value s v, after))
  | some slot ↦ elim (recorded undo s slot) [
    | err failure ↦ (err failure, (s, undo))
    | ok after ↦
        let kept =
          if is_excluded (status_at s slot)
          then record v { status = excluded_pending_refresh }
          else v in
        (ok tt, (restore_value s slot kept, after))
  ]
]

unfoldable pub upsert_values :
    List LiveCandidateValue
    → LivePredictionSessionState
    → Option LiveIndexUndoFrame
    → Edited (Unit {0})
unfolding upsert_value
upsert_values [] s undo = (ok tt, (s, undo))
upsert_values (v ∷ rest) s undo =
    let (outcome, (next, after)) = upsert_value s v undo in
    elim outcome [
      | err failure ↦ (err failure, (next, after))
      | ok _ ↦ upsert_values rest next after
    ]

unfoldable pub upsert_candidates :
    FloatOps
    → LivePredictionSessionState
    → List LiveCandidateSeedNative
    → Option LiveIndexUndoFrame
    → Edited ℕ
unfolding first_duplicate values_from_seeds upsert_values advance_generation rebuild_order
upsert_candidates fl s seeds undo = elim (first_duplicate seeds []) [
  | some card_id ↦ (err (duplicate_card card_id), (s, undo))
  | none ↦ elim (values_from_seeds fl seeds s.target_timestamp_seconds s.target_day_offset) [
    | err failure ↦ (err failure, (s, undo))
    | ok values ↦
        let (outcome, (upserted, after)) = upsert_values values s undo in
        elim outcome [
          | err failure ↦ (err failure, (upserted, after))
          | ok _ ↦
              let next = rebuild_order fl (advance_generation upserted) in
              (ok next.generation, (next, after))
        ]
  ]
]

unfoldable pub set_mode :
    LivePredictionSessionState → LivePredictionMode → ℕ × LivePredictionSessionState
unfolding advance_generation
set_mode s mode =
    let next = advance_generation (record s { mode = mode }) in (next.generation, next)
