-- ===== src/Live/Session/Answer.antt =====
-- An answer to a live slot keeps the invariant.
use rwkv_srs.Base.{
  true, false, ℕ, Bool, ℤ, if◌then◌else◌, ◌≡◌, ◌<◌, some, length, set, arith, length-set, ◌∙◌, sym,
  ap, not, refl, Option-cases, ◌∷◌, inl, [], inr, subst,
}
use rwkv_srs.Features.{FloatOps}
use rwkv_srs.Live.{
  removed, pending_refresh, excluded_pending_refresh, no_candidate, LivePredictionSessionState,
  CandidateStatus, status_at, candidate_at,
}
use rwkv_srs.Live.Candidate.{nan, answer_timestamp_seconds}
use rwkv_srs.Live.Edit.{apply_answer, write_answer, answered}
use rwkv_srs.Live.Order.{is_live, update_order_after_refresh}
use rwkv_srs.Live.Session.{IsIndexed, IsSession, SameLengths}
use rwkv_srs.Live.Session.Columns.{get_or-set_self, card_id-set, get_or-set_other}
use rwkv_srs.Live.Session.Names.{named-lt, named-marks}
use rwkv_srs.Live.Session.Update.{update_order-IsSession}
use rwkv_srs.Live.Session.Written.{
  Written, kept-IsIndexed, dropped-IsIndexed, written-ChangedAt, one-AreSlots,
}
use rwkv_srs.Live.Slots.{advance_generation}
use rwkv_srs.Live.Status.{is_excluded, is_removed}
use rwkv_srs.Map.{get, remove}
use rwkv_srs.Map.Laws.{none-ne-some}
use rwkv_srs.Review.{ReviewInput, F64}
use rwkv_srs.State.Encodings.{some-injective}

-- A slot that is answered keeps its card, and its name unless it leaves the queue.
module _ (s : LivePredictionSessionState) (slot : ℕ) (input : ReviewInput) (timestamp : F64)
    (requeue : Bool) where
  write_answer-Written :
      SameLengths s
      → Written s (advance_generation (write_answer s slot input timestamp requeue)) slot
  unfolding write_answer advance_generation
  write_answer-Written l = record {
    lengths = record {
      predictions_length =
          length-set s.predictions slot nan ∙ l.predictions_length ∙ sym candidates_length;
      normal_length = l.normal_length ∙ sym candidates_length;
      intraday_length = l.intraday_length ∙ sym candidates_length;
      tie_length = l.tie_length ∙ sym candidates_length;
      random_length = l.random_length ∙ sym candidates_length;
      status_length = length-set s.statuses slot _ ∙ l.status_length ∙ sym candidates_length;
      eligible_length =
          length-set s.eligibilities slot false ∙ l.eligible_length ∙ sym candidates_length;
      marks_length = l.marks_length ∙ sym candidates_length;
    };
    same_marks = refl;
    same_generation = refl;
    same_slots = refl;
    same_ranking = refl;
    same_cards = λ v. card_id-set slot v s.candidates _ no_candidate refl;
    same_status =
        λ v h. ap (λ st. not (is_removed st)) (get_or-set_other s.statuses slot v _ removed h);
    same_columns = λ v h. record {
      same_eligible = get_or-set_other s.eligibilities slot v false false h;
      same_prediction = get_or-set_other s.predictions slot v nan 0 h;
      same_random = refl;
      same_normal = refl;
      same_intraday = refl;
      same_tie = refl;
      same_candidate = get_or-set_other s.candidates slot v _ no_candidate h;
    };
  }
    where
      candidates_length :
          length (set s.candidates slot (answered (candidate_at s slot) input timestamp))
          ≡ length s.candidates
      candidates_length =
          length-set s.candidates slot (answered (candidate_at s slot) input timestamp)

  abbrev answered_status : CandidateStatus
  answered_status =
      if requeue
      then (if is_excluded (status_at s slot) then excluded_pending_refresh else pending_refresh)
      else removed

  write_answer-status :
      slot < length s.statuses
      → is_live (advance_generation (write_answer s slot input timestamp requeue)) slot ≡ requeue
  unfolding write_answer advance_generation
  write_answer-status below =
      rw (get_or-set_self s.statuses slot answered_status removed below) (ground arith)

write_answer-IsIndexed :
    (s : LivePredictionSessionState) (slot : ℕ) (input : ReviewInput) (timestamp : F64)
    (requeue : Bool) (card_id : ℤ)
    → IsIndexed s
    → get card_id s.slot_by_card_id ≡ some slot
    → IsIndexed (advance_generation (write_answer s slot input timestamp requeue))
unfolding write_answer advance_generation
write_answer-IsIndexed s slot input timestamp true card_id i at =
    kept-IsIndexed s (advance_generation (write_answer s slot input timestamp true)) slot
      (write_answer-Written s slot input timestamp true i.lengths) i refl
      (i.names_live card_id slot at).0
      (write_answer-status s slot input timestamp true (named-lt s i card_id slot at))
write_answer-IsIndexed s slot input timestamp false card_id i at =
    dropped-IsIndexed s (advance_generation (write_answer s slot input timestamp false)) slot
      (write_answer-Written s slot input timestamp false i.lengths) i card_id at
      (ap (λ card. remove card s.slot_by_card_id) (i.names_live card_id slot at).1)
      (write_answer-status s slot input timestamp false (named-lt s i card_id slot at))

write_answer-IsSession :
    (fl : FloatOps) (s : LivePredictionSessionState) (slot : ℕ) (input : ReviewInput)
    (timestamp : F64) (requeue : Bool) (card_id : ℤ)
    → IsSession fl s
    → get card_id s.slot_by_card_id ≡ some slot
    → IsSession fl
        (update_order_after_refresh fl
          (advance_generation (write_answer s slot input timestamp requeue))
          (slot ∷ [])
          false).0
write_answer-IsSession fl s slot input timestamp requeue card_id h at =
    let t = advance_generation (write_answer s slot input timestamp requeue) in
    let w = write_answer-Written s slot input timestamp requeue h.indexed.lengths in
    let in_range : slot < length t.update_marks =
      rw (w.same_marks) (named-marks s h.indexed card_id slot at) in
    update_order-IsSession fl s t (slot ∷ []) false h.ranked (written-ChangedAt s t slot w fl)
      (one-AreSlots t slot in_range)
      (write_answer-IsIndexed s slot input timestamp requeue card_id h.indexed at)

-- `slot` is the slot of a named card, as for the answers that the runtime applies.
pub apply_answer-IsSession :
    (fl : FloatOps) (s t : LivePredictionSessionState) (slot : ℕ) (input : ReviewInput)
    (requeue : Bool) (card_id : ℤ)
    → IsSession fl s
    → get card_id s.slot_by_card_id ≡ some slot
    → apply_answer fl s slot input requeue ≡ some t
    → IsSession fl t
unfolding apply_answer
apply_answer-IsSession fl s t slot input requeue card_id h at e =
    elim (Option-cases (
      answer_timestamp_seconds fl (candidate_at s slot) s.target_timestamp_seconds
        input.elapsed_seconds)) [
          | inl f ↦ absurd (none-ne-some t (rw (f, apply_answer) at e))
          | inr (timestamp, f) ↦
              let there : some
                    (update_order_after_refresh fl
                      (advance_generation (write_answer s slot input timestamp requeue)) (slot ∷ [])
                      false).0
                  ≡ some t =
                rw (f, apply_answer) at e in
              subst (IsSession fl) (some-injective there)
                (write_answer-IsSession fl s slot input timestamp requeue card_id h at)
        ]
