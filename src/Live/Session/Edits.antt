-- ===== src/Live/Session/Edits.antt =====
-- Each method of a live session that changes one candidate keeps the invariant.
use rwkv_srs.Base.{
  zero, suc, [], ◌∷◌, none, some, ℕ, ℤ, Option, ◌≡◌, ok, arith, Option-cases, length-set, ◌∙◌, ap,
  not, true, refl, Result-cases, false, inl, inr, List, ◌<◌, length, get_or, set,
}
use rwkv_srs.Features.{FloatOps}
use rwkv_srs.Live.{LivePredictionSessionState, CandidateStatus, removed, status_at}
use rwkv_srs.Live.Edit.{
  find_recorded, set_status, drop_slot, remove_card, include_card, exclude_card, recorded,
}
use rwkv_srs.Live.Order.{rebuild_order, is_live, update_order_after_refresh}
use rwkv_srs.Live.Rank.{compare_slots, rank_key, applicable_target}
use rwkv_srs.Live.Session.{IsSession, SameLengths}
use rwkv_srs.Live.Session.Columns.{
  is_removed-set, live_from-set, get_or-set_other, is_removed-set_self, get_or-set_self,
}
use rwkv_srs.Live.Session.Names.{named-marks, named-lt}
use rwkv_srs.Live.Session.Update.{update_order-IsSession}
use rwkv_srs.Live.Session.Written.{
  Written, kept-IsIndexed, written-ChangedAt, one-AreSlots, dropped-IsIndexed,
}
use rwkv_srs.Live.Slots.{candidate_slot, advance_generation}
use rwkv_srs.Live.Status.{is_removed, to_excluded, to_included, is_excluded}
use rwkv_srs.Live.Undo.{LiveIndexUndoFrame}
use rwkv_srs.Map.{get}

find_recorded-slot :
    (s : LivePredictionSessionState) (card_id : ℤ) (undo : Option LiveIndexUndoFrame)
    (found : ℕ × Option LiveIndexUndoFrame)
    → find_recorded s card_id undo ≡ ok found
    → get card_id s.slot_by_card_id ≡ some found.0
unfolding find_recorded candidate_slot
find_recorded-slot s card_id undo found e =
    ground (arith, Option-cases (get card_id s.slot_by_card_id))

-- A status that changes nothing about the removal of the slot.
module _ (s : LivePredictionSessionState) (slot : ℕ) (st : CandidateStatus)
    (same : is_removed st ≡ is_removed (status_at s slot)) where
  set_status-Written : SameLengths s → Written s (advance_generation (set_status s slot st)) slot
  unfolding set_status advance_generation
  set_status-Written l = record {
    lengths = record {
      predictions_length = l.predictions_length;
      normal_length = l.normal_length;
      intraday_length = l.intraday_length;
      tie_length = l.tie_length;
      random_length = l.random_length;
      status_length = length-set s.statuses slot st ∙ l.status_length;
      eligible_length = l.eligible_length;
      marks_length = l.marks_length;
    };
    same_marks = refl;
    same_generation = refl;
    same_slots = refl;
    same_ranking = refl;
    same_cards = λ v. refl;
    same_status = λ v h. ap not (is_removed-set slot v s.statuses st same);
    same_columns = λ v h. record {
      same_eligible = refl;
      same_prediction = refl;
      same_random = refl;
      same_normal = refl;
      same_intraday = refl;
      same_tie = refl;
      same_candidate = refl;
    };
  }

  set_status-IsSession :
      (fl : FloatOps)
      → IsSession fl s
      → is_live s slot ≡ true
      → IsSession fl (advance_generation (set_status s slot st))
  unfolding set_status advance_generation rebuild_order compare_slots rank_key applicable_target
  set_status-IsSession fl h live = record {
    indexed =
        kept-IsIndexed s (advance_generation (set_status s slot st)) slot
          (set_status-Written h.indexed.lengths) h.indexed refl live
          (ap not (is_removed-set slot slot s.statuses st same) ∙ live);
    ranked = rw (live_from-set 0 slot s.statuses st same) h.ranked;
  }

to_excluded-is_removed : (st : CandidateStatus) → is_removed (to_excluded st) ≡ is_removed st
to_excluded-is_removed st = ground arith

to_included-is_removed : (st : CandidateStatus) → is_removed (to_included st) ≡ is_removed st
to_included-is_removed st = ground arith

module _ (fl : FloatOps) (s : LivePredictionSessionState) (h : IsSession fl s) (card_id : ℤ)
    (undo : Option LiveIndexUndoFrame) where
  pub exclude_card-IsSession : IsSession fl (exclude_card s card_id undo).1.0
  unfolding exclude_card
  exclude_card-IsSession = elim (Result-cases (find_recorded s card_id undo)) [
    | inl (e, f) ↦ rw (f, exclude_card) h
    | inr (found, f) ↦
        rw (f, exclude_card)
          (set_status-IsSession s found.0 (to_excluded (status_at s found.0))
            (to_excluded-is_removed (status_at s found.0)) fl h
            (h.indexed.names_live card_id found.0 (find_recorded-slot s card_id undo found f)).0)
  ]

  pub include_card-IsSession : IsSession fl (include_card s card_id undo).1.0
  unfolding include_card
  include_card-IsSession = elim (Result-cases (find_recorded s card_id undo)) [
    | inl (e, f) ↦ rw (f, include_card) h
    | inr (found, f) ↦
        rw (f, include_card)
          (set_status-IsSession s found.0 (to_included (status_at s found.0))
            (to_included-is_removed (status_at s found.0)) fl h
            (h.indexed.names_live card_id found.0 (find_recorded-slot s card_id undo found f)).0)
  ]

-- A slot that loses its card.
module _ (s : LivePredictionSessionState) (slot : ℕ) (card_id : ℤ) where
  pub drop_slot-Written :
      SameLengths s → Written s (advance_generation (drop_slot s slot card_id)) slot
  unfolding drop_slot advance_generation
  drop_slot-Written l = record {
    lengths = record {
      predictions_length = l.predictions_length;
      normal_length = l.normal_length;
      intraday_length = l.intraday_length;
      tie_length = l.tie_length;
      random_length = l.random_length;
      status_length = length-set s.statuses slot removed ∙ l.status_length;
      eligible_length = length-set s.eligibilities slot false ∙ l.eligible_length;
      marks_length = l.marks_length;
    };
    same_marks = refl;
    same_generation = refl;
    same_slots = refl;
    same_ranking = refl;
    same_cards = λ v. refl;
    same_status = λ v h.
        ap (λ st. not (is_removed st)) (get_or-set_other s.statuses slot v removed removed h);
    same_columns = λ v h. record {
      same_eligible = get_or-set_other s.eligibilities slot v false false h;
      same_prediction = refl;
      same_random = refl;
      same_normal = refl;
      same_intraday = refl;
      same_tie = refl;
      same_candidate = refl;
    };
  }

  drop_slot-IsSession :
      (fl : FloatOps)
      → IsSession fl s
      → get card_id s.slot_by_card_id ≡ some slot
      → IsSession fl
          (update_order_after_refresh fl
            (advance_generation (drop_slot s slot card_id))
            (slot ∷ [])
            false).0
  unfolding drop_slot advance_generation
  drop_slot-IsSession fl h at =
      let t = advance_generation (drop_slot s slot card_id) in
      let w = drop_slot-Written h.indexed.lengths in
      update_order-IsSession fl s t (slot ∷ []) false h.ranked (written-ChangedAt s t slot w fl)
        (one-AreSlots t slot (named-marks s h.indexed card_id slot at))
        (dropped-IsIndexed s t slot w h.indexed card_id at refl
          (ap not (is_removed-set_self slot s.statuses)))

module _ (fl : FloatOps) (s : LivePredictionSessionState) (h : IsSession fl s) (card_id : ℤ)
    (undo : Option LiveIndexUndoFrame) where
  pub remove_card-IsSession : IsSession fl (remove_card fl s card_id undo).1.0
  unfolding remove_card
  remove_card-IsSession = elim (Result-cases (find_recorded s card_id undo)) [
    | inl (e, f) ↦ rw (f, remove_card) h
    | inr (found, f) ↦
        rw (f, remove_card)
          (drop_slot-IsSession s found.0 card_id fl h (find_recorded-slot s card_id undo found f))
  ]

set-back {ℓ} :
    {A : Type ℓ} (xs : List A) (i : ℕ) (v w d : A)
    → i < length xs
    → w ≡ get_or xs i d
    → set (set xs i v) i w ≡ xs
set-back [] i v w d h e = elim h [ ]
set-back (x ∷ xs) zero v w d h e = ap (λ y. y ∷ xs) e
set-back (x ∷ xs) (suc i) v w d h e = ap (λ l. x ∷ l) (set-back xs i v w d (omega arith) e)

to_included-to_excluded :
    (st : CandidateStatus) → is_excluded st ≡ false → to_included (to_excluded st) ≡ st
to_included-to_excluded st h = ground arith

module _ (s : LivePredictionSessionState) (card_id : ℤ) (slot : ℕ)
    (at : get card_id s.slot_by_card_id ≡ some slot) where
  found_named : find_recorded s card_id none ≡ ok (slot, none)
  unfolding find_recorded candidate_slot recorded
  found_named = rw at refl

  exclude_card-named :
      (exclude_card s card_id none).1.0
      ≡ advance_generation (set_status s slot (to_excluded (status_at s slot)))
  unfolding exclude_card
  exclude_card-named = rw (found_named, exclude_card) refl

  include_card-named :
      (include_card s card_id none).1.0
      ≡ advance_generation (set_status s slot (to_included (status_at s slot)))
  unfolding include_card
  include_card-named = rw (found_named, include_card) refl

-- In a session in good order, for a named card that is not excluded, excluding it and including it
-- again gives back all statuses.
pub include_card-exclude_card :
    (fl : FloatOps) (s : LivePredictionSessionState) (card_id : ℤ) (slot : ℕ)
    → IsSession fl s
    → get card_id s.slot_by_card_id ≡ some slot
    → is_excluded (status_at s slot) ≡ false
    → (include_card (exclude_card s card_id none).1.0 card_id none).1.0.statuses ≡ s.statuses
unfolding set_status advance_generation
include_card-exclude_card fl s card_id slot h at open_ =
    let below = named-lt s h.indexed card_id slot at in
    let t = advance_generation (set_status s slot (to_excluded (status_at s slot))) in
    rw (exclude_card-named s card_id slot at, include_card-named t card_id slot at)
      (set-back s.statuses slot (to_excluded (status_at s slot)) (to_included (status_at t slot))
        removed below
        (ap to_included
            (get_or-set_self s.statuses slot (to_excluded (status_at s slot)) removed below)
          ∙ to_included-to_excluded (status_at s slot) open_))
