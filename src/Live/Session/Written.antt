-- ===== src/Live/Session/Written.antt =====
-- A change of one slot: what stays of the index when the slot keeps its card or loses it, and the
-- session after update_order_after_refresh of that slot.
use rwkv_srs.Base.{
  ℕ, ◌<◌, ◌≡◌, ℤ, ◌∷◌, length, [], true, some, false, ◌==◌, arith, Bool-cases, inl, ==_iff, inr,
  sym, ◌∙◌,
}
use rwkv_srs.Features.{FloatOps}
use rwkv_srs.Live.{LivePredictionSessionState, candidate_at}
use rwkv_srs.Live.Order.{is_live}
use rwkv_srs.Live.Order.Invariant.{ChangedAt, AreSlots}
use rwkv_srs.Live.Order.Marks.{MarksOk}
use rwkv_srs.Live.Rank.Laws.{compare_slots-agree, SameAt}
use rwkv_srs.Live.Session.{IsIndexed, SameLengths}
use rwkv_srs.Live.Session.Names.{other_card, still_named}
use rwkv_srs.Map.{get, remove}
use rwkv_srs.Map.Laws.{remove-IsSorted, get-remove_ne}
use rwkv_srs.Sorting.{elem, count}

-- `t` is `s` with another slot `slot`, whose card is the same.
pub record Written (s t : LivePredictionSessionState) (slot : ℕ) : Type 0 where
  pub lengths : SameLengths t
  pub same_marks : t.update_marks ≡ s.update_marks
  pub same_generation : t.update_mark_generation ≡ s.update_mark_generation
  pub same_slots : t.ordered_slots ≡ s.ordered_slots
  pub same_ranking : t.order ≡ s.order
  pub same_cards : (v : ℕ) → (candidate_at t v).card_id ≡ (candidate_at s v).card_id
  pub same_status : (v : ℕ) → (slot == v) ≡ false → is_live t v ≡ is_live s v
  pub same_columns : (v : ℕ) → (slot == v) ≡ false → SameAt t s v

elem-one : (slot v : ℕ) → elem v (slot ∷ []) ≡ false → (slot == v) ≡ false
unfolding elem
elem-one slot v h = ground arith

pub one-AreSlots :
    (s : LivePredictionSessionState) (slot : ℕ)
    → slot < length s.update_marks
    → AreSlots s (slot ∷ [])
unfolding elem count
one-AreSlots s slot h = ((h, tt), λ v. ground arith)

module _ (s t : LivePredictionSessionState) (slot : ℕ) (w : Written s t slot) where
  written-MarksOk : MarksOk s → MarksOk t
  written-MarksOk marks = rw (w.same_marks, w.same_generation) marks

  pub written-ChangedAt : (fl : FloatOps) → ChangedAt fl s t (slot ∷ [])
  written-ChangedAt fl = record {
    same_order = w.same_slots;
    same_live = λ v h. w.same_status v (elem-one slot v h);
    same_rank = λ a b h g.
        compare_slots-agree fl t s w.same_ranking a b (w.same_columns a (elem-one slot a h))
          (w.same_columns b (elem-one slot b g));
  }

  module _ (i : IsIndexed s) where
    pub kept-IsIndexed :
        t.slot_by_card_id ≡ s.slot_by_card_id
        → is_live s slot ≡ true
        → is_live t slot ≡ true
        → IsIndexed t
    kept-IsIndexed same was is = record {
      lengths = w.lengths;
      marks = written-MarksOk i.marks;
      sorted = rw same i.sorted;
      named = λ v h. rw (same, w.same_cards v) (i.named v (both v h));
      names_live = λ card_id v h.
          let old = i.names_live card_id v (rw same at h) in (back v old.0, w.same_cards v ∙ old.1);
    }
      where
        both : (v : ℕ) → is_live t v ≡ true → is_live s v ≡ true
        both v h = elim (Bool-cases (slot == v)) [
          | inl e ↦ rw (← ((==_iff slot v).0 e)) was
          | inr e ↦ sym (w.same_status v e) ∙ h
        ]

        back : (v : ℕ) → is_live s v ≡ true → is_live t v ≡ true
        back v h = elim (Bool-cases (slot == v)) [
          | inl e ↦ rw (← ((==_iff slot v).0 e)) is
          | inr e ↦ w.same_status v e ∙ h
        ]

    pub dropped-IsIndexed :
        (card_id : ℤ)
        → get card_id s.slot_by_card_id ≡ some slot
        → t.slot_by_card_id ≡ remove card_id s.slot_by_card_id
        → is_live t slot ≡ false
        → IsIndexed t
    dropped-IsIndexed card_id h same gone = record {
      lengths = w.lengths;
      marks = written-MarksOk i.marks;
      sorted = rw same (remove-IsSorted card_id s.slot_by_card_id i.sorted);
      named = λ v live.
          let other = another v live in
          let was = sym (w.same_status v other) ∙ live in
          rw (same, w.same_cards v)
            (get-remove_ne (candidate_at s v).card_id card_id s.slot_by_card_id
                (other_card s i card_id slot v h was other)
              ∙ i.named v was);
      names_live = λ other v g.
          let kept = still_named s i card_id slot h other v (rw same at g) in
          let old = i.names_live other v kept.0 in
          (w.same_status v kept.1 ∙ old.0, w.same_cards v ∙ old.1);
    }
      where
        another : (v : ℕ) → is_live t v ≡ true → (slot == v) ≡ false
        another v live = elim (Bool-cases (slot == v)) [
          | inl e ↦
              let at_slot : is_live t slot ≡ true = rw ((==_iff slot v).0 e) live in ground arith
          | inr e ↦ e
        ]
