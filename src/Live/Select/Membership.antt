-- ===== src/Live/Select/Membership.antt =====
-- The slots that a refresh selects, as a list: the pending ones first, by slot, then the others of
-- the queue by rank, up to the limit.
use rwkv_srs.Base.{
  [], ℕ, List, length, true, false, Bool, ◌<◌, take, ◌≡◌, ◌++◌, ◌-◌, ◌&&◌, arith, refl, not, ap,
  ◌==◌, ◌∙◌, sym, Bool-cases, ltb, inl, ltb→lt, inr,
}
use rwkv_srs.Features.{FloatOps}
use rwkv_srs.Live.{active, LivePredictionSessionState, CandidateStatus, status_at}
use rwkv_srs.Live.Order.{all_slots, is_marked, advance_update_mark, is_live}
use rwkv_srs.Live.Order.Invariant.{IsRanked-count}
use rwkv_srs.Live.Order.Marks.{AllBelow, length-advance_update_mark, advance_update_mark-unmarked}
use rwkv_srs.Live.Order.Merge.{keep_eq}
use rwkv_srs.Live.Select.{select_slot, select_loop, collect_transport}
use rwkv_srs.Live.Select.Lists.{
  slots_from-AllBelow, count-slots_from, take-append, elem-slots_from, take_all, elem-keep,
  AllBelow-of_count,
}
use rwkv_srs.Live.Select.Loop.{
  MarksSelected, select_loop-MarksSelected, select_loop-frame, select_loop-take, keep_agree,
  length-select_loop,
}
use rwkv_srs.Live.Session.{IsSession}
use rwkv_srs.Live.Session.Columns.{get_or-set_other, live-lt}
use rwkv_srs.Live.Status.{is_pending, is_included}
use rwkv_srs.Sorting.{elem, count, keep}

abbrev pub is_active : CandidateStatus → Bool
is_active active = true
is_active _ = false

-- What a refresh would select without a limit.
abbrev pub refresh_queue : LivePredictionSessionState → List ℕ → List ℕ
refresh_queue s excluded_slots =
    keep (λ v. is_pending (status_at s v) && not (elem v excluded_slots)) (all_slots s)
    ++ keep (λ v. is_active (status_at s v) && not (elem v excluded_slots)) s.ordered_slots

status_pick :
    (st : CandidateStatus) (x : Bool)
    → ((is_included st && not ((is_pending st && x) && true)) && x) ≡ (is_active st && x)
status_pick st x = ground arith

-- Both loops of a selection, over the excluded slots.
module _ (fl : FloatOps) (s : LivePredictionSessionState) (h : IsSession fl s)
    (excluded_slots : List ℕ) (first_admits second_admits : LivePredictionSessionState → ℕ → Bool)
    (first_lem : (t : LivePredictionSessionState) (v : ℕ)
      → first_admits t v ≡ (is_pending (status_at t v) && not (elem v excluded_slots)))
    (second_lem : (t : LivePredictionSessionState) (v : ℕ)
      → second_admits t v ≡ (
          (is_included (status_at t v) && not (is_marked t v))
          && not (elem v excluded_slots))) where
  abbrev cleared : LivePredictionSessionState
  cleared = advance_update_mark (record s { selected_scratch = [] })

  abbrev pending : LivePredictionSessionState
  pending = select_loop first_admits (all_slots cleared) cleared

  abbrev joined : LivePredictionSessionState
  joined = select_loop second_admits pending.ordered_slots pending

  abbrev pending_slots : List ℕ
  pending_slots =
      keep (λ v. is_pending (status_at s v) && not (elem v excluded_slots)) (all_slots s)

  all-AllBelow : AllBelow (length cleared.update_marks) (all_slots s)
  all-AllBelow = slots_from-AllBelow (length cleared.update_marks) 0 (length s.candidates) (
      ground (
        arith,
        length-advance_update_mark (record s { selected_scratch = [] }),
        h.indexed.lengths.marks_length,
      ))

  cleared-MarksSelected : MarksSelected cleared
  unfolding elem advance_update_mark
  cleared-MarksSelected v =
      advance_update_mark-unmarked (record s { selected_scratch = [] }) v h.indexed.marks

  pending-MarksSelected : MarksSelected pending
  unfolding advance_update_mark
  pending-MarksSelected =
      select_loop-MarksSelected first_admits (all_slots cleared) cleared all-AllBelow
        cleared-MarksSelected

  first_stable :
      (t : LivePredictionSessionState) (x v : ℕ)
      → (x == v) ≡ false
      → first_admits (select_slot t x) v ≡ first_admits t v
  unfolding select_slot
  first_stable t x v e = first_lem (select_slot t x) v ∙ sym (first_lem t v)

  second_stable :
      (t : LivePredictionSessionState) (x v : ℕ)
      → (x == v) ≡ false
      → second_admits (select_slot t x) v ≡ second_admits t v
  unfolding select_slot
  second_stable t x v e =
      let same : is_marked (select_slot t x) v ≡ is_marked t v =
        ap (λ mark. mark == t.update_mark_generation)
          (get_or-set_other t.update_marks x v t.update_mark_generation 0 e) in
      second_lem (select_slot t x) v ∙ rw same (sym (second_lem t v))

  pending-take : pending.selected_scratch ≡ take s.refresh_limit pending_slots
  unfolding advance_update_mark
  pending-take =
      let whole : s.refresh_limit - 0 ≡ s.refresh_limit = omega arith in
      select_loop-take first_admits (λ v. is_pending (status_at s v) && not (elem v excluded_slots))
        first_stable (all_slots cleared) cleared
        (λ v. (count-slots_from v 0 (length s.candidates)).0) (λ v p. first_lem cleared v)
      ∙ rw whole refl

  pending-frame : pending ≡ record cleared {
    selected_scratch = pending.selected_scratch;
    update_marks = pending.update_marks;
  }
  pending-frame = select_loop-frame first_admits (all_slots cleared) cleared

  -- What the second loop admits at its start.
  abbrev joins : ℕ → Bool
  joins v =
      (is_included (status_at s v) && not (elem v pending.selected_scratch))
      && not (elem v excluded_slots)

  joins-admits : (v : ℕ) → second_admits pending v ≡ joins v
  unfolding advance_update_mark
  joins-admits v =
      let statuses : pending.statuses ≡ s.statuses =
        ap (λ (t : LivePredictionSessionState). t.statuses) pending-frame in
      second_lem pending v ∙ rw (pending-MarksSelected v, statuses) refl

  joined-take :
      joined.selected_scratch
      ≡ pending.selected_scratch
        ++ take (s.refresh_limit - length pending.selected_scratch) (keep joins s.ordered_slots)
  unfolding advance_update_mark
  joined-take =
      let limit : pending.refresh_limit ≡ s.refresh_limit =
        ap (λ (t : LivePredictionSessionState). t.refresh_limit) pending-frame in
      let slots : pending.ordered_slots ≡ s.ordered_slots =
        ap (λ (t : LivePredictionSessionState). t.ordered_slots) pending-frame in
      select_loop-take second_admits joins second_stable pending.ordered_slots pending
        (λ v. rw slots (let c = IsRanked-count fl s v h.ranked in ground arith))
        (λ v p. joins-admits v)
      ∙ rw (limit, slots) refl

  joins-active :
      (v : ℕ)
      → pending.selected_scratch ≡ pending_slots
      → 0 < count v s.ordered_slots
      → joins v ≡ (is_active (status_at s v) && not (elem v excluded_slots))
  joins-active v all p =
      let live : is_live s v ≡ true = let c = IsRanked-count fl s v h.ranked in ground arith in
      let below = live-lt v s.statuses live in
      let there : elem v (all_slots s) ≡ true =
        elem-slots_from v 0 (length s.candidates) (omega arith)
          (ground (arith, below, h.indexed.lengths.status_length)) in
      let chosen : elem v pending.selected_scratch
          ≡ ((is_pending (status_at s v) && not (elem v excluded_slots)) && true) =
        ap (elem v) all
        ∙ elem-keep (λ w. is_pending (status_at s w) && not (elem w excluded_slots)) v (all_slots s)
        ∙ rw there refl in
      rw chosen (status_pick (status_at s v) (not (elem v excluded_slots)))

  -- With room left after the pending slots, all of them are selected.
  rest_take :
      take
        (s.refresh_limit - length (take s.refresh_limit pending_slots))
        (keep joins s.ordered_slots)
      ≡ take
          (s.refresh_limit - length (take s.refresh_limit pending_slots))
          (keep (λ v. is_active (status_at s v) && not (elem v excluded_slots)) s.ordered_slots)
  rest_take =
      elim (Bool-cases (ltb 0 (s.refresh_limit - length (take s.refresh_limit pending_slots)))) [
        | inl room ↦
            let all : pending.selected_scratch ≡ pending_slots =
              pending-take ∙ take_all s.refresh_limit pending_slots (ltb→lt _ _ room) in
            ap (take (s.refresh_limit - length (take s.refresh_limit pending_slots))) (
              keep_agree joins (λ v. is_active (status_at s v) && not (elem v excluded_slots))
                s.ordered_slots (λ v p. joins-active v all p))
        | inr full ↦
            let none_left : s.refresh_limit - length (take s.refresh_limit pending_slots) ≡ 0 =
              ground arith in
            rw none_left refl
      ]

  pub joined-queue : joined.selected_scratch ≡ take s.refresh_limit (refresh_queue s excluded_slots)
  joined-queue =
      joined-take
      ∙ rw pending-take (
          ap (λ l. take s.refresh_limit pending_slots ++ l) rest_take
          ∙ sym (take-append s.refresh_limit pending_slots _))

  ordered-AllBelow : AllBelow (length pending.update_marks) pending.ordered_slots
  unfolding advance_update_mark
  ordered-AllBelow =
      let slots : pending.ordered_slots ≡ s.ordered_slots =
        ap (λ (t : LivePredictionSessionState). t.ordered_slots) pending-frame in
      let same : length pending.update_marks ≡ length s.statuses =
        length-select_loop first_admits (all_slots cleared) cleared
        ∙ length-advance_update_mark (record s { selected_scratch = [] })
        ∙ h.indexed.lengths.marks_length
        ∙ sym h.indexed.lengths.status_length in
      rw (slots, same)
        (AllBelow-of_count (length s.statuses) s.ordered_slots
          λ v p. live-lt v s.statuses (let c = IsRanked-count fl s v h.ranked in ground arith))

  pub joined-MarksSelected : MarksSelected joined
  joined-MarksSelected =
      select_loop-MarksSelected second_admits pending.ordered_slots pending ordered-AllBelow
        pending-MarksSelected

  pub joined-candidates : joined.candidates ≡ s.candidates
  unfolding advance_update_mark
  joined-candidates =
      ap (λ (t : LivePredictionSessionState). t.candidates)
        (select_loop-frame second_admits pending.ordered_slots pending)
      ∙ ap (λ (t : LivePredictionSessionState). t.candidates) pending-frame

  pub joined-transport :
      (collect_transport joined).transport_slots
      ≡ keep (λ v. elem v joined.selected_scratch) (all_slots s)
  unfolding collect_transport
  joined-transport = rw joined-candidates (
      keep_eq (is_marked joined) (λ v. elem v joined.selected_scratch) (all_slots s)
        joined-MarksSelected)
