-- ===== src/Live/Session/Update.antt =====
-- After an update of an indexed session, update_order_after_refresh gives a session in rank order.
use rwkv_srs.Base.{
  refl, ◌*◌, ℕ, List, Bool, ◌∙◌, ◌≡◌, if◌then◌else◌, sym, true, false, ◌||◌, length, ◌==◌, leb,
}
use rwkv_srs.Features.{FloatOps}
use rwkv_srs.Live.{LivePredictionSessionState}
use rwkv_srs.Live.Order.{
  mark_updated, merge_updated_order, rebuild_order, advance_update_mark, update_order_after_refresh,
}
use rwkv_srs.Live.Order.Invariant.{IsRanked, ChangedAt, AreSlots, merge_updated_order-rebuild_order}
use rwkv_srs.Live.Order.Marks.{length-mark_updated, mark_updated-MarksOk}
use rwkv_srs.Live.Rank.{compare_slots, rank_key, applicable_target}
use rwkv_srs.Live.Session.{IsSession, IsIndexed}

-- The order of the slots is no part of the index.
pub reordered-IsIndexed :
    (s : LivePredictionSessionState) (slots : List ℕ)
    → IsIndexed s
    → IsIndexed (record s { ordered_slots = slots })
reordered-IsIndexed s slots i = record {
  lengths = record {
    predictions_length = i.lengths.predictions_length;
    normal_length = i.lengths.normal_length;
    intraday_length = i.lengths.intraday_length;
    tie_length = i.lengths.tie_length;
    random_length = i.lengths.random_length;
    status_length = i.lengths.status_length;
    eligible_length = i.lengths.eligible_length;
    marks_length = i.lengths.marks_length;
  };
  marks = i.marks;
  sorted = i.sorted;
  named = i.named;
  names_live = i.names_live;
}

mark_updated-IsIndexed :
    (s : LivePredictionSessionState) (slots : List ℕ)
    → IsIndexed s
    → IsIndexed (mark_updated s slots)
unfolding mark_updated advance_update_mark
mark_updated-IsIndexed s slots i = record {
  lengths = record {
    predictions_length = i.lengths.predictions_length;
    normal_length = i.lengths.normal_length;
    intraday_length = i.lengths.intraday_length;
    tie_length = i.lengths.tie_length;
    random_length = i.lengths.random_length;
    status_length = i.lengths.status_length;
    eligible_length = i.lengths.eligible_length;
    marks_length = length-mark_updated s slots ∙ i.lengths.marks_length;
  };
  marks = mark_updated-MarksOk s slots i.marks;
  sorted = i.sorted;
  named = i.named;
  names_live = i.names_live;
}

module _ (fl : FloatOps) where
  pub rebuild_order-IsSession :
      (s : LivePredictionSessionState) → IsIndexed s → IsSession fl (rebuild_order fl s)
  unfolding rebuild_order compare_slots rank_key applicable_target
  rebuild_order-IsSession s i = record {
    indexed = reordered-IsIndexed s (rebuild_order fl s).ordered_slots i;
    ranked = refl;
  }

  -- The full sort does not look at the marks.
  rebuild_order-merge :
      (s : LivePredictionSessionState) (slots : List ℕ)
      → (rebuild_order fl (merge_updated_order fl s slots)).ordered_slots
        ≡ (rebuild_order fl s).ordered_slots
  unfolding rebuild_order merge_updated_order mark_updated advance_update_mark compare_slots
      rank_key applicable_target
  rebuild_order-merge s slots = refl

  merge_updated_order-IsSession :
      (old s : LivePredictionSessionState) (slots : List ℕ)
      → IsRanked fl old
      → ChangedAt fl old s slots
      → AreSlots s slots
      → IsIndexed s
      → IsSession fl (merge_updated_order fl s slots)
  unfolding merge_updated_order
  merge_updated_order-IsSession old s slots ranked changed are i = record {
    indexed =
        reordered-IsIndexed (mark_updated s slots) (merge_updated_order fl s slots).ordered_slots
          (mark_updated-IsIndexed s slots i);
    ranked =
        merge_updated_order-rebuild_order fl old s slots ranked changed i.marks are i.named
        ∙ sym (rebuild_order-merge s slots);
  }

  -- Both ways of update_order_after_refresh end in rank order.
  pub update_order-IsSession :
      (old s : LivePredictionSessionState) (slots : List ℕ) (force : Bool)
      → IsRanked fl old
      → ChangedAt fl old s slots
      → AreSlots s slots
      → IsIndexed s
      → IsSession fl (update_order_after_refresh fl s slots force).0
  unfolding update_order_after_refresh
  update_order-IsSession old s slots force ranked changed are i = pick (
      force
      || ((length s.ordered_slots == 0) || leb (length s.ordered_slots * 19) (length slots * 20)))
    where
      pick :
          (full : Bool)
          → let both : LivePredictionSessionState × Bool =
              if full
              then (rebuild_order fl s, true)
              else (merge_updated_order fl s slots, false) in
            IsSession fl both.0
      pick true = rebuild_order-IsSession s i
      pick false = merge_updated_order-IsSession old s slots ranked changed are i
