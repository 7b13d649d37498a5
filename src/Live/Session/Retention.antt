-- ===== src/Live/Session/Retention.antt =====
-- A new retention and a new mode keep the invariant.
use rwkv_srs.Base.{
  [], ◌∷◌, ℕ, ◌≡◌, List, Bool, set, Option, length-set, ◌∙◌, refl, Result-cases, inl, inr,
}
use rwkv_srs.Features.{FloatOps}
use rwkv_srs.Live.{LivePredictionSessionState, LivePredictionMode}
use rwkv_srs.Live.Candidate.{validate_retention_extra}
use rwkv_srs.Live.Edit.{set_retention_extra, set_mode}
use rwkv_srs.Live.Order.{
  recompute_eligibilities, recompute_all_eligibilities, rebuild_order, all_slots,
}
use rwkv_srs.Live.Rank.{compare_slots, calculate_eligibility, rank_key, applicable_target}
use rwkv_srs.Live.Session.{IsIndexed, IsSession}
use rwkv_srs.Live.Session.Update.{rebuild_order-IsSession}
use rwkv_srs.Live.Slots.{advance_generation}
use rwkv_srs.Live.Undo.{LiveIndexUndoFrame}
use rwkv_srs.Review.{F64}

eligible-IsIndexed :
    (s : LivePredictionSessionState) (slot : ℕ) (eligible : Bool)
    → IsIndexed s
    → IsIndexed (record s { eligibilities = set s.eligibilities slot eligible })
eligible-IsIndexed s slot eligible i = record {
  lengths = record {
    predictions_length = i.lengths.predictions_length;
    normal_length = i.lengths.normal_length;
    intraday_length = i.lengths.intraday_length;
    tie_length = i.lengths.tie_length;
    random_length = i.lengths.random_length;
    status_length = i.lengths.status_length;
    eligible_length = length-set s.eligibilities slot eligible ∙ i.lengths.eligible_length;
    marks_length = i.lengths.marks_length;
  };
  marks = i.marks;
  sorted = i.sorted;
  named = i.named;
  names_live = i.names_live;
}

-- What the index reads is the same.
pub same-IsIndexed :
    (s t : LivePredictionSessionState)
    → t ≡ record s {
      generation = t.generation;
      retention_extra = t.retention_extra;
      target_timestamp_seconds = t.target_timestamp_seconds;
      target_day_offset = t.target_day_offset;
      mode = t.mode;
    }
    → IsIndexed s
    → IsIndexed t
same-IsIndexed s t e i = rw e (record {
  lengths = record {
    predictions_length = i.lengths.predictions_length;
    normal_length = i.lengths.normal_length;
    intraday_length = i.lengths.intraday_length;
    tie_length = i.lengths.tie_length;
    random_length = i.lengths.random_length;
    status_length = i.lengths.status_length;
    eligible_length = i.lengths.eligible_length;
    marks_length = i.lengths.marks_length;
  };
  marks = i.marks;
  sorted = i.sorted;
  named = i.named;
  names_live = i.names_live;
})

pub aged-IsIndexed :
    (s : LivePredictionSessionState) → IsIndexed s → IsIndexed (advance_generation s)
unfolding advance_generation
aged-IsIndexed s i = same-IsIndexed s (advance_generation s) refl i

module _ (fl : FloatOps) where
  recompute-IsIndexed :
      (slots : List ℕ) (s : LivePredictionSessionState)
      → IsIndexed s
      → IsIndexed (recompute_eligibilities fl slots s)
  unfolding recompute_eligibilities
  recompute-IsIndexed [] s i = i
  recompute-IsIndexed (slot ∷ rest) s i =
      recompute-IsIndexed rest
        (record s { eligibilities = set s.eligibilities slot (calculate_eligibility fl s slot) })
        (eligible-IsIndexed s slot (calculate_eligibility fl s slot) i)

  pub advance_generation-IsSession :
      (s : LivePredictionSessionState) → IsSession fl s → IsSession fl (advance_generation s)
  unfolding advance_generation rebuild_order compare_slots rank_key applicable_target
  advance_generation-IsSession s h = record {
    indexed = same-IsIndexed s (advance_generation s) refl h.indexed;
    ranked = h.ranked;
  }

  pub set_retention_extra-IsSession :
      (s : LivePredictionSessionState) (extra : F64) (undo : Option LiveIndexUndoFrame)
      → IsSession fl s
      → IsSession fl (set_retention_extra fl s extra undo).1.0
  unfolding set_retention_extra recompute_all_eligibilities
  set_retention_extra-IsSession s extra undo h =
      elim (Result-cases (validate_retention_extra extra)) [
        | inl (e, f) ↦ rw (f, set_retention_extra) h
        | inr (u, f) ↦
            rw (f, set_retention_extra)
              (let t : LivePredictionSessionState = record s { retention_extra = extra } in
                let r = recompute_all_eligibilities fl t in
                advance_generation-IsSession (rebuild_order fl r) (
                  rebuild_order-IsSession fl r
                    (recompute-IsIndexed (all_slots t) t (same-IsIndexed s t refl h.indexed))))
      ]

  pub set_mode-IsSession :
      (s : LivePredictionSessionState) (mode : LivePredictionMode)
      → IsSession fl s
      → IsSession fl (set_mode s mode).1
  unfolding set_mode advance_generation rebuild_order compare_slots rank_key applicable_target
  set_mode-IsSession s mode h = record {
    indexed = same-IsIndexed s (set_mode s mode).1 refl h.indexed;
    ranked = h.ranked;
  }
