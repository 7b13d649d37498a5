-- ===== src/Live/Session/Upsert.antt =====
-- Upserts and new candidates keep the invariant.
use rwkv_srs.Base.{
  none, some, [], ◌∷◌, List, Option, ◌≡◌, ok, false, >>=-split, ok-injective, Option-cases, inl,
  inr, Result-cases, Bool-cases, refl, ◌≢◌, err, arith, ok-ne-err, ap, ◌∙◌, err-injective, sym,
}
use rwkv_srs.Features.{FloatOps}
use rwkv_srs.Live.{
  excluded_pending_refresh, LiveCandidateValue, LivePredictionSessionState, LiveCandidateSeedNative,
  status_at, LiveError, panicked,
}
use rwkv_srs.Live.Candidate.{candidate_value_from_seed, from_seed}
use rwkv_srs.Live.Edit.{
  values_from_seeds, upsert_value, recorded, upsert_candidates, upsert_values, first_duplicate,
}
use rwkv_srs.Live.Session.{IsIndexed, IsSession}
use rwkv_srs.Live.Session.Append.{append_value-IsIndexed}
use rwkv_srs.Live.Session.Restore.{restore_value-IsIndexed}
use rwkv_srs.Live.Session.Retention.{aged-IsIndexed}
use rwkv_srs.Live.Session.Update.{rebuild_order-IsSession}
use rwkv_srs.Live.Slots.{advance_generation}
use rwkv_srs.Live.Status.{is_removed, is_excluded}
use rwkv_srs.Live.Undo.{LiveIndexUndoFrame, record_slot}
use rwkv_srs.Map.{get}
use rwkv_srs.Review.{F64}

abbrev AllStay : List LiveCandidateValue → Type 0
AllStay [] = Unit
AllStay (v ∷ rest) = (is_removed v.status ≡ false) × AllStay rest

pub from_seed-stays :
    (fl : FloatOps) (seed : LiveCandidateSeedNative) (timestamp day : F64) (v : LiveCandidateValue)
    → candidate_value_from_seed fl seed timestamp day ≡ ok v
    → is_removed v.status ≡ false
unfolding candidate_value_from_seed
from_seed-stays fl seed timestamp day v e =
    let (c, first, built) = >>=-split (from_seed fl seed timestamp day) _ e in
    rw (← ok-injective built) refl

values_from_seeds-AllStay :
    (fl : FloatOps) (seeds : List LiveCandidateSeedNative) (timestamp day : F64)
    (values : List LiveCandidateValue)
    → values_from_seeds fl seeds timestamp day ≡ ok values
    → AllStay values
unfolding values_from_seeds
values_from_seeds-AllStay fl [] timestamp day values e = rw (← ok-injective e, AllStay) tt
values_from_seeds-AllStay fl (seed ∷ seeds) timestamp day values e =
    let (v, first, after) = >>=-split (candidate_value_from_seed fl seed timestamp day) _ e in
    let (rest, others, built) = >>=-split (values_from_seeds fl seeds timestamp day) _ after in
    rw (← ok-injective built, AllStay)
      (
        from_seed-stays fl seed timestamp day v first,
        values_from_seeds-AllStay fl seeds timestamp day rest others,
      )

upsert_value-IsIndexed :
    (s : LivePredictionSessionState) (v : LiveCandidateValue) (undo : Option LiveIndexUndoFrame)
    → IsIndexed s
    → is_removed v.status ≡ false
    → IsIndexed (upsert_value s v undo).1.0
unfolding upsert_value
upsert_value-IsIndexed s v undo i stays =
    elim (Option-cases (get v.candidate.card_id s.slot_by_card_id)) [
      | inl e ↦ rw (e, upsert_value) (append_value-IsIndexed s v i e stays)
      | inr (slot, e) ↦ elim (Result-cases (recorded undo s slot)) [
        | inl (failure, f) ↦ rw (e, f, upsert_value) i
        | inr (after, f) ↦ elim (Bool-cases (is_excluded (status_at s slot))) [
          | inl g ↦
              rw (e, f, g, upsert_value)
                (restore_value-IsIndexed s slot (record v { status = excluded_pending_refresh }) i e
                  refl)
          | inr g ↦ rw (e, f, g, upsert_value) (restore_value-IsIndexed s slot v i e stays)
        ]
      ]
    ]

upsert_values-IsIndexed :
    (values : List LiveCandidateValue) (s : LivePredictionSessionState)
    (undo : Option LiveIndexUndoFrame)
    → IsIndexed s
    → AllStay values
    → IsIndexed (upsert_values values s undo).1.0
unfolding upsert_values
upsert_values-IsIndexed [] s undo i all = i
upsert_values-IsIndexed (v ∷ rest) s undo i (stays, all) =
    let next = (upsert_value s v undo).1.0 in
    let after = (upsert_value s v undo).1.1 in
    let indexed = upsert_value-IsIndexed s v undo i stays in
    elim (Result-cases (upsert_value s v undo).0) [
      | inl (failure, e) ↦ rw (e, upsert_values) indexed
      | inr (u, e) ↦ rw (e, upsert_values) (upsert_values-IsIndexed rest next after indexed all)
    ]

upsert_value-panics :
    (s : LivePredictionSessionState) (v : LiveCandidateValue) (undo : Option LiveIndexUndoFrame)
    (failure : LiveError)
    → (upsert_value s v undo).0 ≡ err failure
    → failure ≡ panicked
unfolding upsert_value recorded
upsert_value-panics s v none failure e =
    ground (arith, Option-cases (get v.candidate.card_id s.slot_by_card_id))
upsert_value-panics s v (some frame) failure e =
    elim (Option-cases (get v.candidate.card_id s.slot_by_card_id)) [
      | inl f ↦ absurd (ok-ne-err tt failure (rw (f, upsert_value) at e))
      | inr (slot, f) ↦ elim (Option-cases (record_slot frame s slot)) [
        | inl g ↦ err-injective (sym (rw (f, g, upsert_value, recorded) at e))
        | inr (after, g) ↦ absurd (ok-ne-err tt failure (rw (f, g, upsert_value, recorded) at e))
      ]
    ]

upsert_values-panics :
    (values : List LiveCandidateValue) (s : LivePredictionSessionState)
    (undo : Option LiveIndexUndoFrame) (failure : LiveError)
    → (upsert_values values s undo).0 ≡ err failure
    → failure ≡ panicked
unfolding upsert_values
upsert_values-panics [] s undo failure e = absurd (ok-ne-err tt failure e)
upsert_values-panics (v ∷ rest) s undo failure e = elim (Result-cases (upsert_value s v undo).0) [
  | inl (other, f) ↦ upsert_value-panics s v undo failure (f ∙ rw (f, upsert_values) at e)
  | inr (u, f) ↦
      upsert_values-panics rest (upsert_value s v undo).1.0 (upsert_value s v undo).1.1 failure
        (rw (f, upsert_values) at e)
]

-- An upsert that does not panic gives a session in rank order, or the session as it was.
pub upsert_candidates-IsSession :
    (fl : FloatOps) (s : LivePredictionSessionState) (seeds : List LiveCandidateSeedNative)
    (undo : Option LiveIndexUndoFrame)
    → IsSession fl s
    → (upsert_candidates fl s seeds undo).0 ≢ err panicked
    → IsSession fl (upsert_candidates fl s seeds undo).1.0
unfolding upsert_candidates
upsert_candidates-IsSession fl s seeds undo h runs =
    elim (Option-cases (first_duplicate seeds [])) [
      | inr (card_id, f) ↦ rw (f, upsert_candidates) h
      | inl f ↦
          elim (Result-cases
            (values_from_seeds fl seeds s.target_timestamp_seconds s.target_day_offset)) [
              | inl (failure, g) ↦ rw (f, g, upsert_candidates) h
              | inr (values, g) ↦ elim (Result-cases (upsert_values values s undo).0) [
                | inl (failure, k) ↦ absurd (
                    runs (
                      rw (f, g, k, upsert_candidates)
                        (ap err (upsert_values-panics values s undo failure k))))
                | inr (u, k) ↦
                    rw (f, g, k, upsert_candidates)
                      (rebuild_order-IsSession fl
                        (advance_generation (upsert_values values s undo).1.0)
                        (aged-IsIndexed (upsert_values values s undo).1.0 (
                          upsert_values-IsIndexed values s undo h.indexed (
                            values_from_seeds-AllStay fl seeds s.target_timestamp_seconds
                              s.target_day_offset values g))))
              ]
            ]
    ]
