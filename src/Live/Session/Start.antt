-- ===== src/Live/Session/Start.antt =====
-- A new session is indexed, and in good order once it is sorted.
use rwkv_srs.Base.{
  [], ◌∷◌, ℕ, ◌≡◌, ok, false, Option-cases, arith, >>=-split, inl, subst, refl, ap, Result, inr,
  ok-ne-err, sym, List, Result-cases, ok-injective,
}
use rwkv_srs.Features.{FloatOps}
use rwkv_srs.Live.{
  LivePredictionSessionState, LiveCandidateValue, LiveOrder, LivePredictionMode, LiveError,
  duplicate_card, LiveCandidateSeedNative,
}
use rwkv_srs.Live.Candidate.{validate_target_time, candidate_value_from_seed}
use rwkv_srs.Live.New.{new_empty, empty_session, push_seed, push_seeds, new_unranked}
use rwkv_srs.Live.Order.{rebuild_order}
use rwkv_srs.Live.Session.{IsIndexed, IsSession}
use rwkv_srs.Live.Session.Append.{append_value-IsIndexed}
use rwkv_srs.Live.Session.Update.{rebuild_order-IsSession}
use rwkv_srs.Live.Session.Upsert.{from_seed-stays}
use rwkv_srs.Live.Slots.{push_value, append_value}
use rwkv_srs.Live.Status.{is_removed}
use rwkv_srs.Map.{get}
use rwkv_srs.Map.Laws.{none-ne-some}
use rwkv_srs.Review.{F64}

empty_session-IsIndexed :
    (token : ℕ) (timestamp day : F64) (order : LiveOrder) (mode : LivePredictionMode)
    (refresh_limit : ℕ)
    → IsIndexed (empty_session token timestamp day order mode refresh_limit)
unfolding get
empty_session-IsIndexed token timestamp day order mode refresh_limit = record {
  lengths = record {
    predictions_length = refl;
    normal_length = refl;
    intraday_length = refl;
    tie_length = refl;
    random_length = refl;
    status_length = refl;
    eligible_length = refl;
    marks_length = refl;
  };
  marks = (tt, omega arith);
  sorted = tt;
  named = λ slot h. absurd (ground arith);
  names_live = λ card_id slot h. absurd (none-ne-some slot h);
}

new_empty-IsIndexed :
    (token : ℕ) (timestamp day : F64) (order : LiveOrder) (mode : LivePredictionMode)
    (batch_size refresh_limit : ℕ) (s : LivePredictionSessionState)
    → new_empty token timestamp day order mode batch_size refresh_limit ≡ ok s
    → IsIndexed s
unfolding new_empty
new_empty-IsIndexed token timestamp day order mode batch_size refresh_limit s e =
    let (u, first, built) = >>=-split (validate_target_time timestamp day) _ e in
    let same : empty_session token timestamp day order mode refresh_limit ≡ s = ground arith in
    subst IsIndexed same (empty_session-IsIndexed token timestamp day order mode refresh_limit)

push_value-IsIndexed :
    (s t : LivePredictionSessionState) (v : LiveCandidateValue) (slot : ℕ)
    → IsIndexed s
    → is_removed v.status ≡ false
    → push_value s v ≡ (ok slot, t)
    → IsIndexed t
unfolding push_value
push_value-IsIndexed s t v slot i stays e =
    elim (Option-cases (get v.candidate.card_id s.slot_by_card_id)) [
      | inl f ↦
          let same : append_value s v ≡ t =
            ap (λ (r : Result LiveError ℕ × LivePredictionSessionState). r.1)
              (rw (f, push_value) at e) in
          subst IsIndexed same (append_value-IsIndexed s v i f stays)
      | inr (other, f) ↦ absurd (
          ok-ne-err slot (duplicate_card v.candidate.card_id) (
            sym (
              ap (λ (r : Result LiveError ℕ × LivePredictionSessionState). r.0)
                (rw (f, push_value) at e))))
    ]

push_seed-IsIndexed :
    (fl : FloatOps) (s : LivePredictionSessionState) (seed : LiveCandidateSeedNative)
    (timestamp day : F64) (slot : ℕ)
    → IsIndexed s
    → (push_seed fl s seed timestamp day).0 ≡ ok slot
    → IsIndexed (push_seed fl s seed timestamp day).1
unfolding push_seed
push_seed-IsIndexed fl s seed timestamp day slot i e =
    elim (Result-cases (candidate_value_from_seed fl seed timestamp day)) [
      | inl (failure, f) ↦ rw (f, push_seed) i
      | inr (v, f) ↦
          let pushed : (push_value s v).0 ≡ ok slot = rw (f, push_seed) at e in
          rw (f, push_seed)
            (push_value-IsIndexed s (push_value s v).1 v slot i
              (from_seed-stays fl seed timestamp day v f)
              (ap (λ outcome. (outcome, (push_value s v).1)) pushed))
    ]

push_seeds-IsIndexed :
    (fl : FloatOps) (seeds : List LiveCandidateSeedNative) (s t : LivePredictionSessionState)
    (timestamp day : F64)
    → IsIndexed s
    → push_seeds fl seeds s timestamp day ≡ ok t
    → IsIndexed t
unfolding push_seeds
push_seeds-IsIndexed fl [] s t timestamp day i e = subst IsIndexed (ok-injective e) i
push_seeds-IsIndexed fl (seed ∷ rest) s t timestamp day i e =
    elim (Result-cases (push_seed fl s seed timestamp day).0) [
      | inl (failure, f) ↦ absurd (ok-ne-err t failure (sym (rw (f, push_seeds) at e)))
      | inr (slot, f) ↦
          push_seeds-IsIndexed fl rest (push_seed fl s seed timestamp day).1 t timestamp day
            (push_seed-IsIndexed fl s seed timestamp day slot i f) (rw (f, push_seeds) at e)
    ]

-- A session that new_unranked builds from seeds is in good order once it is sorted.
pub new_unranked-IsSession :
    (fl : FloatOps) (token : ℕ) (seeds : List LiveCandidateSeedNative) (timestamp day : F64)
    (order : LiveOrder) (mode : LivePredictionMode) (batch_size refresh_limit : ℕ)
    (s : LivePredictionSessionState)
    → new_unranked fl token seeds timestamp day order mode batch_size refresh_limit ≡ ok s
    → IsSession fl (rebuild_order fl s)
unfolding new_unranked
new_unranked-IsSession fl token seeds timestamp day order mode batch_size refresh_limit s e =
    let (empty, first, pushed) =
      >>=-split (new_empty token timestamp day order mode batch_size refresh_limit) _ e in
    rebuild_order-IsSession fl s (
      push_seeds-IsIndexed fl seeds empty s timestamp day
        (new_empty-IsIndexed token timestamp day order mode batch_size refresh_limit empty first)
        pushed)
