-- ===== src/Bulk/Rollback.antt =====
-- A batch whose rows do not all succeed, or whose run fails later, leaves the feature state as it was.
use rwkv_srs.Undo.Recurrent.{insert_ids-Covers, keys-insert_self}
use rwkv_srs.Bulk.Covered.{feature_prepass_step-StateTouches}
use rwkv_srs.Undo.Restores.{identities, restore-capture_identities}
use rwkv_srs.Undo.Process.{Covers}
use rwkv_srs.Review.{ReviewInput}
use rwkv_srs.State.{FeatureState, normalized_review_ids}
use rwkv_srs.Bulk.{
  run_transaction, feature_prepass, begin, normalized_review_ids, commit, drop_transaction,
  feature_prepass_step, capture_deterministic, restore_deterministic,
}
use rwkv_srs.Features.{FloatOps}
use rwkv_srs.Undo.Touch.{Identities, IsSortedState, StateTouches, StateTouches-refl}
use rwkv_srs.Undo.Batch.{
  insert_ids, BatchIdentitySets, from_ids, capture_deterministic, restore_deterministic,
}
use rwkv_srs.Base.{
  ◌≡◌, refl, List, [], ◌∷◌, map, Bool, true, false, inl, inr, Result-cases, if◌then◌else◌, is_ok,
  ◌&&◌,
}

abbrev AllCovered : Identities → List ReviewInput → Type 0
AllCovered k [] = Unit
AllCovered k (input ∷ inputs) = Covers k (normalized_review_ids input) × AllCovered k inputs

insert_ids-AllCovered :
    (inputs : List ReviewInput) (b : BatchIdentitySets)
    → AllCovered (identities (insert_ids b (map normalized_review_ids inputs))) inputs
unfolding insert_ids
insert_ids-AllCovered [] b = tt
insert_ids-AllCovered (input ∷ inputs) b =
    let ids = normalized_review_ids input in
    (
      insert_ids-Covers (map normalized_review_ids inputs) _ ids (record {
        on_cards = keys-insert_self ids.0 b.card_ids;
        on_notes = keys-insert_self ids.1 b.note_ids;
        on_decks = keys-insert_self ids.2 b.deck_ids;
        on_presets = keys-insert_self ids.3 b.preset_ids;
      }),
      insert_ids-AllCovered inputs _,
    )

module _ (fl : FloatOps) where
  feature_prepass-StateTouches :
      (k : Identities) (s0 s : FeatureState) (inputs : List ReviewInput)
      → AllCovered k inputs
      → StateTouches k s0 s
      → StateTouches k s0 (feature_prepass fl s inputs).1
  unfolding feature_prepass
  feature_prepass-StateTouches k s0 s [] c p = p
  feature_prepass-StateTouches k s0 s (input ∷ inputs) (c, cs) p =
      let q = feature_prepass_step-StateTouches fl k s0 _ c input refl s p in
      let rest =
        feature_prepass-StateTouches k s0 (feature_prepass_step fl s input).1 inputs cs q in
      elim (Result-cases (feature_prepass_step fl s input).0) [
        | inl (e, f) ↦ rw (f, feature_prepass) q
        | inr (step, f) ↦
            elim (Result-cases (feature_prepass fl (feature_prepass_step fl s input).1 inputs).0) [
              | inl (e, g) ↦ rw (f, g, feature_prepass) rest
              | inr (steps, g) ↦ rw (f, g, feature_prepass) rest
            ]
      ]

  batch-StateTouches :
      (s : FeatureState) (inputs : List ReviewInput)
      → IsSortedState s
      → StateTouches
          (identities (from_ids (map normalized_review_ids inputs)))
          s
          (feature_prepass fl s inputs).1
  unfolding from_ids
  batch-StateTouches s inputs h =
      feature_prepass-StateTouches _ s s inputs (insert_ids-AllCovered inputs _)
        (StateTouches-refl _ s h)

  -- The journal of the batch undoes the pass.
  batch_undone :
      (s : FeatureState) (inputs : List ReviewInput)
      → IsSortedState s
      → restore_deterministic
          (capture_deterministic s (map normalized_review_ids inputs))
          (feature_prepass fl s inputs).1
        ≡ s
  unfolding capture_deterministic
  batch_undone s inputs h =
      restore-capture_identities (from_ids (map normalized_review_ids inputs)) s
        (feature_prepass fl s inputs).1 h (batch-StateTouches s inputs h)

  -- Over a state with sorted maps, the transaction of a batch is atomic. If every row succeeds and
  -- the rest of the run does too, the state is the one that the rows leave, and otherwise it is the
  -- state from before the batch, in every field.
  pub run_transaction-atomic :
      (s : FeatureState) (inputs : List ReviewInput) (rest_succeeds : Bool)
      → IsSortedState s
      → (run_transaction fl s inputs rest_succeeds).1 ≡ (
          if is_ok (feature_prepass fl s inputs).0 && rest_succeeds
          then (feature_prepass fl s inputs).1
          else s)
  unfolding run_transaction begin commit drop_transaction
  run_transaction-atomic s inputs true h = elim (Result-cases (feature_prepass fl s inputs).0) [
    | inl (e, f) ↦ rw (f, run_transaction, drop_transaction, is_ok) (batch_undone s inputs h)
    | inr (steps, f) ↦ rw (f, run_transaction, drop_transaction, is_ok) refl
  ]
  run_transaction-atomic s inputs false h = elim (Result-cases (feature_prepass fl s inputs).0) [
    | inl (e, f) ↦ rw (f, run_transaction, drop_transaction, is_ok) (batch_undone s inputs h)
    | inr (steps, f) ↦ rw (f, run_transaction, drop_transaction, is_ok) (batch_undone s inputs h)
  ]
