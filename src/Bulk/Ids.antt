-- ===== src/Bulk/Ids.antt =====
-- The identities that a prepared row holds are those of the input.
use rwkv_srs.State.Direct.{id_of}
use rwkv_srs.Bulk.{review_ids_from_prepared, prepared_i64}
use rwkv_srs.State.{
  ReviewIds, PreparedRow, row_get, normalized_review_ids, insert_all, row_insert, FeatureState,
  no_rating, no_duration, no_state, Submodule, submodule_name,
}
use rwkv_srs.State.Rows.{
  get_i64, as_i64, prepare_predict_row, add_same, process_row, prepare_process_row,
}
use rwkv_srs.Review.{ReviewInput, F64}
use rwkv_srs.Features.{FloatOps}
use rwkv_srs.State.{card, note, deck, preset}
use rwkv_srs.Base.{◌≡◌, refl, ok, ℤ, >>=-split, ok_or, subst, ok-injective}

-- The four identities of a row, read back.
pub record Reads (fl : FloatOps) (row : PreparedRow) (ids : ReviewIds) : Type 0 where
  pub card_read : get_i64 fl row "card_id" ≡ ok ids.0
  pub note_read : get_i64 fl row "note_id" ≡ ok ids.1
  pub deck_read : get_i64 fl row "deck_id" ≡ ok ids.2
  pub preset_read : get_i64 fl row "preset_id" ≡ ok ids.3

pub prepare_predict_row-Reads :
    (fl : FloatOps) (s : FeatureState) (input : ReviewInput)
    → Reads fl (prepare_predict_row fl s input) (normalized_review_ids input)
unfolding get_i64 row_get as_i64 prepare_predict_row insert_all row_insert add_same
    normalized_review_ids
prepare_predict_row-Reads fl s input = record {
  card_read = refl;
  note_read = refl;
  deck_read = refl;
  preset_read = refl;
}

pub process_row-Reads :
    (fl : FloatOps) (s : FeatureState) (input : ReviewInput) (rating : ℤ) (duration state : F64)
    → Reads fl (process_row fl s input rating duration state) (normalized_review_ids input)
unfolding get_i64 row_get as_i64 process_row insert_all row_insert add_same normalized_review_ids
process_row-Reads fl s input rating duration state = record {
  card_read = refl;
  note_read = refl;
  deck_read = refl;
  preset_read = refl;
}

pub prepare_process_row-Reads :
    (fl : FloatOps) (s : FeatureState) (input : ReviewInput) {row : PreparedRow}
    → prepare_process_row fl s input ≡ ok row
    → Reads fl row (normalized_review_ids input)
unfolding prepare_process_row
prepare_process_row-Reads fl s input e =
    let (rating, _, e1) = >>=-split (ok_or input.rating no_rating) _ e in
    let (duration, _, e2) = >>=-split (ok_or input.duration no_duration) _ e1 in
    let (state, _, e3) = >>=-split (ok_or input.state no_state) _ e2 in
    subst (λ row. Reads fl row (normalized_review_ids input)) (ok-injective e3)
      (process_row-Reads fl s input rating duration state)

-- The identities that the step returns.
pub review_ids_from_prepared-eq :
    (fl : FloatOps) (row : PreparedRow) (ids : ReviewIds)
    → Reads fl row ids
    → review_ids_from_prepared fl row ≡ ok ids
unfolding review_ids_from_prepared prepared_i64 get_i64
review_ids_from_prepared-eq fl row ids r =
    rw (r.card_read, r.note_read, r.deck_read, r.preset_read) refl

-- The identity of one submodule.
pub id_read :
    {fl : FloatOps} {row : PreparedRow} {ids : ReviewIds}
    → Reads fl row ids
    → (sub : Submodule) → get_i64 fl row (submodule_name sub) ≡ ok (id_of sub ids)
id_read r card = r.card_read
id_read r note = r.note_read
id_read r deck = r.deck_read
id_read r preset = r.preset_read
