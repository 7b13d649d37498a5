-- ===== src/Wire/Prediction/Rows.antt =====
-- What the parser of prediction records accepts.
use rwkv_srs.Base.{
  zero, suc, ap, refl, subst, none, [], ◌∷◌, true, ok, inl, inr, List, ℕ, ◌≡◌, >>=-split,
  Bool-cases, ok-injective, ok-ne-err, length, ◌*◌, ◌%◌, sym, ◌+◌, ◌==◌, ◌/◌, arith,
}
use rwkv_srs.Review.{ReviewInput, is_finite, F64}
use rwkv_srs.Wire.Prediction.{
  parse_prediction_row, parse_prediction_record_buffer, parse_prediction_rows,
}
use rwkv_srs.Wire.Read.{
  read_i64, read_maybe_id, not_a_multiple, read_finite_f64, Field, read_f64, not_finite,
}

-- The numbers of a row to predict are finite, and it has no outcome.
pub record IsQuery (r : ReviewInput) : Type 0 where
  pub day : is_finite r.day_offset ≡ true
  pub days : is_finite r.elapsed_days ≡ true
  pub seconds : is_finite r.elapsed_seconds ≡ true
  pub no_rating : r.rating ≡ none
  pub no_duration : r.duration ≡ none
  pub no_state : r.state ≡ none

abbrev pub AllQuery : List ReviewInput → Type 0
AllQuery [] = Unit
AllQuery (r ∷ rest) = IsQuery r × AllQuery rest

read_finite_f64-finite :
    (bytes : List ℕ) (offset row : ℕ) (field : Field) (value : F64)
    → read_finite_f64 bytes offset row field ≡ ok value
    → is_finite value ≡ true
unfolding read_finite_f64
read_finite_f64-finite bytes offset row field value e =
    let (word, first, rest) = >>=-split (read_f64 bytes offset field) _ e in
    elim (Bool-cases (is_finite word)) [
      | inl f ↦ let same : word ≡ value = ok-injective (rw f at rest) in rw (← same) f
      | inr f ↦ absurd (ok-ne-err value (not_finite row field) (sym (rw f at rest)))
    ]

parse_prediction_row-IsQuery :
    (records : List ℕ) (offset row_index : ℕ) (parsed : ReviewInput × ℕ)
    → parse_prediction_row records offset row_index ≡ ok parsed
    → IsQuery parsed.0
unfolding parse_prediction_row
parse_prediction_row-IsQuery records offset row_index parsed e =
    let (review_id, e1, r1) = >>=-split (read_i64 records offset Field.review_id) _ e in
    let (card_id, e2, r2) = >>=-split (read_i64 records (offset + 8) Field.card_id) _ r1 in
    let (note, e3, r3) =
      >>=-split (read_maybe_id records (offset + 8 + 8) row_index Field.note_id) _ r2 in
    let (deck, e4, r4) = >>=-split (read_maybe_id records note.1 row_index Field.deck_id) _ r3 in
    let (preset, e5, r5) =
      >>=-split (read_maybe_id records deck.1 row_index Field.preset_id) _ r4 in
    let at = preset.1 in
    let (day, e6, r6) = >>=-split (read_finite_f64 records at row_index Field.day_offset) _ r5 in
    let (days, e7, r7) =
      >>=-split (read_finite_f64 records (at + 8) row_index Field.elapsed_days) _ r6 in
    let (seconds, e8, r8) =
      >>=-split (read_finite_f64 records (at + 8 + 8) row_index Field.elapsed_seconds) _ r7 in
    subst (λ (p : ReviewInput × ℕ). IsQuery p.0) (ok-injective r8)
      (record {
        day = read_finite_f64-finite records at row_index Field.day_offset day e6;
        days = read_finite_f64-finite records (at + 8) row_index Field.elapsed_days days e7;
        seconds =
            read_finite_f64-finite records (at + 8 + 8) row_index Field.elapsed_seconds seconds e8;
        no_rating = refl;
        no_duration = refl;
        no_state = refl;
      })

parse_prediction_rows-AllQuery :
    (records : List ℕ) (left row_index offset : ℕ) (rows : List ReviewInput)
    → parse_prediction_rows records left row_index offset ≡ ok rows
    → AllQuery rows × (length rows ≡ left)
unfolding parse_prediction_rows
parse_prediction_rows-AllQuery records zero row_index offset rows e =
    subst (λ (l : List ReviewInput). AllQuery l × (length l ≡ 0)) (ok-injective e) (tt, refl)
parse_prediction_rows-AllQuery records (suc left) row_index offset rows e =
    let (parsed, e1, r1) = >>=-split (parse_prediction_row records offset row_index) _ e in
    let (rest, e2, r2) =
      >>=-split (parse_prediction_rows records left (row_index + 1) parsed.1) _ r1 in
    let ih = parse_prediction_rows-AllQuery records left (row_index + 1) parsed.1 rest e2 in
    subst (λ (l : List ReviewInput). AllQuery l × (length l ≡ suc left)) (ok-injective r2)
      ((parse_prediction_row-IsQuery records offset row_index parsed e1, ih.0), ap suc ih.1)

-- A buffer that the parser accepts holds one row for every 88 bytes, and each row is one to predict:
-- finite numbers and no outcome.
pub parse_prediction_record_buffer-AllQuery :
    (records : List ℕ) (rows : List ReviewInput)
    → parse_prediction_record_buffer records ≡ ok rows
    → AllQuery rows × (88 * length rows ≡ length records)
unfolding parse_prediction_record_buffer
parse_prediction_record_buffer-AllQuery records rows e =
    elim (Bool-cases (length records % 88 == 0)) [
      | inl whole ↦
          let parsed =
            parse_prediction_rows-AllQuery records (length records / 88) 0 0 rows
              (rw (whole, parse_prediction_record_buffer) at e) in
          (parsed.0, ground (arith, parsed))
      | inr broken ↦ absurd (
          ok-ne-err rows (not_a_multiple (length records))
            (sym (rw (broken, parse_prediction_record_buffer) at e)))
    ]
