-- ===== src/Wire/Prediction.antt =====
-- Batches of predictions: NativePredictionBatch and the parser of its records of 88 bytes
-- (rust/rwkv-srs-cpu/src/model/prediction_batch.rs).
pub mod Views
pub mod Rows
use rwkv_srs.Base.{
  ℕ, zero, suc, ◌+◌, ◌-◌, ◌/◌, ◌%◌, leb, ◌==◌, ◌&&◌, List, [], ◌∷◌, length, take, drop, Option,
  none, some, Result, ok, err, ◌>>=◌, if◌then◌else◌,
}
use rwkv_srs.Review.{ReviewInput}
use rwkv_srs.Wire.Read.{Field, WireError, not_a_multiple, read_i64, read_maybe_id, read_finite_f64}

abbrev pub prediction_record_len : ℕ
prediction_record_len = 88

pub record NativePredictionBatch : Type 0 where
  pub inputs : List ReviewInput
  pub start : ℕ
  pub end : ℕ

-- `slice` refuses a range outside the rows; `panicked` is a batch whose own range is outside.
pub data SliceError : Type 0 where
  outside : ℕ → ℕ → ℕ → SliceError
  panicked : SliceError

-- `&self.inputs[self.start..self.end]`
unfoldable pub batch_inputs : NativePredictionBatch → Option (List ReviewInput)
batch_inputs b =
    if leb b.start b.end && leb b.end (length b.inputs)
    then some (take (b.end - b.start) (drop b.start b.inputs))
    else none

unfoldable pub from_inputs : List ReviewInput → NativePredictionBatch
from_inputs rows = record { inputs = rows; start = 0; end = length rows }

unfoldable pub slice : NativePredictionBatch → ℕ → ℕ → Result SliceError NativePredictionBatch
slice b first last = elim (batch_inputs b) [
  | none ↦ err panicked
  | some rows ↦
      if leb first last && leb last (length rows)
      then ok (record { inputs = b.inputs; start = b.start + first; end = b.start + last })
      else err (outside first last (length rows))
]

-- One row from `offset` on, with the offset behind it.
unfoldable pub parse_prediction_row : List ℕ → ℕ → ℕ → Result WireError (ReviewInput × ℕ)
parse_prediction_row records offset row_index = do
  review_id ← read_i64 records offset Field.review_id
  card_id ← read_i64 records (offset + 8) Field.card_id
  (note_id, at_deck) ← read_maybe_id records (offset + 8 + 8) row_index Field.note_id
  (deck_id, at_preset) ← read_maybe_id records at_deck row_index Field.deck_id
  (preset_id, at_day) ← read_maybe_id records at_preset row_index Field.preset_id
  day_offset ← read_finite_f64 records at_day row_index Field.day_offset
  elapsed_days ← read_finite_f64 records (at_day + 8) row_index Field.elapsed_days
  elapsed_seconds ← read_finite_f64 records (at_day + 8 + 8) row_index Field.elapsed_seconds
  ok (
    record {
      review_id = review_id;
      card_id = card_id;
      note_id = note_id;
      deck_id = deck_id;
      preset_id = preset_id;
      day_offset = day_offset;
      elapsed_days = elapsed_days;
      elapsed_seconds = elapsed_seconds;
      rating = none;
      duration = none;
      state = none;
    },
    at_day + 8 + 8 + 8,
  )

-- The loop over the rows, with `left` to go.
unfoldable pub parse_prediction_rows : List ℕ → ℕ → ℕ → ℕ → Result WireError (List ReviewInput)
parse_prediction_rows records zero row_index offset = ok []
parse_prediction_rows records (suc left) row_index offset = do
  (row, next) ← parse_prediction_row records offset row_index
  rows ← parse_prediction_rows records left (row_index + 1) next
  ok (row ∷ rows)

unfoldable pub parse_prediction_record_buffer : List ℕ → Result WireError (List ReviewInput)
parse_prediction_record_buffer records =
    if length records % 88 == 0
    then parse_prediction_rows records (length records / 88) 0 0
    else err (not_a_multiple (length records))
