-- ===== src/Tests/Batches.antt =====
-- Runs and instances of prediction batches.
use rwkv_srs.Base.{
  i64_of_bits, refl, [], ◌∷◌, ok, err, Result, List, ℕ, ◌*◌, length, ◌≡◌, replicate, if◌then◌else◌,
  some, leb, ◌&&◌, take, ◌-◌, drop,
}
use rwkv_srs.Bytes.{get_range, of_le_bytes}
use rwkv_srs.Review.{is_finite, ReviewInput}
use rwkv_srs.Tests.{sample_input}
use rwkv_srs.Wire.Prediction.{
  parse_prediction_rows, parse_prediction_row, NativePredictionBatch,
  parse_prediction_record_buffer, batch_inputs, from_inputs, outside,
}
use rwkv_srs.Wire.Prediction.Rows.{AllQuery, parse_prediction_record_buffer-AllQuery}
use rwkv_srs.Wire.Prediction.Views.{sliced_rows, sliced_rows-take}
use rwkv_srs.Wire.Read.{read_i64, read_array, read_maybe_id, read_finite_f64, read_f64, WireError}

abbrev buffer : List ℕ
buffer = replicate 176 0

abbrev rows_of : Result WireError (List ReviewInput) → List ReviewInput
rows_of (ok rows) = rows
rows_of (err e) = []

abbrev rows : List ReviewInput
rows = rows_of (parse_prediction_record_buffer buffer)

buffer-ok : parse_prediction_record_buffer buffer ≡ ok rows
unfolding parse_prediction_record_buffer parse_prediction_rows parse_prediction_row read_i64
    read_array get_range read_maybe_id i64_of_bits of_le_bytes read_finite_f64 read_f64 is_finite
buffer-ok = refl

parse_prediction_record_buffer-AllQuery_example : AllQuery rows × (88 * length rows ≡ length buffer)
parse_prediction_record_buffer-AllQuery_example =
    parse_prediction_record_buffer-AllQuery buffer rows buffer-ok

two_rows : length rows ≡ 2
unfolding parse_prediction_record_buffer parse_prediction_rows parse_prediction_row read_i64
    read_array get_range read_maybe_id i64_of_bits of_le_bytes read_finite_f64 read_f64 is_finite
two_rows = refl

abbrev batch : NativePredictionBatch
batch = from_inputs (sample_input ∷ sample_input ∷ sample_input ∷ [])

batch-rows : batch_inputs batch ≡ some (sample_input ∷ sample_input ∷ sample_input ∷ [])
unfolding batch_inputs from_inputs
batch-rows = refl

sliced_rows-take_example : sliced_rows batch 1 3 ≡ (
    if leb 1 3 && leb 3 3
    then ok (some (take (3 - 1) (drop 1 (sample_input ∷ sample_input ∷ sample_input ∷ []))))
    else err (outside 1 3 3))
sliced_rows-take_example =
    sliced_rows-take batch (sample_input ∷ sample_input ∷ sample_input ∷ []) 1 3 batch-rows
