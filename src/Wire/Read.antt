-- ===== src/Wire/Read.antt =====
-- The checked reads of a byte slice that the parsers share: `read_array`, `read_i64`, `read_f64`,
-- `read_finite_f64` and `read_maybe_id` of rust/rwkv-srs-cpu/src/model/process_payload.rs, of which
-- prediction_batch.rs has copies with messages of its own.
use rwkv_srs.Base.{
  ℕ, ◌+◌, ◌^◌, ℤ, pos, i64_of_bits, eqb_ℤ, List, length, Result, ok, err, ◌>>=◌, ok_or, ltb, ◌==◌,
  if◌then◌else◌,
}
use rwkv_srs.Bytes.{of_le_bytes, get_range}
use rwkv_srs.Review.{MaybeId, present, missing, F64, is_finite}

-- The fields that the messages name.
pub data Field : Type 0 where
  row_count review_id card_id note_id deck_id preset_id : Field
  day_offset elapsed_days elapsed_seconds rating duration state : Field

-- One constructor for each message.
pub data WireError : Type 0 where
  short_header unsupported_magic length_overflow : WireError
  length_mismatch : ℕ → ℕ → ℕ → WireError
  not_a_multiple : ℕ → WireError
  offset_overflow truncated invalid_width : Field → WireError
  invalid_presence : ℕ → Field → ℤ → WireError
  not_finite : ℕ → Field → WireError

-- `read_array::<8>`: the sum must fit `usize`, the range the slice, and the width the array.
unfoldable pub read_array : List ℕ → ℕ → Field → Result WireError (List ℕ)
read_array bytes offset field =
    if ltb (offset + 8) (2 ^ 64)
    then (do
      range ← ok_or (get_range bytes offset (offset + 8)) (truncated field)
      if length range == 8 then ok range else err (invalid_width field))
    else err (offset_overflow field)

unfoldable pub read_u64 : List ℕ → ℕ → Field → Result WireError ℕ
read_u64 bytes offset field = do word ← read_array bytes offset field; ok (of_le_bytes word)

unfoldable pub read_i64 : List ℕ → ℕ → Field → Result WireError ℤ
read_i64 bytes offset field = do
  word ← read_array bytes offset field
  ok (i64_of_bits (of_le_bytes word))

unfoldable pub read_f64 : List ℕ → ℕ → Field → Result WireError F64
read_f64 bytes offset field = do word ← read_array bytes offset field; ok (of_le_bytes word)

unfoldable pub read_finite_f64 : List ℕ → ℕ → ℕ → Field → Result WireError F64
read_finite_f64 bytes offset row field = do
  value ← read_f64 bytes offset field
  if is_finite value then ok value else err (not_finite row field)

unfoldable pub maybe_id : ℕ → Field → ℤ → ℤ → Result WireError MaybeId
maybe_id row field flag id =
    if eqb_ℤ flag (pos 0)
    then ok missing
    else (if eqb_ℤ flag (pos 1) then ok (present id) else err (invalid_presence row field flag))

-- The flag, then the identifier; the offset moves past both.
unfoldable pub read_maybe_id : List ℕ → ℕ → ℕ → Field → Result WireError (MaybeId × ℕ)
unfolding maybe_id
read_maybe_id bytes offset row field = do
  flag ← read_i64 bytes offset field
  id ← read_i64 bytes (offset + 8) field
  value ← maybe_id row field flag id
  ok (value, offset + 8 + 8)
