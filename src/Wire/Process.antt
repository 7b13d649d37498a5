-- ===== src/Wire/Process.antt =====
-- The process review payload: a header with magic and row count, then rows of 112 bytes
-- (rust/rwkv-srs-cpu/src/model/process_payload.rs).
use rwkv_srs.Base.{
  ℕ, zero, suc, ◌+◌, ◌*◌, ◌/◌, ◌%◌, ◌^◌, ℤ, pos, bits_of_i64, List, [], ◌∷◌, ◌++◌, length, take,
  drop, Option, none, some, Result, ok, err, ◌>>=◌, ltb, ◌==◌, ◌&&◌, if◌then◌else◌, Bool, true,
  false, not,
}
use rwkv_srs.Bytes.{le_bytes}
use rwkv_srs.Review.{MaybeId, present, missing, F64, ReviewInput}
use rwkv_srs.Wire.Read.{
  Field, WireError, short_header, unsupported_magic, length_overflow, length_mismatch,
  not_a_multiple, read_u64, read_i64, read_maybe_id, read_finite_f64,
}

abbrev pub header_len : ℕ
header_len = 16

abbrev pub record_len : ℕ
record_len = 112

-- b"RWSRSP01"
abbrev pub magic : List ℕ
magic = b'R' ∷ b'W' ∷ b'S' ∷ b'R' ∷ b'S' ∷ b'P' ∷ b'0' ∷ b'1' ∷ []

-- `==` on byte slices
unfoldable pub bytes_eq : List ℕ → List ℕ → Bool
bytes_eq [] [] = true
bytes_eq [] (b ∷ bs) = false
bytes_eq (a ∷ cs) [] = false
bytes_eq (a ∷ cs) (b ∷ bs) = a == b && bytes_eq cs bs

-- One row from `offset` on, with the offset behind it.
unfoldable pub parse_process_row : List ℕ → ℕ → ℕ → Result WireError (ReviewInput × ℕ)
parse_process_row records offset row_index = do
  review_id ← read_i64 records offset Field.review_id
  card_id ← read_i64 records (offset + 8) Field.card_id
  (note_id, at_deck) ← read_maybe_id records (offset + 8 + 8) row_index Field.note_id
  (deck_id, at_preset) ← read_maybe_id records at_deck row_index Field.deck_id
  (preset_id, at_day) ← read_maybe_id records at_preset row_index Field.preset_id
  day_offset ← read_finite_f64 records at_day row_index Field.day_offset
  elapsed_days ← read_finite_f64 records (at_day + 8) row_index Field.elapsed_days
  elapsed_seconds ← read_finite_f64 records (at_day + 8 + 8) row_index Field.elapsed_seconds
  rating ← read_i64 records (at_day + 8 + 8 + 8) Field.rating
  duration ← read_finite_f64 records (at_day + 8 + 8 + 8 + 8) row_index Field.duration
  state ← read_finite_f64 records (at_day + 8 + 8 + 8 + 8 + 8) row_index Field.state
  ok (
    record {
      review_id = review_id;
      card_id = card_id;
      note_id = note_id;
      deck_id = deck_id;
      preset_id = preset_id;
      day_offset = day_offset;
      elapsed_days = elapsed_days;
      elapsed_seconds = elapsed_seconds;
      rating = some rating;
      duration = some duration;
      state = some state;
    },
    at_day + 8 + 8 + 8 + 8 + 8 + 8,
  )

-- The loop of `parse_process_review_records`, with `left` rows to go.
unfoldable pub parse_rows : List ℕ → ℕ → ℕ → ℕ → Result WireError (List ReviewInput)
parse_rows records zero row_index offset = ok []
parse_rows records (suc left) row_index offset = do
  (row, next) ← parse_process_row records offset row_index
  rows ← parse_rows records left (row_index + 1) next
  ok (row ∷ rows)

unfoldable pub parse_process_review_records : List ℕ → ℕ → Result WireError (List ReviewInput)
unfolding parse_rows
parse_process_review_records records row_count = parse_rows records row_count 0 0

-- The two checked operations that give the expected length.
unfoldable pub expected_len : ℕ → Result WireError ℕ
expected_len row_count =
    if ltb (row_count * record_len) (2 ^ 64) && ltb (header_len + row_count * record_len) (2 ^ 64)
    then ok (header_len + row_count * record_len)
    else err length_overflow

unfoldable pub parse_process_review_payload : List ℕ → Result WireError (List ReviewInput)
unfolding parse_process_review_records expected_len bytes_eq
parse_process_review_payload payload =
    if ltb (length payload) header_len
    then err short_header
    else (if not (bytes_eq (take 8 payload) magic) then err unsupported_magic else (do
      row_count ← read_u64 payload 8 Field.row_count
      expected ← expected_len row_count
      if length payload == expected
          then parse_process_review_records (drop header_len payload) row_count
          else err (length_mismatch expected row_count (length payload))))

unfoldable pub parse_process_review_record_buffer : List ℕ → Result WireError (List ReviewInput)
unfolding parse_process_review_records
parse_process_review_record_buffer records =
    if length records % record_len == 0
    then parse_process_review_records records (length records / record_len)
    else err (not_a_multiple (length records))

i64_bytes : ℤ → List ℕ
i64_bytes z = le_bytes 8 (bits_of_i64 z)

unfoldable pub append_maybe_id : List ℕ → MaybeId → List ℕ
unfolding i64_bytes
append_maybe_id payload (present id) = payload ++ (i64_bytes (pos 1) ++ i64_bytes id)
append_maybe_id payload missing = payload ++ (i64_bytes (pos 0) ++ i64_bytes (pos 0))

-- The last three fields, which `expect` takes for present.
pack_outcome : List ℕ → Option ℤ → Option F64 → Option F64 → Option (List ℕ)
unfolding i64_bytes
pack_outcome payload (some rating) (some duration) (some state) =
    some (payload ++ (i64_bytes rating ++ (le_bytes 8 duration ++ le_bytes 8 state)))
pack_outcome payload _ _ _ = none

-- The body of the loop of `pack_process_review_payload`; `none` is a panic.
unfoldable pub pack_row : List ℕ → ReviewInput → Option (List ℕ)
unfolding append_maybe_id pack_outcome
pack_row payload r =
    let ids = payload ++ (i64_bytes r.review_id ++ i64_bytes r.card_id) in
    let noted = append_maybe_id ids r.note_id in
    let decked = append_maybe_id noted r.deck_id in
    let preset = append_maybe_id decked r.preset_id in
    let days = le_bytes 8 r.elapsed_days ++ le_bytes 8 r.elapsed_seconds in
    pack_outcome (preset ++ (le_bytes 8 r.day_offset ++ days)) r.rating r.duration r.state

unfoldable pub pack_rows : List ℕ → List ReviewInput → Option (List ℕ)
unfolding pack_row
pack_rows payload [] = some payload
pack_rows payload (r ∷ rows) = elim (pack_row payload r) [
  | none ↦ none
  | some longer ↦ pack_rows longer rows
]

-- `inputs.len() as u64` loses nothing: a length fits 64 bits.
unfoldable pub pack_process_review_payload : List ReviewInput → Option (List ℕ)
unfolding pack_rows
pack_process_review_payload inputs = pack_rows (magic ++ le_bytes 8 (length inputs % 2 ^ 64)) inputs
