-- ===== src/Wire/RoundTrip.antt =====
-- Reading back a packed process payload.
use rwkv_srs.Bytes.{le_bytes}
use rwkv_srs.Base.{
  ℕ, ◌+◌, ◌^◌, ◌<◌, bits_of_i64, List, [], ◌∷◌, ◌++◌, length, some, ok, ◌≡◌, refl, ap, append_assoc,
  ◌*◌, arith, ◌%◌, ltb, false, ◌==◌, true, drop,
}
use rwkv_srs.Bytes.Laws.{At, length-le_bytes, drop-append}
use rwkv_srs.Review.{ReviewInput}
use rwkv_srs.Wire.Read.{Field, read_u64}
use rwkv_srs.Wire.Layout.{
  word, At-word, At-id_words, read_i64-At, read_finite_f64-At, read_maybe_id-At, read_u64-At,
}
use rwkv_srs.Wire.Packed.{
  IsProcessRow, AllProcess, row_words, rows_words, completed-eq, pack_rows_lem, length-rows_words,
  length-word,
}
use rwkv_srs.Wire.Process.{
  parse_process_row, parse_rows, parse_process_review_payload, pack_process_review_payload, magic,
  parse_process_review_records, header_len, expected_len, record_len,
}

module _ (bytes : List ℕ) (small : length bytes < 2 ^ 64) where
  -- The parser of one row reads the row back, and stops behind it.
  parse_process_row-At :
      (o row_index : ℕ) (r : ReviewInput) (rest : List ℕ) (h : IsProcessRow r)
      → At bytes o (row_words r h.rating h.duration h.state rest)
      → (next : ℕ) × (parse_process_row bytes o row_index ≡ ok (r, next)) × At bytes next rest
  unfolding parse_process_row
  parse_process_row-At o row_index r rest h p =
      let p1 = At-word bytes small o _ _ p in
      let p2 = At-word bytes small _ _ _ p1 in
      let p3 = At-id_words bytes small _ r.note_id _ p2 in
      let p4 = At-id_words bytes small _ r.deck_id _ p3 in
      let p5 = At-id_words bytes small _ r.preset_id _ p4 in
      let p6 = At-word bytes small _ r.day_offset _ p5 in
      let p7 = At-word bytes small _ r.elapsed_days _ p6 in
      let p8 = At-word bytes small _ r.elapsed_seconds _ p7 in
      let p9 = At-word bytes small _ (bits_of_i64 h.rating) _ p8 in
      let p10 = At-word bytes small _ h.duration _ p9 in
      let p11 = At-word bytes small _ h.state rest p10 in
      (
        _,
        rw
            (
              read_i64-At bytes small o r.review_id _ Field.review_id h.base.review p,
              read_i64-At bytes small _ r.card_id _ Field.card_id h.base.card p1,
              read_maybe_id-At bytes small _ r.note_id _ row_index Field.note_id h.base.note p2,
              read_maybe_id-At bytes small _ r.deck_id _ row_index Field.deck_id h.base.deck p3,
              read_maybe_id-At bytes small _ r.preset_id _ row_index Field.preset_id h.base.preset
                  p4,
              read_finite_f64-At bytes small _ r.day_offset _ row_index Field.day_offset h.base.day
                  p5,
              read_finite_f64-At bytes small _ r.elapsed_days _ row_index Field.elapsed_days
                  h.base.days p6,
              read_finite_f64-At bytes small _ r.elapsed_seconds _ row_index Field.elapsed_seconds
                  h.base.seconds p7,
              read_i64-At bytes small _ h.rating _ Field.rating h.rating_fits p8,
              read_finite_f64-At bytes small _ h.duration _ row_index Field.duration
                  h.duration_finite p9,
              read_finite_f64-At bytes small _ h.state rest row_index Field.state h.state_finite
                  p10,
            )
            (λ i.
              ok (completed-eq r h i, o + 8 + 8 + 8 + 8 + 8 + 8 + 8 + 8 + 8 + 8 + 8 + 8 + 8 + 8)),
        p11,
      )

  parse_rows-At :
      (rows : List ReviewInput) (h : AllProcess rows) (row_index o : ℕ)
      → At bytes o (rows_words rows h)
      → parse_rows bytes (length rows) row_index o ≡ ok rows
  unfolding parse_rows rows_words
  parse_rows-At [] h row_index o p = refl
  parse_rows-At (r ∷ rows) (h, t) row_index o p =
      let (next, e, q) = parse_process_row-At o row_index r (rows_words rows t) h p in
      rw (e, parse_rows-At rows t (row_index + 1) next q)

-- A slice of packed rows is read back from its start.
parse_records-rows_words :
    (rows : List ReviewInput) (h : AllProcess rows)
    → 112 * length rows < 2 ^ 64
    → parse_process_review_records (rows_words rows h) (length rows) ≡ ok rows
unfolding parse_process_review_records
parse_records-rows_words rows h fits =
    parse_rows-At (rows_words rows h) (rw length-rows_words fits) rows h 0 0
      (record { before = []; whole = refl; position = refl })

abbrev packed : (rows : List ReviewInput) → AllProcess rows → List ℕ
packed rows h = magic ++ word (length rows) (rows_words rows h)

pack_lem :
    (rows : List ReviewInput) (h : AllProcess rows)
    → length rows < 2 ^ 64
    → pack_process_review_payload rows ≡ some (packed rows h)
unfolding pack_process_review_payload
pack_lem rows h fits =
    rw (pack_rows_lem rows _ h)
      (ap some (rw wrapped (append_assoc magic (le_bytes 8 (length rows)) _)))
  where
    wrapped : length rows % 2 ^ 64 ≡ length rows
    wrapped = omega arith

length-packed :
    (rows : List ReviewInput) (h : AllProcess rows)
    → length (packed rows h) ≡ 16 + 112 * length rows
length-packed rows h =
    omega (arith, length-word (length rows) (rows_words rows h), length-rows_words rows h)

parse-packed :
    (rows : List ReviewInput) (h : AllProcess rows)
    → 16 + 112 * length rows < 2 ^ 64
    → parse_process_review_payload (packed rows h) ≡ ok rows
unfolding parse_process_review_payload
parse-packed rows h fits =
    rw (long, count, expected, whole, behind) (parse_records-rows_words rows h (omega arith))
  where
    n : ℕ
    n = length rows

    long : ltb (length (packed rows h)) header_len ≡ false
    long = ground (arith, length-packed rows h)

    count : read_u64 (packed rows h) 8 Field.row_count ≡ ok n
    count =
        read_u64-At (packed rows h) (rw length-packed fits) 8 n (rows_words rows h) Field.row_count
          (omega arith) (record { before = magic; whole = refl; position = refl })

    expected : expected_len n ≡ ok (header_len + n * record_len)
    expected = unfold expected_len in ground arith

    whole : (length (packed rows h) == header_len + n * record_len) ≡ true
    whole = ground (arith, length-packed rows h)

    behind : drop header_len (packed rows h) ≡ rows_words rows h
    behind = rw length-le_bytes at (drop-append (le_bytes 8 n) (rows_words rows h))

-- Packing rows that carry their outcome, with finite numbers and integers that fit, never panics, and
-- the parser reads the same rows back from the payload, for every number of rows whose payload has a
-- length that fits 64 bits.
pub parse-pack_process_review_payload :
    (rows : List ReviewInput)
    → AllProcess rows
    → 16 + 112 * length rows < 2 ^ 64
    → (payload : List ℕ) × (pack_process_review_payload rows ≡ some payload)
      × (length payload ≡ 16 + 112 * length rows)
      × (parse_process_review_payload payload ≡ ok rows)
parse-pack_process_review_payload rows h fits =
    (packed rows h, pack_lem rows h (omega arith), length-packed rows h, parse-packed rows h fits)
