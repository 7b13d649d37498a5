-- ===== src/Wire/Packed.antt =====
-- What `pack_process_review_payload` writes: the header, then the words of each row.
use rwkv_srs.Bytes.{le_bytes}
use rwkv_srs.Base.{
  ℕ, ◌+◌, ℤ, IsI64, bits_of_i64, List, [], ◌∷◌, ◌++◌, length, some, ◌≡◌, ◌∙◌, sym, ap, append_assoc,
  append-nil, arith, ◌*◌, pos, length-append,
}
use rwkv_srs.Bytes.Laws.{length-le_bytes}
use rwkv_srs.Review.{MaybeId, present, missing, F64, ReviewInput, IsRow, IsFinite}
use rwkv_srs.Wire.Layout.{word, int_word, id_words}
use rwkv_srs.Wire.Process.{append_maybe_id, pack_row, pack_rows}

-- A row that the process endpoint takes: its outcome is given too.
pub record IsProcessRow (r : ReviewInput) : Type 0 where
  pub base : IsRow r
  pub rating : ℤ
  pub duration : F64
  pub state : F64
  pub has_rating : r.rating ≡ some rating
  pub has_duration : r.duration ≡ some duration
  pub has_state : r.state ≡ some state
  pub rating_fits : IsI64 rating
  pub duration_finite : IsFinite duration
  pub state_finite : IsFinite state

abbrev pub AllProcess : List ReviewInput → Type 0
AllProcess [] = Unit
AllProcess (r ∷ rows) = IsProcessRow r × AllProcess rows

-- The 112 bytes of a row, in front of what follows.
abbrev pub row_words : ReviewInput → ℤ → F64 → F64 → List ℕ → List ℕ
row_words r rating duration state rest = int_word r.review_id (
    int_word r.card_id (
      id_words r.note_id (
        id_words r.deck_id (
          id_words r.preset_id (
            word r.day_offset (
              word r.elapsed_days
                (word r.elapsed_seconds (int_word rating (word duration (word state rest))))))))))

pub id_words-append :
    (id : MaybeId) (xs ys : List ℕ) → id_words id xs ++ ys ≡ id_words id (xs ++ ys)
id_words-append (present id) xs ys = simp append_assoc
id_words-append missing xs ys = simp append_assoc

-- The packed row is appended whole.
append_maybe_id_lem :
    (payload : List ℕ) (id : MaybeId) (rest : List ℕ)
    → append_maybe_id payload id ++ rest ≡ payload ++ id_words id rest
unfolding append_maybe_id
append_maybe_id_lem payload (present id) rest = simp append_assoc
append_maybe_id_lem payload missing rest = simp append_assoc

pack_row_lem :
    (payload : List ℕ) (r : ReviewInput) (h : IsProcessRow r)
    → pack_row payload r ≡ some (payload ++ row_words r h.rating h.duration h.state [])
unfolding pack_row
pack_row_lem payload r h =
    rw (h.has_rating, h.has_duration, h.has_state)
      (ap some (simp (append_assoc, append_maybe_id_lem, append-nil, id_words-append)))

-- The rows one after the other.
unfoldable pub rows_words : (rows : List ReviewInput) → AllProcess rows → List ℕ
rows_words [] h = []
rows_words (r ∷ rows) (h, t) = row_words r h.rating h.duration h.state (rows_words rows t)

pub pack_rows_lem :
    (rows : List ReviewInput) (payload : List ℕ) (h : AllProcess rows)
    → pack_rows payload rows ≡ some (payload ++ rows_words rows h)
unfolding pack_rows rows_words
pack_rows_lem [] payload h = ap some (sym (append-nil payload))
pack_rows_lem (r ∷ rows) payload (h, t) =
    rw (pack_row_lem payload r h, pack_rows)
      (pack_rows_lem rows _ t ∙ ap some (simp (append_assoc, id_words-append)))

abbrev pub completed : ReviewInput → ℤ → F64 → F64 → ReviewInput
completed r rating duration state = record r {
  rating = some rating;
  duration = some duration;
  state = some state;
}

pub completed-eq :
    (r : ReviewInput) (h : IsProcessRow r) → completed r h.rating h.duration h.state ≡ r
completed-eq r h = λ i. record r {
  rating = sym h.has_rating i;
  duration = sym h.has_duration i;
  state = sym h.has_state i;
}

pub length-word : (w : ℕ) (rest : List ℕ) → length (word w rest) ≡ 8 + length rest
length-word w rest = omega (arith, length-append (le_bytes 8 w) rest, length-le_bytes 8 w)

pub length-id_words : (id : MaybeId) (rest : List ℕ) → length (id_words id rest) ≡ 16 + length rest
length-id_words (present id) rest =
    omega (
      arith,
      length-word (bits_of_i64 (pos 1)) (int_word id rest),
      length-word (bits_of_i64 id) rest,
    )
length-id_words missing rest = omega (
  arith,
  length-word (bits_of_i64 (pos 0)) (int_word (pos 0) rest),
  length-word (bits_of_i64 (pos 0)) rest,
)

length-row_words :
    (r : ReviewInput) (rating : ℤ) (duration state : F64) (rest : List ℕ)
    → length (row_words r rating duration state rest) ≡ 112 + length rest
length-row_words r rating duration state rest = simp (length-word, length-id_words) (omega arith)

pub length-rows_words :
    (rows : List ReviewInput) (h : AllProcess rows) → length (rows_words rows h) ≡ 112 * length rows
unfolding rows_words
length-rows_words [] h = omega arith
length-rows_words (r ∷ rows) (h, t) = omega (
  arith,
  length-row_words r h.rating h.duration h.state (rows_words rows t),
  length-rows_words rows t,
)
