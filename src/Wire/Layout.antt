-- ===== src/Wire/Layout.antt =====
-- The bytes of a packed row, field after field in front of what follows, and what the checked
-- reads give where such a field begins.
use rwkv_srs.Base.{
  ℕ, ◌+◌, ◌^◌, ◌<◌, ℤ, pos, IsI64, bits_of_i64, bits_of_i64-lt, i64_of_bits-bits_of_i64, List, ◌++◌,
  length, some, ok, ◌≡◌, ap, subst, arith, length-append, ltb, lt→ltb, true,
}
use rwkv_srs.Bytes.{le_bytes, get_range}
use rwkv_srs.Bytes.Laws.{
  At, At-append, At-length, get_range-At, length-le_bytes, of_le_bytes-le_bytes,
}
use rwkv_srs.Review.{MaybeId, present, missing, F64, IdFits, IsFinite}
use rwkv_srs.Wire.Read.{
  Field, read_array, read_i64, read_f64, read_finite_f64, read_maybe_id, read_u64,
}

-- One little-endian word, then the rest.
abbrev pub word : ℕ → List ℕ → List ℕ
word w rest = le_bytes 8 w ++ rest

abbrev pub int_word : ℤ → List ℕ → List ℕ
int_word z = word (bits_of_i64 z)

abbrev pub id_words : MaybeId → List ℕ → List ℕ
id_words (present id) rest = int_word (pos 1) (int_word id rest)
id_words missing rest = int_word (pos 0) (int_word (pos 0) rest)

module _ (bytes : List ℕ) (small : length bytes < 2 ^ 64) where
  pub At-word : (o w : ℕ) (rest : List ℕ) → At bytes o (word w rest) → At bytes (o + 8) rest
  At-word o w rest p =
      subst (λ n. At bytes (o + n) rest) (length-le_bytes 8 w)
        (At-append bytes o (le_bytes 8 w) rest p)

  read_array-At :
      (o w : ℕ) (rest : List ℕ) (f : Field)
      → At bytes o (word w rest)
      → read_array bytes o f ≡ ok (le_bytes 8 w)
  unfolding read_array
  read_array-At o w rest f p = rw (fits, found, length-le_bytes 8 w)
    where
      fits : ltb (o + 8) (2 ^ 64) ≡ true
      fits = lt→ltb _ _ (
          omega
            (arith, At-length bytes o _ p, length-append (le_bytes 8 w) rest, length-le_bytes 8 w))

      found : get_range bytes o (o + 8) ≡ some (le_bytes 8 w)
      found = rw (length-le_bytes 8 w) at (get_range-At bytes o (le_bytes 8 w) rest p)

  pub read_u64-At :
      (o w : ℕ) (rest : List ℕ) (f : Field)
      → w < 2 ^ 64
      → At bytes o (word w rest)
      → read_u64 bytes o f ≡ ok w
  unfolding read_u64
  read_u64-At o w rest f h p = rw (read_array-At o w rest f p) (ap ok (of_le_bytes-le_bytes 8 w h))

  pub read_i64-At :
      (o : ℕ) (z : ℤ) (rest : List ℕ) (f : Field)
      → IsI64 z
      → At bytes o (int_word z rest)
      → read_i64 bytes o f ≡ ok z
  unfolding read_i64
  read_i64-At o z rest f h p =
      rw (read_array-At o (bits_of_i64 z) rest f p, of_le_bytes-le_bytes 8 _ (bits_of_i64-lt z))
        (ap ok (i64_of_bits-bits_of_i64 z h))

  pub read_finite_f64-At :
      (o : ℕ) (w : F64) (rest : List ℕ) (row : ℕ) (f : Field)
      → IsFinite w
      → At bytes o (word w rest)
      → read_finite_f64 bytes o row f ≡ ok w
  unfolding read_finite_f64 read_f64
  read_finite_f64-At o w rest row f h p =
      rw (read_array-At o w rest f p, of_le_bytes-le_bytes 8 w h.fits, h.finite)

  pub read_maybe_id-At :
      (o : ℕ) (id : MaybeId) (rest : List ℕ) (row : ℕ) (f : Field)
      → IdFits id
      → At bytes o (id_words id rest)
      → read_maybe_id bytes o row f ≡ ok (id, o + 8 + 8)
  unfolding read_maybe_id
  read_maybe_id-At o (present id) rest row f h p =
      rw (
        read_i64-At o (pos 1) _ f (omega arith) p,
        read_i64-At (o + 8) id rest f h (At-word o _ _ p),
      )
  read_maybe_id-At o missing rest row f h p = rw (
    read_i64-At o (pos 0) _ f (omega arith) p,
    read_i64-At (o + 8) (pos 0) rest f (omega arith) (At-word o _ _ p),
  )

  pub At-id_words :
      (o : ℕ) (id : MaybeId) (rest : List ℕ)
      → At bytes o (id_words id rest)
      → At bytes (o + 8 + 8) rest
  At-id_words o (present id) rest p = At-word (o + 8) _ rest (At-word o _ _ p)
  At-id_words o missing rest p = At-word (o + 8) _ rest (At-word o _ _ p)
