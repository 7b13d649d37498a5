-- ===== src/Checkpoint/Expected/Sections.antt =====
-- The sections of a checkpoint before the recurrent states have the size that is expected of them:
-- for expected_checkpoint_bin_size of rust/rwkv-srs-cpu/src/model/checkpoint_bin.rs.
use rwkv_srs.Floats.{is_nan}
use rwkv_srs.Checkpoint.RoundTrip.Tensors.{checked_mul-eq}
use rwkv_srs.Bytes.Laws.{length-le_bytes}
use rwkv_srs.Checkpoint.Tensor.{checked_add, checked_mul}
use rwkv_srs.State.{FeatureState}
use rwkv_srs.Checkpoint.RoundTrip.Sizes.{length-write_u8, length-write_u64, checked_add-eq}
use rwkv_srs.Review.{F64}
use rwkv_srs.Map.{Map, Set}
use rwkv_srs.Checkpoint.Writer.{
  bin_write_option_f64, bin_write_i64, bin_write_f64, bin_write_u64, bin_write_u8,
}
use rwkv_srs.Checkpoint.Maps.{
  write_keys, bin_write_i64_set, write_entries, bin_write_i64_usize_map, bin_write_i64_i64_map,
  bin_write_i64_f64_map,
}
use rwkv_srs.Checkpoint.Save.{write_counters}
use rwkv_srs.Checkpoint.Expected.{
  add_parts, SizePart, Cardinalities, checked_counted_size_add, plain, counted, populated,
  checked_add, checked_mul, counter_parts,
}
use rwkv_srs.Base.{
  ℕ, ◌+◌, ◌*◌, List, [], ◌∷◌, ◌++◌, length, ok, refl, ◌≡◌, arith, Option, some, none, is_some,
  length-append, if◌then◌else◌, ok-injective, ℤ, >>=-split, bits_of_i64, Bool-cases, inr, inl, ◌≤◌,
}

unfoldable pub part_bytes : SizePart → ℕ
part_bytes (plain value) = value
part_bytes (counted count entry_size) = 8 + count * entry_size

unfoldable pub parts_bytes : List SizePart → ℕ
unfolding part_bytes
parts_bytes [] = 0
parts_bytes (part ∷ parts) = part_bytes part + parts_bytes parts

counted-eq :
    (size count entry_size n : ℕ)
    → checked_counted_size_add size count entry_size ≡ ok n
    → n ≡ size + (8 + count * entry_size)
unfolding checked_counted_size_add
counted-eq size count entry_size n h =
    let (headed, e1, h1) = >>=-split (checked_add size 8) _ h in
    let (entries, e2, h2) = >>=-split (checked_mul count entry_size) _ h1 in
    omega (
      arith,
      checked_add-eq size 8 headed e1,
      checked_mul-eq count entry_size entries e2,
      checked_add-eq headed entries n h2,
    )

pub add_parts-eq :
    (parts : List SizePart) (size n : ℕ)
    → add_parts size parts ≡ ok n
    → n ≡ size + parts_bytes parts
unfolding add_parts parts_bytes part_bytes
add_parts-eq [] size n h = omega (arith, ok-injective h)
add_parts-eq (plain value ∷ parts) size n h =
    let (next, e, more) = >>=-split (checked_add size value) _ h in
    omega (arith, checked_add-eq size value next e, add_parts-eq parts next n more)
add_parts-eq (counted count entry_size ∷ parts) size n h =
    let (next, e, more) = >>=-split (checked_counted_size_add size count entry_size) _ h in
    omega (arith, counted-eq size count entry_size next e, add_parts-eq parts next n more)

pub parts_bytes-append :
    (xs ys : List SizePart) → parts_bytes (xs ++ ys) ≡ parts_bytes xs + parts_bytes ys
unfolding parts_bytes
parts_bytes-append [] ys = omega arith
parts_bytes-append (x ∷ xs) ys = omega (arith, parts_bytes-append xs ys)

pub parts_bytes-plain :
    (value : ℕ) (parts : List SizePart)
    → parts_bytes (plain value ∷ parts) ≡ value + parts_bytes parts
unfolding parts_bytes part_bytes
parts_bytes-plain value parts = refl

pub length-write_i64 : (z : ℤ) → length (bin_write_i64 z) ≡ 8
unfolding bin_write_i64
length-write_i64 z = length-le_bytes 8 (bits_of_i64 z)

length-write_f64 : (w : F64) → length (bin_write_f64 w) ≡ 8
unfolding bin_write_f64
length-write_f64 w = elim (Bool-cases (is_nan w)) [
  | inl e ↦ rw e (length-le_bytes 8 0x7ff8_0000_0000_0000)
  | inr e ↦ rw e (length-le_bytes 8 w)
]

length-write_option_f64 :
    (o : Option F64) → length (bin_write_option_f64 o) ≡ (if is_some o then 9 else 1)
unfolding bin_write_option_f64
length-write_option_f64 none = length-write_u8 0
length-write_option_f64 (some w) =
    omega (
      arith,
      length-append (bin_write_u8 1) (bin_write_f64 w),
      length-write_u8 1,
      length-write_f64 w,
    )

length-write_keys : (m : Set) → length (write_keys m) ≡ length m * 8
unfolding write_keys
length-write_keys [] = refl
length-write_keys ((k, t) ∷ m) =
    omega (
      arith,
      length-append (bin_write_i64 k) (write_keys m),
      length-write_i64 k,
      length-write_keys m,
    )

length-write_i64_set : (m : Set) → length (bin_write_i64_set m) ≡ 8 + length m * 8
unfolding bin_write_i64_set
length-write_i64_set m = omega (
  arith,
  length-append (bin_write_u64 (length m)) (write_keys m),
  length-write_u64 (length m),
  length-write_keys m,
)

module _ {V : Type 0} (write : V → List ℕ) (eight : (v : V) → length (write v) ≡ 8) where
  length-write_entries : (m : Map V) → length (write_entries write m) ≡ length m * 16
  unfolding write_entries
  length-write_entries [] = refl
  length-write_entries ((k, v) ∷ m) = omega (
    arith,
    length-append (bin_write_i64 k) (write v ++ write_entries write m),
    length-append (write v) (write_entries write m),
    length-write_i64 k,
    eight v,
    length-write_entries m,
  )

  length-write_map :
      (m : Map V) → length (bin_write_u64 (length m) ++ write_entries write m) ≡ 8 + length m * 16
  length-write_map m = omega (
    arith,
    length-append (bin_write_u64 (length m)) (write_entries write m),
    length-write_u64 (length m),
    length-write_entries m,
  )

length-write_i64_usize_map : (m : Map ℕ) → length (bin_write_i64_usize_map m) ≡ 8 + length m * 16
unfolding bin_write_i64_usize_map
length-write_i64_usize_map m = length-write_map bin_write_u64 length-write_u64 m

length-write_i64_i64_map : (m : Map ℤ) → length (bin_write_i64_i64_map m) ≡ 8 + length m * 16
unfolding bin_write_i64_i64_map
length-write_i64_i64_map m = length-write_map bin_write_i64 length-write_i64 m

length-write_i64_f64_map : (m : Map F64) → length (bin_write_i64_f64_map m) ≡ 8 + length m * 16
unfolding bin_write_i64_f64_map
length-write_i64_f64_map m = length-write_map bin_write_f64 length-write_f64 m

-- A feature state with so many cards, notes, decks and presets, all of them recorded.
pub record HasCounts (counts : Cardinalities) (s : FeatureState) : Type 0 where
  pub first_day : is_some s.first_day_offset ≡ populated counts
  pub prev_day : is_some s.prev_day_offset ≡ populated counts
  pub cards : length s.card_set ≡ counts.card_count
  pub new_cards : length s.last_new_cards ≡ counts.card_count
  pub last : length s.last_i ≡ counts.card_count
  pub first_days : length s.card2first_day_offset ≡ counts.card_count
  pub days : length s.card2elapsed_days_cumulative ≡ counts.card_count
  pub seconds : length s.card2elapsed_seconds_cumulative ≡ counts.card_count
  pub card_encodings : length s.id_encodings.of_card ≡ counts.card_count
  pub note_encodings : length s.id_encodings.of_note ≡ counts.note_count
  pub deck_encodings : length s.id_encodings.of_deck ≡ counts.deck_count
  pub preset_encodings : length s.id_encodings.of_preset ≡ counts.preset_count

-- The lengths of thirteen parts.
append13 :
    (a b c d e f g h i j k l m rest : List ℕ)
    → length (
        a
        ++ (b ++ (c ++ (d ++ (e ++ (f ++ (g ++ (h ++ (i ++ (j ++ (k ++ (l ++ (m ++ rest)))))))))))))
      ≡ length a
        + length b
        + length c
        + length d
        + length e
        + length f
        + length g
        + length h
        + length i
        + length j
        + length k
        + length l
        + length m
        + length rest
append13 a b c d e f g h i j k l m rest =
    rw
      (
        length-append, length-append, length-append, length-append, length-append, length-append,
        length-append, length-append, length-append, length-append, length-append, length-append,
        length-append,
      )
      (omega arith)

counters-parts :
    (s : FeatureState) (rest : List ℕ)
    → length (write_counters s rest)
      ≡ length (bin_write_option_f64 s.first_day_offset)
        + length (bin_write_option_f64 s.prev_day_offset)
        + length (bin_write_u64 s.card_count)
        + length (bin_write_i64_set s.card_set)
        + length (bin_write_i64_usize_map s.last_new_cards)
        + length (bin_write_i64 s.i)
        + length (bin_write_i64_i64_map s.last_i)
        + length (bin_write_f64 s.today)
        + length (bin_write_i64 s.today_reviews)
        + length (bin_write_i64 s.today_new_cards)
        + length (bin_write_i64_f64_map s.card2first_day_offset)
        + length (bin_write_i64_f64_map s.card2elapsed_days_cumulative)
        + length (bin_write_i64_f64_map s.card2elapsed_seconds_cumulative)
        + length rest
unfolding write_counters
counters-parts s rest =
    append13 (bin_write_option_f64 s.first_day_offset) (bin_write_option_f64 s.prev_day_offset)
      (bin_write_u64 s.card_count) (bin_write_i64_set s.card_set)
      (bin_write_i64_usize_map s.last_new_cards) (bin_write_i64 s.i)
      (bin_write_i64_i64_map s.last_i) (bin_write_f64 s.today) (bin_write_i64 s.today_reviews)
      (bin_write_i64 s.today_new_cards) (bin_write_i64_f64_map s.card2first_day_offset)
      (bin_write_i64_f64_map s.card2elapsed_days_cumulative)
      (bin_write_i64_f64_map s.card2elapsed_seconds_cumulative) rest

pub length-counters-le :
    (s : FeatureState) (rest : List ℕ) → length rest ≤ length (write_counters s rest)
length-counters-le s rest = omega (arith, counters-parts s rest)

pub length-write_counters :
    (counts : Cardinalities) (s : FeatureState) (metadata_len : ℕ) (rest : List ℕ)
    → HasCounts counts s
    → 27 + metadata_len + length (write_counters s rest)
      ≡ parts_bytes (counter_parts metadata_len counts) + length rest
unfolding write_counters parts_bytes part_bytes
length-write_counters counts s metadata_len rest h = omega (
  arith,
  counters-parts s rest,
  rw h.first_day at (length-write_option_f64 s.first_day_offset),
  rw h.prev_day at (length-write_option_f64 s.prev_day_offset),
  length-write_u64 s.card_count,
  rw h.cards at (length-write_i64_set s.card_set),
  rw h.new_cards at (length-write_i64_usize_map s.last_new_cards),
  length-write_i64 s.i,
  rw h.last at (length-write_i64_i64_map s.last_i),
  length-write_f64 s.today,
  length-write_i64 s.today_reviews,
  length-write_i64 s.today_new_cards,
  rw h.first_days at (length-write_i64_f64_map s.card2first_day_offset),
  rw h.days at (length-write_i64_f64_map s.card2elapsed_days_cumulative),
  rw h.seconds at (length-write_i64_f64_map s.card2elapsed_seconds_cumulative),
)
