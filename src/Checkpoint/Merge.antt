-- ===== src/Checkpoint/Merge.antt =====
-- A save of a runtime that holds a part of a larger checkpoint: the sets and maps of the backing file
-- are merged with the current ones, `bin_copy_merged_*` of
-- rust/rwkv-srs-cpu/src/model/checkpoint_bin.rs. The result of a copy is what it appends.
pub mod Laws
pub mod Copy
use rwkv_srs.Base.{
  ℕ, zero, suc, ◌+◌, ℤ, compare_ℤ, Ordering, List, [], ◌∷◌, ◌++◌, take, drop, Option, none, some,
  Result, ok, err, if◌then◌else◌, eqb_ℤ, Bool, not,
}
use rwkv_srs.Checkpoint.Maps.{write_entries}
use rwkv_srs.Checkpoint.Reader.{
  CheckpointError, Read, ◌>>=◌, done, lift, bin_read_usize, bin_read_i64,
}
use rwkv_srs.Checkpoint.Writer.{bin_write_u64, bin_write_i64}
use rwkv_srs.Map.{Map, Set, has}

-- The count that `write_count_placeholder` leaves at the start of a field.
abbrev count_placeholder : List ℕ
count_placeholder = bin_write_u64 0

-- `patch_count`: a seek to the place, the count over what stands there, and a seek back to the end.
unfoldable patch_count : ℕ → ℕ → List ℕ → List ℕ
unfolding bin_write_u64
patch_count at_byte count bytes =
    take at_byte bytes ++ (bin_write_u64 count ++ drop (at_byte + 8) bytes)

module _ {V : Type 0} (write_value : V → Result CheckpointError (List ℕ)) where
  unfoldable write_one : ℤ → V → Result CheckpointError (List ℕ)
  unfolding bin_write_i64
  write_one key value = elim (write_value value) [
    | err e ↦ err e
    | ok bytes ↦ ok (bin_write_i64 key ++ bytes)
  ]

  -- The current entries below a key: their bytes and number, and the entries that are left.
  unfoldable pub write_below : ℤ → Map V → Result CheckpointError (List ℕ × ℕ × Map V)
  unfolding write_one
  write_below key [] = ok ([], 0, [])
  write_below key ((j, value) ∷ current) =
      let below : Result CheckpointError (List ℕ × ℕ × Map V) = elim (write_one j value) [
        | err e ↦ err e
        | ok first ↦ elim (write_below key current) [
          | err e ↦ err e
          | ok (bytes, count, left) ↦ ok (first ++ bytes, suc count, left)
        ]
      ] in
      elim (compare_ℤ j key) [ Ordering.lt ↦ below | _ ↦ ok ([], 0, (j, value) ∷ current) ]

  -- The current entries behind the backing ones.
  unfoldable pub write_all : Map V → Result CheckpointError (List ℕ × ℕ)
  unfolding write_one
  write_all [] = ok ([], 0)
  write_all ((j, value) ∷ current) = elim (write_one j value) [
    | err e ↦ err e
    | ok first ↦ elim (write_all current) [
      | err e ↦ err e
      | ok (bytes, count) ↦ ok (first ++ bytes, suc count)
    ]
  ]

  unfoldable pub write_backing : Set → ℤ → V → Map V → Result CheckpointError (List ℕ × ℕ × Map V)
  unfolding has write_one
  write_backing selected key value left =
      if has key selected
      then ok ([], 0, left)
      else (elim (write_one key value) [ err e ↦ err e | ok bytes ↦ ok (bytes, 1, left) ])

  -- At a key of the backing file: the current entry of that key, or the backing one if it is not
  -- selected.
  unfoldable pub write_at_key : Set → ℤ → V → Map V → Result CheckpointError (List ℕ × ℕ × Map V)
  unfolding write_one write_backing
  write_at_key selected key value [] = write_backing selected key value []
  write_at_key selected key value ((j, current_value) ∷ current) =
      if eqb_ℤ j key
      then (elim (write_one j current_value) [ err e ↦ err e | ok bytes ↦ ok (bytes, 1, current) ])
      else write_backing selected key value ((j, current_value) ∷ current)

  unfoldable pub copy_entries : Read V → Set → ℕ → Map V → Read (List ℕ × ℕ)
  unfolding bin_read_i64 write_below write_at_key write_all
  copy_entries read_value selected zero current = lift (write_all current)
  copy_entries read_value selected (suc left) current = do
    key ← bin_read_i64
    value ← read_value
    (below, n, later) ← lift (write_below key current)
    (entry, m, next) ← lift (write_at_key selected key value later)
    (rest, k) ← copy_entries read_value selected left next
    done (below ++ (entry ++ rest), n + (m + k))

  unfoldable pub bin_copy_merged_i64_map : Read V → Map V → Set → Read (List ℕ)
  unfolding bin_read_usize copy_entries patch_count bin_write_u64
  bin_copy_merged_i64_map read_value current selected = do
    backing_len ← bin_read_usize
    (entries, output_count) ← copy_entries read_value selected backing_len current
    done (patch_count 0 output_count (count_placeholder ++ entries))

-- The loop of the set is that of the map, with nothing for the values.
unfoldable pub bin_copy_merged_i64_set : Set → Set → Read (List ℕ)
unfolding bin_copy_merged_i64_map
bin_copy_merged_i64_set current selected =
    bin_copy_merged_i64_map (λ _. ok []) (done tt) current selected
