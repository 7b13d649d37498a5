-- ===== src/Checkpoint/Expected/States.antt =====
-- The recurrent states of a checkpoint have the size that is expected of them: for
-- expected_checkpoint_bin_size of rust/rwkv-srs-cpu/src/model/checkpoint_bin.rs.
use rwkv_srs.Base.{
  ℕ, ◌+◌, ◌*◌, ◌%◌, ◌^◌, ◌<◌, List, [], ◌∷◌, ◌++◌, length, ok, refl, ◌≡◌, arith, Option, some, none,
  is_some, length-append, if◌then◌else◌, zero, suc, >>=-split, ok-injective,
}
use rwkv_srs.Checkpoint.Expected.{LayerShape, expected_module_state_size, plain}
use rwkv_srs.Checkpoint.Expected.Encodings.{mul_suc}
use rwkv_srs.Checkpoint.Expected.Layers.{HasShape, length-entity}
use rwkv_srs.Checkpoint.Expected.Sections.{parts_bytes, part_bytes, length-write_i64}
use rwkv_srs.Checkpoint.Maps.RoundTrip.{AllValues}
use rwkv_srs.Checkpoint.RoundTrip.Sizes.{length-write_u8, length-write_u64}
use rwkv_srs.Checkpoint.RoundTrip.States.{
  write_index, visit-nil, write_states, visit-cons, write_index_entry-split, write_entry-canonical,
}
use rwkv_srs.Checkpoint.Save.States.{
  bin_write_optional_state_combined, bin_write_indexed_state_map_combined, write_index_entry,
  write_entry, bin_write_entity_state,
}
use rwkv_srs.Checkpoint.Tensor.{checked_add, TensorOps, ModuleState}
use rwkv_srs.Checkpoint.Writer.{bin_write_u64, bin_write_i64, bin_write_u8}
use rwkv_srs.Map.{Map}

-- The states of a submodule that has a state for each of its identities.
module _ {T : Type 0} (ops : TensorOps T) where
  length-index :
      (m : Map (ModuleState T)) (bytes : List ℕ)
      → write_index ops m ≡ ok bytes
      → length bytes ≡ length m * 16
  length-index [] bytes w = rw (← visit-nil ops (write_index_entry ops) bytes w) refl
  length-index ((id, s) ∷ m) bytes w =
      let (first, rest, wrote, more, whole) =
        visit-cons ops (write_index_entry ops) id s m bytes w in
      let (n, sized, entry) = write_index_entry-split ops id s first wrote in
      rw (whole, entry)
        (omega (
          arith,
          length-append (bin_write_i64 id ++ bin_write_u64 n) rest,
          length-append (bin_write_i64 id) (bin_write_u64 n),
          length-write_i64 id,
          length-write_u64 n,
          length-index m rest more,
        ))

  length-states :
      (blocks : List LayerShape) (n : ℕ) (m : Map (ModuleState T)) (bytes : List ℕ)
      → expected_module_state_size blocks ≡ ok n
      → AllValues (HasShape ops blocks) m
      → write_states ops m ≡ ok bytes
      → length bytes ≡ length m * n
  length-states blocks n [] bytes sized shapes w =
      rw (← visit-nil ops (λ identity entry. write_entry ops entry) bytes w) (omega arith)
  length-states blocks n ((id, s) ∷ m) bytes sized (shape, shapes) w =
      let (first, rest, wrote, more, whole) =
        visit-cons ops (λ identity entry. write_entry ops entry) id s m bytes w in
      rw whole (
        omega (
          arith,
          mul_suc (length m) n,
          length-append first rest,
          length-entity ops blocks s n first sized shape (rw write_entry-canonical at wrote),
          length-states blocks n m rest sized shapes more,
        ))

  pub length-indexed :
      (blocks : List LayerShape) (n count : ℕ) (m : Map (ModuleState T)) (bytes : List ℕ)
      → expected_module_state_size blocks ≡ ok n
      → AllValues (HasShape ops blocks) m
      → length m ≡ count
      → bin_write_indexed_state_map_combined ops m [] ≡ ok bytes
      → length bytes ≡ 8 + count * (16 + n)
  unfolding bin_write_indexed_state_map_combined
  length-indexed blocks n count m bytes sized shapes size w =
      let (len, _, w1) = >>=-split (checked_add (length m) 0) _ w in
      let (index, wrote_index, w2) = >>=-split (write_index ops m) _ w1 in
      let (all, wrote_states, whole) = >>=-split (write_states ops m) _ w2 in
      rw (← ok-injective whole) (
        omega (
          arith,
          rw size at (length-index m index wrote_index),
          rw size at (length-states blocks n m all sized shapes wrote_states),
          length-append (bin_write_u64 len) (index ++ all),
          length-append index all,
          length-write_u64 len,
        ))

  abbrev pub GlobalShape : List LayerShape → Option (ModuleState T) → Type 0
  GlobalShape blocks none = Unit
  GlobalShape blocks (some s) = HasShape ops blocks s

  pub length-global :
      (blocks : List LayerShape) (n : ℕ) (o : Option (ModuleState T)) (bytes : List ℕ)
      → expected_module_state_size blocks ≡ ok n
      → GlobalShape blocks o
      → bin_write_optional_state_combined ops o none ≡ ok bytes
      → length bytes ≡ 1 + parts_bytes (if is_some o then plain n ∷ [] else [])
  unfolding bin_write_optional_state_combined parts_bytes part_bytes
  length-global blocks n none bytes sized shape w = rw (← ok-injective w) (length-write_u8 0)
  length-global blocks n (some s) bytes sized shape w =
      let (state, wrote, whole) = >>=-split (bin_write_entity_state ops s) _ w in
      rw (← ok-injective whole) (
        omega (
          arith,
          length-append (bin_write_u8 1) state,
          length-write_u8 1,
          length-entity ops blocks s n state sized shape wrote,
        ))

pub six :
    (a b c d e f : List ℕ)
    → length (a ++ (b ++ (c ++ (d ++ (e ++ f)))))
      ≡ length a + (length b + (length c + (length d + (length e + length f))))
six a b c d e f =
    rw (length-append, length-append, length-append, length-append, length-append) refl

-- Where a section fits in a file, the size of its entries does not wrap around.
pub entries-unwrapped :
    (count n size : ℕ)
    → size ≡ 8 + count * (16 + n)
    → size < 2 ^ 64
    → count * ((16 + n) % 2 ^ 64) ≡ count * (16 + n)
entries-unwrapped zero n size e fits = omega arith
entries-unwrapped (suc count) n size e fits =
    let small : 16 + n < 2 ^ 64 = omega (arith, mul_suc count (16 + n)) in
    let same : (16 + n) % 2 ^ 64 ≡ 16 + n = omega arith in rw same refl
