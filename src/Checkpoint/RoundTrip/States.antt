-- ===== src/Checkpoint/RoundTrip/States.antt =====
-- The maps of recurrent states, and the one global state, are read back from what
-- bin_write_indexed_state_map_combined and bin_write_optional_state_combined of
-- rust/rwkv-srs-cpu/src/model/checkpoint_bin.rs wrote, where no state is flat.
use rwkv_srs.Checkpoint.RoundTrip.Sizes.{bin_entity_state_size-length, checked_add-eq}
use rwkv_srs.Checkpoint.Select.{select, load-select}
use rwkv_srs.Checkpoint.Maps.RoundTrip.{
  KeysFit, AllValues, IsStoredMap, map_values, map_values-IsSorted,
}
use rwkv_srs.Checkpoint.RoundTrip.Entities.{canonical_state, IsStoredState, entity-Reads}
use native.Mathlib.Nat.{add-zero}
use rwkv_srs.Checkpoint.Writer.{bin_write_i64, bin_write_u64}
use rwkv_srs.Map.{Map, Set}
use rwkv_srs.Checkpoint.Save.States.{
  write_entry, for_each_cpu_state, write_index_entry, bin_entity_state_size, CpuStateEntry,
  canonical, bin_write_entity_state, bin_tensor_vec_size, bin_write_indexed_state_map_combined,
  bin_write_optional_state_combined,
}
use rwkv_srs.Checkpoint.Tensor.{TensorOps, checked_add, ModuleState}
use rwkv_srs.Checkpoint.Restore.States.{
  read_index, bin_read_optional_state, bin_read_indexed_state_map, index_entry_size,
}
use rwkv_srs.Base.{
  [], ◌∷◌, ◌++◌, suc, ok, none, some, refl, sym, ◌∙◌, length, List, ℕ, arith, ◌≡◌, ◌<◌, ◌^◌, ◌*◌,
  ◌≤◌, ℤ, Option, Result, IsI64, >>=-split, ok-injective, append-nil, append_assoc,
}
use rwkv_srs.Checkpoint.Reads.{
  Reads, Reads-done, Reads-bind, i64-Reads, usize-Reads, Reads-last, u8-Reads, Reads-lift,
  vec_with_capacity,
}
use rwkv_srs.Checkpoint.Reader.{CheckpointError, isize_max}
use rwkv_srs.Checkpoint.RoundTrip.Indexed.{Laid, read_states_from-Reads}

read_index-nil : (front : List (ℤ × ℕ)) → Reads (read_index 0 front) [] front
unfolding read_index
read_index-nil front = Reads-done front

read_index-cons :
    (left : ℕ) (front : List (ℤ × ℕ)) (id : ℤ) (n : ℕ) (rest : List ℕ) {index : List (ℤ × ℕ)}
    → IsI64 id
    → n < 2 ^ 64
    → Reads (read_index left (front ++ (id, n) ∷ [])) rest index
    → Reads (read_index (suc left) front) (bin_write_i64 id ++ (bin_write_u64 n ++ rest)) index
unfolding read_index
read_index-cons left front id n rest fits small later =
    Reads-bind _ (i64-Reads id fits) (Reads-bind _ (usize-Reads n small) later)

checked_add-lt : (a b n : ℕ) → checked_add a b ≡ ok n → n < 2 ^ 64
unfolding checked_add
checked_add-lt a b n h = ground arith

module _ {T : Type 0} (ops : TensorOps T) where
  size_fits : (s : ModuleState T) (n : ℕ) → bin_entity_state_size ops s ≡ ok n → n < 2 ^ 64
  unfolding bin_entity_state_size
  size_fits s n h =
      let (a, _, h1) = >>=-split (bin_tensor_vec_size ops s.time_x_shift_b1c_by_layer 3) _ h in
      let (b, _, h2) = >>=-split (bin_tensor_vec_size ops s.time_state_b1hkk_by_layer 5) _ h1 in
      let (c, _, h3) = >>=-split (bin_tensor_vec_size ops s.channel_state_b1c_by_layer 3) _ h2 in
      let (both, _, last) = >>=-split (checked_add a b) _ h3 in checked_add-lt both c n last

  -- One visit with no flat states, and the rest.
  pub visit-cons :
      (visit : ℤ → CpuStateEntry T → Result CheckpointError (List ℕ)) (id : ℤ) (s : ModuleState T)
      (m : Map (ModuleState T)) (bytes : List ℕ)
      → for_each_cpu_state visit ((id, s) ∷ m) [] ≡ ok bytes
      → (first rest : List ℕ) × (visit id (canonical s) ≡ ok first)
        × (for_each_cpu_state visit m [] ≡ ok rest)
        × (bytes ≡ first ++ rest)
  unfolding for_each_cpu_state
  visit-cons visit id s m bytes w =
      let (first, wrote, more) = >>=-split (visit id (canonical s)) _ w in
      let (rest, wrote_rest, whole) = >>=-split (for_each_cpu_state visit m []) _ more in
      (first, rest, wrote, wrote_rest, sym (ok-injective whole))

  pub visit-nil :
      (visit : ℤ → CpuStateEntry T → Result CheckpointError (List ℕ)) (bytes : List ℕ)
      → for_each_cpu_state visit [] [] ≡ ok bytes
      → [] ≡ bytes
  unfolding for_each_cpu_state
  visit-nil visit bytes w = ok-injective w

  pub write_index_entry-split :
      (id : ℤ) (s : ModuleState T) (bytes : List ℕ)
      → write_index_entry ops id (canonical s) ≡ ok bytes
      → (n : ℕ) × (bin_entity_state_size ops s ≡ ok n)
        × (bytes ≡ bin_write_i64 id ++ bin_write_u64 n)
  unfolding write_index_entry
  write_index_entry-split id s bytes w =
      let (n, sized, whole) = >>=-split (bin_entity_state_size ops s) _ w in
      (n, sized, sym (ok-injective whole))

  pub write_entry-canonical :
      (s : ModuleState T) → write_entry ops (canonical s) ≡ bin_write_entity_state ops s
  unfolding write_entry
  write_entry-canonical s = refl

  abbrev pub write_states : Map (ModuleState T) → Result CheckpointError (List ℕ)
  write_states m = for_each_cpu_state (λ identity entry. write_entry ops entry) m []

  abbrev pub write_index : Map (ModuleState T) → Result CheckpointError (List ℕ)
  write_index m = for_each_cpu_state (write_index_entry ops) m []

  -- The index that a writer lays out is the one that a reader takes.
  index-Reads :
      (m : Map (ModuleState T)) (front : List (ℤ × ℕ)) (index_bytes bytes : List ℕ)
      → KeysFit m
      → AllValues (IsStoredState ops) m
      → write_index m ≡ ok index_bytes
      → write_states m ≡ ok bytes
      → (index : List (ℤ × ℕ)) × Laid ops m index bytes
        × Reads (read_index (length m) front) index_bytes (front ++ index)
  unfolding Laid
  index-Reads [] front index_bytes bytes keys stored wi ws = (
    [],
    sym (visit-nil (λ identity entry. write_entry ops entry) bytes ws),
    rw (← visit-nil (write_index_entry ops) index_bytes wi, append-nil) (read_index-nil front),
  )
  index-Reads ((id, s) ∷ m) front index_bytes bytes (fits, keys) (p, stored) wi ws =
      let (head, tail, wrote_head, wrote_tail, whole_index) =
        visit-cons (write_index_entry ops) id s m index_bytes wi in
      let (n, sized, head_is) = write_index_entry-split id s head wrote_head in
      let (b, rest, wrote, wrote_rest, whole) =
        visit-cons (λ identity entry. write_entry ops entry) id s m bytes ws in
      let written : bin_write_entity_state ops s ≡ ok b = sym (write_entry-canonical s) ∙ wrote in
      let (index, laid, reads) =
        index-Reads m (front ++ (id, n) ∷ []) tail rest keys stored wrote_tail wrote_rest in
      (
        (id, n) ∷ index,
        (
          b,
          rest,
          refl,
          bin_entity_state_size-length ops s n b p sized written,
          written,
          whole,
          laid,
        ),
        rw (whole_index, head_is, append_assoc (bin_write_i64 id) (bin_write_u64 n) tail)
            (read_index-cons (length m) front id n tail fits (size_fits s n sized)
              (rw append_assoc at reads)),
      )

  -- A map of states that a checkpoint can hold; its index fits an allocation.
  pub record IsStoredStates (m : Map (ModuleState T)) : Type 0 where
    pub stored : IsStoredMap m
    pub states : AllValues (IsStoredState ops) m
    pub memory : length m * index_entry_size ≤ isize_max

  pub indexed-Reads :
      (selected : Option Set) (m : Map (ModuleState T)) (bytes : List ℕ)
      → IsStoredStates m
      → bin_write_indexed_state_map_combined ops m [] ≡ ok bytes
      → Reads
          (bin_read_indexed_state_map ops selected)
          bytes
          (select selected (map_values (canonical_state ops) m))
  unfolding bin_write_indexed_state_map_combined bin_read_indexed_state_map
  indexed-Reads selected m bytes h w =
      let (len, summed, w1) = >>=-split (checked_add (length m) 0) _ w in
      let (index_bytes, wrote_index, w2) = >>=-split (write_index m) _ w1 in
      let (state_bytes, wrote_states, whole) = >>=-split (write_states m) _ w2 in
      let count : len ≡ length m = checked_add-eq (length m) 0 len summed ∙ add-zero (length m) in
      let (index, laid, reads) =
        index-Reads m [] index_bytes state_bytes h.stored.keys h.states wrote_index wrote_states in
      let sorted = map_values-IsSorted (canonical_state ops) m h.stored.sorted in
      rw (← ok-injective whole, count, ← load-select selected _ sorted)
        (Reads-bind _ (usize-Reads (length m) h.stored.count) (
          Reads-lift _ (vec_with_capacity index_entry_size (length m) h.memory) (
            Reads-bind _ reads
              (read_states_from-Reads ops selected m index state_bytes laid h.states))))

  abbrev pub StoredOption : Option (ModuleState T) → Type 0
  StoredOption none = Unit
  StoredOption (some s) = IsStoredState ops s

  pub canonical_global : Option (ModuleState T) → Option (ModuleState T)
  canonical_global none = none
  canonical_global (some s) = some (canonical_state ops s)

  pub optional-Reads :
      (o : Option (ModuleState T)) (bytes : List ℕ)
      → StoredOption o
      → bin_write_optional_state_combined ops o none ≡ ok bytes
      → Reads (bin_read_optional_state ops) bytes (canonical_global o)
  unfolding bin_read_optional_state bin_write_optional_state_combined canonical_global
  optional-Reads none bytes h w =
      rw (← ok-injective w) (Reads-last _ (u8-Reads 0 (omega arith)) (Reads-done none))
  optional-Reads (some s) bytes h w =
      let (state, wrote, whole) = >>=-split (bin_write_entity_state ops s) _ w in
      rw (← ok-injective whole) (
        Reads-bind _ (u8-Reads 1 (omega arith))
          (Reads-last _ (entity-Reads ops s state h wrote) (Reads-done _)))
