-- ===== src/Checkpoint/Expected/Whole.antt =====
-- A checkpoint of processed reviews has the size that is expected of it:
-- expected_checkpoint_bin_size of rust/rwkv-srs-cpu/src/model/checkpoint_bin.rs.
use rwkv_srs.Checkpoint.Expected.States.{
  GlobalShape, six, length-indexed, entries-unwrapped, length-global,
}
use rwkv_srs.Base.{
  ℕ, ◌+◌, ◌*◌, ◌%◌, ◌^◌, ◌<◌, List, [], ◌∷◌, ◌++◌, length, ok, ◌≡◌, arith, none, is_some,
  length-append, >>=-split, ok-injective, ok-ne-err, sym, Bool-cases, ◌==◌, inl, inr,
}
use rwkv_srs.Bytes.Laws.{length-le_bytes}
use rwkv_srs.Checkpoint.Expected.{
  LayerShape, expected_module_state_size, plain, Cardinalities, StateSizes, expected_state_sizes,
  state_parts, encoding_parts, populated, count_of, add_parts, expected_checkpoint_bin_size,
  counter_parts, counts_disagree,
}
use rwkv_srs.Checkpoint.Expected.Encodings.{length-write_submodules}
use rwkv_srs.Checkpoint.Expected.Layers.{HasShape}
use rwkv_srs.Checkpoint.Expected.Sections.{
  parts_bytes, part_bytes, HasCounts, add_parts-eq, parts_bytes-append, parts_bytes-plain,
  length-write_counters, length-counters-le,
}
use rwkv_srs.Checkpoint.Maps.RoundTrip.{AllValues}
use rwkv_srs.Checkpoint.RoundTrip.Runtime.{write_runtime_state_bin_v2-split}
use rwkv_srs.Checkpoint.RoundTrip.Sizes.{length-write_u64}
use rwkv_srs.Checkpoint.Save.{
  bin_write_id_encodings, write_submodules, write_runtime_checkpoint_bin,
  write_runtime_state_bin_v2, checkpoint_bin_magic, checkpoint_bin_version,
}
use rwkv_srs.Checkpoint.Save.States.{
  bin_write_optional_state_combined, bin_write_indexed_state_map_combined,
}
use rwkv_srs.Checkpoint.Scope.{Runtime}
use rwkv_srs.Checkpoint.Tensor.{TensorOps, ModuleState, no_flat}
use rwkv_srs.Checkpoint.Writer.{bin_write_u64, bin_write_bytes, bin_write_u32}
use rwkv_srs.Map.{Map}
use rwkv_srs.Rng.RoundTrip.{IsStored, length-to_torch_rng_state_bytes}
use rwkv_srs.Rng.Torch.{to_torch_rng_state_bytes}
use rwkv_srs.State.{card, note, deck, preset, FeatureState, Submodule, encodings, id_submodules}

length-header :
    (metadata state : List ℕ)
    → length (
        checkpoint_bin_magic
        ++ (bin_write_u32 checkpoint_bin_version
            ++ (bin_write_u64 (length metadata) ++ (metadata ++ state))))
      ≡ 27 + length metadata + length state
unfolding bin_write_u32
length-header metadata state = omega (
  arith,
  length-append checkpoint_bin_magic
      (bin_write_u32 2 ++ (bin_write_u64 (length metadata) ++ (metadata ++ state))),
  length-append (bin_write_u32 2) (bin_write_u64 (length metadata) ++ (metadata ++ state)),
  length-append (bin_write_u64 (length metadata)) (metadata ++ state),
  length-append metadata state,
  length-le_bytes 4 2,
  length-write_u64 (length metadata),
)

encoding_counts :
    (counts : Cardinalities) (s : FeatureState)
    → HasCounts counts s
    → (submodule : Submodule)
    → length (encodings submodule s.id_encodings) ≡ count_of counts submodule
encoding_counts counts s h card = h.card_encodings
encoding_counts counts s h note = h.note_encodings
encoding_counts counts s h deck = h.deck_encodings
encoding_counts counts s h preset = h.preset_encodings

length-id_encodings :
    (counts : Cardinalities) (s : FeatureState) (bytes : List ℕ)
    → HasCounts counts s
    → bin_write_id_encodings s.id_encodings ≡ ok bytes
    → length bytes ≡ 8 + parts_bytes (encoding_parts counts id_submodules)
unfolding bin_write_id_encodings
length-id_encodings counts s bytes h w =
    let (all, wrote, whole) = >>=-split (write_submodules s.id_encodings id_submodules) _ w in
    rw (← ok-injective whole) (
      omega (
        arith,
        length-append (bin_write_u64 (length id_submodules)) all,
        length-write_u64 (length id_submodules),
        length-write_submodules counts s.id_encodings id_submodules all (encoding_counts counts s h)
            wrote,
      ))

module _ {T : Type 0} (ops : TensorOps T)
    (card_module deck_module note_module preset_module global_module : List LayerShape)
    (counts : Cardinalities) where
  -- The modules in the order of the network.
  abbrev modules : List (List LayerShape)
  modules = card_module ∷ deck_module ∷ note_module ∷ preset_module ∷ global_module ∷ []

  -- The runtime after processed reviews: everything is recorded for each identity, every state has the
  -- layers of its module, and nothing is flat.
  pub record IsProcessed (r : Runtime T) : Type 0 where
    pub features : HasCounts counts r.deterministic
    pub rng : IsStored r.deterministic.id_rng
    pub no_flat_states : r.flat_cpu_state ≡ no_flat
    pub cards : length r.rnn.card_states ≡ counts.card_count
    pub notes : length r.rnn.note_states ≡ counts.note_count
    pub decks : length r.rnn.deck_states ≡ counts.deck_count
    pub presets : length r.rnn.preset_states ≡ counts.preset_count
    pub global : is_some r.rnn.global_state ≡ populated counts
    pub card_shapes : AllValues (HasShape ops card_module) r.rnn.card_states
    pub note_shapes : AllValues (HasShape ops note_module) r.rnn.note_states
    pub deck_shapes : AllValues (HasShape ops deck_module) r.rnn.deck_states
    pub preset_shapes : AllValues (HasShape ops preset_module) r.rnn.preset_states
    pub global_shape : GlobalShape ops global_module r.rnn.global_state

  record IsSized (sizes : StateSizes) : Type 0 where
    card_is : expected_module_state_size card_module ≡ ok sizes.card_size
    note_is : expected_module_state_size note_module ≡ ok sizes.note_size
    deck_is : expected_module_state_size deck_module ≡ ok sizes.deck_size
    preset_is : expected_module_state_size preset_module ≡ ok sizes.preset_size
    global_is : expected_module_state_size global_module ≡ ok sizes.global_size

  expected_state_sizes-IsSized :
      (sizes : StateSizes) → expected_state_sizes modules ≡ ok sizes → IsSized sizes
  unfolding expected_state_sizes
  expected_state_sizes-IsSized sizes h =
      let (a, e1, h1) = >>=-split (expected_module_state_size card_module) _ h in
      let (b, e2, h2) = >>=-split (expected_module_state_size deck_module) _ h1 in
      let (c, e3, h3) = >>=-split (expected_module_state_size note_module) _ h2 in
      let (d, e4, h4) = >>=-split (expected_module_state_size preset_module) _ h3 in
      let (e, e5, h5) = >>=-split (expected_module_state_size global_module) _ h4 in
      rw (← ok-injective h5)
        (record { card_is = e1; note_is = e3; deck_is = e2; preset_is = e4; global_is = e5 })

  -- A recurrent section, as the file has it and as the parts say.
  section-eq :
      (blocks : List LayerShape) (n count : ℕ) (m : Map (ModuleState T)) (bytes : List ℕ)
      → expected_module_state_size blocks ≡ ok n
      → AllValues (HasShape ops blocks) m
      → length m ≡ count
      → bin_write_indexed_state_map_combined ops m [] ≡ ok bytes
      → length bytes < 2 ^ 64
      → length bytes ≡ 8 + count * ((16 + n) % 2 ^ 64)
  section-eq blocks n count m bytes sized shapes size w fits =
      let whole = length-indexed ops blocks n count m bytes sized shapes size w in
      rw (entries-unwrapped count n (length bytes) whole fits) whole

  state_parts-eq :
      (sizes : StateSizes) (r : Runtime T) (rng cards notes decks presets global : List ℕ)
      → IsProcessed r
      → IsSized sizes
      → length rng ≡ 5056
      → bin_write_indexed_state_map_combined ops r.rnn.card_states [] ≡ ok cards
      → bin_write_indexed_state_map_combined ops r.rnn.note_states [] ≡ ok notes
      → bin_write_indexed_state_map_combined ops r.rnn.deck_states [] ≡ ok decks
      → bin_write_indexed_state_map_combined ops r.rnn.preset_states [] ≡ ok presets
      → bin_write_optional_state_combined ops r.rnn.global_state none ≡ ok global
      → length (bin_write_bytes rng ++ (cards ++ (notes ++ (decks ++ (presets ++ global)))))
        < 2 ^ 64
      → length (bin_write_bytes rng ++ (cards ++ (notes ++ (decks ++ (presets ++ global)))))
        ≡ parts_bytes (state_parts counts sizes)
  unfolding parts_bytes part_bytes bin_write_bytes
  state_parts-eq sizes r rng cards notes decks presets global h z size c n d p g fits =
      let lengths = six (bin_write_u64 (length rng) ++ rng) cards notes decks presets global in
      omega (
        arith,
        lengths,
        fits,
        length-append (bin_write_u64 (length rng)) rng,
        length-write_u64 (length rng),
        section-eq card_module sizes.card_size counts.card_count r.rnn.card_states cards z.card_is
            h.card_shapes h.cards c (omega (arith, lengths, fits)),
        section-eq note_module sizes.note_size counts.note_count r.rnn.note_states notes z.note_is
            h.note_shapes h.notes n (omega (arith, lengths, fits)),
        section-eq deck_module sizes.deck_size counts.deck_count r.rnn.deck_states decks z.deck_is
            h.deck_shapes h.decks d (omega (arith, lengths, fits)),
        section-eq preset_module sizes.preset_size counts.preset_count r.rnn.preset_states presets
            z.preset_is h.preset_shapes h.presets p (omega (arith, lengths, fits)),
        rw h.global at (
            length-global ops global_module sizes.global_size r.rnn.global_state global z.global_is
              h.global_shape g),
      )

  parts-eq :
      (metadata_len : ℕ) (sizes : StateSizes) (n : ℕ)
      → add_parts 0 (
          counter_parts metadata_len counts
          ++ (plain 8 ∷ (encoding_parts counts id_submodules ++ state_parts counts sizes)))
        ≡ ok n
      → n
        ≡ parts_bytes (counter_parts metadata_len counts)
          + (8
              + (parts_bytes (encoding_parts counts id_submodules)
                  + parts_bytes (state_parts counts sizes)))
  parts-eq metadata_len sizes n h =
      let front = counter_parts metadata_len counts in
      let encodings = encoding_parts counts id_submodules in
      let states = state_parts counts sizes in
      omega (
        arith,
        add_parts-eq (front ++ (plain 8 ∷ (encodings ++ states))) 0 n h,
        parts_bytes-append front (plain 8 ∷ (encodings ++ states)),
        parts_bytes-plain 8 (encodings ++ states),
        parts_bytes-append encodings states,
      )

  expected_checkpoint_bin_size-split :
      (metadata_len n : ℕ)
      → expected_checkpoint_bin_size modules metadata_len counts ≡ ok n
      → (sizes : StateSizes) × IsSized sizes
        × (n
            ≡ parts_bytes (counter_parts metadata_len counts)
              + (8
                  + (parts_bytes (encoding_parts counts id_submodules)
                      + parts_bytes (state_parts counts sizes))))
  unfolding expected_checkpoint_bin_size
  expected_checkpoint_bin_size-split metadata_len n h = elim (Bool-cases (metadata_len == 0)) [
    | inl e ↦ absurd (ok-ne-err n _ (sym (rw e at h)))
    | inr e ↦ elim (Bool-cases (counts_disagree counts)) [
      | inl d ↦ absurd (ok-ne-err n _ (sym (rw (e, d) at h)))
      | inr d ↦
          let (sizes, sized, more) = >>=-split (expected_state_sizes modules) _ (rw (e, d) at h) in
          (sizes, expected_state_sizes-IsSized sizes sized, parts-eq metadata_len sizes n more)
    ]
  ]

  state-eq :
      (sizes : StateSizes) (r : Runtime T) (metadata_len : ℕ) (bytes : List ℕ)
      → IsProcessed r
      → IsSized sizes
      → length bytes < 2 ^ 64
      → write_runtime_state_bin_v2 ops r ≡ ok bytes
      → 27 + metadata_len + length bytes
        ≡ parts_bytes (counter_parts metadata_len counts)
          + (8
              + (parts_bytes (encoding_parts counts id_submodules)
                  + parts_bytes (state_parts counts sizes)))
  state-eq sizes r metadata_len bytes h z fits w =
      let (encodings, cards, notes, decks, presets, global, e, c, n, d, p, g, whole) =
        write_runtime_state_bin_v2-split ops r bytes h.no_flat_states w in
      let s = r.deterministic in
      let rng = to_torch_rng_state_bytes s.id_rng in
      let tail = bin_write_bytes rng ++ (cards ++ (notes ++ (decks ++ (presets ++ global)))) in
      let all = length-write_counters counts s metadata_len (encodings ++ tail) h.features in
      let front = length-counters-le s (encodings ++ tail) in
      let sum = length-append encodings tail in
      let inside = rw whole at fits in
      rw whole (
        omega (
          arith,
          all,
          sum,
          length-id_encodings counts s encodings h.features e,
          state_parts-eq sizes r rng cards notes decks presets global h z
              (length-to_torch_rng_state_bytes s.id_rng h.rng) c n d p g
              (omega (arith, front, sum, inside)),
        ))

  -- The checkpoint of a runtime with everything recorded for the given numbers of identities, states in
  -- the layers of its modules, none of them flat, and a generator that can be stored has the expected
  -- number of bytes, where neither the computation nor the write fails and the size is a machine
  -- integer.
  pub expected_checkpoint_bin_size-length :
      (metadata_json : List ℕ) (r : Runtime T) (n : ℕ) (bytes : List ℕ)
      → IsProcessed r
      → length bytes < 2 ^ 64
      → expected_checkpoint_bin_size modules (length metadata_json) counts ≡ ok n
      → write_runtime_checkpoint_bin ops metadata_json r ≡ ok bytes
      → n ≡ length bytes
  unfolding write_runtime_checkpoint_bin
  expected_checkpoint_bin_size-length [] r n bytes h fits sized w =
      absurd (ok-ne-err bytes _ (sym w))
  expected_checkpoint_bin_size-length (b ∷ metadata_json) r n bytes h fits sized w =
      let metadata = b ∷ metadata_json in
      let (sizes, z, total) = expected_checkpoint_bin_size-split (length metadata) n sized in
      let (state, wrote, whole) = >>=-split (write_runtime_state_bin_v2 ops r) _ w in
      let header = length-header metadata state in
      let size : length bytes ≡ 27 + length metadata + length state =
        rw (← ok-injective whole) header in
      omega (
        arith,
        total,
        size,
        state-eq sizes r (length metadata) state h z (omega (arith, size)) wrote,
      )
