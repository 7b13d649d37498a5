-- ===== src/Checkpoint/RoundTrip/Runtime.antt =====
-- The sections of a checkpoint are read back one after the other: write_runtime_state_bin_v2 and
-- read_runtime_state_bin_v2 of rust/rwkv-srs-cpu/src/model/checkpoint_bin.rs.
use rwkv_srs.Checkpoint.Writer.{bin_write_bytes}
use rwkv_srs.Checkpoint.Save.States.{
  bin_write_indexed_state_map_combined, bin_write_optional_state_combined,
}
use rwkv_srs.Checkpoint.RoundTrip.States.{canonical_global, indexed-Reads, optional-Reads}
use rwkv_srs.Checkpoint.RoundTrip.Entities.{canonical_state}
use rwkv_srs.Checkpoint.Select.{select, select-none}
use rwkv_srs.Rng.Torch.{to_torch_rng_state_bytes}
use rwkv_srs.Checkpoint.Maps.RoundTrip.{
  map_values, set-Reads, usize_map-Reads, i64_map-Reads, f64_map-Reads,
}
use rwkv_srs.Rng.RoundTrip.{length-to_torch_rng_state_bytes}
use rwkv_srs.Checkpoint.RoundTrip.Encodings.{restored_id_encodings, id_encodings-Reads}
use rwkv_srs.Checkpoint.Save.{write_runtime_state_bin_v2, write_counters, bin_write_id_encodings}
use rwkv_srs.Checkpoint.Scope.{
  CheckpointScope, Runtime, filter_feature_state, scoped, filter_runtime_state,
}
use rwkv_srs.Checkpoint.Tensor.{TensorOps, no_flat, FlatRnn}
use rwkv_srs.Checkpoint.Restore.{read_runtime_state_bin_v2, filtered, assemble}
use rwkv_srs.Base.{
  [], ◌++◌, ok, none, some, refl, subst, sym, List, ℕ, arith, ◌≡◌, Option, >>=-split, ok-injective,
}
use rwkv_srs.Checkpoint.Reads.{
  Reads, canonical_option, canonical_f64, Reads-bind, option-Reads, usize-Reads, i64-Reads,
  f64-Reads, bytes-Reads, Reads-last, Reads-lift, Reads-done,
}
use rwkv_srs.State.{card, note, deck, preset, with_torch_seed}
use rwkv_srs.Checkpoint.RoundTrip.Stored.{
  canonical_features, canonical_runtime, IsStoredRuntime, rng-restored,
}

module _ {T : Type 0} (ops : TensorOps T) where
  -- What the assignments of a restore make of the parts.
  pub restored : Option CheckpointScope → Runtime T → Runtime T
  restored scope r =
      let s = r.deterministic in
      assemble
        (record (with_torch_seed 5489) {
          first_day_offset = canonical_option s.first_day_offset;
          prev_day_offset = canonical_option s.prev_day_offset;
          card_set = select (scoped scope card) s.card_set;
          card_count = s.card_count;
          last_new_cards = select (scoped scope card) s.last_new_cards;
          i = s.i;
          last_i = select (scoped scope card) s.last_i;
          today = canonical_f64 s.today;
          today_reviews = s.today_reviews;
          today_new_cards = s.today_new_cards;
          card2first_day_offset =
              select (scoped scope card) (map_values canonical_f64 s.card2first_day_offset);
          card2elapsed_days_cumulative =
              select (scoped scope card) (map_values canonical_f64 s.card2elapsed_days_cumulative);
          card2elapsed_seconds_cumulative =
              select (scoped scope card)
                (map_values canonical_f64 s.card2elapsed_seconds_cumulative);
          id_encodings = restored_id_encodings scope s.id_encodings;
          id_rng = s.id_rng;
        })
        (record {
          card_states =
              select (scoped scope card) (map_values (canonical_state ops) r.rnn.card_states);
          note_states =
              select (scoped scope note) (map_values (canonical_state ops) r.rnn.note_states);
          deck_states =
              select (scoped scope deck) (map_values (canonical_state ops) r.rnn.deck_states);
          preset_states =
              select (scoped scope preset) (map_values (canonical_state ops) r.rnn.preset_states);
          global_state = canonical_global ops r.rnn.global_state;
        })

  pub restored-filtered :
      (scope : Option CheckpointScope) (r : Runtime T)
      → restored scope r ≡ filtered ops scope (canonical_runtime ops r)
  unfolding restored canonical_runtime canonical_features filtered restored_id_encodings assemble
      with_torch_seed filter_feature_state filter_runtime_state
  restored-filtered (some scope) r = refl
  restored-filtered none r = simp (select-none)

  pub write_runtime_state_bin_v2-split :
      (r : Runtime T) (bytes : List ℕ)
      → r.flat_cpu_state ≡ no_flat
      → write_runtime_state_bin_v2 ops r ≡ ok bytes
      → (encodings cards notes decks presets global : List ℕ) × (bin_write_id_encodings
            r.deterministic.id_encodings
          ≡ ok encodings)
        × (bin_write_indexed_state_map_combined ops r.rnn.card_states [] ≡ ok cards)
        × (bin_write_indexed_state_map_combined ops r.rnn.note_states [] ≡ ok notes)
        × (bin_write_indexed_state_map_combined ops r.rnn.deck_states [] ≡ ok decks)
        × (bin_write_indexed_state_map_combined ops r.rnn.preset_states [] ≡ ok presets)
        × (bin_write_optional_state_combined ops r.rnn.global_state none ≡ ok global)
        × (bytes
            ≡ write_counters r.deterministic (
                encodings
                ++ (bin_write_bytes (to_torch_rng_state_bytes r.deterministic.id_rng)
                    ++ (cards ++ (notes ++ (decks ++ (presets ++ global)))))))
  unfolding write_runtime_state_bin_v2
  write_runtime_state_bin_v2-split r bytes e w =
      let rnn = r.rnn in
      let flat = r.flat_cpu_state in
      let (encodings, e0, w0) =
        >>=-split (bin_write_id_encodings r.deterministic.id_encodings) _ w in
      let (cards, e1, w1) =
        >>=-split (bin_write_indexed_state_map_combined ops rnn.card_states flat.card_states) _
          w0 in
      let (notes, e2, w2) =
        >>=-split (bin_write_indexed_state_map_combined ops rnn.note_states flat.note_states) _
          w1 in
      let (decks, e3, w3) =
        >>=-split (bin_write_indexed_state_map_combined ops rnn.deck_states flat.deck_states) _
          w2 in
      let (presets, e4, w4) =
        >>=-split (bin_write_indexed_state_map_combined ops rnn.preset_states flat.preset_states) _
          w3 in
      let (global, e5, whole) =
        >>=-split (bin_write_optional_state_combined ops rnn.global_state flat.global_state) _ w4 in
      (
        encodings,
        cards,
        notes,
        decks,
        presets,
        global,
        e0,
        subst
            (λ (f : FlatRnn).
              bin_write_indexed_state_map_combined ops rnn.card_states f.card_states ≡ ok cards)
            e e1,
        subst
            (λ (f : FlatRnn).
              bin_write_indexed_state_map_combined ops rnn.note_states f.note_states ≡ ok notes)
            e e2,
        subst
            (λ (f : FlatRnn).
              bin_write_indexed_state_map_combined ops rnn.deck_states f.deck_states ≡ ok decks)
            e e3,
        subst
            (λ (f : FlatRnn).
              bin_write_indexed_state_map_combined ops rnn.preset_states f.preset_states
              ≡ ok presets)
            e e4,
        subst
            (λ (f : FlatRnn).
              bin_write_optional_state_combined ops rnn.global_state f.global_state ≡ ok global)
            e e5,
        sym (ok-injective whole),
      )

  pub state-Reads :
      (scope : Option CheckpointScope) (r : Runtime T) (bytes : List ℕ)
      → IsStoredRuntime ops r
      → write_runtime_state_bin_v2 ops r ≡ ok bytes
      → Reads (read_runtime_state_bin_v2 ops scope) bytes (restored scope r)
  unfolding read_runtime_state_bin_v2 restored write_counters
  state-Reads scope r bytes h w =
      let (encodings, cards, notes, decks, presets, global, e, c, n, d, p, g, whole) =
        write_runtime_state_bin_v2-split r bytes h.no_flat_states w in
      let s = r.deterministic in
      let f = h.features in
      rw whole (
        Reads-bind _ (option-Reads s.first_day_offset f.first_day) (
          Reads-bind _ (option-Reads s.prev_day_offset f.prev_day) (
            Reads-bind _ (usize-Reads s.card_count f.count) (
              Reads-bind _ (set-Reads (scoped scope card) s.card_set f.cards) (
                Reads-bind _
                  (usize_map-Reads (scoped scope card) s.last_new_cards f.new_cards f.new_counts)
                  (Reads-bind _ (i64-Reads s.i f.index) (
                    Reads-bind _ (i64_map-Reads (scoped scope card) s.last_i f.last f.last_values) (
                      Reads-bind _ (f64-Reads s.today f.today_fits) (
                        Reads-bind _ (i64-Reads s.today_reviews f.reviews) (
                          Reads-bind _ (i64-Reads s.today_new_cards f.new_today) (
                            Reads-bind _
                              (f64_map-Reads (scoped scope card) s.card2first_day_offset
                                f.first_days f.first_values)
                              (Reads-bind _
                                (f64_map-Reads (scoped scope card) s.card2elapsed_days_cumulative
                                  f.days f.days_values)
                                (Reads-bind _
                                  (f64_map-Reads (scoped scope card)
                                    s.card2elapsed_seconds_cumulative f.seconds f.seconds_values)
                                  (Reads-bind _
                                    (id_encodings-Reads scope s.id_encodings encodings f.encodings
                                      e)
                                    (Reads-bind _
                                      (bytes-Reads (to_torch_rng_state_bytes s.id_rng) (
                                        omega
                                          (arith, length-to_torch_rng_state_bytes s.id_rng f.rng)))
                                      (Reads-bind _
                                        (indexed-Reads ops (scoped scope card) r.rnn.card_states
                                          cards h.cards c)
                                        (Reads-bind _
                                          (indexed-Reads ops (scoped scope note) r.rnn.note_states
                                            notes h.notes n)
                                          (Reads-bind _
                                            (indexed-Reads ops (scoped scope deck) r.rnn.deck_states
                                              decks h.decks d)
                                            (Reads-bind _
                                              (indexed-Reads ops (scoped scope preset)
                                                r.rnn.preset_states presets h.presets p)
                                              (Reads-last _
                                                (optional-Reads ops r.rnn.global_state global
                                                  h.global g)
                                                (Reads-lift _ (rng-restored s.id_rng f.rng)
                                                  (Reads-done _))))))))))))))))))))))
