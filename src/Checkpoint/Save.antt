-- ===== src/Checkpoint/Save.antt =====
-- What writes a checkpoint and can fail on its way: bin_write_id_encodings, the recurrent states, and
-- write_runtime_state_bin_v2 of rust/rwkv-srs-cpu/src/model/checkpoint_bin.rs. A function gives the
-- bytes that it appends, or the error.
pub mod States
use rwkv_srs.Base.{ℕ, List, [], ◌∷◌, ◌++◌, length, Result, ok, err, ◌>>=◌, ◌==◌, if◌then◌else◌}
use rwkv_srs.Checkpoint.Maps.{
  bin_write_i64_set, bin_write_i64_usize_map, bin_write_i64_i64_map, bin_write_i64_f64_map,
}
use rwkv_srs.Checkpoint.Reader.{CheckpointError, encoding_length, empty_metadata}
use rwkv_srs.Checkpoint.Save.States.{
  bin_write_indexed_state_map_combined, bin_write_optional_state_combined,
}
use rwkv_srs.Checkpoint.Scope.{Runtime}
use rwkv_srs.Checkpoint.Tensor.{TensorOps}
use rwkv_srs.Checkpoint.Writer.{
  bin_write_u32, bin_write_u64, bin_write_i64, bin_write_f64, bin_write_option_f64, bin_write_bytes,
  write_f32s,
}
use rwkv_srs.Map.{Map}
use rwkv_srs.Review.{F32}
use rwkv_srs.Rng.Torch.{to_torch_rng_state_bytes}
use rwkv_srs.State.{
  Submodule, card, note, deck, preset, IdEncodings, encodings, id_submodules, FeatureState,
}

-- The bytes of `submodule_name`.
abbrev pub submodule_bytes : Submodule → List ℕ
submodule_bytes card = b'c' ∷ b'a' ∷ b'r' ∷ b'd' ∷ b'_' ∷ b'i' ∷ b'd' ∷ []
submodule_bytes note = b'n' ∷ b'o' ∷ b't' ∷ b'e' ∷ b'_' ∷ b'i' ∷ b'd' ∷ []
submodule_bytes deck = b'd' ∷ b'e' ∷ b'c' ∷ b'k' ∷ b'_' ∷ b'i' ∷ b'd' ∷ []
submodule_bytes preset = b'p' ∷ b'r' ∷ b'e' ∷ b's' ∷ b'e' ∷ b't' ∷ b'_' ∷ b'i' ∷ b'd' ∷ []

unfoldable pub write_encodings : ℕ → Map (List F32) → Result CheckpointError (List ℕ)
unfolding bin_write_i64 bin_write_u64 write_f32s
write_encodings dim [] = ok []
write_encodings dim ((id, encoding) ∷ m) =
    if length encoding == dim
    then (do
      rest ← write_encodings dim m
      ok (bin_write_i64 id ++ (bin_write_u64 (length encoding) ++ (write_f32s encoding ++ rest))))
    else err (encoding_length dim (length encoding))

unfoldable pub write_submodules :
    IdEncodings → List (Submodule × ℕ) → Result CheckpointError (List ℕ)
unfolding bin_write_bytes bin_write_u64 write_encodings
write_submodules values [] = ok []
write_submodules values ((submodule, dim) ∷ rest) = do
  entries ← write_encodings dim (encodings submodule values)
  later ← write_submodules values rest
  ok (
      bin_write_bytes (submodule_bytes submodule)
      ++ (bin_write_u64 (length (encodings submodule values)) ++ (entries ++ later)))

unfoldable pub bin_write_id_encodings : IdEncodings → Result CheckpointError (List ℕ)
unfolding bin_write_u64 write_submodules
bin_write_id_encodings values = do
  submodules ← write_submodules values id_submodules
  ok (bin_write_u64 (length id_submodules) ++ submodules)

-- b"RWKVPCPUBINCHK1"
abbrev pub checkpoint_bin_magic : List ℕ
checkpoint_bin_magic =
    b'R' ∷ b'W' ∷ b'K' ∷ b'V' ∷ b'P' ∷ b'C' ∷ b'P' ∷ b'U' ∷ b'B' ∷ b'I' ∷ b'N' ∷ b'C' ∷ b'H' ∷ b'K'
    ∷ b'1' ∷ []

abbrev pub checkpoint_bin_version : ℕ
checkpoint_bin_version = 2

abbrev pub legacy_checkpoint_bin_version : ℕ
legacy_checkpoint_bin_version = 1

-- The part of `write_runtime_state_bin_v2` up to the encodings, before what follows it.
unfoldable pub write_counters : FeatureState → List ℕ → List ℕ
unfolding bin_write_option_f64 bin_write_u64 bin_write_i64_set bin_write_i64_usize_map bin_write_i64
    bin_write_i64_i64_map bin_write_f64 bin_write_i64_f64_map
write_counters s rest =
    bin_write_option_f64 s.first_day_offset
    ++ (bin_write_option_f64 s.prev_day_offset
        ++ (bin_write_u64 s.card_count
            ++ (bin_write_i64_set s.card_set
                ++ (bin_write_i64_usize_map s.last_new_cards
                    ++ (bin_write_i64 s.i
                        ++ (bin_write_i64_i64_map s.last_i
                            ++ (bin_write_f64 s.today
                                ++ (bin_write_i64 s.today_reviews
                                    ++ (bin_write_i64 s.today_new_cards
                                        ++ (bin_write_i64_f64_map s.card2first_day_offset
                                            ++ (bin_write_i64_f64_map s.card2elapsed_days_cumulative
                                                ++ (bin_write_i64_f64_map
                                                      s.card2elapsed_seconds_cumulative
                                                    ++ rest))))))))))))

module _ {T : Type 0} (ops : TensorOps T) where
  unfoldable pub write_runtime_state_bin_v2 : Runtime T → Result CheckpointError (List ℕ)
  unfolding write_counters bin_write_id_encodings bin_write_bytes to_torch_rng_state_bytes
      bin_write_indexed_state_map_combined bin_write_optional_state_combined
  write_runtime_state_bin_v2 runtime = do
    let s = runtime.deterministic
    let rnn = runtime.rnn
    let flat = runtime.flat_cpu_state
    id_encodings ← bin_write_id_encodings s.id_encodings
    cards ← bin_write_indexed_state_map_combined ops rnn.card_states flat.card_states
    notes ← bin_write_indexed_state_map_combined ops rnn.note_states flat.note_states
    decks ← bin_write_indexed_state_map_combined ops rnn.deck_states flat.deck_states
    presets ← bin_write_indexed_state_map_combined ops rnn.preset_states flat.preset_states
    global ← bin_write_optional_state_combined ops rnn.global_state flat.global_state
    ok (
        write_counters s (
          id_encodings
          ++ (bin_write_bytes (to_torch_rng_state_bytes s.id_rng)
              ++ (cards ++ (notes ++ (decks ++ (presets ++ global)))))))

  unfoldable pub write_runtime_checkpoint_bin : List ℕ → Runtime T → Result CheckpointError (List ℕ)
  unfolding bin_write_u32 bin_write_u64 write_runtime_state_bin_v2
  write_runtime_checkpoint_bin [] runtime = err empty_metadata
  write_runtime_checkpoint_bin (b ∷ metadata_json) runtime = do
    state ← write_runtime_state_bin_v2 runtime
    ok (
        checkpoint_bin_magic
        ++ (bin_write_u32 checkpoint_bin_version
            ++ (bin_write_u64 (length (b ∷ metadata_json)) ++ ((b ∷ metadata_json) ++ state))))
