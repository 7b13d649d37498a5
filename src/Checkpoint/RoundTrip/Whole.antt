-- ===== src/Checkpoint/RoundTrip/Whole.antt =====
-- A runtime is restored from its own checkpoint, less what its scope leaves out:
-- write_runtime_checkpoint_bin and restore_runtime_checkpoint_bin of
-- rust/rwkv-srs-cpu/src/model/checkpoint_bin.rs.
use native.Mathlib.Nat.{zero-add}
use rwkv_srs.Checkpoint.Save.{
  write_runtime_state_bin_v2, write_runtime_checkpoint_bin, checkpoint_bin_magic,
}
use rwkv_srs.Checkpoint.Scope.{CheckpointScope, Runtime}
use rwkv_srs.Checkpoint.Tensor.{TensorOps}
use rwkv_srs.Checkpoint.Restore.{
  filtered, read_version, restore_runtime_checkpoint_bin, check_magic, check_version,
}
use rwkv_srs.Base.{
  [], ok, sym, List, ℕ, arith, ◌≡◌, ◌<◌, ◌^◌, Option, >>=-split, ok-injective, length, ok-ne-err,
  ◌∷◌, append-nil,
}
use rwkv_srs.Checkpoint.Reads.{
  Reads, Reads-bind, usize-Reads, Reads-done, bin_read_exact-Reads, Reads-skip, u32-Reads,
  exact_vec-Reads,
}
use rwkv_srs.Checkpoint.RoundTrip.Stored.{canonical_runtime, IsStoredRuntime}
use rwkv_srs.Checkpoint.Reader.{at}
use rwkv_srs.Checkpoint.RoundTrip.Runtime.{restored-filtered, state-Reads}

module _ {T : Type 0} (ops : TensorOps T) where
  version-Reads :
      (scope : Option CheckpointScope) (r : Runtime T) (bytes : List ℕ)
      → IsStoredRuntime ops r
      → write_runtime_state_bin_v2 ops r ≡ ok bytes
      → Reads (read_version ops 2 scope) bytes (filtered ops scope (canonical_runtime ops r))
  unfolding read_version
  version-Reads scope r bytes h w =
      rw (← restored-filtered ops scope r) (state-Reads ops scope r bytes h w)

  magic-Reads : Reads (check_magic ops checkpoint_bin_magic) [] tt
  unfolding check_magic
  magic-Reads = Reads-done tt

  supported-Reads : Reads (check_version ops 2) [] tt
  unfolding check_version
  supported-Reads = Reads-done tt

  checkpoint-Reads :
      (scope : Option CheckpointScope) (metadata_json : List ℕ) (r : Runtime T) (bytes : List ℕ)
      → IsStoredRuntime ops r
      → length metadata_json < 2 ^ 64
      → write_runtime_checkpoint_bin ops metadata_json r ≡ ok bytes
      → Reads
          (restore_runtime_checkpoint_bin ops scope)
          bytes
          (filtered ops scope (canonical_runtime ops r))
  unfolding restore_runtime_checkpoint_bin write_runtime_checkpoint_bin
  checkpoint-Reads scope [] r bytes h short w = absurd (ok-ne-err bytes _ (sym w))
  checkpoint-Reads scope (b ∷ metadata_json) r bytes h short w =
      let (state, wrote, whole) = >>=-split (write_runtime_state_bin_v2 ops r) _ w in
      rw (← ok-injective whole) (
        Reads-bind _ (bin_read_exact-Reads checkpoint_bin_magic) (
          Reads-skip _ magic-Reads (
            Reads-bind _ (u32-Reads 2 (omega arith)) (
              Reads-skip _ supported-Reads (
                Reads-bind _ (usize-Reads (length (b ∷ metadata_json)) short) (
                  Reads-bind _ (exact_vec-Reads (b ∷ metadata_json))
                    (version-Reads scope r state h wrote)))))))

  -- A checkpoint that is written over a runtime with no flat states, sorted maps and numbers that fit
  -- is read back to its end, and gives the runtime with one NaN for all and the keys of its states,
  -- and under a scope exactly the part that filter_runtime_state keeps.
  pub restore-write_runtime_checkpoint_bin :
      (scope : Option CheckpointScope) (metadata_json : List ℕ) (r : Runtime T) (bytes : List ℕ)
      → IsStoredRuntime ops r
      → length metadata_json < 2 ^ 64
      → length bytes < 2 ^ 64
      → write_runtime_checkpoint_bin ops metadata_json r ≡ ok bytes
      → restore_runtime_checkpoint_bin ops scope (at 0 bytes)
        ≡ ok (filtered ops scope (canonical_runtime ops r), at (length bytes) [])
  restore-write_runtime_checkpoint_bin scope metadata_json r bytes h short fits w =
      let read = (checkpoint-Reads scope metadata_json r bytes h short w).run 0 [] (omega arith) in
      rw (append-nil, zero-add) at read
