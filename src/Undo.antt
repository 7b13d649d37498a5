-- ===== src/Undo.antt =====
-- Undo frames: rust/rwkv-srs-cpu/src/model/undo.rs. A recurrent state is a bundle of tensors of an
-- external library, the parameter `M`. The caches on the GPU, which `restore` refreshes or drops,
-- hold copies and are left out; the flat states are empty here, since every caller runs
-- `materialize_flat_cpu_state` first.
pub mod Batch
pub mod Touch
pub mod Restores
pub mod Process
pub mod Recurrent
use Prim.Native.String.{String}
use rwkv_srs.Base.{ℤ, Bool, true, false, Option, none, some, List, [], ◌∷◌, ◌++◌, map}
use rwkv_srs.Map.{Map, Set, get, has, insert, remove, set_insert}
use rwkv_srs.Map.Touch.{restore_map_entry}
use rwkv_srs.Review.{F64, F32}
use rwkv_srs.State.{Submodule, IdEncodings, encodings, put_encodings}

-- The recurrent states of a `NativeRnn`.
pub record Rnn (M : Type 0) : Type 0 where
  pub card_states : Map M
  pub note_states : Map M
  pub deck_states : Map M
  pub preset_states : Map M
  pub global_state : Option M

unfoldable pub restore_set_entry : Set → ℤ → Bool → Set
restore_set_entry s k true = insert k tt s
restore_set_entry s k false = remove k s

unfoldable pub capture_set_entries : Set → List ℤ → List (ℤ × Bool)
capture_set_entries s [] = []
capture_set_entries s (k ∷ ks) = (k, has k s) ∷ capture_set_entries s ks

unfoldable pub restore_set_entries : Set → List (ℤ × Bool) → Set
unfolding restore_set_entry
restore_set_entries s [] = s
restore_set_entries s ((k, present) ∷ rest) =
    restore_set_entries (restore_set_entry s k present) rest

pub record IdEncodingUndoEntry : Type 0 where
  pub submodule : Submodule
  pub id : ℤ
  pub previous : Option (List F32)

-- The loop over the journal of the encodings.
unfoldable pub restore_encodings : IdEncodings → List IdEncodingUndoEntry → IdEncodings
restore_encodings e [] = e
restore_encodings e (entry ∷ rest) =
    let sub = entry.submodule in
    restore_encodings
      (put_encodings sub (restore_map_entry (encodings sub e) entry.id entry.previous) e) rest
