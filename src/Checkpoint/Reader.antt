-- ===== src/Checkpoint/Reader.antt =====
-- The primitives that read a checkpoint, `bin_read_*` of
-- rust/rwkv-srs-cpu/src/model/checkpoint_bin.rs. A reader is its position and the bytes from there on.
-- An error is named by its kind; the field names of the messages are left out.
use rwkv_srs.Base.{
  ℕ, zero, suc, ◌+◌, ◌-◌, ◌*◌, ◌^◌, ℤ, i64_of_bits, List, [], ◌∷◌, ◌++◌, Option, none, some, Result,
  ok, err, leb, ltb, if◌then◌else◌,
}
use rwkv_srs.Bytes.{of_le_bytes}
use rwkv_srs.Review.{F64, F32}
use rwkv_srs.Rng.Torch.{TorchError}

pub data CheckpointError : Type 0 where
  -- `read_exact` meets the end
  read_failed : CheckpointError
  empty_metadata unsupported_magic : CheckpointError
  unsupported_version : ℕ → CheckpointError
  option_tag state_tag : ℕ → CheckpointError
  unsupported_length : ℕ → CheckpointError
  -- a name that is no identity submodule, and one that is not UTF-8
  unsupported_submodule : List ℕ → CheckpointError
  encoding_length : ℕ → ℕ → CheckpointError
  tensor_rank wrong_value_count : ℕ → ℕ → CheckpointError
  tensor_shape : CheckpointError
  layer_counts : ℕ → ℕ → ℕ → CheckpointError
  size_overflow offset_overflow : CheckpointError
  unread_bytes : ℤ → ℕ → CheckpointError
  two_representations : ℤ → CheckpointError
  two_global_states flat_layout panicked : CheckpointError
  rng_rejected : TorchError → CheckpointError
  impossible_counts : CheckpointError
  module_count : ℕ → CheckpointError
  copied_bytes : ℕ → ℕ → CheckpointError

pub data Reader : Type 0 where
  at : ℕ → List ℕ → Reader

-- What follows the position, and the position itself: `stream_position`.
abbrev pub bytes_left : Reader → List ℕ
bytes_left (at p bytes) = bytes

abbrev pub position : Reader → ℕ
position (at p bytes) = p

-- A read gives an error, or a value and the reader behind it.
abbrev pub Read {ℓ} : Type ℓ → Type ℓ
Read A = Reader → Result CheckpointError (A × Reader)

-- The question mark after a read. It stays shut in proofs, which go by its law.
infixl 5 ◌>>=◌
unfoldable pub ◌>>=◌ {ℓ κ} : {A : Type ℓ} {B : Type κ} → Read A → (A → Read B) → Read B
◌>>=◌ first next r = elim (first r) [ err e ↦ err e | ok (a, s) ↦ next a s ]

unfoldable pub done {ℓ} : {A : Type ℓ} → A → Read A
done a r = ok (a, r)

unfoldable pub fail {ℓ} : {A : Type ℓ} → CheckpointError → Read A
fail e r = err e

-- A step that does not read.
unfoldable pub lift {ℓ} : {A : Type ℓ} → Result CheckpointError A → Read A
lift (ok a) r = ok (a, r)
lift (err e) r = err e

-- The first bytes, if there are so many.
unfoldable pub split_at : ℕ → List ℕ → Option (List ℕ × List ℕ)
split_at zero bytes = some ([], bytes)
split_at (suc n) [] = none
split_at (suc n) (b ∷ bytes) = elim (split_at n bytes) [
  | none ↦ none
  | some (front, back) ↦ some (b ∷ front, back)
]

unfoldable pub bin_read_exact : ℕ → Read (List ℕ)
unfolding split_at
bin_read_exact n (at p bytes) = elim (split_at n bytes) [
  | none ↦ err read_failed
  | some (front, back) ↦ ok (front, at (p + n) back)
]

unfoldable pub bin_read_u8 : Read ℕ
unfolding bin_read_exact
bin_read_u8 = do bytes ← bin_read_exact 1; done (of_le_bytes bytes)

unfoldable pub bin_read_u32 : Read ℕ
unfolding bin_read_exact
bin_read_u32 = do bytes ← bin_read_exact 4; done (of_le_bytes bytes)

-- A `u64` is a `usize`.
unfoldable pub bin_read_usize : Read ℕ
unfolding bin_read_exact
bin_read_usize = do bytes ← bin_read_exact 8; done (of_le_bytes bytes)

unfoldable pub bin_read_i64 : Read ℤ
unfolding bin_read_exact i64_of_bits
bin_read_i64 = do bytes ← bin_read_exact 8; done (i64_of_bits (of_le_bytes bytes))

unfoldable pub bin_read_f64 : Read F64
unfolding bin_read_exact
bin_read_f64 = do bytes ← bin_read_exact 8; done (of_le_bytes bytes)

unfoldable pub bin_read_f32 : Read F32
unfolding bin_read_exact
bin_read_f32 = do bytes ← bin_read_exact 4; done (of_le_bytes bytes)

unfoldable pub bin_read_option_f64 : Read (Option F64)
unfolding bin_read_u8 bin_read_f64
bin_read_option_f64 = do
  tag ← bin_read_u8
  elim tag [
    | zero ↦ done none
    | suc zero ↦ (do value ← bin_read_f64; done (some value))
    | suc (suc n) ↦ fail (option_tag (n + 2))
  ]

-- isize::MAX, which bounds the bytes of an allocation.
abbrev pub isize_max : ℕ
isize_max = 2 ^ 63 - 1

-- `try_reserve_exact` for elements of one size. An allocator that runs out of memory below that bound
-- is left out.
unfoldable pub bin_vec_with_capacity : ℕ → ℕ → Result CheckpointError (Unit {0})
bin_vec_with_capacity size len =
    if leb (len * size) isize_max then ok tt else err (unsupported_length len)

abbrev pub read_chunk_bytes : ℕ
read_chunk_bytes = 64 * 1024

-- The loop of `bin_read_exact_vec`. A round reads a byte at least, so as many rounds as bytes remain
-- are enough.
unfoldable pub read_chunks : ℕ → ℕ → List ℕ → Read (List ℕ)
unfolding bin_read_exact
read_chunks zero remaining bytes = done bytes
read_chunks (suc rounds) remaining bytes =
    let chunk_len = if ltb remaining read_chunk_bytes then remaining else read_chunk_bytes in
    elim remaining [
      | zero ↦ done bytes
      | suc more ↦ (do
        chunk ← bin_read_exact chunk_len
        read_chunks rounds (suc more - chunk_len) (bytes ++ chunk))
    ]

unfoldable pub bin_read_exact_vec : ℕ → Read (List ℕ)
unfolding read_chunks
bin_read_exact_vec len = read_chunks len len []

unfoldable pub bin_read_bytes : Read (List ℕ)
unfolding bin_read_usize bin_read_exact_vec
bin_read_bytes = do len ← bin_read_usize; bin_read_exact_vec len
