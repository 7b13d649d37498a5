-- ===== src/Checkpoint/Writer.antt =====
-- The primitives that write a checkpoint, `bin_write_*` of
-- rust/rwkv-srs-cpu/src/model/checkpoint_bin.rs. A function gives the bytes that it appends; the
-- failures of a device are left out.
use rwkv_srs.Base.{
  ℕ, ◌%◌, ◌^◌, ℤ, bits_of_i64, List, [], ◌∷◌, ◌++◌, length, Option, none, some, ltb, Bool,
  if◌then◌else◌,
}
use rwkv_srs.Bytes.{le_bytes}
use rwkv_srs.Floats.{is_nan}
use rwkv_srs.Review.{F64, F32}

unfoldable pub bin_write_u8 : ℕ → List ℕ
unfolding le_bytes
bin_write_u8 value = le_bytes 1 value

unfoldable pub bin_write_u32 : ℕ → List ℕ
unfolding le_bytes
bin_write_u32 value = le_bytes 4 value

-- A `usize` is a `u64`.
unfoldable pub bin_write_u64 : ℕ → List ℕ
unfolding le_bytes
bin_write_u64 value = le_bytes 8 value

unfoldable pub bin_write_i64 : ℤ → List ℕ
unfolding le_bytes bits_of_i64
bin_write_i64 value = le_bytes 8 (bits_of_i64 value)

unfoldable pub is_nan_f32 : F32 → Bool
is_nan_f32 value = ltb 0x7f80_0000 (value % 2 ^ 31)

unfoldable pub bin_write_f64 : F64 → List ℕ
unfolding le_bytes is_nan
bin_write_f64 value = if is_nan value then le_bytes 8 0x7ff8_0000_0000_0000 else le_bytes 8 value

unfoldable pub bin_write_f32 : F32 → List ℕ
unfolding le_bytes is_nan_f32
bin_write_f32 value = if is_nan_f32 value then le_bytes 4 0x7fc0_0000 else le_bytes 4 value

unfoldable pub bin_write_option_f64 : Option F64 → List ℕ
unfolding bin_write_u8 bin_write_f64
bin_write_option_f64 (some value) = bin_write_u8 1 ++ bin_write_f64 value
bin_write_option_f64 none = bin_write_u8 0

unfoldable pub bin_write_bytes : List ℕ → List ℕ
unfolding bin_write_u64
bin_write_bytes bytes = bin_write_u64 (length bytes) ++ bytes

-- A loop of `bin_write_f32`.
unfoldable pub write_f32s : List F32 → List ℕ
unfolding bin_write_f32
write_f32s [] = []
write_f32s (value ∷ values) = bin_write_f32 value ++ write_f32s values
