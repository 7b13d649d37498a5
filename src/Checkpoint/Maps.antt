-- ===== src/Checkpoint/Maps.antt =====
-- The sets and maps of a checkpoint (rust/rwkv-srs-cpu/src/model/checkpoint_bin.rs): a count, then the
-- entries in the order of their keys. A restore with a scope reads every entry and keeps the selected
-- ones.
pub mod RoundTrip
use rwkv_srs.Base.{
  ℕ, zero, suc, ℤ, List, [], ◌∷◌, ◌++◌, length, Option, none, some, Bool, true, if◌then◌else◌,
}
use rwkv_srs.Checkpoint.Reader.{Read, ◌>>=◌, done, bin_read_usize, bin_read_i64, bin_read_f64}
use rwkv_srs.Checkpoint.Writer.{bin_write_u64, bin_write_i64, bin_write_f64}
use rwkv_srs.Map.{Map, Set, has, insert, set_insert}
use rwkv_srs.Review.{F64}

-- `selected_ids.map(|ids| ids.contains(&key)).unwrap_or(true)`
unfoldable pub is_selected : Option Set → ℤ → Bool
unfolding has
is_selected none key = true
is_selected (some ids) key = has key ids

unfoldable pub write_keys : Set → List ℕ
unfolding bin_write_i64
write_keys [] = []
write_keys ((value, _) ∷ values) = bin_write_i64 value ++ write_keys values

unfoldable pub bin_write_i64_set : Set → List ℕ
unfolding bin_write_u64 write_keys
bin_write_i64_set values = bin_write_u64 (length values) ++ write_keys values

unfoldable pub read_keys : Option Set → ℕ → Set → Read Set
unfolding bin_read_i64
read_keys selected zero values = done values
read_keys selected (suc left) values = do
  value ← bin_read_i64
  read_keys selected left (if is_selected selected value then set_insert value values else values)

unfoldable pub bin_read_i64_set_selected : Option Set → Read Set
unfolding bin_read_usize read_keys
bin_read_i64_set_selected selected = do len ← bin_read_usize; read_keys selected len []

unfoldable pub bin_read_i64_set : Read Set
unfolding bin_read_i64_set_selected
bin_read_i64_set = bin_read_i64_set_selected none

module _ {V : Type 0} where
  unfoldable pub write_entries : (V → List ℕ) → Map V → List ℕ
  unfolding bin_write_i64
  write_entries write_value [] = []
  write_entries write_value ((key, value) ∷ values) =
      bin_write_i64 key ++ (write_value value ++ write_entries write_value values)

  -- The loop that the three maps share.
  unfoldable pub read_entries : Read V → Option Set → ℕ → Map V → Read (Map V)
  unfolding bin_read_i64
  read_entries read_value selected zero values = done values
  read_entries read_value selected (suc left) values = do
    key ← bin_read_i64
    value ← read_value
    read_entries read_value selected left
        (if is_selected selected key then insert key value values else values)

unfoldable pub bin_write_i64_usize_map : Map ℕ → List ℕ
unfolding bin_write_u64 write_entries
bin_write_i64_usize_map values = bin_write_u64 (length values) ++ write_entries bin_write_u64 values

unfoldable pub bin_read_i64_usize_map_selected : Option Set → Read (Map ℕ)
unfolding bin_read_usize read_entries
bin_read_i64_usize_map_selected selected = do
  len ← bin_read_usize
  read_entries bin_read_usize selected len []

unfoldable pub bin_read_i64_usize_map : Read (Map ℕ)
unfolding bin_read_i64_usize_map_selected
bin_read_i64_usize_map = bin_read_i64_usize_map_selected none

unfoldable pub bin_write_i64_i64_map : Map ℤ → List ℕ
unfolding bin_write_u64 write_entries
bin_write_i64_i64_map values = bin_write_u64 (length values) ++ write_entries bin_write_i64 values

unfoldable pub bin_read_i64_i64_map_selected : Option Set → Read (Map ℤ)
unfolding bin_read_usize read_entries
bin_read_i64_i64_map_selected selected = do
  len ← bin_read_usize
  read_entries bin_read_i64 selected len []

unfoldable pub bin_read_i64_i64_map : Read (Map ℤ)
unfolding bin_read_i64_i64_map_selected
bin_read_i64_i64_map = bin_read_i64_i64_map_selected none

unfoldable pub bin_write_i64_f64_map : Map F64 → List ℕ
unfolding bin_write_u64 write_entries
bin_write_i64_f64_map values = bin_write_u64 (length values) ++ write_entries bin_write_f64 values

unfoldable pub bin_read_i64_f64_map_selected : Option Set → Read (Map F64)
unfolding bin_read_usize read_entries
bin_read_i64_f64_map_selected selected = do
  len ← bin_read_usize
  read_entries bin_read_f64 selected len []

unfoldable pub bin_read_i64_f64_map : Read (Map F64)
unfolding bin_read_i64_f64_map_selected
bin_read_i64_f64_map = bin_read_i64_f64_map_selected none
