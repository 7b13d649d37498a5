-- ===== src/Checkpoint/Maps/RoundTrip.antt =====
-- The sets and maps of checkpoint_bin.rs are read back from their own bytes, less the entries that
-- are not selected.
use rwkv_srs.Base.{ℕ, ◌^◌, ◌<◌, ℤ, IsI64, [], ◌∷◌, length, Option, ◌≡◌, refl, ap, subst, List}
use rwkv_srs.Checkpoint.Maps.{
  write_keys, bin_write_i64_set, read_keys, bin_read_i64_set_selected, write_entries, read_entries,
  bin_write_i64_usize_map, bin_read_i64_usize_map_selected, bin_write_i64_i64_map,
  bin_read_i64_i64_map_selected, bin_write_i64_f64_map, bin_read_i64_f64_map_selected,
}
use rwkv_srs.Checkpoint.Reader.{Read, bin_read_usize, bin_read_i64, bin_read_f64}
use rwkv_srs.Checkpoint.Writer.{bin_write_u64, bin_write_i64, bin_write_f64}
use rwkv_srs.Checkpoint.Reads.{
  Reads, Reads-bind, Reads-done, usize-Reads, i64-Reads, f64-Reads, canonical_f64,
}
use rwkv_srs.Checkpoint.Select.{select, load, load-select}
use rwkv_srs.Map.{Map, Set, IsSorted, Above}
use rwkv_srs.Review.{F64}

abbrev pub KeysFit {ℓ} : {V : Type ℓ} → Map V → Type 0
KeysFit [] = Unit
KeysFit ((k, v) ∷ m) = IsI64 k × KeysFit m

-- A set or map as a checkpoint holds it: sorted, with keys and a count that fit.
pub record IsStoredMap {ℓ} {V : Type ℓ} (m : Map V) : Type 0 where
  pub sorted : IsSorted m
  pub keys : KeysFit m
  pub count : length m < 2 ^ 64

abbrev pub AllValues : {V : Type 0} → (V → Type 0) → Map V → Type 0
AllValues P [] = Unit
AllValues P ((k, v) ∷ m) = P v × AllValues P m

unfoldable pub map_values : {V W : Type 0} → (V → W) → Map V → Map W
map_values f [] = []
map_values f ((k, v) ∷ m) = (k, f v) ∷ map_values f m

Above-map_values :
    {V W : Type 0} (f : V → W) (k : ℤ) (m : Map V) → Above k m → Above k (map_values f m)
unfolding map_values
Above-map_values f k [] a = tt
Above-map_values f k ((j, v) ∷ m) (lt, a) = (lt, Above-map_values f k m a)

pub map_values-IsSorted :
    {V W : Type 0} (f : V → W) (m : Map V) → IsSorted m → IsSorted (map_values f m)
unfolding map_values
map_values-IsSorted f [] s = tt
map_values-IsSorted f ((k, v) ∷ m) (a, s) = (Above-map_values f k m a, map_values-IsSorted f m s)

read_keys-Reads :
    (selected : Option Set) (m values : Set)
    → KeysFit m
    → Reads (read_keys selected (length m) values) (write_keys m) (load selected m values)
unfolding read_keys write_keys load
read_keys-Reads selected [] values h = Reads-done values
read_keys-Reads selected ((k, u) ∷ m) values (fits, h) =
    Reads-bind _ (i64-Reads k fits) (read_keys-Reads selected m _ h)

pub set-Reads :
    (selected : Option Set) (m : Set)
    → IsStoredMap m
    → Reads (bin_read_i64_set_selected selected) (bin_write_i64_set m) (select selected m)
unfolding bin_read_i64_set_selected bin_write_i64_set
set-Reads selected m h =
    Reads-bind _ (usize-Reads (length m) h.count)
      (rw (← load-select selected m h.sorted) (read_keys-Reads selected m [] h.keys))

module _ {V : Type 0} (write_value : V → List ℕ) (read_value : Read V) (f : V → V) (P : V → Type 0)
    (value-Reads : (v : V) → P v → Reads read_value (write_value v) (f v)) where
  entries-Reads :
      (selected : Option Set) (m values : Map V)
      → KeysFit m
      → AllValues P m
      → Reads
          (read_entries read_value selected (length m) values)
          (write_entries write_value m)
          (load selected (map_values f m) values)
  unfolding read_entries write_entries load map_values
  entries-Reads selected [] values h ps = Reads-done values
  entries-Reads selected ((k, v) ∷ m) values (fits, h) (p, ps) =
      Reads-bind _ (i64-Reads k fits)
        (Reads-bind _ (value-Reads v p) (entries-Reads selected m _ h ps))

  entries_map-Reads :
      (selected : Option Set) (m : Map V)
      → IsStoredMap m
      → AllValues P m
      → Reads
          (read_entries read_value selected (length m) [])
          (write_entries write_value m)
          (select selected (map_values f m))
  entries_map-Reads selected m h ps =
      rw (← load-select selected (map_values f m) (map_values-IsSorted f m h.sorted))
        (entries-Reads selected m [] h.keys ps)

map_values-id : {V : Type 0} (m : Map V) → map_values (λ v. v) m ≡ m
unfolding map_values
map_values-id [] = refl
map_values-id (e ∷ m) = ap (e ∷◌) (map_values-id m)

pub usize_map-Reads :
    (selected : Option Set) (m : Map ℕ)
    → IsStoredMap m
    → AllValues (λ v. v < 2 ^ 64) m
    → Reads
        (bin_read_i64_usize_map_selected selected)
        (bin_write_i64_usize_map m)
        (select selected m)
unfolding bin_read_i64_usize_map_selected bin_write_i64_usize_map
usize_map-Reads selected m h ps = Reads-bind _ (usize-Reads (length m) h.count) (
    subst
      (λ n.
        Reads (read_entries bin_read_usize selected (length m) []) (write_entries bin_write_u64 m)
          (select selected n))
      (map_values-id m)
      (entries_map-Reads bin_write_u64 bin_read_usize (λ v. v) (λ v. v < 2 ^ 64) usize-Reads
        selected m h ps))

pub i64_map-Reads :
    (selected : Option Set) (m : Map ℤ)
    → IsStoredMap m
    → AllValues IsI64 m
    → Reads (bin_read_i64_i64_map_selected selected) (bin_write_i64_i64_map m) (select selected m)
unfolding bin_read_i64_i64_map_selected bin_write_i64_i64_map
i64_map-Reads selected m h ps = Reads-bind _ (usize-Reads (length m) h.count) (
    subst
      (λ n.
        Reads (read_entries bin_read_i64 selected (length m) []) (write_entries bin_write_i64 m)
          (select selected n))
      (map_values-id m)
      (entries_map-Reads bin_write_i64 bin_read_i64 (λ v. v) IsI64 i64-Reads selected m h ps))

pub f64_map-Reads :
    (selected : Option Set) (m : Map F64)
    → IsStoredMap m
    → AllValues (λ v. v < 2 ^ 64) m
    → Reads
        (bin_read_i64_f64_map_selected selected)
        (bin_write_i64_f64_map m)
        (select selected (map_values canonical_f64 m))
unfolding bin_read_i64_f64_map_selected bin_write_i64_f64_map
f64_map-Reads selected m h ps = Reads-bind _ (usize-Reads (length m) h.count) (
    entries_map-Reads bin_write_f64 bin_read_f64 canonical_f64 (λ v. v < 2 ^ 64) f64-Reads selected
      m h ps)
