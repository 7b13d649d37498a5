-- ===== src/Checkpoint/Merge/Copy.antt =====
-- A merged copy of checkpoint_bin.rs (rust/rwkv-srs-cpu/src/model) reads a backing map and writes the
-- merged one, with its count patched in.
use rwkv_srs.Review.{F64}
use rwkv_srs.Checkpoint.Maps.RoundTrip.{
  map_values, IsStoredMap, AllValues, KeysFit, map_values-IsSorted,
}
use rwkv_srs.Checkpoint.Writer.{bin_write_i64, bin_write_u64, bin_write_f64}
use rwkv_srs.Checkpoint.Merge.Laws.{
  below, at_key, from, behind_key, merged, overlay, without, merged-overlay,
}
use rwkv_srs.Checkpoint.Maps.{write_entries, bin_write_i64_f64_map}
use rwkv_srs.Checkpoint.Merge.{
  write_below, write_all, write_at_key, bin_write_i64, bin_copy_merged_i64_map, write_backing,
  copy_entries, bin_write_u64,
}
use rwkv_srs.Base.{
  [], ◌∷◌, ◌++◌, suc, ok, inl, inr, refl, sym, ap, length, List, ℕ, ◌≡◌, ◌<◌, ◌^◌, ◌+◌, ℤ, Result,
  if◌then◌else◌, Bool-cases, append-nil, append_assoc, compare_ℤ_cases, eqb_ℤ, length-append,
}
use rwkv_srs.Checkpoint.Reads.{
  Reads, lift-Reads, Reads-bind, i64-Reads, Reads-lift, Reads-last, usize-Reads, Reads-done,
  canonical_f64, f64-Reads,
}
use rwkv_srs.Checkpoint.Reader.{CheckpointError, Read, done, bin_read_f64, at}
use rwkv_srs.Map.{Map, Set, has, IsSorted}

write_entries-append :
    {V : Type 0} (write : V → List ℕ) (m n : Map V)
    → write_entries write (m ++ n) ≡ write_entries write m ++ write_entries write n
unfolding write_entries
write_entries-append write [] n = refl
write_entries-append write ((k, v) ∷ m) n = rw (
  write_entries-append write m n,
  append_assoc (bin_write_i64 k) (write v ++ write_entries write m) (write_entries write n),
  append_assoc (write v) (write_entries write m) (write_entries write n),
)

module _ {V : Type 0} (write : V → List ℕ) where
  abbrev total : V → Result CheckpointError (List ℕ)
  total v = ok (write v)

  write_all-eq : (m : Map V) → write_all total m ≡ ok (write_entries write m, length m)
  unfolding write_all write_entries
  write_all-eq [] = refl
  write_all-eq ((k, v) ∷ m) = rw (write_all-eq m) (
      ap (λ bs. ok (bs, suc (length m)))
        (append_assoc (bin_write_i64 k) (write v) (write_entries write m)))

  write_below-eq :
      (k : ℤ) (m : Map V)
      → write_below total k m ≡ ok (write_entries write (below k m), length (below k m), from k m)
  unfolding write_below write_entries below from
  write_below-eq k [] = refl
  write_below-eq k ((j, v) ∷ m) = elim (compare_ℤ_cases j k) [
    | inl (e, lt) ↦
        rw (write_below, below, from, e, write_below-eq k m)
          (ap (λ bs. ok (bs, suc (length (below k m)), from k m))
            (append_assoc (bin_write_i64 j) (write v) (write_entries write (below k m))))
    | inr (inl (e, same)) ↦ rw (write_below, below, from, e)
    | inr (inr (e, gt)) ↦ rw (write_below, below, from, e)
  ]

  single :
      (k : ℤ) (v : V) (left : Map V)
      → ok (bin_write_i64 k ++ write v, 1, left) ≡ (
          let r : Result CheckpointError (List ℕ × ℕ × Map V) =
            ok (bin_write_i64 k ++ (write v ++ []), 1, left) in
          r)
  single k v left = ap (λ bs. ok (bin_write_i64 k ++ bs, 1, left)) (sym (append-nil (write v)))

  abbrev at_backing : Set → ℤ → V → Map V
  at_backing selected k v = if has k selected then [] else (k, v) ∷ []

  write_backing-eq :
      (selected : Set) (k : ℤ) (v : V) (left : Map V)
      → write_backing total selected k v left
        ≡ ok (write_entries write (at_backing selected k v), length (at_backing selected k v), left)
  unfolding write_backing write_entries
  write_backing-eq selected k v left = elim (Bool-cases (has k selected)) [
    | inl e ↦ rw e
    | inr e ↦ rw e (single k v left)
  ]

  write_at_key-eq :
      (selected : Set) (k : ℤ) (v : V) (m : Map V)
      → write_at_key total selected k v m
        ≡ ok (
          write_entries write (at_key selected k v m),
          length (at_key selected k v m),
          behind_key k m,
        )
  unfolding write_at_key write_entries at_key behind_key
  write_at_key-eq selected k v [] = write_backing-eq selected k v []
  write_at_key-eq selected k v ((j, w) ∷ m) = elim (Bool-cases (eqb_ℤ j k)) [
    | inl e ↦ rw e (single j w m)
    | inr e ↦ rw e (write_backing-eq selected k v ((j, w) ∷ m))
  ]

module _ {V : Type 0} (write : V → List ℕ) (read_value : Read V) (f : V → V) (P : V → Type 0)
    (value-Reads : (v : V) → P v → Reads read_value (write v) (f v)) where
  abbrev written : Map V → List ℕ × ℕ
  written m = (write_entries write m, length m)

  abbrev together : Map V → Map V → Map V → List ℕ × ℕ
  together a b c = (
    write_entries write a ++ (write_entries write b ++ write_entries write c),
    length a + (length b + length c),
  )

  joined : (a b c : Map V) → Reads (done (together a b c)) [] (written (a ++ (b ++ c)))
  joined a b c =
      rw
        (
          write_entries-append write a (b ++ c),
          write_entries-append write b c,
          length-append a (b ++ c),
          length-append b c,
        )
        (Reads-done _)

  copy_entries-Reads :
      (selected : Set) (backing current : Map V)
      → KeysFit backing
      → AllValues P backing
      → Reads
          (copy_entries (total write) read_value selected (length backing) current)
          (write_entries write backing)
          (
            write_entries write (merged selected (map_values f backing) current),
            length (merged selected (map_values f backing) current),
          )
  unfolding copy_entries write_entries map_values merged
  copy_entries-Reads selected [] current keys values = lift-Reads _ _ (write_all-eq write current)
  copy_entries-Reads selected ((k, v) ∷ backing) current (fits, keys) (p, values) =
      let later = from k current in
      let next = behind_key k later in
      let rest = merged selected (map_values f backing) next in
      let here = at_key selected k (f v) later in
      Reads-bind _ (i64-Reads k fits) (
        Reads-bind _ (value-Reads v p) (
          Reads-lift _ (write_below-eq write k current) (
            Reads-lift _ (write_at_key-eq write selected k (f v) later) (
              Reads-last _ (copy_entries-Reads selected backing next keys values)
                (joined (below k current) here rest)))))

  -- Over the bytes of a backing map, the copy writes the map of the backing entries that are not
  -- selected, with the current ones put over them.
  copied-overlay :
      (selected : Set) (backing current : Map V)
      → IsStoredMap backing
      → IsSorted current
      → AllValues P backing
      → Reads
          (bin_copy_merged_i64_map (total write) read_value current selected)
          (bin_write_u64 (length backing) ++ write_entries write backing)
          (let m = overlay current (without selected (map_values f backing)) in
            bin_write_u64 (length m) ++ write_entries write m)
  unfolding bin_copy_merged_i64_map
  copied-overlay selected backing current stored sorted values =
      rw
        (← merged-overlay selected (map_values f backing) current
          (map_values-IsSorted f backing stored.sorted) sorted)
        (Reads-bind _ (usize-Reads (length backing) stored.count) (
          Reads-last _ (copy_entries-Reads selected backing current stored.keys values)
            (Reads-done _)))

-- Over a stored backing map of numbers and a sorted current one, the merged copy reads the backing map
-- to its end and writes the map of the backing entries that are not selected with the current entries
-- put over them, in the format of a full save.
pub bin_copy_merged_i64_map-overlay :
    (selected : Set) (backing current : Map F64) (p : ℕ) (rest : List ℕ)
    → IsStoredMap backing
    → AllValues (λ v. v < 2 ^ 64) backing
    → IsSorted current
    → p + length (bin_write_i64_f64_map backing) < 2 ^ 64
    → bin_copy_merged_i64_map
        (λ v. ok (bin_write_f64 v))
        bin_read_f64
        current
        selected
        (at p (bin_write_i64_f64_map backing ++ rest))
      ≡ ok (
        bin_write_i64_f64_map
            (overlay current (without selected (map_values canonical_f64 backing))),
        at (p + length (bin_write_i64_f64_map backing)) rest,
      )
unfolding bin_write_i64_f64_map
bin_copy_merged_i64_map-overlay selected backing current p rest stored values sorted fits =
    (copied-overlay bin_write_f64 bin_read_f64 canonical_f64 (λ v. v < 2 ^ 64) f64-Reads selected
        backing current stored sorted values).run
      p rest fits
