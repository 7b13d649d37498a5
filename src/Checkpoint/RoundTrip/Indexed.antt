-- ===== src/Checkpoint/RoundTrip/Indexed.antt =====
-- The indexed map of recurrent states in checkpoint_bin.rs (rust/rwkv-srs-cpu/src/model): a restore
-- reads the selected states at the places that the index gives, and seeks over the others.
use rwkv_srs.Checkpoint.Reads.{Reads}
use rwkv_srs.Checkpoint.Maps.RoundTrip.{map_values, AllValues}
use rwkv_srs.Checkpoint.Select.{load, load-nil, load-chosen, load-passed}
use rwkv_srs.Checkpoint.Maps.{is_selected}
use rwkv_srs.Checkpoint.Save.States.{bin_write_entity_state}
use rwkv_srs.Checkpoint.RoundTrip.Entities.{IsStoredState, canonical_state, entity-Reads}
use rwkv_srs.Map.{Map, Set, insert}
use rwkv_srs.Checkpoint.Tensor.{TensorOps, ModuleState}
use native.Mathlib.Nat.{suc-add, add-zero}
use rwkv_srs.Bytes.Laws.{drop-append, take-append}
use rwkv_srs.Checkpoint.Restore.States.{
  seek, load_states, read_limited, next_offset_of, bin_read_entity_state, read_states_from,
}
use rwkv_srs.Base.{
  [], ◌∷◌, ◌++◌, zero, suc, ok, true, false, refl, sym, ◌∙◌, ap, length, List, ℕ, arith, ◌≡◌, ◌<◌,
  ◌^◌, ◌+◌, ◌≤◌, ◌-◌, ℤ, Option, drop, ◌==◌, if◌then◌else◌, lt→ltb, append-nil, ==_iff,
  append_assoc, length-append, Bool-cases, inl, inr,
}
use rwkv_srs.Checkpoint.Reader.{Reader, at, position, bytes_left}

abbrev place : Reader → Reader → ℕ → ℕ → Reader
place start reader offset reader_position =
    if reader_position == offset then reader else seek start offset

drop-nil : (n : ℕ) → drop {A = ℕ} n [] ≡ []
drop-nil zero = refl
drop-nil (suc n) = refl

drop-drop : (a k : ℕ) (xs : List ℕ) → drop (a + k) xs ≡ drop k (drop a xs)
drop-drop zero k xs = ap (λ n. drop n xs) (omega arith)
drop-drop (suc a) k [] = drop-nil (suc a + k) ∙ sym (drop-nil k)
drop-drop (suc a) k (x ∷ xs) = rw suc-add (drop-drop a k xs)

-- Behind the next entry stands the rest.
rest_after :
    (start : Reader) (offset : ℕ) (b rest : List ℕ)
    → position start ≤ offset
    → drop (offset - position start) (bytes_left start) ≡ b ++ rest
    → drop (offset + length b - position start) (bytes_left start) ≡ rest
rest_after start offset b rest behind h =
    let sum : offset + length b - position start ≡ (offset - position start) + length b =
      omega arith in
    rw (sum, drop-drop, h) (drop-append b rest)

place-next :
    (start reader : Reader) (offset reader_position : ℕ) (b rest : List ℕ)
    → position start ≤ offset
    → reader_position ≤ offset
    → drop (offset - position start) (bytes_left start) ≡ b ++ rest
    → place start reader offset reader_position ≡ at offset (b ++ rest)
    → place start reader (offset + length b) reader_position ≡ at (offset + length b) rest
unfolding seek
place-next start reader offset reader_position [] rest behind before h here = rw add-zero here
place-next start reader offset reader_position (x ∷ b) rest behind before h here =
    let moved : (reader_position == offset + length (x ∷ b)) ≡ false = ground arith in
    rw (moved, rest_after start offset (x ∷ b) rest behind h)

next_offset : (offset n : ℕ) → offset + n < 2 ^ 64 → next_offset_of offset n ≡ ok (offset + n)
unfolding next_offset_of
next_offset offset n fits = rw (lt→ltb _ _ fits)

module _ {T : Type 0} (ops : TensorOps T) where
  -- What the writer lays out for some states: the index, and the states one after the other.
  unfoldable pub Laid : Map (ModuleState T) → List (ℤ × ℕ) → List ℕ → Type 0
  Laid [] [] bytes = bytes ≡ []
  Laid [] (entry ∷ index) bytes = ⊥
  Laid ((id, s) ∷ m) [] bytes = ⊥
  Laid ((id, s) ∷ m) ((j, n) ∷ index) bytes =
      (b rest : List ℕ) × (j ≡ id)
      × (n ≡ length b)
      × (bin_write_entity_state ops s ≡ ok b)
      × (bytes ≡ b ++ rest)
      × Laid m index rest

  -- A limited read takes the bytes of one state.
  read_limited-Reads :
      (id : ℤ) (s : ModuleState T) (b rest : List ℕ) (p : ℕ)
      → IsStoredState ops s
      → bin_write_entity_state ops s ≡ ok b
      → p + length b < 2 ^ 64
      → read_limited ops id (length b) (at p (b ++ rest))
        ≡ ok (canonical_state ops s, at (p + length b) rest)
  unfolding read_limited
  read_limited-Reads id s b rest p stored w fits =
      let alone : bin_read_entity_state ops (at p b)
          ≡ ok (canonical_state ops s, at (p + length b) []) =
        rw append-nil at ((entity-Reads ops s b stored w).run p [] fits) in
      rw (
        read_limited,
        take-append b rest,
        alone,
        (==_iff (p + length b) (p + length b)).1 refl,
        drop-append b rest,
      )

  load_states-chosen :
      (selected : Option Set) (start reader : Reader) (id : ℤ) (n : ℕ) (index : List (ℤ × ℕ))
      (offset reader_position : ℕ) (states : Map (ModuleState T)) (state : ModuleState T)
      (later : Reader)
      → is_selected selected id ≡ true
      → offset + n < 2 ^ 64
      → read_limited ops id n (place start reader offset reader_position) ≡ ok (state, later)
      → load_states ops selected start ((id, n) ∷ index) offset reader_position states reader
        ≡ load_states ops selected start index
            (offset + n)
            (offset + n)
            (insert id state states)
            later
  unfolding load_states
  load_states-chosen selected start reader id n index offset reader_position states state later
        chosen fits read =
      rw (load_states, next_offset offset n fits, chosen, read)

  load_states-passed :
      (selected : Option Set) (start reader : Reader) (id : ℤ) (n : ℕ) (index : List (ℤ × ℕ))
      (offset reader_position : ℕ) (states : Map (ModuleState T))
      → is_selected selected id ≡ false
      → offset + n < 2 ^ 64
      → load_states ops selected start ((id, n) ∷ index) offset reader_position states reader
        ≡ load_states ops selected start index (offset + n) reader_position states reader
  unfolding load_states
  load_states-passed selected start reader id n index offset reader_position states passed fits =
      rw (load_states, next_offset offset n fits, passed)

  load_states-nil :
      (selected : Option Set) (start reader : Reader) (offset reader_position : ℕ)
      (states : Map (ModuleState T))
      → load_states ops selected start [] offset reader_position states reader
        ≡ ok (states, place start reader offset reader_position)
  unfolding load_states
  load_states-nil selected start reader offset reader_position states = refl

  -- The loop gives the selected states, and stops behind the last one.
  load_states-load :
      (selected : Option Set) (m : Map (ModuleState T)) (index : List (ℤ × ℕ)) (bytes tail : List ℕ)
      (start reader : Reader) (offset reader_position : ℕ) (states : Map (ModuleState T))
      → Laid m index bytes
      → AllValues (IsStoredState ops) m
      → position start ≤ offset
      → reader_position ≤ offset
      → drop (offset - position start) (bytes_left start) ≡ bytes ++ tail
      → place start reader offset reader_position ≡ at offset (bytes ++ tail)
      → offset + length bytes < 2 ^ 64
      → load_states ops selected start index offset reader_position states reader
        ≡ ok (
          load selected (map_values (canonical_state ops) m) states,
          at (offset + length bytes) tail,
        )
  unfolding Laid map_values
  load_states-load selected [] [] bytes tail start reader offset reader_position states laid stored
        behind before there here fits =
      load_states-nil selected start reader offset reader_position states
      ∙ rw laid (rw (load-nil, rw laid at here, add-zero))
  load_states-load selected [] (e ∷ index) bytes tail start reader offset reader_position states
        laid stored behind before there here fits =
      absurd laid
  load_states-load selected ((id, s) ∷ m) [] bytes tail start reader offset reader_position states
        laid stored behind before there here fits =
      absurd laid
  load_states-load selected ((id, s) ∷ m) ((j, n) ∷ index) bytes tail start reader offset
        reader_position states (b, rest, same, size, wrote, whole, laid) (p, stored) behind before
        there here fits =
      let split : bytes ++ tail ≡ b ++ (rest ++ tail) = rw whole (append_assoc b rest tail) in
      let total : length bytes ≡ length b + length rest = rw whole (length-append b rest) in
      let next = offset + length b in
      let end : next + length rest ≡ offset + length bytes = omega (arith, total) in
      let later : drop (next - position start) (bytes_left start) ≡ rest ++ tail =
        rest_after start offset b (rest ++ tail) behind (there ∙ split) in
      rw (same, size, ← end)
        (elim (Bool-cases (is_selected selected id)) [
          | inl e ↦
              load_states-chosen selected start reader id (length b) index offset reader_position
                states (canonical_state ops s) (at next (rest ++ tail)) e (omega (arith, total))
                (rw (here, split)
                  (read_limited-Reads id s b (rest ++ tail) offset p wrote (omega (arith, total))))
              ∙ rw
                  (load-chosen selected id (canonical_state ops s)
                    (map_values (canonical_state ops) m) states e)
                  (load_states-load selected m index rest tail start (at next (rest ++ tail)) next
                    next (insert id (canonical_state ops s) states) laid stored (omega arith)
                    (omega arith) later (rw ((==_iff next next).1 refl)) (omega (arith, total)))
          | inr e ↦
              load_states-passed selected start reader id (length b) index offset reader_position
                states e (omega (arith, total))
              ∙ rw
                  (load-passed selected id (canonical_state ops s)
                    (map_values (canonical_state ops) m) states e)
                  (load_states-load selected m index rest tail start reader next reader_position
                    states laid stored (omega arith) (omega arith) later
                    (place-next start reader offset reader_position b (rest ++ tail) behind before
                      (there ∙ split) (here ∙ ap (at offset) split))
                    (omega (arith, total)))
        ])

  -- The place that a read starts at is its reader's own.
  pub read_states_from-Reads :
      (selected : Option Set) (m : Map (ModuleState T)) (index : List (ℤ × ℕ)) (bytes : List ℕ)
      → Laid m index bytes
      → AllValues (IsStoredState ops) m
      → Reads
          (read_states_from ops selected index)
          bytes
          (load selected (map_values (canonical_state ops) m) [])
  unfolding read_states_from
  read_states_from-Reads selected m index bytes laid stored = record {
    run = λ p rest fits.
        load_states-load selected m index bytes rest (at p (bytes ++ rest)) (at p (bytes ++ rest)) p
          p [] laid stored (omega arith) (omega arith)
          (let start : p - p ≡ 0 = omega arith in rw start) (rw ((==_iff p p).1 refl)) fits;
  }
