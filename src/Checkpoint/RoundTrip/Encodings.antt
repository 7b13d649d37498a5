-- ===== src/Checkpoint/RoundTrip/Encodings.antt =====
-- The encodings of the identities are read back from what bin_write_id_encodings of
-- rust/rwkv-srs-cpu/src/model/checkpoint_bin.rs wrote, less the identities outside of the scope.
use rwkv_srs.Wire.Process.{bytes_eq}
use rwkv_srs.Base.{
  ℕ, suc, ◌^◌, ◌<◌, ◌≤◌, ◌*◌, ◌-◌, ℤ, List, [], ◌∷◌, ◌++◌, length, map, Option, some, ok, ◌==◌,
  ==_iff, ◌≡◌, sym, true, false, Bool-cases, inl, inr, >>=-split, ok-injective, if◌then◌else◌,
  append-nil, append_assoc, arith, ok-ne-err, IsI64, Bool, refl,
}
use rwkv_srs.Checkpoint.Maps.{is_selected}
use rwkv_srs.Checkpoint.Maps.RoundTrip.{
  KeysFit, IsStoredMap, AllValues, map_values, map_values-IsSorted,
}
use rwkv_srs.Checkpoint.Reader.{◌>>=◌, Read}
use rwkv_srs.Checkpoint.Reads.{
  Reads, Reads-bind, Reads-lift, Reads-done, usize-Reads, i64-Reads, f32-Reads, bytes-Reads,
  canonical_f32, vec_with_capacity, Reads-skip,
}
use rwkv_srs.Checkpoint.Restore.{
  read_values, check_width, read_encodings, known_submodule, find_submodule, read_submodules,
  bin_read_id_encodings_selected,
}
use rwkv_srs.Checkpoint.Save.{
  submodule_bytes, write_encodings, write_submodules, bin_write_id_encodings,
}
use rwkv_srs.Checkpoint.Scope.{CheckpointScope, scoped}
use rwkv_srs.Checkpoint.Select.{select, load, load-select}
use rwkv_srs.Checkpoint.Writer.{write_f32s, bin_write_i64, bin_write_u64}
use rwkv_srs.Map.{Map, Set, insert}
use rwkv_srs.Review.{F32}
use rwkv_srs.State.{
  Submodule, IdEncodings, encodings, put_encodings, id_submodules, card, note, deck,
  empty_id_encodings, preset,
}

abbrev pub AllF32 : List F32 → Type 0
AllF32 [] = Unit
AllF32 (v ∷ vs) = (v < 2 ^ 32) × AllF32 vs

abbrev pub canonical_values : List F32 → List F32
canonical_values = map canonical_f32

read_values-kept :
    (vs front : List F32)
    → AllF32 vs
    → Reads (read_values true (length vs) front) (write_f32s vs) (front ++ canonical_values vs)
unfolding read_values write_f32s
read_values-kept [] front h = rw append-nil (Reads-done front)
read_values-kept (v ∷ vs) front (p, h) =
    rw (← append_assoc front (canonical_f32 v ∷ []) (canonical_values vs))
      (Reads-bind _ (f32-Reads v p) (read_values-kept vs (front ++ canonical_f32 v ∷ []) h))

read_values-dropped :
    (vs front : List F32)
    → AllF32 vs
    → Reads (read_values false (length vs) front) (write_f32s vs) front
unfolding read_values write_f32s
read_values-dropped [] front h = Reads-done front
read_values-dropped (v ∷ vs) front (p, h) =
    Reads-bind _ (f32-Reads v p) (read_values-dropped vs front h)

check_width-Reads : (dim count : ℕ) → count ≡ dim → Reads (check_width dim count) [] tt
unfolding check_width
check_width-Reads dim count same = rw ((==_iff count dim).1 same) (Reads-done tt)

-- What an unselected entry leaves of the room that it asks for.
room :
    (selected : Option Set) (id : ℤ) (dim : ℕ)
    → dim ≤ 12
    → (if is_selected selected id then dim else 0) * 4 ≤ 2 ^ 63 - 1
room selected id dim h = ground arith

values_then :
    (b : Bool) (vs : List F32) (target : Map (List F32)) (put : List F32 → Map (List F32))
    (next : Map (List F32) → Read (Map (List F32))) {rest : List ℕ} {result : Map (List F32)}
    → AllF32 vs
    → Reads (next (if b then put (canonical_values vs) else target)) rest result
    → Reads
        (read_values b (length vs) [] >>= λ encoding. next (if b then put encoding else target))
        (write_f32s vs ++ rest)
        result
values_then true vs target put next h later = Reads-bind _ (read_values-kept vs [] h) later
values_then false vs target put next h later = Reads-bind _ (read_values-dropped vs [] h) later

-- One entry: its head, and then its values, which are kept or dropped.
read_entry-Reads :
    (dim : ℕ) (selected : Option Set) (left : ℕ) (target : Map (List F32)) (id : ℤ) (vs : List F32)
    {rest : List ℕ} {result : Map (List F32)}
    → length vs ≡ dim
    → dim ≤ 12
    → IsI64 id
    → AllF32 vs
    → Reads
        (read_encodings dim selected left
          (if is_selected selected id then insert id (canonical_values vs) target else target))
        rest
        result
    → Reads
        (read_encodings dim selected (suc left) target)
        (bin_write_i64 id ++ (bin_write_u64 (length vs) ++ (write_f32s vs ++ rest)))
        result
unfolding read_encodings
read_entry-Reads dim selected left target id vs same small fits values later =
    Reads-bind _ (i64-Reads id fits) (
      Reads-bind _ (usize-Reads (length vs) (omega arith)) (
        Reads-skip _ (check_width-Reads dim (length vs) same) (
          Reads-lift _ (vec_with_capacity 4 _ (room selected id (length vs) (omega arith))) (
            values_then (is_selected selected id) vs target (λ encoding. insert id encoding target)
              (read_encodings dim selected left) values later))))

write_encodings-nil : (dim : ℕ) (bytes : List ℕ) → write_encodings dim [] ≡ ok bytes → [] ≡ bytes
unfolding write_encodings
write_encodings-nil dim bytes w = ok-injective w

write_encodings-cons :
    (dim : ℕ) (id : ℤ) (vs : List F32) (m : Map (List F32)) (bytes : List ℕ)
    → write_encodings dim ((id, vs) ∷ m) ≡ ok bytes
    → (rest : List ℕ) × (length vs ≡ dim)
      × (write_encodings dim m ≡ ok rest)
      × (bytes ≡ bin_write_i64 id ++ (bin_write_u64 (length vs) ++ (write_f32s vs ++ rest)))
unfolding write_encodings
write_encodings-cons dim id vs m bytes w = elim (Bool-cases (length vs == dim)) [
  | inr e ↦ absurd (ok-ne-err bytes _ (sym (rw e at w)))
  | inl e ↦
      let (rest, wrote, whole) = >>=-split (write_encodings dim m) _ (rw e at w) in
      (rest, (==_iff _ _).0 e, wrote, sym (ok-injective whole))
]

read_encodings-nil :
    (dim : ℕ) (selected : Option Set) (target : Map (List F32))
    → Reads (read_encodings dim selected 0 target) [] target
unfolding read_encodings
read_encodings-nil dim selected target = Reads-done target

read_encodings-Reads :
    (dim : ℕ) (selected : Option Set) (m target : Map (List F32)) (bytes : List ℕ)
    → dim ≤ 12
    → KeysFit m
    → AllValues AllF32 m
    → write_encodings dim m ≡ ok bytes
    → Reads
        (read_encodings dim selected (length m) target)
        bytes
        (load selected (map_values canonical_values m) target)
unfolding load map_values
read_encodings-Reads dim selected [] target bytes small keys values w =
    rw (← write_encodings-nil dim bytes w) (read_encodings-nil dim selected target)
read_encodings-Reads dim selected ((id, vs) ∷ m) target bytes small (fits, keys) (v, values) w =
    let (rest, same, wrote, whole) = write_encodings-cons dim id vs m bytes w in
    rw whole (
      read_entry-Reads dim selected (length m) target id vs same small fits v
        (read_encodings-Reads dim selected m _ rest small keys values wrote))

-- What a restore makes of the encodings of a submodule.
abbrev pub restored_encodings : Option CheckpointScope → Submodule → IdEncodings → Map (List F32)
restored_encodings scope submodule values =
    select (scoped scope submodule) (map_values canonical_values (encodings submodule values))

pub record IsStoredEncodings (m : Map (List F32)) : Type 0 where
  pub map : IsStoredMap m
  pub values : AllValues AllF32 m

known-Reads :
    (submodule : Submodule) (dim : ℕ)
    → find_submodule (submodule_bytes submodule) id_submodules ≡ some (submodule, dim)
    → Reads (known_submodule (submodule_bytes submodule)) [] (submodule, dim)
unfolding known_submodule
known-Reads submodule dim known = rw (known, known_submodule) (Reads-done _)

-- One submodule, and then the rest.
submodule-Reads :
    (scope : Option CheckpointScope) (submodule : Submodule) (dim left : ℕ)
    (values out : IdEncodings) (rest : List (Submodule × ℕ)) (bytes : List ℕ) {result : IdEncodings}
    → find_submodule (submodule_bytes submodule) id_submodules ≡ some (submodule, dim)
    → length (submodule_bytes submodule) < 2 ^ 64
    → dim ≤ 12
    → IsStoredEncodings (encodings submodule values)
    → encodings submodule out ≡ []
    → write_submodules values ((submodule, dim) ∷ rest) ≡ ok bytes
    → ((later : List ℕ)
        → write_submodules values rest ≡ ok later
        → Reads
            (read_submodules scope left
              (put_encodings submodule (restored_encodings scope submodule values) out))
            later
            result)
    → Reads (read_submodules scope (suc left) out) bytes result
unfolding read_submodules write_submodules
submodule-Reads scope submodule dim left values out rest bytes known short small stored empty w
      next =
    let m = encodings submodule values in
    let (entries, wrote, more) = >>=-split (write_encodings dim m) _ w in
    let (later, wrote_later, whole) = >>=-split (write_submodules values rest) _ more in
    let loaded =
      load-select (scoped scope submodule) (map_values canonical_values m)
        (map_values-IsSorted canonical_values m stored.map.sorted) in
    rw (← ok-injective whole) (
      Reads-bind _ (bytes-Reads (submodule_bytes submodule) short) (
        Reads-skip _ (known-Reads submodule dim known) (
          Reads-bind _ (usize-Reads (length m) stored.map.count) (
            Reads-bind _
              (read_encodings-Reads dim (scoped scope submodule) m (encodings submodule out) entries
                small stored.map.keys stored.values wrote)
              (rw (empty, loaded) (next later wrote_later))))))

unfoldable pub restored_id_encodings : Option CheckpointScope → IdEncodings → IdEncodings
restored_id_encodings scope values = record {
  of_card = restored_encodings scope card values;
  of_note = restored_encodings scope note values;
  of_deck = restored_encodings scope deck values;
  of_preset = restored_encodings scope preset values;
}

abbrev pub AreStored : IdEncodings → Type 0
AreStored values = (submodule : Submodule) → IsStoredEncodings (encodings submodule values)

no_submodules :
    (scope : Option CheckpointScope) (values out : IdEncodings) (bytes : List ℕ)
    → write_submodules values [] ≡ ok bytes
    → Reads (read_submodules scope 0 out) bytes out
unfolding read_submodules write_submodules
no_submodules scope values out bytes w = rw (← ok-injective w) (Reads-done out)

pub id_encodings-Reads :
    (scope : Option CheckpointScope) (values : IdEncodings) (bytes : List ℕ)
    → AreStored values
    → bin_write_id_encodings values ≡ ok bytes
    → Reads (bin_read_id_encodings_selected scope) bytes (restored_id_encodings scope values)
unfolding bin_read_id_encodings_selected bin_write_id_encodings restored_id_encodings find_submodule
    bytes_eq
id_encodings-Reads scope values bytes stored w =
    let (submodules, wrote, whole) = >>=-split (write_submodules values id_submodules) _ w in
    rw (← ok-injective whole) (
      Reads-bind _ (usize-Reads 4 (omega arith)) (
        submodule-Reads scope card 12 3 values empty_id_encodings
          ((note, 12) ∷ (deck, 8) ∷ (preset, 8) ∷ []) submodules refl (omega arith) (omega arith)
          (stored card) refl wrote
          λ later wrote'.
            submodule-Reads scope note 12 2 values _ ((deck, 8) ∷ (preset, 8) ∷ []) later refl
              (omega arith) (omega arith) (stored note) refl wrote'
              λ later' wrote''.
                submodule-Reads scope deck 8 1 values _ ((preset, 8) ∷ []) later' refl (omega arith)
                  (omega arith) (stored deck) refl wrote''
                  λ later'' wrote'''.
                    submodule-Reads scope preset 8 0 values _ [] later'' refl (omega arith)
                      (omega arith) (stored preset) refl wrote'''
                      λ later''' wrote''''. no_submodules scope values _ later''' wrote''''))
