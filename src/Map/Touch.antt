-- ===== src/Map/Touch.antt =====
-- Writes that touch only some keys, and the journal of a map that undoes them: `restore_map_entry`,
-- `capture_map_entries` and `restore_map_entries` of model/undo.rs.
use rwkv_srs.Base.{
  ℤ, ℤ-discrete, Option, none, some, List, [], ◌∷◌, ◌≡◌, ◌≢◌, refl, ◌∙◌, ◌⊎◌, inl, inr,
}
use rwkv_srs.Map.{Map, get, insert, remove, IsSorted}
use rwkv_srs.Map.Laws.{
  get-insert_self, get-insert_ne, get-remove_self, get-remove_ne, insert-IsSorted, remove-IsSorted,
  ext,
}

-- `j` is none of the keys.
abbrev pub Misses : ℤ → List ℤ → Type 0
Misses j [] = Unit
Misses j (k ∷ ks) = (j ≢ k) × Misses j ks

-- One of the keys.
abbrev pub Hits : ℤ → List ℤ → Type 0
Hits k [] = ⊥
Hits k (j ∷ js) = (k ≡ j) ⊎ Hits k js

pub ne_of_Misses : (j k : ℤ) (ks : List ℤ) → Misses j ks → Hits k ks → j ≢ k
ne_of_Misses j k [] h t = absurd t
ne_of_Misses j k (i ∷ ks) (n, h) (inl e) = λ same. n (same ∙ e)
ne_of_Misses j k (i ∷ ks) (n, h) (inr t) = ne_of_Misses j k ks h t

module _ {ℓ} {V : Type ℓ} where
  unfoldable pub restore_map_entry : Map V → ℤ → Option V → Map V
  restore_map_entry m k (some v) = insert k v m
  restore_map_entry m k none = remove k m

  -- `keys.iter().map(|key| (key, map.get(&key).cloned()))`
  unfoldable pub capture_map_entries : Map V → List ℤ → List (ℤ × Option V)
  capture_map_entries m [] = []
  capture_map_entries m (k ∷ ks) = (k, get k m) ∷ capture_map_entries m ks

  unfoldable pub restore_map_entries : Map V → List (ℤ × Option V) → Map V
  restore_map_entries m [] = m
  restore_map_entries m ((k, v) ∷ rest) = restore_map_entries (restore_map_entry m k v) rest

  -- `n` is sorted, and differs from `m` at the keys `ks` at most.
  pub record Touches (ks : List ℤ) (m n : Map V) : Type ℓ where
    pub sorted : IsSorted n
    pub kept : (j : ℤ) → Misses j ks → get j n ≡ get j m

  pub Touches-refl : (ks : List ℤ) (m : Map V) → IsSorted m → Touches ks m m
  Touches-refl ks m s = record { sorted = s; kept = λ j h. refl }

  pub Touches-trans :
      {ks : List ℤ} {l m n : Map V} → Touches ks l m → Touches ks m n → Touches ks l n
  Touches-trans p q = record { sorted = q.sorted; kept = λ j h. q.kept j h ∙ p.kept j h }

  pub Touches-insert :
      (ks : List ℤ) (k : ℤ) (v : V) {m n : Map V}
      → Hits k ks
      → Touches ks m n
      → Touches ks m (insert k v n)
  Touches-insert ks k v {n = n} t p = record {
    sorted = insert-IsSorted k v n p.sorted;
    kept = λ j h. get-insert_ne j k v n (ne_of_Misses j k ks h t) ∙ p.kept j h;
  }

  restore_map_entry-IsSorted :
      (m : Map V) (k : ℤ) (o : Option V) → IsSorted m → IsSorted (restore_map_entry m k o)
  unfolding restore_map_entry
  restore_map_entry-IsSorted m k (some v) s = insert-IsSorted k v m s
  restore_map_entry-IsSorted m k none s = remove-IsSorted k m s

  get-restore_self :
      (m : Map V) (k : ℤ) (o : Option V) → IsSorted m → get k (restore_map_entry m k o) ≡ o
  unfolding restore_map_entry
  get-restore_self m k (some v) s = get-insert_self k v m
  get-restore_self m k none s = get-remove_self k m s

  get-restore_ne :
      (m : Map V) (j k : ℤ) (o : Option V) → j ≢ k → get j (restore_map_entry m k o) ≡ get j m
  unfolding restore_map_entry
  get-restore_ne m j k (some v) h = get-insert_ne j k v m h
  get-restore_ne m j k none h = get-remove_ne j k m h

  -- Each entry that is put back takes its key out of those that differ.
  Touches-restore :
      (k : ℤ) (ks : List ℤ) (m n : Map V)
      → Touches (k ∷ ks) m n
      → Touches ks m (restore_map_entry n k (get k m))
  Touches-restore k ks m n p = record {
    sorted = restore_map_entry-IsSorted n k (get k m) p.sorted;
    kept = λ j h. elim (ℤ-discrete j k) [
      | yes e ↦ rw e (get-restore_self n k (get k m) p.sorted)
      | no e ↦ get-restore_ne n j k (get k m) e ∙ p.kept j (e, h)
    ];
  }

  -- The journal of the touched keys gives the map back, entry for entry.
  pub restore-capture_map_entries :
      (ks : List ℤ) (m n : Map V)
      → IsSorted m
      → Touches ks m n
      → restore_map_entries n (capture_map_entries m ks) ≡ m
  unfolding restore_map_entries capture_map_entries
  restore-capture_map_entries [] m n s p = ext n m p.sorted s (λ j. p.kept j tt)
  restore-capture_map_entries (k ∷ ks) m n s p =
      restore-capture_map_entries ks m (restore_map_entry n k (get k m)) s
        (Touches-restore k ks m n p)

  -- The same with one touched key.
  pub restore_map_entry-get :
      (k : ℤ) (m n : Map V)
      → IsSorted m
      → Touches (k ∷ []) m n
      → restore_map_entry n k (get k m) ≡ m
  unfolding restore_map_entries capture_map_entries
  restore_map_entry-get k m n s p = restore-capture_map_entries (k ∷ []) m n s p
