-- ===== src/Checkpoint/Select.antt =====
-- A sorted map that is inserted entry by entry, the selected ones only, as a restore of
-- rust/rwkv-srs-cpu/src/model/checkpoint_bin.rs does and as `retain` filters.
use rwkv_srs.Base.{
  ℤ, ◌<ℤ◌, [], ◌∷◌, ◌++◌, Option, none, ◌≡◌, refl, ap, ◌∙◌, sym, append-nil, append_assoc,
  if◌then◌else◌, Bool-cases, inl, inr, arith, true, false,
}
use rwkv_srs.Checkpoint.Maps.{is_selected}
use rwkv_srs.Map.{Map, Set, insert, IsSorted, Above}

module _ {ℓ} {V : Type ℓ} where
  -- `retain` by the selected keys
  unfoldable pub select : Option Set → Map V → Map V
  select selected [] = []
  select selected ((key, value) ∷ m) =
      let rest = select selected m in if is_selected selected key then (key, value) ∷ rest else rest

  -- What a loop of insertions makes of a map.
  unfoldable pub load : Option Set → Map V → Map V → Map V
  load selected [] values = values
  load selected ((key, value) ∷ m) values =
      load selected m (if is_selected selected key then insert key value values else values)

  pub load-nil : (selected : Option Set) (values : Map V) → load selected [] values ≡ values
  unfolding load
  load-nil selected values = refl

  pub load-chosen :
      (selected : Option Set) (k : ℤ) (v : V) (m values : Map V)
      → is_selected selected k ≡ true
      → load selected ((k, v) ∷ m) values ≡ load selected m (insert k v values)
  unfolding load
  load-chosen selected k v m values e = rw e

  pub load-passed :
      (selected : Option Set) (k : ℤ) (v : V) (m values : Map V)
      → is_selected selected k ≡ false
      → load selected ((k, v) ∷ m) values ≡ load selected m values
  unfolding load
  load-passed selected k v m values e = rw e

  Below : Map V → ℤ → Type 0
  Below [] k = Unit
  Below ((j, _) ∷ m) k = (j <ℤ k) × Below m k

  Before : Map V → Map V → Type 0
  unfolding Below
  Before values [] = Unit
  Before values ((k, _) ∷ m) = Below values k × Before values m

  Before-nil : (m : Map V) → Before [] m
  unfolding Before Below
  Before-nil [] = tt
  Before-nil (e ∷ m) = (tt, Before-nil m)

  Below-append :
      (values : Map V) (k j : ℤ) (v : V) → Below values j → k <ℤ j → Below (values ++ (k, v) ∷ []) j
  unfolding Below
  Below-append [] k j v h lt = (lt, tt)
  Below-append ((i, w) ∷ values) k j v (l, h) lt = (l, Below-append values k j v h lt)

  Before-append :
      (values m : Map V) (k : ℤ) (v : V)
      → Before values m
      → Above k m
      → Before (values ++ (k, v) ∷ []) m
  unfolding Before
  Before-append values [] k v h a = tt
  Before-append values ((j, w) ∷ m) k v (l, h) (lt, a) =
      (Below-append values k j v l lt, Before-append values m k v h a)

  insert-last :
      (k : ℤ) (v : V) (values : Map V) → Below values k → insert k v values ≡ values ++ (k, v) ∷ []
  unfolding insert Below
  insert-last k v [] h = refl
  insert-last k v ((j, w) ∷ values) (lt, h) = ground (arith, insert-last k v values h)

  load-append :
      (selected : Option Set) (m values : Map V)
      → IsSorted m
      → Before values m
      → load selected m values ≡ values ++ select selected m
  unfolding load select Before
  load-append selected [] values s b = sym (append-nil values)
  load-append selected ((k, v) ∷ m) values (a, s) (l, b) =
      elim (Bool-cases (is_selected selected k)) [
        | inl e ↦
            rw (e, insert-last k v values l)
              (load-append selected m _ s (Before-append values m k v b a)
                ∙ append_assoc values ((k, v) ∷ []) (select selected m))
        | inr e ↦ rw e (load-append selected m values s b)
      ]

  -- Inserting the entries of a sorted map in turn keeps the selected ones, in their order.
  pub load-select :
      (selected : Option Set) (m : Map V) → IsSorted m → load selected m [] ≡ select selected m
  load-select selected m s = load-append selected m [] s (Before-nil m)

  pub select-none : (m : Map V) → select none m ≡ m
  unfolding select is_selected
  select-none [] = refl
  select-none (e ∷ m) = ap (e ∷◌) (select-none m)
