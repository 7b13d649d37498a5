-- ===== src/Map.antt =====
-- `BTreeMap<i64, V>` and `BTreeSet<i64>` of the standard library: the entries in the order of
-- their keys, which is the order that an iteration sees.
pub mod Laws
pub mod Touch
use rwkv_srs.Base.{
  ℤ, compare_ℤ, ◌<ℤ◌, Ordering, Bool, is_some, Option, none, some, List, [], ◌∷◌, if◌then◌else◌,
}

abbrev pub Map {ℓ} : Type ℓ → Type ℓ
Map V = List (ℤ × V)

module _ {ℓ} {V : Type ℓ} where
  unfoldable pub get : ℤ → Map V → Option V
  get k [] = none
  get k ((j, w) ∷ m) =
      let rest = get k m in elim (compare_ℤ k j) [ Ordering.eq ↦ some w | _ ↦ rest ]

  unfoldable pub insert : ℤ → V → Map V → Map V
  insert k v [] = (k, v) ∷ []
  insert k v ((j, w) ∷ m) =
      let rest = insert k v m in
      elim (compare_ℤ k j) [
        | Ordering.lt ↦ (k, v) ∷ (j, w) ∷ m
        | Ordering.eq ↦ (k, v) ∷ m
        | Ordering.gt ↦ (j, w) ∷ rest
      ]

  unfoldable pub remove : ℤ → Map V → Map V
  remove k [] = []
  remove k ((j, w) ∷ m) =
      let rest = remove k m in elim (compare_ℤ k j) [ Ordering.eq ↦ m | _ ↦ (j, w) ∷ rest ]

  -- `contains_key`, and `contains` of a set
  unfoldable pub has : ℤ → Map V → Bool
  has k m = is_some (get k m)

  -- Every key is above `k`.
  abbrev pub Above : ℤ → Map V → Type 0
  Above k [] = Unit
  Above k ((j, w) ∷ m) = (k <ℤ j) × Above k m

  -- The keys rise, so each stands once.
  abbrev pub IsSorted : Map V → Type 0
  IsSorted [] = Unit
  IsSorted ((k, v) ∷ m) = Above k m × IsSorted m

-- A set is a map to the unit type.
abbrev pub Set : Type 0
Set = Map (Unit {0})

abbrev pub set_insert : ℤ → Set → Set
set_insert k s = insert k tt s
