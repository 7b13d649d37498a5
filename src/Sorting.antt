-- ===== src/Sorting.antt =====
-- Comparisons, and the sort and the merge that use them: `Ordering::then_with`,
-- `sort_unstable_by` and the merge loop of rust/rwkv-srs-cpu/src/model/live_session.rs.
use rwkv_srs.Base.{
  ℕ, suc, ◌+◌, ◌==◌, Ordering, Bool, true, false, List, [], ◌∷◌, ◌≡◌, if◌then◌else◌,
}
pub mod Laws
pub mod Counts

-- `Ordering::then_with`, and `Ordering::reverse`
abbrev pub then_with : Ordering → Ordering → Ordering
then_with Ordering.lt later = Ordering.lt
then_with Ordering.eq later = later
then_with Ordering.gt later = Ordering.gt

abbrev pub reverse : Ordering → Ordering
reverse Ordering.lt = Ordering.gt
reverse Ordering.eq = Ordering.eq
reverse Ordering.gt = Ordering.lt

-- `comparison != Ordering::Greater`
abbrev pub not_greater : Ordering → Bool
not_greater Ordering.lt = true
not_greater Ordering.eq = true
not_greater Ordering.gt = false

-- What `sort_unstable_by` asks of its comparison: a total preorder.
pub record IsOrder {ℓ} {A : Type ℓ} (cmp : A → A → Ordering) : Type ℓ where
  pub flip : (a b : A) → cmp b a ≡ reverse (cmp a b)
  pub chain :
      (a b c : A)
      → not_greater (cmp a b) ≡ true
      → not_greater (cmp b c) ≡ true
      → cmp a c ≡ then_with (cmp a b) (cmp b c)

module _ {ℓ} {A : Type ℓ} where
  unfoldable pub insert_by : (A → A → Ordering) → A → List A → List A
  insert_by cmp x [] = x ∷ []
  insert_by cmp x (y ∷ l) = elim (not_greater (cmp x y)) [
    | true ↦ x ∷ y ∷ l
    | false ↦ y ∷ insert_by cmp x l
  ]

  -- The sorted list, which is unique where the comparison tells the elements apart.
  unfoldable pub sort_by : (A → A → Ordering) → List A → List A
  unfolding insert_by
  sort_by cmp [] = []
  sort_by cmp (x ∷ l) = insert_by cmp x (sort_by cmp l)

module _ {ℓ κ} {A : Type ℓ} {B : Type κ} where
  -- The merge loop: of two heads the left one goes first unless it is greater.
  unfoldable pub merge_by : (A → B → Ordering) → (B → A) → List A → List B → List A
  merge_by cmp of [] [] = []
  merge_by cmp of [] (y ∷ ys) = of y ∷ merge_by cmp of [] ys
  merge_by cmp of (x ∷ xs) [] = x ∷ xs
  merge_by cmp of (x ∷ xs) (y ∷ ys) = elim (not_greater (cmp x y)) [
    | true ↦ x ∷ merge_by cmp of xs (y ∷ ys)
    | false ↦ of y ∷ merge_by cmp of (x ∷ xs) ys
  ]

-- How often a number stands in a list.
unfoldable pub count : ℕ → List ℕ → ℕ
count v [] = 0
count v (x ∷ xs) = if x == v then suc (count v xs) else count v xs

unfoldable pub elem : ℕ → List ℕ → Bool
elem v [] = false
elem v (x ∷ xs) = if x == v then true else elem v xs

unfoldable pub keep {ℓ} : {A : Type ℓ} → (A → Bool) → List A → List A
keep test [] = []
keep test (x ∷ xs) = if test x then x ∷ keep test xs else keep test xs
