-- ===== src/Sorting/Laws.antt =====
-- Lexicographic comparisons are orders, and what a sort and a merge under an order give.
use Prim.Native.Nat.{compare}
use rwkv_srs.Base.{
  ℕ, Ordering, true, false, List, [], ◌∷◌, ◌≡◌, ℤ, compare_ℤ, arith, Bool-cases, inl, inr,
}
use rwkv_srs.Sorting.{then_with, not_greater, IsOrder, insert_by, sort_by, merge_by}

module _ {ℓ} {A : Type ℓ} where
  pub compare-IsOrder : (f : A → ℕ) → IsOrder (λ a b. compare (f a) (f b))
  compare-IsOrder f = record { flip = λ a b. ground arith; chain = λ a b c h g. ground arith }

  pub compare_ℤ-IsOrder : (f : A → ℤ) → IsOrder (λ a b. compare_ℤ (f a) (f b))
  compare_ℤ-IsOrder f = record { flip = λ a b. ground arith; chain = λ a b c h g. ground arith }

  pub then_with-IsOrder :
      {c d : A → A → Ordering} → IsOrder c → IsOrder d → IsOrder (λ a b. then_with (c a b) (d a b))
  then_with-IsOrder {c} {d} oc od = record {
    flip = λ x y. ground (arith, oc.flip x y, od.flip x y);
    chain = λ x y z h g. ground (arith, oc.chain x y z, od.chain x y z);
  }

module _ {ℓ} {A : Type ℓ} (cmp : A → A → Ordering) where
  -- every element of the list is at least `x`
  abbrev pub AllAtLeast : A → List A → Type 0
  AllAtLeast x [] = Unit
  AllAtLeast x (y ∷ l) = (not_greater (cmp x y) ≡ true) × AllAtLeast x l

  abbrev pub Ascending : List A → Type 0
  Ascending [] = Unit
  Ascending (x ∷ l) = AllAtLeast x l × Ascending l

module _ {ℓ} {A : Type ℓ} {cmp : A → A → Ordering} (o : IsOrder cmp) where
  le-flip : (x y : A) → not_greater (cmp x y) ≡ false → not_greater (cmp y x) ≡ true
  le-flip x y h = ground (arith, o.flip x y)

  le_trans :
      (x y z : A)
      → not_greater (cmp x y) ≡ true
      → not_greater (cmp y z) ≡ true
      → not_greater (cmp x z) ≡ true
  le_trans x y z h g = ground (arith, o.chain x y z)

  AllAtLeast-trans :
      (x y : A) (l : List A)
      → not_greater (cmp x y) ≡ true
      → AllAtLeast cmp y l
      → AllAtLeast cmp x l
  AllAtLeast-trans x y [] h a = tt
  AllAtLeast-trans x y (z ∷ l) h (g, a) = (le_trans x y z h g, AllAtLeast-trans x y l h a)

  AllAtLeast-insert_by :
      (x y : A) (l : List A)
      → not_greater (cmp x y) ≡ true
      → AllAtLeast cmp x l
      → AllAtLeast cmp x (insert_by cmp y l)
  unfolding insert_by
  AllAtLeast-insert_by x y [] h a = (h, tt)
  AllAtLeast-insert_by x y (z ∷ l) h (g, a) = elim (Bool-cases (not_greater (cmp y z))) [
    | inl e ↦ rw (AllAtLeast, e) (h, (g, a))
    | inr e ↦ rw (AllAtLeast, e) (g, AllAtLeast-insert_by x y l h a)
  ]

  insert_by-Ascending : (x : A) (l : List A) → Ascending cmp l → Ascending cmp (insert_by cmp x l)
  unfolding insert_by
  insert_by-Ascending x [] s = (tt, tt)
  insert_by-Ascending x (y ∷ l) (a, s) = elim (Bool-cases (not_greater (cmp x y))) [
    | inl e ↦ rw (Ascending, e) ((e, AllAtLeast-trans x y l e a), (a, s))
    | inr e ↦
        rw (Ascending, e) (AllAtLeast-insert_by y x l (le-flip x y e) a, insert_by-Ascending x l s)
  ]

  pub sort_by-Ascending : (l : List A) → Ascending cmp (sort_by cmp l)
  unfolding sort_by
  sort_by-Ascending [] = tt
  sort_by-Ascending (x ∷ l) = insert_by-Ascending x (sort_by cmp l) (sort_by-Ascending l)

  AllAtLeast-merge_by :
      (x : A) (l r : List A)
      → AllAtLeast cmp x l
      → AllAtLeast cmp x r
      → AllAtLeast cmp x (merge_by cmp (λ y. y) l r)
  unfolding merge_by
  AllAtLeast-merge_by x [] [] a b = tt
  AllAtLeast-merge_by x [] (z ∷ r) a (g, b) = (g, AllAtLeast-merge_by x [] r a b)
  AllAtLeast-merge_by x (y ∷ l) [] a b = a
  AllAtLeast-merge_by x (y ∷ l) (z ∷ r) (h, a) (g, b) = elim (Bool-cases (not_greater (cmp y z))) [
    | inl e ↦ rw (AllAtLeast, e) (h, AllAtLeast-merge_by x l (z ∷ r) a (g, b))
    | inr e ↦ rw (AllAtLeast, e) (g, AllAtLeast-merge_by x (y ∷ l) r (h, a) b)
  ]

  pub merge_by-Ascending :
      (l r : List A) → Ascending cmp l → Ascending cmp r → Ascending cmp (merge_by cmp (λ y. y) l r)
  unfolding merge_by
  merge_by-Ascending [] [] s t = tt
  merge_by-Ascending [] (z ∷ r) s (b, t) =
      (AllAtLeast-merge_by z [] r tt b, merge_by-Ascending [] r s t)
  merge_by-Ascending (y ∷ l) [] s t = s
  merge_by-Ascending (y ∷ l) (z ∷ r) (a, s) (b, t) = elim (Bool-cases (not_greater (cmp y z))) [
    | inl e ↦
        rw (Ascending, e)
          (
            AllAtLeast-merge_by y l (z ∷ r) a (e, AllAtLeast-trans y z r e b),
            merge_by-Ascending l (z ∷ r) s (b, t),
          )
    | inr e ↦
        rw (Ascending, e)
          (
            AllAtLeast-merge_by z (y ∷ l) r
                (le-flip y z e, AllAtLeast-trans z y l (le-flip y z e) a) b,
            merge_by-Ascending (y ∷ l) r (a, s) t,
          )
  ]
