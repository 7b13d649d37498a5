-- ===== src/Sorting/Counts.antt =====
-- A sort and a merge keep how often each number occurs, and an ascending list is known by it.
use rwkv_srs.Base.{
  ℕ, ◌+◌, ◌<◌, Ordering, Bool, true, List, [], ◌∷◌, ◌≡◌, refl, arith, if◌then◌else◌, ap₂,
}
use rwkv_srs.Sorting.{not_greater, IsOrder, insert_by, sort_by, merge_by, count, keep}
use rwkv_srs.Sorting.Laws.{AllAtLeast, Ascending}

module _ (cmp : ℕ → ℕ → Ordering) where
  count-insert_by : (v x : ℕ) (l : List ℕ) → count v (insert_by cmp x l) ≡ count v (x ∷ l)
  unfolding insert_by count
  count-insert_by v x [] = refl
  count-insert_by v x (y ∷ l) = ground (arith, count-insert_by v x l)

  pub count-sort_by : (v : ℕ) (l : List ℕ) → count v (sort_by cmp l) ≡ count v l
  unfolding sort_by count
  count-sort_by v [] = refl
  count-sort_by v (x ∷ l) = grind (arith, count-insert_by v x (sort_by cmp l), count-sort_by v l)

  pub count-merge_by :
      (v : ℕ) (l r : List ℕ) → count v (merge_by cmp (λ y. y) l r) ≡ count v l + count v r
  unfolding merge_by count
  count-merge_by v [] [] = refl
  count-merge_by v [] (z ∷ r) = ground (arith, count-merge_by v [] r)
  count-merge_by v (y ∷ l) [] = ground arith
  count-merge_by v (y ∷ l) (z ∷ r) =
      ground (arith, count-merge_by v l (z ∷ r), count-merge_by v (y ∷ l) r)

  AllAtLeast-count :
      (x v : ℕ) (l : List ℕ) → AllAtLeast cmp x l → 0 < count v l → not_greater (cmp x v) ≡ true
  unfolding count
  AllAtLeast-count x v [] a h = absurd (omega arith)
  AllAtLeast-count x v (y ∷ l) (g, a) h = ground (arith, AllAtLeast-count x v l a)

  -- The comparison tells the members of the list apart.
  abbrev pub TellsApart : List ℕ → Type 0
  TellsApart l = (a b : ℕ) → 0 < count a l → 0 < count b l → cmp a b ≡ Ordering.eq → a ≡ b

pub count-keep :
    (test : ℕ → Bool) (v : ℕ) (l : List ℕ)
    → count v (keep test l) ≡ (if test v then count v l else 0)
unfolding count keep
count-keep test v [] = ground arith
count-keep test v (x ∷ l) = ground (arith, count-keep test v l)

module _ (cmp : ℕ → ℕ → Ordering) (o : IsOrder cmp) where
  heads_eq :
      (x y : ℕ) (l r : List ℕ)
      → Ascending cmp (x ∷ l)
      → Ascending cmp (y ∷ r)
      → ((v : ℕ) → count v (x ∷ l) ≡ count v (y ∷ r))
      → TellsApart cmp (x ∷ l)
      → x ≡ y
  unfolding count
  heads_eq x y l r (a, s) (b, t) same tells =
      let at_x = same x in
      let at_y = same y in
      ground
        (arith, AllAtLeast-count cmp x y l a, AllAtLeast-count cmp y x r b, o.flip x y, tells x y)

  -- Two ascending lists with the same counts are one list.
  pub Ascending-eq_of_count :
      (l r : List ℕ)
      → Ascending cmp l
      → Ascending cmp r
      → ((v : ℕ) → count v l ≡ count v r)
      → TellsApart cmp l
      → l ≡ r
  unfolding count
  Ascending-eq_of_count [] [] s t same tells = refl
  Ascending-eq_of_count [] (y ∷ r) s t same tells = let at_y = same y in ground arith
  Ascending-eq_of_count (x ∷ l) [] s t same tells = let at_x = same x in ground arith
  Ascending-eq_of_count (x ∷ l) (y ∷ r) s t same tells =
      let e : x ≡ y = heads_eq x y l r s t same tells in
      ap₂ ◌∷◌ e (
        Ascending-eq_of_count l r s.1 t.1 (λ v. let at = same v in ground arith)
          λ a b h g. tells a b (ground arith) (ground arith))
