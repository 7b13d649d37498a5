-- ===== src/Map/Laws.antt =====
-- Lookup after a write, the order of the keys, and extensionality of sorted maps.
use rwkv_srs.Base.{
  ℤ, compare_ℤ_cases, eq_of_parts, ◌<ℤ◌, none, some, [], ◌∷◌, ◌≡◌, ◌≢◌, refl, ◌∙◌, sym, ℤ-discrete,
  inl, inr, arith,
}
use rwkv_srs.Map.{Map, get, insert, remove, Above, IsSorted}

module _ {ℓ} {V : Type ℓ} where
  get-head : (k : ℤ) (v : V) (m : Map V) → get k ((k, v) ∷ m) ≡ some v
  unfolding get
  get-head k v m = ground arith

  get-tail : (j k : ℤ) (v : V) (m : Map V) → j ≢ k → get j ((k, v) ∷ m) ≡ get j m
  unfolding get
  get-tail j k v m h = ground (arith, eq_of_parts j k)

  get-cons :
      (j i : ℤ) (w : V) (m n : Map V) → get j m ≡ get j n → get j ((i, w) ∷ m) ≡ get j ((i, w) ∷ n)
  unfolding get
  get-cons j i w m n h = elim (compare_ℤ_cases j i) [
    | inl (e, lt) ↦ rw (e, get) h
    | inr (inl (e, same)) ↦ rw (e, get)
    | inr (inr (e, gt)) ↦ rw (e, get) h
  ]

  pub get-insert_self : (k : ℤ) (v : V) (m : Map V) → get k (insert k v m) ≡ some v
  unfolding get insert
  get-insert_self k v [] = ground arith
  get-insert_self k v ((j, w) ∷ m) = ground (arith, get-insert_self k v m)

  pub get-insert_ne : (j k : ℤ) (v : V) (m : Map V) → j ≢ k → get j (insert k v m) ≡ get j m
  unfolding get insert
  get-insert_ne j k v [] h = ground (arith, eq_of_parts j k)
  get-insert_ne j k v ((i, w) ∷ m) h = elim (compare_ℤ_cases k i) [
    | inl (e, lt) ↦ rw (e, insert) (get-tail j k v ((i, w) ∷ m) h)
    | inr (inl (e, same)) ↦
        rw (e, insert) (get-tail j k v m h ∙ sym (get-tail j i w m (rw same at h)))
    | inr (inr (e, gt)) ↦ rw (e, insert) (get-cons j i w _ _ (get-insert_ne j k v m h))
  ]

  pub Above-get : (k j : ℤ) (m : Map V) → Above k m → (j ≡ k) → get j m ≡ none
  unfolding get
  Above-get k j [] a h = refl
  Above-get k j ((i, w) ∷ m) (lt, a) h = ground (arith, Above-get k j m a h)

  pub Above-trans : (j k : ℤ) (m : Map V) → j <ℤ k → Above k m → Above j m
  Above-trans j k [] lt a = tt
  Above-trans j k ((i, w) ∷ m) lt (l, a) = (omega arith, Above-trans j k m lt a)

  pub Above-insert : (k j : ℤ) (v : V) (m : Map V) → Above k m → k <ℤ j → Above k (insert j v m)
  unfolding insert
  Above-insert k j v [] a h = (h, tt)
  Above-insert k j v ((i, w) ∷ m) (l, a) h = ground (arith, Above-insert k j v m a h)

  pub insert-IsSorted : (k : ℤ) (v : V) (m : Map V) → IsSorted m → IsSorted (insert k v m)
  unfolding insert
  insert-IsSorted k v [] s = (tt, tt)
  insert-IsSorted k v ((j, w) ∷ m) (a, s) = elim (compare_ℤ_cases k j) [
    | inl (e, lt) ↦ rw (IsSorted, e) ((lt, Above-trans k j m lt a), (a, s))
    | inr (inl (e, same)) ↦ rw (IsSorted, e) (rw same a, s)
    | inr (inr (e, gt)) ↦ rw (IsSorted, e) (Above-insert j k v m a gt, insert-IsSorted k v m s)
  ]

  pub Above-remove : (k j : ℤ) (m : Map V) → Above k m → Above k (remove j m)
  unfolding remove
  Above-remove k j [] a = tt
  Above-remove k j ((i, w) ∷ m) (l, a) = ground (arith, Above-remove k j m a)

  pub remove-IsSorted : (k : ℤ) (m : Map V) → IsSorted m → IsSorted (remove k m)
  unfolding remove
  remove-IsSorted k [] s = tt
  remove-IsSorted k ((j, w) ∷ m) (a, s) =
      ground (arith, remove-IsSorted k m s, Above-remove j k m a)

  pub get-remove_self : (k : ℤ) (m : Map V) → IsSorted m → get k (remove k m) ≡ none
  unfolding get remove
  get-remove_self k [] s = refl
  get-remove_self k ((j, w) ∷ m) (a, s) =
      ground (arith, get-remove_self k m s, Above-get j k m a, eq_of_parts k j)

  pub get-remove_ne : (j k : ℤ) (m : Map V) → j ≢ k → get j (remove k m) ≡ get j m
  unfolding get remove
  get-remove_ne j k [] h = refl
  get-remove_ne j k ((i, w) ∷ m) h =
      ground (arith, get-remove_ne j k m h, eq_of_parts j i, eq_of_parts k i)

  Above-get_lt : (k j : ℤ) (m : Map V) → Above k m → j <ℤ k → get j m ≡ none
  unfolding get
  Above-get_lt k j [] a h = refl
  Above-get_lt k j ((i, w) ∷ m) (l, a) h = ground (arith, Above-get_lt k j m a h)

  -- A key below the head is not in a sorted map.
  get_below : (j k : ℤ) (v : V) (m : Map V) → Above k m → j <ℤ k → get j ((k, v) ∷ m) ≡ none
  unfolding get
  get_below j k v m a lt = ground (arith, Above-get_lt k j m a lt)

  pub none-ne-some : (v : V) → none ≢ some v
  none-ne-some v e = cc

  get-nil : (k : ℤ) → get {V = V} k [] ≡ none
  unfolding get
  get-nil k = refl

  -- The tails of two sorted maps with one head have the same lookups.
  ext_tail :
      (k : ℤ) (v w : V) (m n : Map V)
      → Above k m
      → Above k n
      → ((i : ℤ) → get i ((k, v) ∷ m) ≡ get i ((k, w) ∷ n))
      → (i : ℤ) → get i m ≡ get i n
  ext_tail k v w m n a b h i = elim (ℤ-discrete i k) [
    | yes same ↦ Above-get k i m a same ∙ sym (Above-get k i n b same)
    | no other ↦ sym (get-tail i k v m other) ∙ h i ∙ get-tail i k w n other
  ]

  -- Two sorted maps with the same lookups are the same list of entries.
  pub ext : (m n : Map V) → IsSorted m → IsSorted n → ((k : ℤ) → get k m ≡ get k n) → m ≡ n
  ext [] [] s t h = refl
  ext [] ((j, w) ∷ n) s t h = absurd (none-ne-some w (sym (get-nil j) ∙ h j ∙ get-head j w n))
  ext ((k, v) ∷ m) [] s t h = absurd (none-ne-some v (sym (get-nil k) ∙ sym (h k) ∙ get-head k v m))
  ext ((k, v) ∷ m) ((j, w) ∷ n) (a, s) (b, t) h = elim (compare_ℤ_cases k j) [
    | inl (e, lt) ↦
        absurd (none-ne-some v (sym (get_below k j w n b lt) ∙ sym (h k) ∙ get-head k v m))
    | inr (inr (e, gt)) ↦
        absurd (none-ne-some w (sym (get_below j k v m a gt) ∙ h j ∙ get-head j w n))
    | inr (inl (e, same)) ↦
        let a' : Above j m = rw same at a in
        let h' : (i : ℤ) → get i ((j, v) ∷ m) ≡ get i ((j, w) ∷ n) = rw same at h in
        let heads : some v ≡ some w = sym (get-head j v m) ∙ h' j ∙ get-head j w n in
        let tails : m ≡ n = ext m n s t (ext_tail j v w m n a' b h') in cc
  ]
