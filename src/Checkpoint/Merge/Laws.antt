-- ===== src/Checkpoint/Merge/Laws.antt =====
-- What a merge of checkpoint_bin.rs (rust/rwkv-srs-cpu/src/model) writes: the backing map without the
-- selected keys, and all current entries inserted.
use rwkv_srs.Map.Laws.{Above-trans}
use rwkv_srs.Base.{
  [], ◌∷◌, ◌++◌, ℤ, compare_ℤ, Ordering, if◌then◌else◌, eqb_ℤ, ◌<ℤ◌, ◌≡◌, Bool-cases, inl, arith,
  refl, inr, compare_ℤ_cases, ap, eqb_ℤ_iff, pos_part, ◌≤ℤ◌, false, ◌∙◌, sym, neg_part,
}
use rwkv_srs.Map.{Map, Set, has, insert, Above, IsSorted}

eqb-above : (j k : ℤ) → k <ℤ j → eqb_ℤ j k ≡ false
eqb-above j k lt = ground arith

module _ {V : Type 0} where
  -- `retain` by the keys that are not selected
  unfoldable pub without : Set → Map V → Map V
  without selected [] = []
  without selected ((k, v) ∷ m) =
      let rest = without selected m in if has k selected then rest else (k, v) ∷ rest

  -- The current entries put over the backing ones.
  unfoldable pub overlay : Map V → Map V → Map V
  overlay [] base = base
  overlay ((k, v) ∷ m) base = overlay m (insert k v base)

  unfoldable pub below : ℤ → Map V → Map V
  below k [] = []
  below k ((j, w) ∷ m) =
      let rest = below k m in elim (compare_ℤ j k) [ Ordering.lt ↦ (j, w) ∷ rest | _ ↦ [] ]

  unfoldable pub from : ℤ → Map V → Map V
  from k [] = []
  from k ((j, w) ∷ m) =
      let rest = from k m in elim (compare_ℤ j k) [ Ordering.lt ↦ rest | _ ↦ (j, w) ∷ m ]

  -- What is written at a key, and the current entries behind it.
  unfoldable pub at_key : Set → ℤ → V → Map V → Map V
  at_key selected k v [] = if has k selected then [] else (k, v) ∷ []
  at_key selected k v ((j, w) ∷ m) =
      if eqb_ℤ j k then (j, w) ∷ [] else if has k selected then [] else (k, v) ∷ []

  unfoldable pub behind_key : ℤ → Map V → Map V
  behind_key k [] = []
  behind_key k ((j, w) ∷ m) = if eqb_ℤ j k then m else (j, w) ∷ m

  -- The order in which the loop writes.
  unfoldable pub merged : Set → Map V → Map V → Map V
  merged selected [] current = current
  merged selected ((k, v) ∷ backing) current =
      below k current
      ++ (at_key selected k v (from k current)
          ++ merged selected backing (behind_key k (from k current)))

  insert-front : (k : ℤ) (v : V) (m : Map V) → Above k m → insert k v m ≡ (k, v) ∷ m
  unfolding insert
  insert-front k v [] a = refl
  insert-front k v ((j, w) ∷ m) (lt, a) = ground arith

  -- Entries that are put over a map behind its first entry leave that in place.
  overlay-head :
      (j : ℤ) (w : V) (m base : Map V)
      → Above j m
      → overlay m ((j, w) ∷ base) ≡ (j, w) ∷ overlay m base
  unfolding overlay insert
  overlay-head j w [] base a = refl
  overlay-head j w ((k, v) ∷ m) base (lt, a) =
      let behind : insert k v ((j, w) ∷ base) ≡ (j, w) ∷ insert k v base = ground arith in
      rw behind (overlay-head j w m (insert k v base) a)

  without-Above : (selected : Set) (k : ℤ) (m : Map V) → Above k m → Above k (without selected m)
  unfolding without
  without-Above selected k [] a = tt
  without-Above selected k ((j, w) ∷ m) (lt, a) = elim (Bool-cases (has j selected)) [
    | inl e ↦ rw e (without-Above selected k m a)
    | inr e ↦ rw e (lt, without-Above selected k m a)
  ]

  abbrev one : Set → ℤ → V → Map V → Map V
  one selected k v rest = if has k selected then rest else (k, v) ∷ rest

  -- The entry of the same key goes.
  insert-same :
      (selected : Set) (k : ℤ) (v w : V) (rest : Map V)
      → Above k rest
      → insert k w (one selected k v rest) ≡ (k, w) ∷ rest
  unfolding insert
  insert-same selected k v w rest a = elim (Bool-cases (has k selected)) [
    | inl e ↦ rw e (insert-front k w rest a)
    | inr e ↦ rw e (ground arith)
  ]

  one-Above :
      (selected : Set) (j k : ℤ) (v : V) (rest : Map V)
      → j <ℤ k
      → Above k rest
      → Above j (one selected k v rest)
  one-Above selected j k v rest lt a = elim (Bool-cases (has k selected)) [
    | inl e ↦ rw e (Above-trans j k rest lt a)
    | inr e ↦ rw e (lt, Above-trans j k rest lt a)
  ]

  abbrev step : Set → ℤ → V → Map V → Map V → Map V
  step selected k v current rest =
      below k current
      ++ (at_key selected k v (from k current) ++ overlay (behind_key k (from k current)) rest)

  below-lt :
      (j k : ℤ) (w : V) (m : Map V)
      → compare_ℤ j k ≡ Ordering.lt
      → below k ((j, w) ∷ m) ≡ (j, w) ∷ below k m
  unfolding below
  below-lt j k w m e = rw (e, below)

  from-lt :
      (j k : ℤ) (w : V) (m : Map V) → compare_ℤ j k ≡ Ordering.lt → from k ((j, w) ∷ m) ≡ from k m
  unfolding from
  from-lt j k w m e = rw (e, from)

  -- At a key that is not below, nothing is passed.
  below-stop : (j k : ℤ) (w : V) (m : Map V) → k ≤ℤ j → below k ((j, w) ∷ m) ≡ []
  unfolding below
  below-stop j k w m h = ground arith

  from-stop : (j k : ℤ) (w : V) (m : Map V) → k ≤ℤ j → from k ((j, w) ∷ m) ≡ (j, w) ∷ m
  unfolding from
  from-stop j k w m h = ground arith

  at_key-same :
      (selected : Set) (j k : ℤ) (v w : V) (m : Map V)
      → j ≡ k
      → at_key selected k v ((j, w) ∷ m) ≡ (j, w) ∷ []
  unfolding at_key
  at_key-same selected j k v w m e = rw ((eqb_ℤ_iff j k).1 e)

  behind_key-same : (j k : ℤ) (w : V) (m : Map V) → j ≡ k → behind_key k ((j, w) ∷ m) ≡ m
  unfolding behind_key
  behind_key-same j k w m e = rw ((eqb_ℤ_iff j k).1 e)

  at_key-above :
      (selected : Set) (j k : ℤ) (v w : V) (m : Map V)
      → k <ℤ j
      → at_key selected k v ((j, w) ∷ m) ≡ (if has k selected then [] else (k, v) ∷ [])
  unfolding at_key
  at_key-above selected j k v w m lt = rw (eqb-above j k lt)

  behind_key-above : (j k : ℤ) (w : V) (m : Map V) → k <ℤ j → behind_key k ((j, w) ∷ m) ≡ (j, w) ∷ m
  unfolding behind_key
  behind_key-above j k w m lt = rw (eqb-above j k lt)

  overlay-nil : (base : Map V) → overlay [] base ≡ base
  unfolding overlay
  overlay-nil base = refl

  overlay-cons :
      (k : ℤ) (v : V) (m base : Map V) → overlay ((k, v) ∷ m) base ≡ overlay m (insert k v base)
  unfolding overlay
  overlay-cons k v m base = refl

  overlay-onto-nil : (m : Map V) → IsSorted m → m ≡ overlay m []
  unfolding overlay insert
  overlay-onto-nil [] s = refl
  overlay-onto-nil ((k, v) ∷ m) (a, s) =
      ap ((k, v) ∷◌) (overlay-onto-nil m s) ∙ sym (overlay-head k v m [] a)

  overlay-step-nil :
      (selected : Set) (k : ℤ) (v : V) (rest : Map V)
      → overlay [] (one selected k v rest) ≡ step selected k v [] rest
  unfolding overlay below from at_key behind_key
  overlay-step-nil selected k v rest = elim (Bool-cases (has k selected)) [
    | inl e ↦ rw e
    | inr e ↦ rw e
  ]

  -- What the loop writes at one backing key puts the current entries up to that key in place.
  overlay-step :
      (selected : Set) (k : ℤ) (v : V) (current rest : Map V)
      → IsSorted current
      → Above k rest
      → overlay current (one selected k v rest) ≡ step selected k v current rest
  overlay-step selected k v [] rest s a = overlay-step-nil selected k v rest
  overlay-step selected k v ((j, w) ∷ current) rest (b, s) a = elim (compare_ℤ_cases j k) [
    | inl (e, lt) ↦
        rw
          (
            overlay-cons j w current (one selected k v rest),
            insert-front j w (one selected k v rest) (one-Above selected j k v rest lt a),
            overlay-head j w current (one selected k v rest) b,
            below-lt j k w current e,
            from-lt j k w current e,
          )
          (ap ((j, w) ∷◌) (overlay-step selected k v current rest s a))
    | inr (inl (e, same)) ↦
        rw
          (
            overlay-cons j w current (one selected k v rest),
            below-stop j k w current (omega (arith, ap pos_part same, ap neg_part same)),
            from-stop j k w current (omega (arith, ap pos_part same, ap neg_part same)),
            at_key-same selected j k v w current same,
            behind_key-same j k w current same,
            replaced j w same,
          )
          (overlay-head j w current rest b)
    | inr (inr (e, gt)) ↦
        rw
          (
            below-stop j k w current (omega arith),
            from-stop j k w current (omega arith),
            at_key-above selected j k v w current gt,
            behind_key-above j k w current gt,
          )
          (elim (Bool-cases (has k selected)) [
            | inl x ↦ rw x
            | inr x ↦
                rw x (overlay-head k v ((j, w) ∷ current) rest (gt, Above-trans k j current gt b))
          ])
  ]
    where
      replaced : (j : ℤ) (w : V) → j ≡ k → insert j w (one selected k v rest) ≡ (j, w) ∷ rest
      replaced j w same = rw same (insert-same selected k v w rest a)

  behind_key-IsSorted : (k : ℤ) (m : Map V) → IsSorted m → IsSorted (behind_key k (from k m))
  unfolding behind_key from
  behind_key-IsSorted k [] s = tt
  behind_key-IsSorted k ((j, w) ∷ m) (b, s) = ground (arith, behind_key-IsSorted k m s)

  -- The order of the loop is that of the backing map without the selected keys under the current one.
  pub merged-overlay :
      (selected : Set) (backing current : Map V)
      → IsSorted backing
      → IsSorted current
      → merged selected backing current ≡ overlay current (without selected backing)
  unfolding merged without
  merged-overlay selected [] current t s = overlay-onto-nil current s
  merged-overlay selected ((k, v) ∷ backing) current (a, t) s =
      rw (merged-overlay selected backing _ t (behind_key-IsSorted k current s)) (
        sym (
          overlay-step selected k v current (without selected backing) s
            (without-Above selected k backing a)))
