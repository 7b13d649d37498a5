-- ===== src/Live/Select/Loop.antt =====
-- A selection loop selects the first slots that pass, up to the limit, and marks them.
use rwkv_srs.Base.{
  [], ◌∷◌, zero, suc, ℕ, List, length, true, false, Bool, ◌==◌, ◌≡◌, ◌++◌, ◌<◌, ◌||◌, arith, ◌≤◌,
  refl, take, ◌-◌, sym, leb, ◌+◌, append-nil, length-append, Bool-cases, append_assoc, inl, inr,
  ◌∙◌, length-set,
}
use rwkv_srs.Live.{LivePredictionSessionState}
use rwkv_srs.Live.Order.{is_marked}
use rwkv_srs.Live.Order.Marks.{get_or-set, AllBelow}
use rwkv_srs.Live.Select.{select_slot, select_loop}
use rwkv_srs.Sorting.{elem, keep, count}

-- The marked slots are the selected ones.
abbrev pub MarksSelected : LivePredictionSessionState → Type 0
MarksSelected s = (v : ℕ) → is_marked s v ≡ elem v s.selected_scratch

elem-append_one : (v x : ℕ) (xs : List ℕ) → elem v (xs ++ x ∷ []) ≡ (elem v xs || (x == v))
unfolding elem
elem-append_one v x [] = ground arith
elem-append_one v x (y ∷ xs) = ground (arith, elem-append_one v x xs)

pub select_slot-MarksSelected :
    (s : LivePredictionSessionState) (slot : ℕ)
    → slot < length s.update_marks
    → MarksSelected s
    → MarksSelected (select_slot s slot)
unfolding select_slot
select_slot-MarksSelected s slot h marks v = ground (
  arith,
  marks v,
  elem-append_one v slot s.selected_scratch,
  get_or-set s.update_marks slot v s.update_mark_generation 0 h,
)

length-select_slot :
    (s : LivePredictionSessionState) (slot : ℕ)
    → length (select_slot s slot).update_marks ≡ length s.update_marks
unfolding select_slot
length-select_slot s slot = length-set s.update_marks slot s.update_mark_generation

-- Two tests that agree off `x` keep the same of a list without `x`.
pub keep_agree :
    (f g : ℕ → Bool) (l : List ℕ) → ((v : ℕ) → 0 < count v l → f v ≡ g v) → keep f l ≡ keep g l
unfolding keep count
keep_agree f g [] h = refl
keep_agree f g (y ∷ l) h = ground (arith, h y, keep_agree f g l (λ v p. h v (ground arith)))

take-nil : (n : ℕ) → (let nothing : List ℕ = [] in take n nothing ≡ nothing)
take-nil zero = refl
take-nil (suc n) = refl

no_room :
    (s : LivePredictionSessionState) (l : List ℕ)
    → leb s.refresh_limit (length s.selected_scratch) ≡ true
    → s.selected_scratch
      ≡ s.selected_scratch ++ take (s.refresh_limit - length s.selected_scratch) l
no_room s l h =
    let none_left : s.refresh_limit - length s.selected_scratch ≡ 0 = ground arith in
    rw none_left (sym (append-nil s.selected_scratch))

one_taken :
    (s : LivePredictionSessionState) (x : ℕ) (l : List ℕ)
    → leb s.refresh_limit (length s.selected_scratch) ≡ false
    → (select_slot s x).selected_scratch
        ++ take (s.refresh_limit - length (select_slot s x).selected_scratch) l
      ≡ s.selected_scratch ++ take (s.refresh_limit - length s.selected_scratch) (x ∷ l)
unfolding select_slot
one_taken s x l h =
    let longer : length (s.selected_scratch ++ x ∷ []) ≡ length s.selected_scratch + 1 =
      length-append s.selected_scratch (x ∷ []) in
    let left : s.refresh_limit - length s.selected_scratch
        ≡ suc (s.refresh_limit - length (s.selected_scratch ++ x ∷ [])) =
      ground arith in
    rw left (append_assoc s.selected_scratch (x ∷ []) _)

-- A loop that admits a slot by `passes` while it is not selected.
module _ (admits : LivePredictionSessionState → ℕ → Bool) (passes : ℕ → Bool)
    (select_admits : (s : LivePredictionSessionState) (x v : ℕ)
      → (x == v) ≡ false
      → admits (select_slot s x) v ≡ admits s v) where
  pub select_loop-take :
      (slots : List ℕ) (s : LivePredictionSessionState)
      → ((v : ℕ) → count v slots ≤ 1)
      → ((v : ℕ) → 0 < count v slots → admits s v ≡ passes v)
      → (select_loop admits slots s).selected_scratch
        ≡ s.selected_scratch
          ++ take (s.refresh_limit - length s.selected_scratch) (keep passes slots)
  unfolding select_loop keep count
  select_loop-take [] s once agree =
      rw (take-nil (s.refresh_limit - length s.selected_scratch))
        (sym (append-nil s.selected_scratch))
  select_loop-take (x ∷ rest) s once agree =
      let once_rest : (v : ℕ) → count v rest ≤ 1 = λ v. let at = once v in ground arith in
      let here : admits s x ≡ passes x = agree x (ground arith) in
      elim (Bool-cases (leb s.refresh_limit (length s.selected_scratch))) [
        | inl full ↦ rw (full, select_loop) (no_room s (keep passes (x ∷ rest)) full)
        | inr room ↦ elim (Bool-cases (passes x)) [
          | inl p ↦
              let admitted : admits s x ≡ true = here ∙ p in
              rw (room, admitted, p, select_loop)
                (select_loop-take rest (select_slot s x) once_rest (λ v h.
                    select_admits s x v (let at = once v in ground arith) ∙ agree v (ground arith))
                  ∙ one_taken s x (keep passes rest) room)
          | inr p ↦
              let refused : admits s x ≡ false = here ∙ p in
              rw (room, refused, p, select_loop)
                (select_loop-take rest s once_rest (λ v h. agree v (ground arith)))
        ]
      ]

module _ (admits : LivePredictionSessionState → ℕ → Bool) where
  -- A loop changes the selection and the marks alone.
  pub select_loop-frame :
      (slots : List ℕ) (s : LivePredictionSessionState)
      → select_loop admits slots s ≡ record s {
        selected_scratch = (select_loop admits slots s).selected_scratch;
        update_marks = (select_loop admits slots s).update_marks;
      }
  unfolding select_loop select_slot
  select_loop-frame [] s = refl
  select_loop-frame (x ∷ rest) s =
      elim (Bool-cases (leb s.refresh_limit (length s.selected_scratch))) [
        | inl full ↦ rw (full, select_loop) refl
        | inr room ↦ elim (Bool-cases (admits s x)) [
          | inl p ↦ rw (room, p, select_loop) (select_loop-frame rest (select_slot s x))
          | inr p ↦ rw (room, p, select_loop) (select_loop-frame rest s)
        ]
      ]

  pub select_loop-MarksSelected :
      (slots : List ℕ) (s : LivePredictionSessionState)
      → AllBelow (length s.update_marks) slots
      → MarksSelected s
      → MarksSelected (select_loop admits slots s)
  unfolding select_loop
  select_loop-MarksSelected [] s below marks = marks
  select_loop-MarksSelected (x ∷ rest) s (h, below) marks =
      let kept : AllBelow (length (select_slot s x).update_marks) rest =
        rw (length-select_slot s x) below in
      elim (Bool-cases (leb s.refresh_limit (length s.selected_scratch))) [
        | inl full ↦ rw (full, select_loop) marks
        | inr room ↦ elim (Bool-cases (admits s x)) [
          | inl p ↦
              rw (room, p, select_loop)
                (select_loop-MarksSelected rest (select_slot s x) kept
                  (select_slot-MarksSelected s x h marks))
          | inr p ↦ rw (room, p, select_loop) (select_loop-MarksSelected rest s below marks)
        ]
      ]

  pub length-select_loop :
      (slots : List ℕ) (s : LivePredictionSessionState)
      → length (select_loop admits slots s).update_marks ≡ length s.update_marks
  unfolding select_loop
  length-select_loop [] s = refl
  length-select_loop (x ∷ rest) s =
      elim (Bool-cases (leb s.refresh_limit (length s.selected_scratch))) [
        | inl full ↦ rw (full, select_loop) refl
        | inr room ↦ elim (Bool-cases (admits s x)) [
          | inl p ↦
              rw (room, p, select_loop)
                (length-select_loop rest (select_slot s x) ∙ length-select_slot s x)
          | inr p ↦ rw (room, p, select_loop) (length-select_loop rest s)
        ]
      ]
