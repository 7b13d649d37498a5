-- ===== src/Live/Order/Marks.antt =====
-- The update marks of a session: a new generation is on no slot, and after a marking it is on the
-- marked slots only.
use rwkv_srs.Base.{
  ℕ, zero, suc, ◌+◌, ◌<◌, ◌≤◌, ◌^◌, ◌==◌, false, ◌||◌, List, [], ◌∷◌, length, set, get_or, map, ◌≡◌,
  refl, ◌∙◌, if◌then◌else◌, arith, length-set, length-map,
}
use rwkv_srs.Live.{LivePredictionSessionState}
use rwkv_srs.Live.Order.{advance_update_mark, mark_all, mark_updated, is_marked}
use rwkv_srs.Sorting.{elem}

abbrev pub AllAtMost : ℕ → List ℕ → Type 0
AllAtMost bound [] = Unit
AllAtMost bound (x ∷ xs) = (x ≤ bound) × AllAtMost bound xs

abbrev pub AllBelow : ℕ → List ℕ → Type 0
AllBelow bound [] = Unit
AllBelow bound (x ∷ xs) = (x < bound) × AllBelow bound xs

-- No mark is newer than the generation, which is a 64-bit integer.
abbrev pub MarksOk : LivePredictionSessionState → Type 0
MarksOk s = AllAtMost s.update_mark_generation s.update_marks × (s.update_mark_generation < 2 ^ 64)

AllBelow-zeros : (g : ℕ) (xs : List ℕ) → 0 < g → AllBelow g (map (λ _. 0) xs)
AllBelow-zeros g [] h = tt
AllBelow-zeros g (x ∷ xs) h = (h, AllBelow-zeros g xs h)

AllAtMost-AllBelow : (g : ℕ) (xs : List ℕ) → AllAtMost g xs → AllBelow (g + 1) xs
AllAtMost-AllBelow g [] a = tt
AllAtMost-AllBelow g (x ∷ xs) (h, a) = (omega arith, AllAtMost-AllBelow g xs a)

AllBelow-AllAtMost : (g : ℕ) (xs : List ℕ) → AllBelow g xs → AllAtMost g xs
AllBelow-AllAtMost g [] a = tt
AllBelow-AllAtMost g (x ∷ xs) (h, a) = (omega arith, AllBelow-AllAtMost g xs a)

pub advance_update_mark-fresh :
    (s : LivePredictionSessionState)
    → MarksOk s
    → AllBelow (advance_update_mark s).update_mark_generation (advance_update_mark s).update_marks
      × ((0 < (advance_update_mark s).update_mark_generation)
          × ((advance_update_mark s).update_mark_generation < 2 ^ 64))
unfolding advance_update_mark
advance_update_mark-fresh s (a, h) = ground (
  arith,
  AllBelow-zeros 1 s.update_marks,
  AllAtMost-AllBelow s.update_mark_generation s.update_marks a,
)

pub length-advance_update_mark :
    (s : LivePredictionSessionState)
    → length (advance_update_mark s).update_marks ≡ length s.update_marks
unfolding advance_update_mark
length-advance_update_mark s = ground (arith, length-map {B = ℕ} s.update_marks (λ _. 0))

get_or-AllBelow : (g v : ℕ) (xs : List ℕ) → 0 < g → AllBelow g xs → get_or xs v 0 < g
get_or-AllBelow g v [] h a = h
get_or-AllBelow g zero (x ∷ xs) h (l, a) = l
get_or-AllBelow g (suc v) (x ∷ xs) h (l, a) = get_or-AllBelow g v xs h a

pub get_or-set {ℓ} :
    {A : Type ℓ} (xs : List A) (i j : ℕ) (v d : A)
    → i < length xs
    → get_or (set xs i v) j d ≡ (if i == j then v else get_or xs j d)
get_or-set [] i j v d h = elim h [ ]
get_or-set (x ∷ xs) zero zero v d h = refl
get_or-set (x ∷ xs) zero (suc j) v d h = ground arith
get_or-set (x ∷ xs) (suc i) zero v d h = ground arith
get_or-set (x ∷ xs) (suc i) (suc j) v d h = ground (arith, get_or-set xs i j v d)

pub mark_all-elem :
    (slots : List ℕ) (g v : ℕ) (marks : List ℕ)
    → AllBelow (length marks) slots
    → (get_or (mark_all slots g marks) v 0 == g) ≡ (elem v slots || (get_or marks v 0 == g))
unfolding mark_all elem
mark_all-elem [] g v marks a = refl
mark_all-elem (x ∷ rest) g v marks (h, a) =
    let rest_below : AllBelow (length (set marks x g)) rest = rw (length-set marks x g) a in
    ground (arith, get_or-set marks x v g 0 h, mark_all-elem rest g v (set marks x g) rest_below)

-- After the slots of an update are marked with a new generation, they are the marked ones.
pub mark_all-fresh :
    (slots : List ℕ) (g v : ℕ) (marks : List ℕ)
    → AllBelow (length marks) slots
    → 0 < g
    → AllBelow g marks
    → (get_or (mark_all slots g marks) v 0 == g) ≡ elem v slots
mark_all-fresh slots g v marks a h b =
    ground (arith, mark_all-elem slots g v marks a, get_or-AllBelow g v marks h b)

AllAtMost-set : (g slot : ℕ) (marks : List ℕ) → AllAtMost g marks → AllAtMost g (set marks slot g)
AllAtMost-set g slot [] a = tt
AllAtMost-set g zero (x ∷ marks) (h, a) = (omega arith, a)
AllAtMost-set g (suc slot) (x ∷ marks) (h, a) = (h, AllAtMost-set g slot marks a)

mark_all-AllAtMost_le :
    (slots : List ℕ) (g : ℕ) (marks : List ℕ)
    → AllAtMost g marks
    → AllAtMost g (mark_all slots g marks)
unfolding mark_all
mark_all-AllAtMost_le [] g marks a = a
mark_all-AllAtMost_le (x ∷ rest) g marks a =
    mark_all-AllAtMost_le rest g (set marks x g) (AllAtMost-set g x marks a)

pub mark_all-AllAtMost :
    (slots : List ℕ) (g : ℕ) (marks : List ℕ)
    → AllBelow g marks
    → AllAtMost g (mark_all slots g marks)
mark_all-AllAtMost slots g marks b =
    mark_all-AllAtMost_le slots g marks (AllBelow-AllAtMost g marks b)

pub length-mark_all :
    (slots : List ℕ) (g : ℕ) (marks : List ℕ) → length (mark_all slots g marks) ≡ length marks
unfolding mark_all
length-mark_all [] g marks = refl
length-mark_all (x ∷ rest) g marks =
    ground (arith, length-mark_all rest g (set marks x g), length-set marks x g)

-- Exactly the updated slots carry the new generation.
pub mark_updated-elem :
    (s : LivePredictionSessionState) (slots : List ℕ) (v : ℕ)
    → MarksOk s
    → AllBelow (length s.update_marks) slots
    → is_marked (mark_updated s slots) v ≡ elem v slots
unfolding mark_updated
mark_updated-elem s slots v marks below =
    let (fresh, (positive, fits)) = advance_update_mark-fresh s marks in
    let in_range : AllBelow (length (advance_update_mark s).update_marks) slots =
      rw (length-advance_update_mark s) below in
    mark_all-fresh slots (advance_update_mark s).update_mark_generation v
      (advance_update_mark s).update_marks in_range positive fresh

pub mark_updated-MarksOk :
    (s : LivePredictionSessionState) (slots : List ℕ) → MarksOk s → MarksOk (mark_updated s slots)
unfolding mark_updated
mark_updated-MarksOk s slots marks =
    let (fresh, (positive, fits)) = advance_update_mark-fresh s marks in
    (
      mark_all-AllAtMost slots (advance_update_mark s).update_mark_generation
          (advance_update_mark s).update_marks fresh,
      fits,
    )

pub length-mark_updated :
    (s : LivePredictionSessionState) (slots : List ℕ)
    → length (mark_updated s slots).update_marks ≡ length s.update_marks
unfolding mark_updated
length-mark_updated s slots =
    length-mark_all slots (advance_update_mark s).update_mark_generation
      (advance_update_mark s).update_marks
    ∙ length-advance_update_mark s

-- No slot carries a new generation.
pub advance_update_mark-unmarked :
    (s : LivePredictionSessionState) (v : ℕ)
    → MarksOk s
    → is_marked (advance_update_mark s) v ≡ false
advance_update_mark-unmarked s v marks =
    let (fresh, (positive, fits)) = advance_update_mark-fresh s marks in
    let older =
      get_or-AllBelow (advance_update_mark s).update_mark_generation v
        (advance_update_mark s).update_marks positive fresh in
    ground arith
