-- ===== src/Wire/Prediction/Views.antt =====
-- A slice of a batch is the slice of its rows.
use rwkv_srs.Base.{
  ap, ℕ, zero, suc, ◌+◌, ◌-◌, ◌≤◌, leb, ◌&&◌, List, [], ◌∷◌, length, take, drop, Option, some,
  Result, ok, err, ◌>>=◌, if◌then◌else◌, ◌≡◌, refl, arith, Bool-cases, inl, inr, length-take,
  length-drop, ◌∙◌, sym,
}
use rwkv_srs.Map.Laws.{none-ne-some}
use rwkv_srs.Review.{ReviewInput}
use rwkv_srs.State.Encodings.{some-injective}
use rwkv_srs.Wire.Prediction.{NativePredictionBatch, batch_inputs, slice, SliceError, outside}

drop-nil : {A : Type 0} (n : ℕ) → (let nothing : List A = [] in drop n nothing ≡ nothing)
drop-nil zero = refl
drop-nil (suc n) = refl

drop-drop : {A : Type 0} (m n : ℕ) (xs : List A) → drop n (drop m xs) ≡ drop (m + n) xs
drop-drop zero n xs = ground arith
drop-drop (suc m) n [] = drop-nil n ∙ sym (drop-nil (suc m + n))
drop-drop (suc m) n (x ∷ xs) =
    let e : suc m + n ≡ suc (m + n) = omega arith in rw e (drop-drop m n xs)

take-nothing : {A : Type 0} (n : ℕ) → (let nothing : List A = [] in nothing ≡ take n nothing)
take-nothing zero = refl
take-nothing (suc n) = refl

drop-take : {A : Type 0} (n m : ℕ) (xs : List A) → drop m (take n xs) ≡ take (n - m) (drop m xs)
drop-take n zero xs = let e : n - 0 ≡ n = omega arith in rw e refl
drop-take zero (suc m) xs = let e : 0 - suc m ≡ 0 = omega arith in rw e refl
drop-take (suc n) (suc m) [] = take-nothing (suc n - suc m)
drop-take (suc n) (suc m) (x ∷ xs) =
    let e : suc n - suc m ≡ n - m = omega arith in rw e (drop-take n m xs)

take-take : {A : Type 0} (n m : ℕ) (xs : List A) → m ≤ n → take m (take n xs) ≡ take m xs
take-take n zero xs h = refl
take-take zero (suc m) xs h = absurd (omega arith)
take-take (suc n) (suc m) [] h = refl
take-take (suc n) (suc m) (x ∷ xs) h = ap (λ l. x ∷ l) (take-take n m xs (omega arith))

-- The rows that a slice sees, or its error.
abbrev pub sliced_rows :
    NativePredictionBatch → ℕ → ℕ → Result SliceError (Option (List ReviewInput))
sliced_rows b first last = do view ← slice b first last; ok (batch_inputs view)

view_of :
    (xs : List ReviewInput) (start end first last : ℕ)
    → first ≤ last
    → last ≤ length (take (end - start) (drop start xs))
    → take (start + last - (start + first)) (drop (start + first) xs)
      ≡ take (last - first) (drop first (take (end - start) (drop start xs)))
view_of xs start end first last h g =
    let e : start + last - (start + first) ≡ last - first = omega arith in
    let within : last - first ≤ end - start - first =
      omega (arith, length-take (end - start) (drop start xs)) in
    rw (e, drop-take (end - start) first (drop start xs), drop-drop start first xs)
      (sym (take-take (end - start - first) (last - first) (drop (start + first) xs) within))

batch_inputs-some :
    (b : NativePredictionBatch) (rows : List ReviewInput)
    → batch_inputs b ≡ some rows
    → ((b.start ≤ b.end) × (b.end ≤ length b.inputs))
      × (take (b.end - b.start) (drop b.start b.inputs) ≡ rows)
unfolding batch_inputs
batch_inputs-some b rows e = elim (Bool-cases (leb b.start b.end && leb b.end (length b.inputs))) [
  | inl inside ↦ (ground arith, some-injective (rw (inside, batch_inputs) at e))
  | inr out ↦ absurd (none-ne-some rows (rw (out, batch_inputs) at e))
]

batch_inputs-inside :
    (b : NativePredictionBatch)
    → b.start ≤ b.end
    → b.end ≤ length b.inputs
    → batch_inputs b ≡ some (take (b.end - b.start) (drop b.start b.inputs))
unfolding batch_inputs
batch_inputs-inside b h g = ground arith

-- The view of a range inside the rows.
inside_view :
    (b : NativePredictionBatch) (rows : List ReviewInput) (first last : ℕ)
    → batch_inputs b ≡ some rows
    → first ≤ last
    → last ≤ length rows
    → batch_inputs (record { inputs = b.inputs; start = b.start + first; end = b.start + last })
      ≡ some (take (last - first) (drop first rows))
inside_view b rows first last e h g =
    let (range, seen) = batch_inputs-some b rows e in
    let short : last ≤ length (take (b.end - b.start) (drop b.start b.inputs)) = rw seen g in
    let within : b.start + last ≤ length b.inputs = omega (
      arith,
      length-take (b.end - b.start) (drop b.start b.inputs),
      length-drop b.start b.inputs,
    ) in
    batch_inputs-inside
      (record { inputs = b.inputs; start = b.start + first; end = b.start + last }) (omega arith)
      within
    ∙ ap some (
        view_of b.inputs b.start b.end first last h short
        ∙ ap (λ l. take (last - first) (drop first l)) seen)

-- A slice of a batch that sees some rows sees that slice of them where the range is inside them,
-- and is refused with the number of rows where it is not.
pub sliced_rows-take :
    (b : NativePredictionBatch) (rows : List ReviewInput) (first last : ℕ)
    → batch_inputs b ≡ some rows
    → sliced_rows b first last ≡ (
        if leb first last && leb last (length rows)
        then ok (some (take (last - first) (drop first rows)))
        else err (outside first last (length rows)))
unfolding slice
sliced_rows-take b rows first last e =
    elim (Bool-cases (leb first last && leb last (length rows))) [
      | inl inside ↦
          rw (e, inside, slice)
            (ap ok (inside_view b rows first last e (ground arith) (ground arith)))
      | inr out ↦ rw (e, out, slice) refl
    ]
