-- ===== src/Live/Select/Lists.antt =====
-- Lists of slots: takes, and the slots of a range.
use rwkv_srs.Base.{
  [], ◌∷◌, zero, suc, true, ℕ, ◌+◌, List, ◌≤◌, take, Bool, ◌<◌, ◌-◌, ◌++◌, ◌≡◌, arith, refl, length,
  ◌&&◌, ap,
}
use rwkv_srs.Live.Order.{slots_from}
use rwkv_srs.Live.Order.Marks.{AllBelow}
use rwkv_srs.Sorting.{elem, count, keep}

pub take-append :
    (n : ℕ) (xs ys : List ℕ) → take n (xs ++ ys) ≡ take n xs ++ take (n - length (take n xs)) ys
take-append zero xs ys = ground arith
take-append (suc n) [] ys = let e : suc n - 0 ≡ suc n = omega arith in rw e refl
take-append (suc n) (x ∷ xs) ys =
    let e : suc n - suc (length (take n xs)) ≡ n - length (take n xs) = omega arith in
    rw e (ap (λ l. x ∷ l) (take-append n xs ys))

pub elem-keep : (f : ℕ → Bool) (v : ℕ) (l : List ℕ) → elem v (keep f l) ≡ (f v && elem v l)
unfolding elem keep
elem-keep f v [] = ground arith
elem-keep f v (x ∷ l) = ground (arith, elem-keep f v l)

pub elem-slots_from :
    (v first n : ℕ) → first ≤ v → v < first + n → elem v (slots_from first n) ≡ true
unfolding elem slots_from
elem-slots_from v first zero h g = absurd (omega arith)
elem-slots_from v first (suc n) h g = ground (arith, elem-slots_from v (suc first) n)

pub slots_from-AllBelow :
    (bound first n : ℕ) → first + n ≤ bound → AllBelow bound (slots_from first n)
unfolding slots_from
slots_from-AllBelow bound first zero h = tt
slots_from-AllBelow bound first (suc n) h =
    (omega arith, slots_from-AllBelow bound (suc first) n (omega arith))

pub count-slots_from :
    (v first n : ℕ)
    → count v (slots_from first n) ≤ 1 × (v < first → count v (slots_from first n) ≡ 0)
unfolding slots_from count
count-slots_from v first zero = (omega arith, λ h. refl)
count-slots_from v first (suc n) = ground (arith, count-slots_from v (suc first) n)

pub take_all : (n : ℕ) (xs : List ℕ) → 0 < n - length (take n xs) → take n xs ≡ xs
take_all zero xs h = absurd (omega arith)
take_all (suc n) [] h = refl
take_all (suc n) (x ∷ xs) h = ap (λ l. x ∷ l) (take_all n xs (ground arith))

pub AllBelow-of_count :
    (bound : ℕ) (l : List ℕ) → ((v : ℕ) → 0 < count v l → v < bound) → AllBelow bound l
unfolding count
AllBelow-of_count bound [] h = tt
AllBelow-of_count bound (x ∷ l) h =
    (h x (ground arith), AllBelow-of_count bound l (λ v p. h v (ground arith)))
