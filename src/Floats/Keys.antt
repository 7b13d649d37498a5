-- ===== src/Floats/Keys.antt =====
-- The sort key of a number orders as the number, and next_up is the next number.
use Prim.Native.Nat.{compare}
use rwkv_srs.Base.{
  ◌+◌, ◌-◌, ◌<◌, ◌≤◌, ◌^◌, true, false, ◌≡◌, pos, negsuc, compare_ℤ, ◌+ℤ◌, add_one_pos, add_one_neg,
  add_one_least, sym, suc, arith, ◌⊎◌, refl, ltb, ◌==◌, pos_part, neg_part,
}
use rwkv_srs.Bytes.{IsU64}
use rwkv_srs.Floats.{
  rank, is_nan, eq_f64, le_f64, lt_f64, ordered_f64_key, next_up, magnitude, infinity,
}
use rwkv_srs.Review.{F64, is_finite, IsFinite}

not-is_nan : (w : F64) → IsU64 w → is_finite w ≡ true → is_nan w ≡ false
unfolding is_nan is_finite
not-is_nan w fits h = ground arith

pub magnitude-lt : (w : F64) → IsU64 w → is_finite w ≡ true → magnitude w < infinity
unfolding is_finite
magnitude-lt w fits h = ground arith

pub rank_pos : (w : F64) → w < 2 ^ 63 → rank w ≡ pos w
unfolding rank
rank_pos w h = ground arith

pub rank_neg : (w : F64) → 2 ^ 63 < w → w < 2 ^ 64 → rank w ≡ negsuc (w - 2 ^ 63 - 1)
unfolding rank
rank_neg w h g = ground arith

eq_zero_pos : (w : F64) → 0 < w → w < 2 ^ 63 → eq_f64 w 0 ≡ false
unfolding eq_f64 le_f64 rank
eq_zero_pos w h g = ground arith

eq_zero_neg : (w : F64) → 2 ^ 63 < w → w < 2 ^ 64 → eq_f64 w 0 ≡ false
unfolding eq_f64 le_f64 rank
eq_zero_neg w h g = ground arith

key_pos : (w : F64) → w < 2 ^ 63 → ordered_f64_key w ≡ w + 2 ^ 63
unfolding ordered_f64_key
key_pos w h = ground (arith, eq_zero_pos w)

key_neg : (w : F64) → 2 ^ 63 < w → w < 2 ^ 64 → ordered_f64_key w ≡ 2 ^ 64 - 1 - w
unfolding ordered_f64_key
key_neg w h g = ground (arith, eq_zero_neg w)

pub rank_zero : rank (2 ^ 63) ≡ pos 0
unfolding rank
rank_zero = refl

key_zero : ordered_f64_key (2 ^ 63) ≡ 2 ^ 63
unfolding ordered_f64_key eq_f64 le_f64 is_nan rank
key_zero = refl

-- A pattern is a positive number or zero, the negative zero, or a negative number.
rank-key-cases :
    (w : F64)
    → IsU64 w
    → (rank w ≡ pos w) × ((ordered_f64_key w ≡ w + 2 ^ 63) × (w < 2 ^ 63))
      ⊎ ((rank w ≡ pos 0) × (ordered_f64_key w ≡ 2 ^ 63)
          ⊎ (rank w ≡ negsuc (w - 2 ^ 63 - 1))
            × ((ordered_f64_key w ≡ 2 ^ 64 - 1 - w) × ((2 ^ 63 < w) × (w < 2 ^ 64))))
rank-key-cases w fits =
    ground (arith, key_pos w, key_neg w, rank_pos w, rank_neg w, rank_zero, key_zero)

-- Numbers compare as their keys do, the two zeros with one key.
pub compare-ordered_f64_key :
    (a b : F64)
    → IsU64 a
    → IsU64 b
    → compare (ordered_f64_key a) (ordered_f64_key b) ≡ compare_ℤ (rank a) (rank b)
compare-ordered_f64_key a b fa fb = ground (arith, rank-key-cases a fa, rank-key-cases b fb)

-- Finite numbers compare as less and as equal exactly as their sort keys do.
pub lt_f64-ordered_f64_key :
    (a b : F64)
    → IsFinite a
    → IsFinite b
    → (lt_f64 a b ≡ ltb (ordered_f64_key a) (ordered_f64_key b))
      × (eq_f64 a b ≡ (ordered_f64_key a == ordered_f64_key b))
unfolding lt_f64 eq_f64 le_f64
lt_f64-ordered_f64_key a b fa fb = ground (
  arith,
  compare-ordered_f64_key a b fa.fits fb.fits,
  not-is_nan a fa.fits fa.finite,
  not-is_nan b fb.fits fb.finite,
)

is_nan_low : (w : F64) → w < infinity → is_nan w ≡ false
unfolding is_nan
is_nan_low w h = ground arith

is_nan_high : (w : F64) → 2 ^ 63 ≤ w → w < 2 ^ 63 + infinity → is_nan w ≡ false
unfolding is_nan
is_nan_high w h g = ground arith

pub next_up_pos : (w : F64) → w < infinity → next_up w ≡ w + 1
unfolding next_up eq_f64 le_f64
next_up_pos w h =
    ground
      (arith, is_nan_low w h, is_nan_low 0, is_nan_high (2 ^ 63), rank_zero, rank_pos w, rank_pos 0)

pub next_up_zero : next_up (2 ^ 63) ≡ 1
unfolding next_up is_nan eq_f64 le_f64 rank
next_up_zero = refl

pub next_up_neg : (w : F64) → 2 ^ 63 < w → w < 2 ^ 63 + infinity → next_up w ≡ w - 1
unfolding next_up eq_f64 le_f64
next_up_neg w h g =
    ground
      (arith, is_nan_high w, is_nan_low 0, is_nan_high (2 ^ 63), rank_zero, rank_neg w, rank_pos 0)

rank-next_up_pos : (w : F64) → w < infinity → rank (next_up w) ≡ rank w +ℤ pos 1
rank-next_up_pos w h =
    rw (next_up_pos w h, rank_pos w (omega arith), rank_pos (w + 1) (omega arith))
      (sym (add_one_pos w))

rank-next_up_neg :
    (w : F64) → 2 ^ 63 + 1 < w → w < 2 ^ 63 + infinity → rank (next_up w) ≡ rank w +ℤ pos 1
rank-next_up_neg w h g =
    let e : w - 2 ^ 63 - 1 ≡ suc (w - 1 - 2 ^ 63 - 1) = omega arith in
    rw
      (
        next_up_neg w (omega arith) g,
        rank_neg w (omega arith) (omega arith),
        rank_neg (w - 1) (omega arith) (omega arith),
        e,
      )
      (sym (add_one_neg (w - 1 - 2 ^ 63 - 1)))

rank-next_up_zero : rank (next_up (2 ^ 63)) ≡ rank (2 ^ 63) +ℤ pos 1
rank-next_up_zero = rw (next_up_zero, rank_pos 1 (omega arith), rank_zero) (sym (add_one_pos 0))

rank-next_up_least : rank (next_up (2 ^ 63 + 1)) ≡ rank (2 ^ 63 + 1) +ℤ pos 1
unfolding next_up is_nan eq_f64 le_f64 rank
rank-next_up_least = sym add_one_least

-- The number after a finite number stands one place above it in the order of all numbers.
pub rank-next_up : (w : F64) → IsFinite w → rank (next_up w) ≡ rank w +ℤ pos 1
rank-next_up w f = ground (
  arith,
  rank-next_up_pos w,
  rank-next_up_neg w,
  rank-next_up_zero,
  rank-next_up_least,
  magnitude-lt w f.fits f.finite,
)

-- The place of a finite number is within that of infinity.
pub rank-lt :
    (w : F64) → IsFinite w → (pos_part (rank w) < infinity) × (neg_part (rank w) < infinity)
unfolding rank
rank-lt w f = let m = magnitude-lt w f.fits f.finite in ground arith

pub IsFinite-of_pos : (w : F64) → w < infinity → IsFinite w
unfolding is_finite
IsFinite-of_pos w h = record { fits = omega arith; finite = ground arith }

pub IsFinite-of_neg : (w : F64) → 2 ^ 63 ≤ w → w < 2 ^ 63 + infinity → IsFinite w
unfolding is_finite
IsFinite-of_neg w h g = record { fits = omega arith; finite = ground arith }
