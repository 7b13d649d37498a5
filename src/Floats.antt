-- ===== src/Floats.antt =====
-- The order of `f64` on bit patterns, and what the standard library builds on it: comparisons,
-- `max`, `min` and `clamp`. Also ordered_f64_key and next_up of
-- rust/rwkv-srs-cpu/src/model/live_session.rs, which work on the bits.
use rwkv_srs.Base.{
  ℕ, ◌+◌, ◌-◌, ◌*◌, ◌%◌, ◌^◌, ◌==◌, ltb, leb, Bool, true, false, not, ◌&&◌, ◌||◌, if◌then◌else◌, ℤ,
  sub_ℕ, pos_part, neg_part,
}
use rwkv_srs.Review.{F64}
pub mod Keys

-- The exponent of all ones: f64::INFINITY.
abbrev pub infinity : F64
infinity = 0x7ff0_0000_0000_0000

abbrev pub magnitude : F64 → ℕ
magnitude w = w % 2 ^ 63

abbrev pub is_negative : F64 → Bool
is_negative w = leb (2 ^ 63) w

unfoldable pub is_nan : F64 → Bool
is_nan w = ltb infinity (magnitude w)

-- The place of a number among all: the positive patterns ascend, the negative ones descend, and
-- the two zeros are one place.
unfoldable pub rank : F64 → ℤ
rank w = if is_negative w then sub_ℕ 0 (magnitude w) else sub_ℕ (magnitude w) 0

abbrev pub ltb_ℤ : ℤ → ℤ → Bool
ltb_ℤ a b = ltb (pos_part a + neg_part b) (pos_part b + neg_part a)

-- `<`, `<=` and `==` on `f64`, which are false on a NaN.
unfoldable pub lt_f64 : F64 → F64 → Bool
unfolding is_nan rank
lt_f64 a b = not (is_nan a) && (not (is_nan b) && ltb_ℤ (rank a) (rank b))

unfoldable pub le_f64 : F64 → F64 → Bool
unfolding is_nan rank
le_f64 a b = not (is_nan a) && (not (is_nan b) && not (ltb_ℤ (rank b) (rank a)))

unfoldable pub eq_f64 : F64 → F64 → Bool
unfolding le_f64
eq_f64 a b = le_f64 a b && le_f64 b a

-- `f64::max` and `f64::min`: a NaN gives way to the other number.
unfoldable pub max_f64 : F64 → F64 → F64
unfolding is_nan lt_f64
max_f64 a b = if is_nan a then b else (if lt_f64 a b then b else a)

unfoldable pub min_f64 : F64 → F64 → F64
unfolding is_nan lt_f64
min_f64 a b = if is_nan a then b else (if lt_f64 b a then b else a)

unfoldable pub clamp_f64 : F64 → F64 → F64 → F64
unfolding lt_f64
clamp_f64 value low high =
    if lt_f64 value low then low else (if lt_f64 high value then high else value)

-- `bits ^ (1 << 63)` of a pattern whose top bit is clear, and `!bits`
unfoldable pub ordered_f64_key : F64 → ℕ
unfolding eq_f64
ordered_f64_key value =
    let bits : ℕ = if eq_f64 value 0 then 0 else value in
    if is_negative bits then 2 ^ 64 - 1 - bits else bits + 2 ^ 63

unfoldable pub next_up : F64 → F64
unfolding is_nan eq_f64 le_f64
next_up value =
    if is_nan value || (value == infinity)
    then value
    else (if eq_f64 value (2 ^ 63)
        then 1
        else (if le_f64 0 value then (value + 1) % 2 ^ 64 else value - 1))
