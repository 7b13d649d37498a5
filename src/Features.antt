-- ===== src/Features.antt =====
-- Feature scaling: rust/rwkv-srs-cpu/src/features.rs. The IEEE 754 arithmetic of the machine is the
-- parameter `FloatOps`; a constant is the bit pattern of its literal.
use rwkv_srs.Base.{Bool, ℤ, List, [], ◌∷◌, ◌≡◌, if◌then◌else◌, pos}
use rwkv_srs.Review.{F64, F32}

-- The operations on `f64` that the code uses, and its casts.
pub record FloatOps : Type 0 where
  pub add : F64 → F64 → F64
  pub sub : F64 → F64 → F64
  pub mul : F64 → F64 → F64
  pub div : F64 → F64 → F64
  pub rem : F64 → F64 → F64
  pub ln : F64 → F64
  pub sin : F64 → F64
  pub cos : F64 → F64
  pub feq : F64 → F64 → Bool
  pub of_i64 : ℤ → F64
  pub to_f32 : F64 → F32
  -- `value as i64`, and `value.is_finite() && value.fract() == 0.0`
  pub to_i64 : F64 → ℤ
  pub is_integral : F64 → Bool

-- 0.0 and 1.0 as `f64` and as `f32`
abbrev pub zero_f64 : F64
zero_f64 = 0x0000_0000_0000_0000

abbrev pub one_f64 : F64
one_f64 = 0x3ff0_0000_0000_0000

abbrev pub minus_one_f64 : F64
minus_one_f64 = 0xbff0_0000_0000_0000

abbrev pub two_f64 : F64
two_f64 = 0x4000_0000_0000_0000

abbrev pub three_f64 : F64
three_f64 = 0x4008_0000_0000_0000

abbrev pub seven_f64 : F64
seven_f64 = 0x401c_0000_0000_0000

abbrev pub ten_f64 : F64
ten_f64 = 0x4024_0000_0000_0000

abbrev pub nudge : F64
nudge = 0x3ee4_f8b5_88e3_68f1

abbrev pub pi : F64
pi = 0x4009_21fb_5444_2d18

abbrev pub euler : F64
euler = 0x4005_bf0a_8b14_5769

abbrev pub seconds_per_day : F64
seconds_per_day = 0x40f5_1800_0000_0000

abbrev pub zero_f32 : F32
zero_f32 = 0

abbrev pub one_f32 : F32
one_f32 = 0x3f80_0000

-- The casts of 0.0 and 1.0 to `f32` are exact.
pub record CastsExact (fl : FloatOps) : Type 0 where
  pub cast_zero : fl.to_f32 zero_f64 ≡ zero_f32
  pub cast_one : fl.to_f32 one_f64 ≡ one_f32

-- DAY_OFFSET_ENCODE_PERIODS
abbrev pub day_offset_encode_periods : List F64
day_offset_encode_periods =
    0x4008_0000_0000_0000 ∷ 0x401c_0000_0000_0000 ∷ 0x403e_0000_0000_0000 ∷ 0x4059_0000_0000_0000
    ∷ 0x4076_d000_0000_0000 ∷ 0x40ac_8400_0000_0000 ∷ 0x40e1_d280_0000_0000 ∷ []

-- ID_PLACEHOLDER
abbrev pub id_placeholder : ℤ
id_placeholder = pos 314_159_265_358_979_323

module _ (fl : FloatOps) where
  open fl use {add, sub, mul, div, rem, ln, sin, cos, feq, to_f32}

  unfoldable pub py_mod : F64 → F64 → F64
  py_mod value modulus = rem (add (rem value modulus) modulus) modulus

  unfoldable pub elapsed_log_or_zero : F64 → F64
  elapsed_log_or_zero x = if feq x minus_one_f64 then zero_f64 else ln (add (add one_f64 nudge) x)

  unfoldable pub scale_elapsed_days : F64 → F64
  scale_elapsed_days x =
      div (sub (elapsed_log_or_zero x) 0x3ff8_28f5_c28f_5c29) 0x3ff9_eb85_1eb8_51ec

  unfoldable pub scale_elapsed_days_cumulative : F64 → F64
  scale_elapsed_days_cumulative x =
      div (sub (elapsed_log_or_zero x) 0x4001_1eb8_51eb_851f) 0x4002_0000_0000_0000

  unfoldable pub scale_elapsed_seconds : F64 → F64
  scale_elapsed_seconds x =
      div (sub (elapsed_log_or_zero x) 0x4023_eb85_1eb8_51ec) 0x4014_d70a_3d70_a3d7

  unfoldable pub scale_elapsed_seconds_cumulative : F64 → F64
  scale_elapsed_seconds_cumulative x =
      div (sub (elapsed_log_or_zero x) 0x4025_b851_eb85_1eb8) 0x4017_3333_3333_3333

  unfoldable pub scale_duration : F64 → F64
  scale_duration x = div (sub (ln (add ten_f64 x)) 0x4021_cccc_cccc_cccd) 0x3ff1_1eb8_51eb_851f

  unfoldable pub scale_diff_new_cards : F64 → F64
  scale_diff_new_cards x =
      div (sub (ln (add three_f64 x)) 0x4007_8f5c_28f5_c28f) 0x4000_1687_2b02_0c4a

  unfoldable pub scale_diff_reviews : F64 → F64
  scale_diff_reviews x =
      div (sub (ln (add three_f64 x)) 0x4012_8f5c_28f5_c28f) 0x4004_b851_eb85_1eb8

  unfoldable pub scale_cum_new_cards_today : F64 → F64
  scale_cum_new_cards_today x =
      div (sub (ln (add three_f64 x)) 0x4004_6666_6666_6666) 0x3ff6_8f5c_28f5_c28f

  unfoldable pub scale_cum_reviews_today : F64 → F64
  scale_cum_reviews_today x =
      div (sub (ln (add three_f64 x)) 0x4012_5c28_f5c2_8f5c) 0x3ff4_cccc_cccc_cccd

  unfoldable pub scale_state : F64 → F64
  scale_state x = sub x two_f64

  unfoldable pub scale_day_offset_diff : F64 → F64
  scale_day_offset_diff x = ln (ln (add euler x))

  unfoldable pub elapsed_seconds_sin : F64 → F64
  elapsed_seconds_sin x =
      sin (div (mul (mul (py_mod x seconds_per_day) two_f64) pi) seconds_per_day)

  unfoldable pub elapsed_seconds_cos : F64 → F64
  elapsed_seconds_cos x =
      cos (div (mul (mul (py_mod x seconds_per_day) two_f64) pi) seconds_per_day)

  -- The loop of `day_offset_encoding` over the periods.
  unfoldable pub encode_periods : F64 → F64 → List F64 → List F32
  unfolding py_mod
  encode_periods day first [] = []
  encode_periods day first (period ∷ rest) =
      let f = div (mul two_f64 pi) period in
      let day_mod = py_mod day period in
      let first_mod = py_mod first period in
      to_f32 (sin (mul f day_mod))
      ∷ to_f32 (cos (mul f day_mod))
      ∷ to_f32 (sin (mul f first_mod))
      ∷ to_f32 (cos (mul f first_mod))
      ∷ encode_periods day first rest

  unfoldable pub day_offset_encoding : F64 → F64 → List F32
  unfolding encode_periods
  day_offset_encoding day first = encode_periods day first day_offset_encode_periods
