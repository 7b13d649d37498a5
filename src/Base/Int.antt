-- ===== src/Base/Int.antt =====
-- Signed integers over the native numbers, under the library's names, with the order and the
-- two's complement of `i64`.
use Prim.Native.Nat.{ℕ, suc, ◌+◌, ◌-◌, ◌%◌, ◌^◌, ◌≤◌, ◌<◌, Ordering, compare}
use mathlib.Core.Path.{◌≡◌}
use mathlib.Core.Logic.{◌⊎◌, ◌↔◌}
use mathlib.Core.Bool.{Bool, true}
use native.Mathlib.Omega.{arith}
use native.Mathlib.Decide.{ℕ_discrete}
use rwkv_srs.Base.Tests.{ltb, leb, ◌==◌, if◌then◌else◌}

-- `negsuc n` is -(n + 1).
pub data ℤ : Type 0 where
  pos : ℕ → ℤ
  negsuc : ℕ → ℤ

abbrev pub pos_part : ℤ → ℕ
pos_part (pos n) = n
pos_part (negsuc n) = 0

abbrev pub neg_part : ℤ → ℕ
neg_part (pos n) = 0
neg_part (negsuc n) = suc n

abbrev pub sub_ℕ : ℕ → ℕ → ℤ
sub_ℕ a b = if leb b a then pos (a - b) else negsuc (b - a - 1)

infixl 65 ◌+ℤ◌ ◌-ℤ◌
unfoldable pub ◌+ℤ◌ : ℤ → ℤ → ℤ
a +ℤ b = sub_ℕ (pos_part a + pos_part b) (neg_part a + neg_part b)

unfoldable pub ◌-ℤ◌ : ℤ → ℤ → ℤ
a -ℤ b = sub_ℕ (pos_part a + neg_part b) (neg_part a + pos_part b)

pub add_one_pos : (n : ℕ) → pos n +ℤ pos 1 ≡ pos (n + 1)
unfolding ◌+ℤ◌
add_one_pos n = ground arith

pub add_one_least : negsuc 0 +ℤ pos 1 ≡ pos 0
unfolding ◌+ℤ◌
add_one_least = ground arith

pub add_one_neg : (n : ℕ) → negsuc (suc n) +ℤ pos 1 ≡ negsuc n
unfolding ◌+ℤ◌
add_one_neg n = ground arith

pub add_one_parts :
    (z : ℤ) → pos_part (z +ℤ pos 1) + neg_part z ≡ pos_part z + neg_part (z +ℤ pos 1) + 1
unfolding ◌+ℤ◌
add_one_parts z = ground arith

infix 50 ◌<ℤ◌
abbrev pub ◌<ℤ◌ : ℤ → ℤ → Type 0
a <ℤ b = pos_part a + neg_part b < pos_part b + neg_part a

infix 50 ◌≤ℤ◌
abbrev pub ◌≤ℤ◌ : ℤ → ℤ → Type 0
a ≤ℤ b = pos_part a + neg_part b ≤ pos_part b + neg_part a

-- `i64::cmp`
abbrev pub compare_ℤ : ℤ → ℤ → Ordering
compare_ℤ a b = compare (pos_part a + neg_part b) (pos_part b + neg_part a)

-- `==` on `i64`
abbrev pub eqb_ℤ : ℤ → ℤ → Bool
eqb_ℤ a b = pos_part a + neg_part b == pos_part b + neg_part a

pub eq_of_parts : (a b : ℤ) → pos_part a + neg_part b ≡ pos_part b + neg_part a → a ≡ b
eq_of_parts a b h = ground arith

pub eqb_ℤ_iff : (a b : ℤ) → (eqb_ℤ a b ≡ true) ↔ (a ≡ b)
eqb_ℤ_iff a b = (λ h. eq_of_parts a b (ground arith), λ e. ground arith)

pub ℤ-discrete : Discrete ℤ
ℤ-discrete = hlevel ℕ_discrete

-- Two integers compare in one of three ways.
pub compare_ℤ_cases :
    (a b : ℤ)
    → (compare_ℤ a b ≡ Ordering.lt) × (a <ℤ b)
      ⊎ ((compare_ℤ a b ≡ Ordering.eq) × (a ≡ b) ⊎ (compare_ℤ a b ≡ Ordering.gt) × (b <ℤ a))
compare_ℤ_cases a b = ground (arith, eq_of_parts a b)

pub compare_ℤ-self : (a : ℤ) → compare_ℤ a a ≡ Ordering.eq
compare_ℤ-self a = ground arith

-- The 64-bit pattern of an integer, and the `i64` that a pattern stands for.
abbrev pub u64_mod : ℕ
u64_mod = 2 ^ 64

unfoldable pub bits_of_i64 : ℤ → ℕ
bits_of_i64 (pos n) = n % 2 ^ 64
bits_of_i64 (negsuc n) = 2 ^ 64 - 1 - n % 2 ^ 64

unfoldable pub i64_of_bits : ℕ → ℤ
i64_of_bits w = if ltb w (2 ^ 63) then pos w else negsuc (2 ^ 64 - 1 - w)

abbrev pub IsI64 : ℤ → Type 0
IsI64 z = (pos_part z < 2 ^ 63) × (neg_part z ≤ 2 ^ 63)

-- `+` and `-` on `i64`, which wrap around in the release profiles.
unfoldable pub wrap_i64 : ℤ → ℤ
unfolding bits_of_i64 i64_of_bits
wrap_i64 z = i64_of_bits (bits_of_i64 z)

pub i64_of_bits-bits_of_i64 : (z : ℤ) → IsI64 z → i64_of_bits (bits_of_i64 z) ≡ z
unfolding bits_of_i64 i64_of_bits
i64_of_bits-bits_of_i64 (pos n) h = ground arith
i64_of_bits-bits_of_i64 (negsuc n) h = ground arith

pub bits_of_i64-i64_of_bits : (w : ℕ) → w < 2 ^ 64 → bits_of_i64 (i64_of_bits w) ≡ w
unfolding bits_of_i64 i64_of_bits
bits_of_i64-i64_of_bits w h = ground arith

pub bits_of_i64-lt : (z : ℤ) → bits_of_i64 z < 2 ^ 64
unfolding bits_of_i64
bits_of_i64-lt (pos n) = omega arith
bits_of_i64-lt (negsuc n) = omega arith

pub i64_of_bits-IsI64 : (w : ℕ) → w < 2 ^ 64 → IsI64 (i64_of_bits w)
unfolding i64_of_bits
i64_of_bits-IsI64 w h = ground arith

pub wrap_i64-eq : (z : ℤ) → IsI64 z → wrap_i64 z ≡ z
unfolding wrap_i64
wrap_i64-eq z h = i64_of_bits-bits_of_i64 z h
