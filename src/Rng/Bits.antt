-- ===== src/Rng/Bits.antt =====
-- Bounds of the bit operations at every width.
use Prim.Native.Nat.{
  bit_and, bit_or, bit_xor, digits, differ, min, max, bit_and-bitwise, bit_or-bitwise,
  bit_xor-bitwise,
}
use native.Mathlib.Nat.{pow-suc}
use rwkv_srs.Base.{ℕ, zero, suc, ◌/◌, ◌%◌, ◌^◌, ◌<◌, ◌≤◌, arith}

module _ (z : ℕ → ℕ) (f : ℕ → ℕ → ℕ) (z_small : (b : ℕ) → z b ≤ b)
    (f_small : (x y : ℕ) → x < 2 → y < 2 → f x y < 2) where
  digits-lt : (n k a b : ℕ) → a < 2 ^ k → b < 2 ^ k → digits z f n a b < 2 ^ k
  digits-lt zero k a b p q = omega (arith, z_small b)
  digits-lt (suc n) k zero b p q = omega (arith, z_small b)
  digits-lt (suc n) zero (suc a) b p q = absurd (omega arith)
  digits-lt (suc n) (suc k) (suc a) b p q = omega (
    arith,
    pow-suc 2 k,
    digits-lt n k (suc a / 2) (b / 2) (omega (arith, pow-suc 2 k)) (omega (arith, pow-suc 2 k)),
    f_small (suc a % 2) (b % 2) (omega arith) (omega arith),
  )

differ-lt : (x y : ℕ) → x < 2 → y < 2 → differ x y < 2
differ-lt zero y p q = q
differ-lt (suc x) zero p q = p
differ-lt (suc zero) (suc zero) p q = omega arith
differ-lt (suc zero) (suc (suc y)) p q = absurd (omega arith)
differ-lt (suc (suc x)) (suc y) p q = absurd (omega arith)

module _ (k a b : ℕ) (p : a < 2 ^ k) (q : b < 2 ^ k) where
  pub bit_xor-lt : bit_xor a b < 2 ^ k
  bit_xor-lt =
      rw bit_xor-bitwise (digits-lt (λ y. y) differ (λ y. omega arith) differ-lt a k a b p q)

  pub bit_or-lt : bit_or a b < 2 ^ k
  bit_or-lt =
      rw bit_or-bitwise
        (digits-lt (λ y. y) max (λ y. omega arith) (λ x y p q. omega arith) a k a b p q)

  pub bit_and-lt : bit_and a b < 2 ^ k
  bit_and-lt =
      rw bit_and-bitwise
        (digits-lt (λ y. 0) min (λ y. omega arith) (λ x y p q. omega arith) a k a b p q)
