-- ===== src/Base/Bits/Step.antt =====
-- `|`, `&` and `^` on the lowest digit, from the definitions that the native operations stand for.
use Prim.Native.Nat.{
  ℕ, zero, suc, ◌+◌, ◌*◌, ◌/◌, ◌%◌, ◌≤◌, ◌<◌, max, min, differ, bit_and, bit_or, bit_xor, digits,
  bit_and-bitwise, bit_or-bitwise, bit_xor-bitwise,
}
use mathlib.Core.Path.{◌≡◌, refl, ap, ◌∙◌}
use mathlib.Core.Logic.{inl, inr}
use package.group.Base.Tests.{Bool-cases, leb, leb→le}
use native.Mathlib.Omega.{arith}

module _ (z : ℕ → ℕ) (f : ℕ → ℕ → ℕ) where
  -- A unit of fuel more than the number needs is left over.
  left_over : (x y fuel : ℕ) → x ≤ fuel → digits z f (suc fuel) x y ≡ digits z f fuel x y
  left_over zero y zero h = refl
  left_over zero y (suc fuel) h = refl
  left_over (suc x) y zero h = absurd (omega arith)
  left_over (suc x) y (suc fuel) h = omega (arith, left_over (suc x / 2) (y / 2) fuel (omega arith))

  -- So the digits are the same from the first amount that is enough.
  settled : (fuel x y k : ℕ) → x ≤ k → k ≤ fuel → digits z f fuel x y ≡ digits z f k x y
  settled zero x y k h q = let e : 0 ≡ k = omega arith in ap (λ n. digits z f n x y) e
  settled (suc fuel) x y k h q = elim (Bool-cases (leb k fuel)) [
    | inl e ↦
        left_over x y fuel (omega (arith, leb→le k fuel e)) ∙ settled fuel x y k h (leb→le k fuel e)
    | inr e ↦ let e : suc fuel ≡ k = ground arith in ap (λ n. digits z f n x y) e
  ]

pub bit_xor_step : (a b : ℕ) → bit_xor a b ≡ bit_xor (a / 2) (b / 2) * 2 + differ (a % 2) (b % 2)
bit_xor_step zero b = omega (arith, bit_xor-bitwise 0 b, bit_xor-bitwise 0 (b / 2))
bit_xor_step (suc a) b = omega (
  arith,
  bit_xor-bitwise (suc a) b,
  bit_xor-bitwise (suc a / 2) (b / 2),
  settled (λ b. b) differ a (suc a / 2) (b / 2) (suc a / 2) (omega arith) (omega arith),
)

pub bit_or_step : (a b : ℕ) → bit_or a b ≡ bit_or (a / 2) (b / 2) * 2 + max (a % 2) (b % 2)
bit_or_step zero b = omega (arith, bit_or-bitwise 0 b, bit_or-bitwise 0 (b / 2))
bit_or_step (suc a) b = omega (
  arith,
  bit_or-bitwise (suc a) b,
  bit_or-bitwise (suc a / 2) (b / 2),
  settled (λ b. b) max a (suc a / 2) (b / 2) (suc a / 2) (omega arith) (omega arith),
)

pub bit_and_step : (a b : ℕ) → bit_and a b ≡ bit_and (a / 2) (b / 2) * 2 + min (a % 2) (b % 2)
bit_and_step zero b = omega (arith, bit_and-bitwise 0 b, bit_and-bitwise 0 (b / 2))
bit_and_step (suc a) b = omega (
  arith,
  bit_and-bitwise (suc a) b,
  bit_and-bitwise (suc a / 2) (b / 2),
  settled (λ b. zero) min a (suc a / 2) (b / 2) (suc a / 2) (omega arith) (omega arith),
)

-- Two digits differ, or are the same.
pub differ_bits : (x y : ℕ) → x < 2 → y < 2 → differ x y ≡ (x + y) % 2
differ_bits zero y p q = omega arith
differ_bits (suc zero) zero p q = refl
differ_bits (suc zero) (suc zero) p q = refl
differ_bits (suc zero) (suc (suc y)) p q = absurd (omega arith)
differ_bits (suc (suc x)) y p q = absurd (omega arith)
