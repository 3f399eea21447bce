-- ===== src/Base/Bits.antt =====
-- The bits of a word, and what `|`, `&`, `^` and `~` do to them.
mod Step
use Step.{bit_or_step, bit_and_step, bit_xor_step, differ_bits}
use Prim.Native.Nat.{
  ℕ, zero, suc, ◌+◌, ◌-◌, ◌*◌, ◌/◌, ◌%◌, ◌^◌, ◌<◌, ◌≤◌, bit_and, bit_or, bit_xor, differ,
  bit_and-bitwise, bit_or-bitwise, bit_xor-bitwise,
}
use mathlib.Core.Path.{◌≡◌, refl, ◌∙◌, ap}
use mathlib.Core.Bool.{Bool, true, false, not, xor, ◌&&◌, ◌||◌}
use native.Mathlib.Nat.{pow-suc, one-le-pow}
use native.Mathlib.Omega.{arith}
use package.group.Base.Tests.{◌==◌, if◌then◌else◌}

-- Bit `k` of `x`, the lowest first.
unfoldable pub bit_at : ℕ → ℕ → Bool
bit_at x zero = x % 2 == 1
bit_at x (suc k) = bit_at (x / 2) k

-- `(x & mask)`, `(x | mask)` and `(x ^ mask)` digit by digit.
pub bit_at-bit_or : (a b k : ℕ) → bit_at (bit_or a b) k ≡ (bit_at a k || bit_at b k)
unfolding bit_at
bit_at-bit_or a b zero = ground (arith, bit_or_step a b)
bit_at-bit_or a b (suc k) =
    let e : bit_or a b / 2 ≡ bit_or (a / 2) (b / 2) = omega (arith, bit_or_step a b) in
    rw e (bit_at-bit_or (a / 2) (b / 2) k)

pub bit_at-bit_and : (a b k : ℕ) → bit_at (bit_and a b) k ≡ (bit_at a k && bit_at b k)
unfolding bit_at
bit_at-bit_and a b zero = ground (arith, bit_and_step a b)
bit_at-bit_and a b (suc k) =
    let e : bit_and a b / 2 ≡ bit_and (a / 2) (b / 2) = omega (arith, bit_and_step a b) in
    rw e (bit_at-bit_and (a / 2) (b / 2) k)

pub bit_at-bit_xor :
    (a b k : ℕ) → bit_at (bit_xor a b) k ≡ (if bit_at b k then not (bit_at a k) else bit_at a k)
unfolding bit_at
bit_at-bit_xor a b zero = ground (arith, bit_xor_step a b, differ_bits (a % 2) (b % 2))
bit_at-bit_xor a b (suc k) =
    let small : differ (a % 2) (b % 2) < 2 = omega (arith, differ_bits (a % 2) (b % 2)) in
    let e : bit_xor a b / 2 ≡ bit_xor (a / 2) (b / 2) = omega (arith, bit_xor_step a b) in
    rw e (bit_at-bit_xor (a / 2) (b / 2) k)

-- The results stay within the word.
pub bit_or-lt : (w a b : ℕ) → a < 2 ^ w → b < 2 ^ w → bit_or a b < 2 ^ w
bit_or-lt zero zero b p q = omega (arith, bit_or-bitwise 0 b)
bit_or-lt zero (suc a) b p q = absurd (omega arith)
bit_or-lt (suc w) a b p q = omega (
  arith,
  bit_or_step a b,
  pow-suc 2 w,
  bit_or-lt w (a / 2) (b / 2) (omega (arith, pow-suc 2 w)) (omega (arith, pow-suc 2 w)),
)

pub bit_xor-lt : (w a b : ℕ) → a < 2 ^ w → b < 2 ^ w → bit_xor a b < 2 ^ w
bit_xor-lt zero zero b p q = omega (arith, bit_xor-bitwise 0 b)
bit_xor-lt zero (suc a) b p q = absurd (omega arith)
bit_xor-lt (suc w) a b p q = omega (
  arith,
  bit_xor_step a b,
  differ_bits (a % 2) (b % 2),
  pow-suc 2 w,
  bit_xor-lt w (a / 2) (b / 2) (omega (arith, pow-suc 2 w)) (omega (arith, pow-suc 2 w)),
)

pub bit_and-le : (w a b : ℕ) → a < 2 ^ w → bit_and a b ≤ a
bit_and-le zero zero b p = omega (arith, bit_and-bitwise 0 b)
bit_and-le zero (suc a) b p = absurd (omega arith)
bit_and-le (suc w) a b p = omega (
  arith,
  bit_and_step a b,
  pow-suc 2 w,
  bit_and-le w (a / 2) (b / 2) (omega (arith, pow-suc 2 w)),
)

pub bit_at-zero : (k : ℕ) → bit_at 0 k ≡ false
unfolding bit_at
bit_at-zero zero = refl
bit_at-zero (suc k) = bit_at-zero k

-- `1 << k` has the bit `k` alone.
pub bit_at-pow : (k j : ℕ) → bit_at (2 ^ k) j ≡ (j == k)
unfolding bit_at
bit_at-pow zero zero = refl
bit_at-pow zero (suc j) = ground (arith, bit_at-zero j)
bit_at-pow (suc k) zero = ground (arith, pow-suc 2 k)
bit_at-pow (suc k) (suc j) =
    let e : 2 ^ suc k / 2 ≡ 2 ^ k = omega (arith, pow-suc 2 k) in
    rw e (ground (arith, bit_at-pow k j))

-- `~m` in a word of `w` bits.
unfoldable pub complement : ℕ → ℕ → ℕ
complement w m = 2 ^ w - 1 - m

pub bit_at-complement :
    (w m k : ℕ) → m < 2 ^ w → k < w → bit_at (complement w m) k ≡ not (bit_at m k)
unfolding bit_at complement
bit_at-complement zero m k p q = absurd (omega arith)
bit_at-complement (suc w) m zero p q = ground (arith, pow-suc 2 w)
bit_at-complement (suc w) m (suc k) p q =
    let e : (2 ^ suc w - 1 - m) / 2 ≡ 2 ^ w - 1 - m / 2 = omega (arith, pow-suc 2 w) in
    rw e (bit_at-complement w (m / 2) k (omega (arith, pow-suc 2 w)) (omega arith))

bit_and-zero : (n a : ℕ) → a ≤ n → bit_and a 0 ≡ 0
bit_and-zero n zero h = bit_and-bitwise 0 0
bit_and-zero zero (suc a) h = absurd (omega arith)
bit_and-zero (suc n) (suc a) h =
    omega (arith, bit_and_step (suc a) 0, bit_and-zero n (suc a / 2) (omega arith))

-- A word masked by one bit is that bit's weight or zero.
pub bit_and_pow : (x k : ℕ) → bit_and x (2 ^ k) ≡ (if bit_at x k then 2 ^ k else 0)
unfolding bit_at
bit_and_pow x zero = ground (arith, bit_and_step x 1, bit_and-zero (x / 2) (x / 2) (omega arith))
bit_and_pow x (suc k) =
    let e : bit_and x (2 ^ suc k) ≡ bit_and (x / 2) (2 ^ k) * 2 = half (2 ^ k) (pow-suc 2 k) in
    ground (arith, e, bit_and_pow (x / 2) k, pow-suc 2 k)
  where
    half : (t : ℕ) → 2 ^ suc k ≡ t * 2 → bit_and x (2 ^ suc k) ≡ bit_and (x / 2) t * 2
    half t h = rw h (ground (arith, bit_and_step x (t * 2)))
