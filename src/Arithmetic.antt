-- ===== src/Arithmetic.antt =====
-- pintos/src/lib/arithmetic.c: division of 64-bit numbers by the processor's division of a 64-bit number
-- by a 32-bit one.
pub mod Shifts
pub mod Quotient
mod Tests
use group.Base.{
  ℕ, ◌+◌, ◌-◌, ◌*◌, ◌/◌, ◌%◌, ◌^◌, Option, none, some, ◌==◌, leb, ltb, if◌then◌else◌, ◌>>=◌,
}

-- The instruction DIVL, which traps when the divisor is 0 or the quotient does not fit.
unfoldable pub divl : ℕ → ℕ → Option ℕ
divl n d = if d == 0 then none else if ltb (n / d) (2 ^ 32) then some (n / d) else none

-- A test of `nlz`, with the shift that it makes on a 32-bit number.
unfoldable pub nlz_step : ℕ → ℕ → ℕ × ℕ → ℕ × ℕ
nlz_step bound k (n, x) = if leb x bound then (n + k, x * 2 ^ k % 2 ^ 32) else (n, x)

unfoldable pub nlz_last : ℕ × ℕ → ℕ
nlz_last (n, x) = if leb x 2147483647 then n + 1 else n

unfoldable pub nlz : ℕ → ℕ
nlz x =
    nlz_last (
      nlz_step 1073741823 2 (nlz_step 268435455 4 (nlz_step 16777215 8 (nlz_step 65535 16 (0, x)))))

-- The correction of the quotient at the end.
unfoldable pub corrected : ℕ → ℕ → ℕ → ℕ
corrected n d q =
    let less = (q + 2 ^ 64 - 1) % 2 ^ 64 in
    let product = less * d % 2 ^ 64 in if ltb ((n + 2 ^ 64 - product) % 2 ^ 64) d then less else q

-- `udiv64` for a divisor below 2 ^ 32, and for a larger one that is not above `n`
unfoldable pub short_division : ℕ → ℕ → Option ℕ
short_division n d =
    let n1 = n / 2 ^ 32 % 2 ^ 32 in
    let n0 = n % 2 ^ 32 in
    let d0 = d % 2 ^ 32 in
    do q ← divl ((2 ^ 32 * (n1 % d0) + n0) % 2 ^ 64) d0; some ((q + 2 ^ 32 * (n1 / d0)) % 2 ^ 64)

unfoldable pub long_division : ℕ → ℕ → Option ℕ
long_division n d =
    let s = nlz (d / 2 ^ 32) in
    do q ← divl (n / 2) (d * 2 ^ s % 2 ^ 64 / 2 ^ 32); some (corrected n d (q / 2 ^ (31 - s)))

unfoldable pub udiv64 : ℕ → ℕ → Option ℕ
udiv64 n d =
    if d / 2 ^ 32 == 0 then short_division n d else if ltb n d then some 0 else long_division n d
