-- ===== src/Arithmetic/Quotient.antt =====
-- arithmetic.c: `udiv64` is the division of 64-bit numbers.
use group.Base.{
  ℕ, ◌+◌, ◌-◌, ◌*◌, ◌/◌, ◌%◌, ◌^◌, ◌≤◌, ◌<◌, ◌≡◌, refl, sym, ap, ◌∙◌, true, false, if◌then◌else◌,
  ltb, ◌==◌, some, arith, Bool-cases, inl, inr, eq_of_==, ne_of_==, ==_ne, ltb→lt,
}
use group.Arithmetic.{divl, nlz, corrected, short_division, long_division, udiv64}
use group.Arithmetic.Shifts.{nlz-Normal, pow_add}
use native.Mathlib.Nat.{
  one-le-pow, pow-le-pow_right, mul_comm, mul-le-mul_left, mul-le-mul_right, lt_of_mul-lt-mul_right,
  mod-eq_of_lt, mod-lt, div-add-mod, mul-add-div, div-lt_iff_lt-mul, le-div_iff_mul-le,
  div-mul-le_self, lt-div-mul-add, div-div-eq-div-mul, mul-div-mul_right, div-le_self, div-eq_of_lt,
}

-- The instruction does not trap.
divl-runs : (n d : ℕ) → 1 ≤ d → n < 2 ^ 32 * d → divl n d ≡ some (n / d)
unfolding divl
divl-runs n d pos lt =
    let small = div-lt_iff_lt-mul {k = d} {x = n} {y = 2 ^ 32} pos in
    let fits : ltb (n / d) (2 ^ 32) ≡ true = ground arith in
    rw (==_ne d 0 (ground arith), fits) refl

-- The digits of `n` to the base 2 ^ 32.
short-Quotient :
    (n d : ℕ)
    → n < 2 ^ 64
    → 1 ≤ d
    → d < 2 ^ 32
    → (2 ^ 32 * (n / 2 ^ 32 % d) + n % 2 ^ 32 < 2 ^ 32 * d)
      × ((2 ^ 32 * (n / 2 ^ 32 % d) + n % 2 ^ 32) / d + 2 ^ 32 * (n / 2 ^ 32 / d) ≡ n / d)
short-Quotient n d word pos small =
    let r = mod-lt (n / 2 ^ 32) pos in
    let e = div-add-mod (n / 2 ^ 32) d in
    let f = div-add-mod n (2 ^ 32) in
    let low : n % 2 ^ 32 < 2 ^ 32 = mod-lt n (omega arith) in
    let whole : d * (2 ^ 32 * (n / 2 ^ 32 / d)) + (2 ^ 32 * (n / 2 ^ 32 % d) + n % 2 ^ 32) ≡ n =
      grind arith in
    let g = mul-add-div pos (2 ^ 32 * (n / 2 ^ 32 / d)) (2 ^ 32 * (n / 2 ^ 32 % d) + n % 2 ^ 32) in
    let h = ap (λ m. m / d) whole in (omega arith, omega arith)

pred_times : (q d : ℕ) → 1 ≤ q → (q - 1) * d + d ≡ q * d
pred_times q d one =
    let next : q ≡ q - 1 + 1 = omega arith in let h = ap (λ q. q * d) next in grind arith

-- The remainder tells whether the quotient is one too large.
chosen :
    (n d q k : ℕ)
    → k * d ≤ n
    → n < k * d + d
    → 1 ≤ q
    → k ≤ q
    → q ≤ k + 1
    → (if ltb (n - (q - 1) * d) d then q - 1 else q) ≡ k
chosen n d q k least most one lo hi = elim (Bool-cases (q == k)) [
  | inl e ↦
      let same = eq_of_== q k e in
      let step : (q - 1) * d + d ≡ q * d = pred_times q d one in
      let h = ap (λ q. q * d) same in
      let over : ltb (n - (q - 1) * d) d ≡ false = ground arith in rw over same
  | inr e ↦
      let other = ne_of_== q k e in
      let next : q - 1 ≡ k = omega arith in
      let h = ap (λ q. q * d) next in
      let under : ltb (n - (q - 1) * d) d ≡ true = ground arith in rw under next
]

-- The quotient may be one too large.
corrected-Quotient :
    (n d q : ℕ) → n < 2 ^ 64 → 1 ≤ d → 1 ≤ q → n / d ≤ q → q ≤ n / d + 1 → corrected n d q ≡ n / d
unfolding corrected
corrected-Quotient n d q word pos one lo hi =
    let below : q - 1 ≤ n / d = omega arith in
    let le = mul-le-mul_right d below in
    let least = div-mul-le_self n d in
    let most = lt-div-mul-add {a = n} {b = d} pos in
    let small = div-le_self n d in
    let less : (q + 2 ^ 64 - 1) % 2 ^ 64 ≡ q - 1 = omega arith in
    let product = mod-eq_of_lt {n = (q - 1) * d} {m = 2 ^ 64} (omega arith) in
    let rest : (n + 2 ^ 64 - (q - 1) * d) % 2 ^ 64 ≡ n - (q - 1) * d = omega arith in
    rw (less, product, rest) (chosen n d q (n / d) least most one lo hi)

-- What the missing bits of the divisor amount to.
error_lem :
    (n d w q h : ℕ)
    → n < 2 ^ 64
    → 1 ≤ h
    → 2 ^ 32 ≤ d
    → q * w ≤ n
    → 2 ^ 31 * (2 * h) ≤ w
    → w ≤ d
    → d < w + 2 * h
    → q * (d - w) ≤ d
error_lem n d w q h word one big qw hw least most =
    let qh : q * (2 ^ 31 * (2 * h)) ≤ q * w = mul-le-mul_left q hw in
    let few : q * h < 2 ^ 32 = grind arith in
    elim (Bool-cases (h == 1)) [
      | inl e ↦
          let single = eq_of_== h 1 e in
          let qe : q * (d - w) ≤ q * 1 = mul-le-mul_left q (omega arith) in
          let all : q * h ≡ q * 1 = ap (λ h. q * h) single in omega arith
      | inr e ↦
          let more = ne_of_== h 1 e in
          let qe : q * (d - w) ≤ q * (2 * h) = mul-le-mul_left q (omega arith) in
          let all : q * (2 * h) ≡ 2 * (q * h) = grind arith in omega arith
    ]

rounded : (n d w q : ℕ) → 1 ≤ q → w ≤ d → q * w ≤ n → q * (d - w) ≤ d → (q - 1) * d ≤ n
rounded n d w q first least qw error =
    let back = pred_times q d first in
    let parts : d ≡ w + (d - w) = omega arith in
    let split : q * d ≡ q * (w + (d - w)) = ap (λ d. q * d) parts in
    let sum : q * (w + (d - w)) ≡ q * w + q * (d - w) = grind arith in omega arith

-- The quotient by the divisor without its last bits, `v` the divisor's first 32 bits and `2 * h` the place
-- value of the last of them.
near :
    (n d v h : ℕ)
    → n < 2 ^ 64
    → 1 ≤ h
    → 2 ^ 31 ≤ v
    → 2 ^ 32 ≤ d
    → v * (2 * h) ≤ d
    → d < v * (2 * h) + 2 * h
    → d ≤ n
    → (1 ≤ n / (v * (2 * h))) × ((n / d ≤ n / (v * (2 * h))) × (n / (v * (2 * h)) ≤ n / d + 1))
near n d v h word one top big least most le =
    let w = v * (2 * h) in
    let q = n / w in
    let hw : 2 ^ 31 * (2 * h) ≤ w = mul-le-mul_right (2 * h) top in
    let pos : 0 < w = omega arith in
    let qw : q * w ≤ n = div-mul-le_self n w in
    let first : 1 ≤ q = (le-div_iff_mul-le pos).1 (omega arith) in
    let kd : n / d * d ≤ n = div-mul-le_self n d in
    let kw : n / d * w ≤ n / d * d = mul-le-mul_left (n / d) least in
    let lower : n / d ≤ q = (le-div_iff_mul-le pos).1 (omega arith) in
    let error : q * (d - w) ≤ d = error_lem n d w q h word one big qw hw least most in
    let upper : (q - 1) * d ≤ n = rounded n d w q first least qw error in
    let below : q - 1 ≤ n / d = (le-div_iff_mul-le (omega arith)).1 upper in
    (first, (lower, omega arith))

-- The shifts: `p` moves the divisor's highest bit to the end of 64 bits, `p * (2 * h)` is 2 ^ 32.
shifted-Quotient :
    (n d p h : ℕ)
    → n < 2 ^ 64
    → 1 ≤ h
    → 1 ≤ p
    → p * (2 * h) ≡ 2 ^ 32
    → 2 ^ 32 ≤ d
    → 2 ^ 31 ≤ d / 2 ^ 32 * p
    → d / 2 ^ 32 * p < 2 ^ 32
    → (d * p < 2 ^ 64)
      × ((2 ^ 31 ≤ d * p / 2 ^ 32)
          × ((d * p / 2 ^ 32 ≡ d / (2 * h))
              × (n / 2 / (d * p / 2 ^ 32) / h ≡ n / (d / (2 * h) * (2 * h)))))
shifted-Quotient n d p h word one pos place big top high =
    let u = 2 * h in
    let less : d / 2 ^ 32 < u = lt_of_mul-lt-mul_right p (omega arith) in
    let room : (d / 2 ^ 32 + 1) * p ≤ u * p = mul-le-mul_right p (omega arith) in
    let digits : d < d / 2 ^ 32 * 2 ^ 32 + 2 ^ 32 = lt-div-mul-add (omega arith) in
    let low : d / 2 ^ 32 * 2 ^ 32 ≤ d = div-mul-le_self d (2 ^ 32) in
    let dp : (d + 1) * p ≤ (d / 2 ^ 32 * 2 ^ 32 + 2 ^ 32) * p = mul-le-mul_right p (omega arith) in
    let lp : d / 2 ^ 32 * 2 ^ 32 * p ≤ d * p = mul-le-mul_right p low in
    let place' : u * p ≡ 2 ^ 32 = mul_comm u p ∙ place in
    let same = ap (λ m. d * p / m) (sym place') ∙ mul-div-mul_right d u pos in
    let v = d / u in
    let product : 2 * (v * h) ≡ v * u = grind arith in
    (
      grind arith,
      (
        (le-div_iff_mul-le (omega arith)).1 (grind arith),
        (
          same,
          ap (λ v. n / 2 / v / h) same
              ∙ div-div-eq-div-mul (n / 2) v h
              ∙ div-div-eq-div-mul n 2 (v * h)
              ∙ ap (λ m. n / m) product,
        ),
      ),
    )

-- The shift of `nlz`, and the place of the divisor's bits that fall away.
shift-Splits :
    (x : ℕ) → 1 ≤ x → x * 2 ^ nlz x < 2 ^ 32 → 2 ^ nlz x * (2 * 2 ^ (31 - nlz x)) ≡ 2 ^ 32
shift-Splits x pos high =
    let p = 2 ^ nlz x in
    let px : 1 * p ≤ x * p = mul-le-mul_right p pos in
    let few : nlz x ≤ 31 = few_shifts (nlz x) (omega arith) in
    let whole : nlz x + (31 - nlz x) ≡ 31 = omega arith in
    let e = sym (pow_add (nlz x) (31 - nlz x)) ∙ ap (λ i. 2 ^ i) whole in grind arith
  where
    few_shifts : (s : ℕ) → 2 ^ s < 2 ^ 32 → s ≤ 31
    few_shifts s lt = elim (Bool-cases (ltb s 32)) [
      | inl e ↦ let l = ltb→lt s 32 e in omega arith
      | inr e ↦
          let more : 32 ≤ s = ground arith in
          let le = pow-le-pow_right {n = 2} (omega arith) more in absurd (omega arith)
    ]

short_division-Quotient :
    (n d : ℕ) → n < 2 ^ 64 → 1 ≤ d → d < 2 ^ 32 → short_division n d ≡ some (n / d)
unfolding short_division
short_division-Quotient n d word pos small =
    let (fits, sum) = short-Quotient n d word pos small in
    let d0 : d % 2 ^ 32 ≡ d = mod-eq_of_lt small in
    let n1 : n / 2 ^ 32 % 2 ^ 32 ≡ n / 2 ^ 32 = omega arith in
    let m : (2 ^ 32 * (n / 2 ^ 32 % d) + n % 2 ^ 32) % 2 ^ 64
        ≡ 2 ^ 32 * (n / 2 ^ 32 % d) + n % 2 ^ 32 =
      mod-eq_of_lt (omega arith) in
    let le = div-le_self n d in
    let result : n / d % 2 ^ 64 ≡ n / d = mod-eq_of_lt (omega arith) in
    rw (d0, n1, m, divl-runs _ d pos fits, sum, result) refl

long_division-Quotient :
    (n d : ℕ) → n < 2 ^ 64 → 2 ^ 32 ≤ d → d < 2 ^ 64 → d ≤ n → long_division n d ≡ some (n / d)
unfolding long_division
long_division-Quotient n d word big wide le =
    let x = d / 2 ^ 32 in
    let one : 1 ≤ x = omega arith in
    let (top, high) = nlz-Normal x one (omega arith) in
    let h = 2 ^ (31 - nlz x) in
    let hpos = one-le-pow (31 - nlz x) 2 (omega arith) in
    let ppos = one-le-pow (nlz x) 2 (omega arith) in
    let (fits, (large, (same, quotient))) =
      shifted-Quotient n d (2 ^ nlz x) h word hpos ppos (shift-Splits x one high) big top high in
    let least = div-mul-le_self d (2 * h) in
    let most = lt-div-mul-add {a = d} {b = 2 * h} (omega arith) in
    let close = near n d (d / (2 * h)) h word hpos (omega arith) big least most le in
    rw
      (
        mod-eq_of_lt fits,
        divl-runs (n / 2) (d * 2 ^ nlz x / 2 ^ 32) (omega arith) (omega arith),
        quotient,
        corrected-Quotient n d (n / (d / (2 * h) * (2 * h))) word (omega arith) close.0 close.1.0
            close.1.1,
      )
      refl

-- `udiv64` divides: for every 64-bit number and every 64-bit divisor but 0, no DIVL traps, and the result
-- is the quotient.
pub udiv64-Quotient : (n d : ℕ) → n < 2 ^ 64 → 1 ≤ d → d < 2 ^ 64 → udiv64 n d ≡ some (n / d)
unfolding udiv64
udiv64-Quotient n d word pos wide = elim (Bool-cases (d / 2 ^ 32 == 0)) [
  | inl e ↦ rw e (short_division-Quotient n d word pos (ground arith))
  | inr e ↦ rw e (elim (Bool-cases (ltb n d)) [
    | inl l ↦ rw l (ap some (sym (div-eq_of_lt (ltb→lt n d l))))
    | inr l ↦ rw l (long_division-Quotient n d word (ground arith) wide (ground arith))
  ])
]
