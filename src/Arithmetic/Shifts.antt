-- ===== src/Arithmetic/Shifts.antt =====
-- arithmetic.c: `nlz` gives the shift that moves the highest bit of a word to its end.
use group.Base.{
  ℕ, zero, suc, ◌+◌, ◌*◌, ◌^◌, ◌≤◌, ◌<◌, ◌≡◌, refl, sym, ap, ◌∙◌, leb, arith, Bool-cases, inl, inr,
  leb→le,
}
use group.Arithmetic.{nlz_step, nlz_last, nlz}
use native.Mathlib.Nat.{one-le-pow, pow-suc, mul_assoc, mul-le-mul_right, mod-eq_of_lt}

pub pow_add : (n k : ℕ) → 2 ^ (n + k) ≡ 2 ^ n * 2 ^ k
pow_add n zero =
    let same : n + 0 ≡ n = omega arith in
    let one : 2 ^ n ≡ 2 ^ n * 1 = omega arith in ap (λ i. 2 ^ i) same ∙ one
pow_add n (suc k) =
    let ih = pow_add n k in
    let next : n + suc k ≡ suc (n + k) = omega arith in
    ap (λ i. 2 ^ i) next
    ∙ pow-suc 2 (n + k)
    ∙ ap (λ p. p * 2) ih
    ∙ mul_assoc (2 ^ n) (2 ^ k) 2
    ∙ ap (λ p. 2 ^ n * p) (sym (pow-suc 2 k))

-- The number shifted so far, at least `low`.
pub record Normal (x low : ℕ) (s : ℕ × ℕ) : Type 0 where
  pub scaled : s.1 ≡ x * 2 ^ s.0
  pub at_least : low ≤ s.1
  pub is_word : s.1 < 2 ^ 32

nlz_step-Normal :
    (x bound k low : ℕ) (s : ℕ × ℕ)
    → bound * 2 ^ k + 2 ^ k ≡ 2 ^ 32
    → low * 2 ^ k ≡ bound + 1
    → Normal x low s
    → Normal x (bound + 1) (nlz_step bound k s)
unfolding nlz_step
nlz_step-Normal x bound k low (n, y) top bottom v = elim (Bool-cases (leb y bound)) [
  | inl e ↦
      let le = mul-le-mul_right (2 ^ k) (leb→le y bound e) in
      let ge = mul-le-mul_right (2 ^ k) v.at_least in
      let pos = one-le-pow k 2 (omega arith) in
      let fits = mod-eq_of_lt {n = y * 2 ^ k} {m = 2 ^ 32} (omega arith) in
      rw (e, fits)
        (record {
          scaled =
              ap (λ y. y * 2 ^ k) v.scaled
              ∙ mul_assoc x (2 ^ n) (2 ^ k)
              ∙ ap (λ p. x * p) (sym (pow_add n k));
          at_least = omega arith;
          is_word = omega arith;
        })
  | inr e ↦ rw e (record { scaled = v.scaled; at_least = ground arith; is_word = v.is_word })
]

-- The last test only counts.
nlz_last-Normal :
    (x : ℕ) (s : ℕ × ℕ)
    → Normal x 1073741824 s
    → (2 ^ 31 ≤ x * 2 ^ nlz_last s) × (x * 2 ^ nlz_last s < 2 ^ 32)
unfolding nlz_last
nlz_last-Normal x (n, y) v = elim (Bool-cases (leb y 2147483647)) [
  | inl e ↦
      let le = leb→le y 2147483647 e in
      let p =
        ap (λ p. x * p) (pow_add n 1)
        ∙ sym (mul_assoc x (2 ^ n) 2)
        ∙ ap (λ y. y * 2) (sym v.scaled) in
      let l = v.at_least in rw e (omega arith, omega arith)
  | inr e ↦ rw (e, sym v.scaled) (ground arith, v.is_word)
]

pub nlz-Normal : (x : ℕ) → 1 ≤ x → x < 2 ^ 32 → (2 ^ 31 ≤ x * 2 ^ nlz x) × (x * 2 ^ nlz x < 2 ^ 32)
unfolding nlz
nlz-Normal x pos word = nlz_last-Normal x _ (
    nlz_step-Normal x 1073741823 2 268435456 _ refl refl (
      nlz_step-Normal x 268435455 4 16777216 _ refl refl (
        nlz_step-Normal x 16777215 8 65536 _ refl refl (
          nlz_step-Normal x 65535 16 1 (0, x) refl refl
            (record { scaled = omega arith; at_least = pos; is_word = word })))))
