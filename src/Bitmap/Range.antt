-- ===== src/Bitmap/Range.antt =====
-- bitmap.c: the functions on a range of bits.
use group.Base.{
  ℕ, zero, suc, ◌+◌, ◌≤◌, ◌≡◌, refl, Bool, true, false, not, ◌&&◌, ◌||◌, some, arith, ◌==◌, leb,
  ltb, same, if◌then◌else◌, Yields, Bool-cases, inl, inr, ap, eq_of_==, Yields-bind, Yields-mono,
}
use group.Bitmap.{
  Bitmap, in_range, set_bit, set_loop, set_multiple, count_loop, count, contains_loop, contains,
  all,
}
use group.Bitmap.Single.{IsValid, bit, Changed, set_bit-Changed, test-bit}

-- Whether `j` lies in the `n` places from `at`.
unfoldable pub within : ℕ → ℕ → ℕ → Bool
within at n j = leb at j && ltb j (at + n)

-- A range of one.
pub within_one : (at j : ℕ) → within at 1 j ≡ (j == at)
unfolding within
within_one at j = ground arith

-- `c` is `b` with the `n` bits from `at` set to `v`.
pub record Filled (b : Bitmap) (at n : ℕ) (v : Bool) (c : Bitmap) : Type 0 where
  pub valid : IsValid c
  pub same_cnt : c.bit_cnt ≡ b.bit_cnt
  pub bits_of : (j : ℕ) → bit c j ≡ (if within at n j then v else bit b j)

-- One write, then the rest.
Filled-step :
    {b c d : Bitmap} (at n : ℕ) (v : Bool)
    → Changed b at v c
    → Filled c (at + 1) n v d
    → Filled b at (suc n) v d
unfolding within
Filled-step at n v x y = record {
  valid = y.valid;
  same_cnt = omega (arith, x.same_cnt, y.same_cnt);
  bits_of = λ j. ground (arith, x.bits_of j, y.bits_of j);
}

set_loop-Filled :
    (n : ℕ) {b : Bitmap} (at : ℕ) (v : Bool)
    → IsValid b
    → at + n ≤ b.bit_cnt
    → Yields (set_loop n b at v) (Filled b at n v)
unfolding set_loop
set_loop-Filled zero at v ok fits = record {
  valid = ok;
  same_cnt = refl;
  bits_of = λ j. unfold within in ground arith;
}
set_loop-Filled (suc n) {b} at v ok fits =
    Yields-bind _ _ (set_bit b at v) _ (set_bit-Changed ok at (omega arith) v) λ c x.
      Yields-mono _ _ (set_loop n c (at + 1) v)
        (set_loop-Filled n (at + 1) v x.valid (omega (arith, x.same_cnt))) λ d. Filled-step at n v x

module _ {b : Bitmap} (ok : IsValid b) where
  in_range-some : (start cnt : ℕ) → start + cnt ≤ b.bit_cnt → in_range b start cnt ≡ some tt
  in_range-some start cnt fits = ground arith

  -- `bitmap_set_multiple` of a range inside a valid bitmap sets the `cnt` bits from `start` to `v`,
  -- and changes no other bit.
  pub set_multiple-Filled :
      (start cnt : ℕ) (v : Bool)
      → start + cnt ≤ b.bit_cnt
      → Yields (set_multiple b start cnt v) (Filled b start cnt v)
  unfolding set_multiple
  set_multiple-Filled start cnt v fits =
      rw (in_range-some start cnt fits) (set_loop-Filled cnt start v ok fits)

  -- How many of the `n` bits from `at` are `v`.
  pub tally : ℕ → ℕ → Bool → ℕ
  tally zero at v = 0
  tally (suc n) at v = (if same (bit b at) v then 1 else 0) + tally n (at + 1) v

  count_loop-tally :
      (n at : ℕ) (v : Bool) (acc : ℕ)
      → at + n ≤ b.bit_cnt
      → count_loop n b at v acc ≡ some (acc + tally n at v)
  unfolding count_loop tally
  count_loop-tally zero at v acc fits = ap some (omega arith)
  count_loop-tally (suc n) at v acc fits =
      rw
        (
          test-bit ok at (omega arith),
          count_loop-tally n (at + 1) v (if same (bit b at) v then acc + 1 else acc) (omega arith),
        )
        (ap some (ground arith))

  -- `bitmap_count` of a range inside a valid bitmap is the number of its bits that equal `v`.
  pub count-tally :
      (start cnt : ℕ) (v : Bool)
      → start + cnt ≤ b.bit_cnt
      → count b start cnt v ≡ some (tally cnt start v)
  unfolding count
  count-tally start cnt v fits =
      rw (in_range-some start cnt fits, count_loop-tally cnt start v 0 fits) (ap some (omega arith))

  -- Whether some bit of the `n` from `at` is `v`.
  pub occurs : ℕ → ℕ → Bool → Bool
  occurs zero at v = false
  occurs (suc n) at v = same (bit b at) v || occurs n (at + 1) v

  contains_loop-occurs :
      (n at : ℕ) (v : Bool) → at + n ≤ b.bit_cnt → contains_loop n b at v ≡ some (occurs n at v)
  unfolding contains_loop occurs
  contains_loop-occurs zero at v fits = refl
  contains_loop-occurs (suc n) at v fits =
      rw (test-bit ok at (omega arith), contains_loop-occurs n (at + 1) v (omega arith))
        (ground arith)

  -- `bitmap_contains` of a range inside a valid bitmap says whether some bit of it is `v`.
  pub contains-occurs :
      (start cnt : ℕ) (v : Bool)
      → start + cnt ≤ b.bit_cnt
      → contains b start cnt v ≡ some (occurs cnt start v)
  unfolding contains
  contains-occurs start cnt v fits =
      rw (in_range-some start cnt fits) (contains_loop-occurs cnt start v fits)

  pub occurs-false :
      (n at j : ℕ) (v : Bool) → occurs n at v ≡ false → within at n j ≡ true → bit b j ≡ not v
  unfolding occurs within
  occurs-false zero at j v h i = ground arith
  occurs-false (suc n) at j v h i = elim (Bool-cases (j == at)) [
    | inl e ↦ rw (eq_of_== j at e) (ground arith)
    | inr e ↦ occurs-false n (at + 1) j v (ground arith) (ground arith)
  ]

  pub occurs-true :
      (n at : ℕ) (v : Bool)
      → occurs n at v ≡ true
      → (j : ℕ) × (within at n j ≡ true) × (bit b j ≡ v)
  unfolding occurs within
  occurs-true zero at v h = cc
  occurs-true (suc n) at v h = elim (Bool-cases (same (bit b at) v)) [
    | inl e ↦ (at, ground arith, ground arith)
    | inr e ↦ let (j, i, f) = occurs-true n (at + 1) v (ground arith) in (j, ground arith, f)
  ]

  -- `bitmap_all` says whether no bit of the range is off.
  pub all-occurs :
      (start cnt : ℕ)
      → start + cnt ≤ b.bit_cnt
      → all b start cnt ≡ some (not (occurs cnt start false))
  unfolding all
  all-occurs start cnt fits = rw (contains-occurs start cnt false fits)
