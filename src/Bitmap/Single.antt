-- ===== src/Bitmap/Single.antt =====
-- bitmap.c: what one bit's operation does to the array of bits.
use Prim.Native.Nat.{bit_and, bit_or, bit_xor}
use native.Mathlib.Nat.{one-le-pow, pow-le-pow_right}
use group.Base.{
  ℕ, ◌/◌, ◌%◌, ◌^◌, ◌≤◌, ◌<◌, ◌≡◌, refl, sym, ap, inl, inr, Bool, true, false, not, some, List,
  arith, ◌==◌, ltb, if◌then◌else◌, get_or, set, length, All, length-set, get_elem?-eq-get_or,
  get_or-set_self, get_or-set_ne, All-set, All-get_or, Yields, Bool-cases, eq_of_==, ne_of_==,
}
use group.Base.Bits.{
  bit_at, complement, bit_at-bit_or, bit_at-bit_and, bit_at-bit_xor, bit_or-lt, bit_xor-lt,
  bit_and-le, bit_at-pow, bit_at-complement, bit_and_pow,
}
use group.Bitmap.{Bitmap, elem_cnt, elem_idx, bit_mask, modify, mark, reset, flip, set_bit, test}

-- The elements hold the bits, each fits its word, and the count fits `size_t`.
pub record IsValid (b : Bitmap) : Type 0 where
  pub sized : elem_cnt b.bit_cnt ≤ length b.bits
  pub words : All (λ x. x < 2 ^ 32) b.bits
  pub counted : b.bit_cnt < 2 ^ 32

-- The element of bit `i`, and the abstract array of bits.
abbrev elem_of : Bitmap → ℕ → ℕ
elem_of b i = get_or b.bits (elem_idx i) 0

unfoldable pub bit : Bitmap → ℕ → Bool
bit b i = bit_at (elem_of b i) (i % 32)

-- `c` is `b` with bit `i` set to `v`.
pub record Changed (b : Bitmap) (i : ℕ) (v : Bool) (c : Bitmap) : Type 0 where
  pub valid : IsValid c
  pub same_cnt : c.bit_cnt ≡ b.bit_cnt
  pub bits_of : (j : ℕ) → bit c j ≡ (if j == i then v else bit b j)

-- Bit `j` after element `i / 32` became `y`, where `y` differs from it in bit `i % 32` alone.
bits_after :
    (xs : List ℕ) (i j y : ℕ) (v : Bool)
    → i / 32 < length xs
    → ((k : ℕ) → k < 32 → bit_at y k ≡ (if k == i % 32 then v else bit_at (get_or xs (i / 32) 0) k))
    → bit_at (get_or (set xs (i / 32) y) (j / 32) 0) (j % 32)
      ≡ (if j == i then v else bit_at (get_or xs (j / 32) 0) (j % 32))
bits_after xs i j y v inside h = elim (Bool-cases (j / 32 == i / 32)) [
  | inl e ↦
      rw
        (
          eq_of_== (j / 32) (i / 32) e,
          get_or-set_self xs (i / 32) y 0 inside,
          h (j % 32) (omega arith),
        )
        (ap (λ c. if c then v else bit_at (get_or xs (i / 32) 0) (j % 32))
          (let e' = eq_of_== (j / 32) (i / 32) e in ground arith))
  | inr e ↦ rw (
    get_or-set_ne xs (i / 32) (j / 32) y 0 (λ q. ne_of_== (j / 32) (i / 32) e (sym q)),
    let d : (j == i) ≡ false = ground arith in d,
  )
]

module _ {b : Bitmap} (ok : IsValid b) (i : ℕ) (lt : i < b.bit_cnt) where
  elem_in : elem_idx i < length b.bits
  elem_in = omega (arith, ok.sized, ok.counted)

  elem-lt : elem_of b i < 2 ^ 32
  elem-lt = All-get_or (λ x. x < 2 ^ 32) b.bits (elem_idx i) 0 ok.words (omega arith)

  -- One element changes, and in it the bits that `f` changes.
  modify-Changed :
      (f : ℕ → ℕ) (v : Bool)
      → f (elem_of b i) < 2 ^ 32
      → ((k : ℕ)
          → k < 32
          → bit_at (f (elem_of b i)) k ≡ (if k == i % 32 then v else bit_at (elem_of b i) k))
      → Yields (modify b (elem_idx i) f) (Changed b i v)
  unfolding modify bit
  modify-Changed f v small h = rw (get_elem?-eq-get_or b.bits (elem_idx i) 0 elem_in) (record {
    valid = record {
      sized = omega (arith, ok.sized, length-set b.bits (elem_idx i) (f (elem_of b i)));
      words = All-set (λ x. x < 2 ^ 32) b.bits (elem_idx i) _ ok.words small;
      counted = ok.counted;
    };
    same_cnt = refl;
    bits_of = λ j. bits_after b.bits i j (f (elem_of b i)) v elem_in h;
  })

  bit_mask-lt : bit_mask i < 2 ^ 32
  bit_mask-lt = small (i % 32) (omega arith)
    where
      small : (k : ℕ) → k < 32 → 2 ^ k < 2 ^ 32
      small k p =
          omega (arith, pow-le-pow_right {n = 2} (omega arith) {i = k} {j = 31} (omega arith))

  -- `bitmap_mark` turns bit `i` on, and changes no other bit.
  pub mark-Changed : Yields (mark b i) (Changed b i true)
  unfolding mark
  mark-Changed =
      modify-Changed (λ x. bit_or x (bit_mask i)) true (bit_or-lt 32 _ _ elem-lt bit_mask-lt)
        λ k small. rw (bit_at-bit_or, bit_at-pow) (ground arith)

  -- `bitmap_reset` turns bit `i` off, and changes no other bit.
  pub reset-Changed : Yields (reset b i) (Changed b i false)
  unfolding reset
  reset-Changed =
      modify-Changed (λ x. bit_and x (complement 32 (bit_mask i))) false
        (omega (arith, bit_and-le 32 (elem_of b i) (complement 32 (bit_mask i)) elem-lt, elem-lt))
        λ k small.
          rw (bit_at-bit_and, bit_at-complement 32 (bit_mask i) k bit_mask-lt small, bit_at-pow)
            (ground arith)

  -- `bitmap_flip` of a bit inside a valid bitmap, an `xor` on its element, inverts that bit,
  -- changes no other bit, and keeps the bitmap valid.
  pub flip-Changed : Yields (flip b i) (Changed b i (not (bit b i)))
  unfolding flip bit
  flip-Changed =
      modify-Changed (λ x. bit_xor x (bit_mask i)) _ (bit_xor-lt 32 _ _ elem-lt bit_mask-lt)
        λ k small. rw (bit_at-bit_xor, bit_at-pow) (ground arith)

  -- `bitmap_set` of a bit inside a valid bitmap, by an `or` or by an `and` on its element, makes
  -- that bit `v`, changes no other bit, and keeps the bitmap valid.
  pub set_bit-Changed : (v : Bool) → Yields (set_bit b i v) (Changed b i v)
  unfolding set_bit
  set_bit-Changed true = rw (let e : ltb i b.bit_cnt ≡ true = ground arith in e) mark-Changed
  set_bit-Changed false = rw (let e : ltb i b.bit_cnt ≡ true = ground arith in e) reset-Changed

  -- `bitmap_test` of a bit inside a valid bitmap reads that bit of its element.
  pub test-bit : test b i ≡ some (bit b i)
  unfolding test bit
  test-bit =
      rw
        (
          let e : ltb i b.bit_cnt ≡ true = ground arith in e,
          get_elem?-eq-get_or b.bits (elem_idx i) 0 elem_in,
          bit_and_pow (elem_of b i) (i % 32),
        )
        (ground (arith, one-le-pow (i % 32) 2 (omega arith)))
