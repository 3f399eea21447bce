-- ===== src/Bitmap/Scan.antt =====
-- bitmap.c: the search for a run of equal bits, and the allocation built on it.
use group.Base.{
  ℕ, zero, suc, ◌+◌, ◌-◌, ◌≤◌, ◌<◌, ◌≡◌, ◌≢◌, refl, Bool, true, false, not, Option, none, some,
  List, arith, ◌==◌, leb, if◌then◌else◌, Yields, Yields-bind, Yields-mono, Bool-cases, inl, inr,
  All, length, ◌^◌, eq_of_==, ==_ne, ◌>>=◌,
}
use group.Bitmap.{
  Bitmap, elem_cnt, bitmap_error, size, set_all, set_multiple, zeroed, create, scan_loop, scan,
  scan_and_flip,
}
use group.Bitmap.Single.{IsValid, bit}
use group.Bitmap.Range.{
  within, Filled, set_multiple-Filled, occurs, contains-occurs, occurs-false, occurs-true,
}

-- The `cnt` bits from `i` lie in the bitmap and equal `v`.
pub record IsRun (b : Bitmap) (i cnt : ℕ) (v : Bool) : Type 0 where
  pub fits : i + cnt ≤ b.bit_cnt
  pub equal : (j : ℕ) → within i cnt j ≡ true → bit b j ≡ v

-- `r` is the first run at or after `start`, or the error value if there is none.
pub data IsFirst (b : Bitmap) (start cnt : ℕ) (v : Bool) (r : ℕ) : Type 0 where
  found :
      r ≢ bitmap_error
      → start ≤ r
      → IsRun b r cnt v
      → ((i : ℕ) → start ≤ i → i < r → ¬ IsRun b i cnt v)
      → IsFirst b start cnt v r
  missing : r ≡ bitmap_error → ((i : ℕ) → start ≤ i → ¬ IsRun b i cnt v) → IsFirst b start cnt v r

module _ {b : Bitmap} (ok : IsValid b) (cnt : ℕ) (v : Bool) where
  IsRun-of_occurs :
      (i : ℕ) → i + cnt ≤ b.bit_cnt → occurs ok cnt i (not v) ≡ false → IsRun b i cnt v
  IsRun-of_occurs i fits none_other = record {
    fits = fits;
    equal = λ j h. ground (arith, occurs-false ok cnt i j (not v) none_other h);
  }

  not-IsRun : (i : ℕ) → occurs ok cnt i (not v) ≡ true → ¬ IsRun b i cnt v
  not-IsRun i other run =
      let (j, at, differs) = occurs-true ok cnt i (not v) other in ground (arith, run.equal j at)

  IsFirst-earlier : (i r : ℕ) → ¬ IsRun b i cnt v → IsFirst b (i + 1) cnt v r → IsFirst b i cnt v r
  IsFirst-earlier i r no_run (found p from run least) = found p (omega arith) run λ k later below.
      elim (Bool-cases (k == i)) [
        | inl e ↦ rw (eq_of_== k i e) no_run
        | inr e ↦ least k (ground arith) below
      ]
  IsFirst-earlier i r no_run (missing p nowhere) = missing p λ k later. elim (Bool-cases (k == i)) [
    | inl e ↦ rw (eq_of_== k i e) no_run
    | inr e ↦ nowhere k (ground arith)
  ]

  scan_loop-IsFirst :
      (left i : ℕ)
      → 0 < cnt
      → cnt ≤ b.bit_cnt
      → b.bit_cnt - cnt + 1 ≤ i + left
      → (0 < left → i + left ≤ b.bit_cnt - cnt + 1)
      → Yields (scan_loop left b i cnt v) (IsFirst b i cnt v)
  unfolding scan_loop
  scan_loop-IsFirst zero i pos room e g = missing refl (λ k later run. omega (arith, run.fits))
  scan_loop-IsFirst (suc left) i pos room e g =
      rw (contains-occurs ok i cnt (not v) (omega arith))
        (elim (Bool-cases (occurs ok cnt i (not v))) [
          | inl other ↦ rw other (
              Yields-mono _ _ (scan_loop left b (i + 1) cnt v)
                (scan_loop-IsFirst left (i + 1) pos room (omega arith) (λ p. omega arith))
                λ r. IsFirst-earlier i r (not-IsRun i other))
          | inr clear ↦ rw clear (
              found (omega (arith, ok.counted)) (omega arith)
                (IsRun-of_occurs i (omega arith) clear) λ k from below. absurd (omega arith))
        ])

  -- `bitmap_scan` for a positive `cnt`, on a valid bitmap and from a start inside it, returns the
  -- first index at or after `start` where `cnt` bits equal the value, or BITMAP_ERROR when there is
  -- none.
  pub scan-IsFirst :
      (start : ℕ)
      → 0 < cnt
      → start ≤ b.bit_cnt
      → Yields (scan b start cnt v) (IsFirst b start cnt v)
  unfolding scan
  scan-IsFirst start pos inside =
      rw (let e : leb start b.bit_cnt ≡ true = ground arith in e)
        (elim (Bool-cases (leb cnt b.bit_cnt)) [
          | inl room ↦ rw room (
              scan_loop-IsFirst (b.bit_cnt - cnt + 1 - start) start pos (ground arith) (omega arith)
                λ p. omega arith)
          | inr short ↦ rw short (missing refl λ k later run. let f = run.fits in ground arith)
        ])

  -- What `bitmap_scan_and_flip` returns: a run that it flipped, or the error and the old bitmap.
  pub data Flipped (start : ℕ) : ℕ × Bitmap → Type 0 where
    flipped :
        {r : ℕ} {c : Bitmap}
        → r ≢ bitmap_error
        → start ≤ r
        → IsRun b r cnt v
        → ((i : ℕ) → start ≤ i → i < r → ¬ IsRun b i cnt v)
        → Filled b r cnt (not v) c
        → Flipped start (r, c)
    unchanged : ((i : ℕ) → start ≤ i → ¬ IsRun b i cnt v) → Flipped start (bitmap_error, b)

  flip_found :
      (start r : ℕ)
      → IsFirst b start cnt v r
      → Yields
          (if r == bitmap_error
            then some (r, b)
            else (set_multiple b r cnt (not v) >>= λ c. some (r, c)))
          (Flipped start)
  flip_found start r (found p from run least) = rw (==_ne r bitmap_error p) (
      Yields-bind _ _ (set_multiple b r cnt (not v)) _
        (set_multiple-Filled ok r cnt (not v) run.fits) λ c filled. flipped p from run least filled)
  flip_found start r (missing p nowhere) = rw p (unchanged nowhere)

  -- `bitmap_scan_and_flip`, under the same conditions, flips exactly the bits of the first run that
  -- it finds, or reports BITMAP_ERROR and changes nothing.
  pub scan_and_flip-Flipped :
      (start : ℕ)
      → 0 < cnt
      → start ≤ b.bit_cnt
      → Yields (scan_and_flip b start cnt v) (Flipped start)
  unfolding scan_and_flip
  scan_and_flip-Flipped start pos inside =
      Yields-bind _ _ (scan b start cnt v) _ (scan-IsFirst start pos inside) (flip_found start)

-- A bitmap with every bit off.
pub record IsBlank (bit_cnt : ℕ) (b : Bitmap) : Type 0 where
  pub valid : IsValid b
  pub cnt : b.bit_cnt ≡ bit_cnt
  pub blank : (j : ℕ) → j < bit_cnt → bit b j ≡ false

unfoldable pub IsBlank? : ℕ → Option Bitmap → Type 0
IsBlank? bit_cnt none = ⊥
IsBlank? bit_cnt (some b) = IsBlank bit_cnt b

-- Whatever `malloc` left in the elements it returned, enough 32-bit words, `bitmap_create` yields a
-- valid bitmap of `bit_cnt` bits, all of them off.
pub create-IsBlank :
    (bit_cnt : ℕ) (bits : List ℕ)
    → bit_cnt < 2 ^ 32
    → elem_cnt bit_cnt ≤ length bits
    → All (λ x. x < 2 ^ 32) bits
    → Yields (create true (some bits) bit_cnt) (IsBlank? bit_cnt)
unfolding create zeroed set_all size IsBlank?
create-IsBlank bit_cnt bits small room words =
    Yields-bind _ _ (set_multiple fresh 0 bit_cnt false) _
      (set_multiple-Filled (record { sized = room; words = words; counted = small }) 0 bit_cnt false
        (omega arith))
      λ b f. record {
        valid = f.valid;
        cnt = f.same_cnt;
        blank = λ j h. unfold within in ground (arith, f.bits_of j);
      }
  where
    fresh : Bitmap
    fresh = record { bit_cnt = bit_cnt; bits = bits }
