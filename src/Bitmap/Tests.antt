-- ===== src/Bitmap/Tests.antt =====
-- bitmap.c: runs on a small bitmap, and the theorems at it.
use group.Base.{◌≡◌, refl, true, false, none, some, [], ◌∷◌, arith, Yields}
use group.Base.Bits.{complement}
use group.Bitmap.{
  Bitmap, set_bit, test, count, scan, scan_and_flip, set_multiple, bitmap_error, contains, modify,
  mark, reset, set_loop, count_loop, contains_loop, scan_loop,
}
use group.Bitmap.Single.{IsValid, bit, test-bit}
use group.Bitmap.Range.{occurs, contains-occurs}
use group.Bitmap.Scan.{IsFirst, scan-IsFirst}

-- 40 bits, of which 0, 1, 3 and 33 are on.
abbrev small : Bitmap
small = record { bit_cnt = 40; bits = 11 ∷ 2 ∷ [] }

small-IsValid : IsValid small
small-IsValid = record { sized = omega arith; words = omega arith; counted = omega arith }

-- Allocation of two bits takes the first free pair, and counts.
scan_and_flip_runs :
    scan_and_flip small 0 2 false ≡ some (4, record { bit_cnt = 40; bits = 59 ∷ 2 ∷ [] })
unfolding scan_and_flip scan scan_loop contains contains_loop test set_multiple set_loop set_bit
    mark modify
scan_and_flip_runs = refl

scan_fails : scan small 30 10 false ≡ some bitmap_error
unfolding scan scan_loop contains contains_loop test
scan_fails = refl

count_runs : count small 0 40 true ≡ some 4
unfolding count count_loop test
count_runs = refl

reset_runs : set_bit small 33 false ≡ some (record { bit_cnt = 40; bits = 11 ∷ 0 ∷ [] })
unfolding set_bit reset modify complement
reset_runs = refl

-- The ASSERT on the index.
set_bit_outside : set_bit small 40 true ≡ none
unfolding set_bit
set_bit_outside = refl

test-bit_example : test small 33 ≡ some (bit small 33)
test-bit_example = test-bit small-IsValid 33 (omega arith)

contains-occurs_example : contains small 4 20 true ≡ some (occurs small-IsValid 20 4 true)
contains-occurs_example = contains-occurs small-IsValid 4 20 true (omega arith)

scan-IsFirst_example : Yields (scan small 0 2 false) (IsFirst small 0 2 false)
scan-IsFirst_example = scan-IsFirst small-IsValid 2 false 0 (omega arith) (omega arith)
