-- ===== src/Text/Tests.antt =====
-- string.c on a memory with the string "ABC" at 100.
use group.Base.{ℕ, ◌+◌, ◌-◌, ◌%◌, ◌≡◌, refl, some, ◌==◌, ltb, if◌then◌else◌, min, arith, Yields}
use group.Text.{Memory, memcpy, memmove, memset, strlen, strnlen, strlcpy, strlcat}
use group.Text.Move.{in_block, Moved, memmove-Moved, memcpy-Moved, memset-set_bytes}
use group.Text.Terminated.{IsString, strlen-IsString, strnlen-min}
use group.Text.Copy.{CopiedString, strlcpy-CopiedString, strlcat-CopiedString}

abbrev text : Memory
text a = if a == 100 then 65 else if a == 101 then 66 else if a == 102 then 67 else 0

text-IsString : IsString text 100 3
text-IsString = record { chars = λ k h. ground arith; end = refl }

-- Blocks that overlap by two bytes.
memmove-Moved_example :
    Yields
      (memmove 101 100 3 text)
      (λ r. (r.0 ≡ (if ltb 101 100 then 101 + 3 else 101)) × Moved 101 100 3 text r.1)
memmove-Moved_example = memmove-Moved 101 100 3 text (omega arith) (omega arith)

-- Downwards, the result is the end of the block.
moved_down : Yields (memmove 99 100 3 text) (λ r. r.0 ≡ 102)
unfolding memmove
moved_down = refl

memcpy-Moved_example : Yields (memcpy 200 100 3 text) (λ r. (r.0 ≡ 200) × Moved 200 100 3 text r.1)
memcpy-Moved_example = memcpy-Moved 200 100 3 text (omega arith) (omega arith) (λ k h. ground arith)

memset-set_bytes_example :
    Yields
      (memset 100 300 2 text)
      (λ r. (r.0 ≡ 100) × ((a : ℕ) → r.1 a ≡ (if in_block 100 2 a then 300 % 256 else text a)))
memset-set_bytes_example = memset-set_bytes 100 300 2 text (omega arith)

strlen-IsString_example : strlen 100 text ≡ some 3
strlen-IsString_example = strlen-IsString 100 3 text (omega arith) text-IsString (omega arith)

strnlen-min_example : strnlen 100 2 text ≡ min 3 2
strnlen-min_example = strnlen-min 100 2 3 text text-IsString

strlcpy-CopiedString_example : Yields (strlcpy 200 100 3 text) (λ r.
    (r.0 ≡ 3) × (if ltb 0 3 then CopiedString 200 100 (min 3 (3 - 1)) text r.1 else r.1 ≡ text))
strlcpy-CopiedString_example =
    strlcpy-CopiedString 200 100 3 text (omega arith) (omega arith) text-IsString 3 (omega arith)
      (λ k h. ground arith)

strlcat-CopiedString_example : Yields (strlcat 200 100 3 text) (λ r.
    (r.0 ≡ 3 + 0)
    × (if ltb 0 3
        then CopiedString (200 + 0) 100 (min 3 (3 - 0 - 1)) text r.1
          × IsString r.1 200 (0 + min 3 (3 - 0 - 1))
        else r.1 ≡ text))
strlcat-CopiedString_example =
    strlcat-CopiedString 200 100 0 3 3 text (omega arith) (omega arith) empty text-IsString
      (omega arith) (omega arith) (λ k h. ground arith)
  where
    empty : IsString text 200 0
    empty = record { chars = λ k h. absurd (omega arith); end = refl }
