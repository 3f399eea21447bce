-- ===== src/Bitmap.antt =====
-- pintos/src/lib/kernel/bitmap.c: an array of bits packed into 32-bit elements. A failed ASSERT
-- and an access outside the elements are `none`.
pub mod Single
pub mod Range
pub mod Scan
mod Tests
use Prim.Native.Nat.{bit_and, bit_or, bit_xor}
use group.Base.{
  ℕ, zero, suc, ◌+◌, ◌-◌, ◌*◌, ◌/◌, ◌%◌, ◌^◌, Bool, true, false, not, Option, none, some, List,
  ◌==◌, leb, ltb, same, if◌then◌else◌, get_elem?, set, [], ◌>>=◌, ◌>>◌, assert, length,
}
use group.Base.Bits.{complement}

-- `struct bitmap`: `bits` holds `unsigned long` elements, of 32 bits on the i386.
pub record Bitmap : Type 0 where
  pub bit_cnt : ℕ
  pub bits : List ℕ

abbrev pub elem_bits : ℕ
elem_bits = 32

-- SIZE_MAX
abbrev pub bitmap_error : ℕ
bitmap_error = 2 ^ 32 - 1

abbrev pub elem_idx : ℕ → ℕ
elem_idx bit_idx = bit_idx / elem_bits

abbrev pub bit_mask : ℕ → ℕ
bit_mask bit_idx = 2 ^ (bit_idx % elem_bits)

-- DIV_ROUND_UP (bit_cnt, ELEM_BITS)
abbrev pub elem_cnt : ℕ → ℕ
elem_cnt bit_cnt = (bit_cnt + elem_bits - 1) / elem_bits

abbrev pub byte_cnt : ℕ → ℕ
byte_cnt bit_cnt = 4 * elem_cnt bit_cnt

-- `int last_bits`; the mask of the bits in use in the last element
pub last_mask : Bitmap → ℕ
last_mask b =
    let last_bits = b.bit_cnt % elem_bits in
    if last_bits == 0 then 2 ^ elem_bits - 1 else 2 ^ last_bits - 1

pub size : Bitmap → ℕ
size b = b.bit_cnt

-- An `orl`, `andl` or `xorl` on one element.
unfoldable pub modify : Bitmap → ℕ → (ℕ → ℕ) → Option Bitmap
modify b idx f = do x ← get_elem? b.bits idx; some (record b { bits = set b.bits idx (f x) })

unfoldable pub mark : Bitmap → ℕ → Option Bitmap
mark b bit_idx = modify b (elem_idx bit_idx) (λ x. bit_or x (bit_mask bit_idx))

unfoldable pub reset : Bitmap → ℕ → Option Bitmap
reset b bit_idx =
    modify b (elem_idx bit_idx) (λ x. bit_and x (complement elem_bits (bit_mask bit_idx)))

pub flip : Bitmap → ℕ → Option Bitmap
flip b bit_idx = modify b (elem_idx bit_idx) (λ x. bit_xor x (bit_mask bit_idx))

unfoldable pub set_bit : Bitmap → ℕ → Bool → Option Bitmap
set_bit b idx value = do assert (ltb idx b.bit_cnt); if value then mark b idx else reset b idx

unfoldable pub test : Bitmap → ℕ → Option Bool
test b idx = do
  assert (ltb idx b.bit_cnt)
  x ← get_elem? b.bits (elem_idx idx)
  some (not (bit_and x (bit_mask idx) == 0))

-- The two ASSERTs at the head of the functions on a range.
abbrev pub in_range : Bitmap → ℕ → ℕ → Option (Unit {0})
in_range b start cnt = do assert (leb start b.bit_cnt); assert (leb (start + cnt) b.bit_cnt)

-- The loops over `start + i`, with the rounds that are left.
unfoldable pub set_loop : ℕ → Bitmap → ℕ → Bool → Option Bitmap
set_loop zero b at value = some b
set_loop (suc left) b at value = do b' ← set_bit b at value; set_loop left b' (at + 1) value

unfoldable pub set_multiple : Bitmap → ℕ → ℕ → Bool → Option Bitmap
set_multiple b start cnt value = do in_range b start cnt; set_loop cnt b start value

pub set_all : Bitmap → Bool → Option Bitmap
set_all b value = set_multiple b 0 (size b) value

-- `bitmap_create` once both `malloc` calls are behind it.
pub zeroed : ℕ → List ℕ → Option (Option Bitmap)
zeroed bit_cnt bits = do
  b ← set_all (record { bit_cnt = bit_cnt; bits = bits }) false
  some (some b)

-- `malloc` leaves the elements undetermined: `got_bits` is what it returns for them, `none` for
-- NULL, and `got_struct` says whether the struct was allocated. NULL as a result is `some none`.
pub create : Bool → Option (List ℕ) → ℕ → Option (Option Bitmap)
create false got_bits bit_cnt = some none
create true none bit_cnt = if bit_cnt == 0 then zeroed bit_cnt [] else some none
create true (some bits) bit_cnt = zeroed bit_cnt bits

pub count_loop : ℕ → Bitmap → ℕ → Bool → ℕ → Option ℕ
count_loop zero b at value value_cnt = some value_cnt
count_loop (suc left) b at value value_cnt = do
  bit ← test b at
  count_loop left b (at + 1) value (if same bit value then value_cnt + 1 else value_cnt)

pub count : Bitmap → ℕ → ℕ → Bool → Option ℕ
count b start cnt value = do in_range b start cnt; count_loop cnt b start value 0

unfoldable pub contains_loop : ℕ → Bitmap → ℕ → Bool → Option Bool
contains_loop zero b at value = some false
contains_loop (suc left) b at value =
    let rest = contains_loop left b (at + 1) value in
    test b at >>= λ bit. if same bit value then some true else rest

unfoldable pub contains : Bitmap → ℕ → ℕ → Bool → Option Bool
contains b start cnt value = do in_range b start cnt; contains_loop cnt b start value

pub any : Bitmap → ℕ → ℕ → Option Bool
any b start cnt = contains b start cnt true

pub no_bits : Bitmap → ℕ → ℕ → Option Bool
no_bits b start cnt = do found ← contains b start cnt true; some (not found)

unfoldable pub all : Bitmap → ℕ → ℕ → Option Bool
all b start cnt = do found ← contains b start cnt false; some (not found)

-- `for (i = start; i <= last; i++)`, with the rounds that are left
unfoldable pub scan_loop : ℕ → Bitmap → ℕ → ℕ → Bool → Option ℕ
scan_loop zero b i cnt value = some bitmap_error
scan_loop (suc left) b i cnt value =
    let rest = scan_loop left b (i + 1) cnt value in
    contains b i cnt (not value) >>= λ found. if found then rest else some i

unfoldable pub scan : Bitmap → ℕ → ℕ → Bool → Option ℕ
scan b start cnt value = do
  assert (leb start b.bit_cnt)
  if leb cnt b.bit_cnt
      then scan_loop (b.bit_cnt - cnt + 1 - start) b start cnt value
      else some bitmap_error

-- the index and the changed bitmap
unfoldable pub scan_and_flip : Bitmap → ℕ → ℕ → Bool → Option (ℕ × Bitmap)
scan_and_flip b start cnt value = do
  idx ← scan b start cnt value
  if idx == bitmap_error
      then some (idx, b)
      else (do b' ← set_multiple b idx cnt (not value); some (idx, b'))

pub file_size : Bitmap → ℕ
file_size b = byte_cnt b.bit_cnt
