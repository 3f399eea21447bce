-- ===== src/FreeMap.antt =====
-- pintos/src/filesys/free-map.c: the map of free sectors. `da_lock` makes each operation atomic, so
-- an operation is a function on the state.
pub mod Alloc
mod Tests
use group.Base.{
  ℕ, ◌+◌, ◌%◌, ◌^◌, Bool, true, false, not, ◌&&◌, Option, none, some, List, ◌==◌, if◌then◌else◌,
  ◌>>=◌, ◌>>◌, assert,
}
use group.Bitmap.{Bitmap, bitmap_error, create, mark, scan_and_flip, set_multiple, all}

-- `free_map`; whether `free_map_file` is open; the map as last written to that file; `sectors`.
pub record FreeMap : Type 0 where
  pub map : Bitmap
  pub has_file : Bool
  pub file : Bitmap
  pub sectors : ℕ

abbrev pub free_map_sector : ℕ
free_map_sector = 0

abbrev pub root_dir_sector : ℕ
root_dir_sector = 1

-- `bitmap_create` is given what `malloc` returns; a NULL result is a PANIC.
pub init_map : Option Bitmap → Option FreeMap
init_map none = none
init_map (some b) = do
  b ← mark b free_map_sector
  b ← mark b root_dir_sector
  some (record { map = b; has_file = false; file = b; sectors = 0 })

pub init : Bool → Option (List ℕ) → ℕ → Option FreeMap
init got_struct got_bits block_size = do b ← create got_struct got_bits block_size; init_map b

-- `sectors += cnt` on an `int`, kept as its bit pattern
abbrev pub counted : FreeMap → ℕ → FreeMap
counted m cnt = record m { sectors = (m.sectors + cnt) % 2 ^ 32 }

-- `wrote` is what `bitmap_write` returns. The result is `*sectorp`, or `none` for `false`.
pub settle : Bool → ℕ → FreeMap → ℕ × Bitmap → Option (Option ℕ × FreeMap)
settle wrote cnt m (sector, b) =
    if sector == bitmap_error
    then some (none, record m { map = b })
    else if m.has_file && not wrote
    then (do undone ← set_multiple b sector cnt false; some (none, record m { map = undone }))
    else some (some sector, record m { map = b; file = if m.has_file then b else m.file })

pub allocate : Bool → ℕ → FreeMap → Option (Option ℕ × FreeMap)
allocate wrote cnt m = do
  found ← scan_and_flip m.map 0 cnt false
  settle wrote cnt (counted m cnt) found

-- The result of `bitmap_write` is ignored here, but its file must be open: it goes through the pointer.
pub release : Bool → ℕ → ℕ → FreeMap → Option FreeMap
release wrote sector cnt m = do
  used ← all m.map sector cnt
  assert used
  b ← set_multiple m.map sector cnt false
  assert m.has_file
  some (record m { map = b; file = if wrote then b else m.file })
