-- ===== src/Inode.antt =====
-- pintos/src/filesys/inode.c: the sectors of a file, found by direct, indirect and doubly indirect
-- pointers in its inode; reads, writes and growth. The caller has the inode's lock.
mod Sectors
mod Layout
mod Grow
pub mod Blocks
pub mod Read
pub mod Patch
pub mod Write
pub mod Alloc
pub mod RoundTrip
pub mod Refine
pub mod Table
pub mod Counts
pub mod Close
pub mod Words
pub mod Tree
pub mod Longer
pub mod Append
pub mod Grown
mod Tests
pub use Sectors.*
pub use Layout.*
unfoldable pub use Grow.*
use group.Base.{
  ℕ, zero, suc, ◌+◌, ◌-◌, ◌*◌, ◌/◌, ◌%◌, Bool, true, false, not, ◌&&◌, Option, none, some, List, [],
  ◌∷◌, ◌++◌, ◌==◌, leb, ltb, if◌then◌else◌, update, ◌>>=◌, ◌>>◌, assert, length, replicate, take,
  drop, min,
}
use group.Cache.{sector_size}
use group.FreeMap.{FreeMap, allocate, release}

-- The three cases of `byte_to_sector`.
unfoldable pub lookup : ℕ → ℕ → Store → Option ℕ
lookup inode i st =
    if ltb i num_direct_ptrs
    then inode_get_direct_ptr inode i st
    else if ltb i (num_direct_ptrs + indirect_block)
    then (do single ← inode_get_single_ptr inode st; read_sector single (i - num_direct_ptrs) st)
    else (do
      double ← inode_get_double_ptr inode st
      let dab = i - num_direct_ptrs - indirect_block
      sec_mabel ← read_sector double (dab / indirect_block) st
      read_sector sec_mabel (dab % indirect_block) st)

-- `none` stands for -1.
unfoldable pub byte_to_sector : ℕ → ℕ → Store → Option (Option ℕ)
byte_to_sector inode pos st = do
  let i = bytes_to_sector_index pos
  assert (ltb i max_sectors)
  len ← inode_get_length inode st
  if leb len pos
      then some none
      else (do sector ← lookup inode i st; assert (not (sector == 0)); some (some sector))

-- `chunk_size`; a negative `inode_left` counts as 0, where the loop ends as well.
abbrev pub chunk : ℕ → ℕ → ℕ → ℕ
chunk len size offset = min size (min (len - offset) (sector_size - offset % sector_size))

-- The bytes put into the buffer; a sector number of -1 lies outside of the disk. Their number is the result. The fuel bounds the rounds.
unfoldable pub read_loop : ℕ → ℕ → ℕ → ℕ → Store → Option (List ℕ)
read_loop zero inode size offset st = none
read_loop (suc fuel) inode size offset st =
    let rest = λ (n : ℕ). read_loop fuel inode (size - n) (offset + n) st in
    if size == 0 then some [] else (do
      sector_idx ← byte_to_sector inode offset st
      len ← inode_get_length inode st
      let sector_ofs = offset % sector_size
      let n = chunk len size offset
      if n == 0 then some [] else (do
        sector ← sector_idx
        bytes ← cached_read sector sector_ofs (sector_ofs + n) st
        more ← rest n
        some (bytes ++ more)))

unfoldable pub inode_read_at : ℕ → ℕ → ℕ → Store → Option (List ℕ)
inode_read_at inode size offset = read_loop (suc size) inode size offset

-- The number of bytes written; `buffer` holds the `size` bytes that are left.
unfoldable pub write_loop : ℕ → ℕ → List ℕ → ℕ → Store → Option (ℕ × Store)
write_loop zero inode buffer offset st = none
write_loop (suc fuel) inode buffer offset st =
    let rest = λ (n : ℕ) (st : Store). write_loop fuel inode (drop n buffer) (offset + n) st in
    if length buffer == 0 then some (0, st) else (do
      sector_idx ← byte_to_sector inode offset st
      len ← inode_get_length inode st
      let sector_ofs = offset % sector_size
      let n = chunk len (length buffer) offset
      if n == 0 then some (0, st) else (do
        sector ← sector_idx
        st ← cached_write sector (take n buffer) sector_ofs st
        (written, st) ← rest n st
        some (n + written, st)))

-- The result of the extension is not looked at, and it comes before the test of `deny_write_cnt`.
unfoldable pub inode_write_at : Inode → List ℕ → ℕ → Store → Option (ℕ × Store)
inode_write_at inode buffer offset st = do
  (_, st) ← inode_extend_to_bytes inode.sector (offset + length buffer) st
  if not (inode.deny_write_cnt == 0)
      then some (0, st)
      else write_loop (suc (length buffer)) inode.sector buffer offset st
