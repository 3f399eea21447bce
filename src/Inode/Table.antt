-- ===== src/Inode/Table.antt =====
-- inode.c: the list of open inodes, and what the last close of a removed inode gives back. An inode is
-- found by its sector, of which the list has one entry at most.
use group.Base.{
  ℕ, zero, suc, ◌+◌, ◌-◌, Bool, true, false, Option, none, some, List, [], ◌∷◌, ◌==◌, leb, ltb,
  if◌then◌else◌, ◌>>=◌, ◌>>◌, assert,
}
use group.FreeMap.{release}
use group.Inode.{
  Store, with_map, Inode, num_direct_ptrs, indirect_block, inode_get_direct_ptr,
  inode_get_single_ptr, inode_get_double_ptr, read_sector,
}

-- The entry found has one opener more.
unfoldable pub open_loop : ℕ → List Inode → Option (List Inode)
open_loop sector [] = none
open_loop sector (inode ∷ rest) =
    let later = open_loop sector rest in
    if inode.sector == sector
    then some (record inode { open_cnt = inode.open_cnt + 1 } ∷ rest)
    else (do rest ← later; some (inode ∷ rest))

abbrev pub new_inode : ℕ → Inode
new_inode sector = record { sector = sector; open_cnt = 1; removed = false; deny_write_cnt = 0 }

-- `got` says whether `malloc` succeeds; an ASSERT stops the kernel when it does not.
unfoldable pub open_new : Bool → ℕ → List Inode → Option (List Inode) → Option (List Inode)
open_new got sector open_inodes (some found) = some found
open_new got sector open_inodes none = do assert got; some (new_inode sector ∷ open_inodes)

-- The new inode is entered with its sector in one step; `inode_open` sets `inode->sector` behind the list's
-- lock. The count of the openers is not bounded.
unfoldable pub inode_open : Bool → ℕ → List Inode → Option (List Inode)
inode_open got sector open_inodes = open_new got sector open_inodes (open_loop sector open_inodes)

-- A change of one entry; a pointer that is not in the list is a fault.
unfoldable pub change : (Inode → Option Inode) → ℕ → List Inode → Option (List Inode)
change f sector [] = none
change f sector (inode ∷ rest) =
    let later = change f sector rest in
    if inode.sector == sector
    then (do inode ← f inode; some (inode ∷ rest))
    else (do rest ← later; some (inode ∷ rest))

unfoldable pub inode_reopen : ℕ → List Inode → Option (List Inode)
inode_reopen = change (λ inode. some (record inode { open_cnt = inode.open_cnt + 1 }))

unfoldable pub inode_remove : ℕ → List Inode → Option (List Inode)
inode_remove = change (λ inode. some (record inode { removed = true }))

unfoldable pub inode_deny_write : ℕ → List Inode → Option (List Inode)
inode_deny_write = change (λ inode. do
  assert (leb (inode.deny_write_cnt + 1) inode.open_cnt)
  some (record inode { deny_write_cnt = inode.deny_write_cnt + 1 }))

unfoldable pub inode_allow_write : ℕ → List Inode → Option (List Inode)
inode_allow_write = change (λ inode. do
  assert (ltb 0 inode.deny_write_cnt)
  assert (leb inode.deny_write_cnt inode.open_cnt)
  some (record inode { deny_write_cnt = inode.deny_write_cnt - 1 }))

-- The list part of `inode_close`, and the inode that it frees. Entries have an opener, so that a
-- count of 1 is the last.
unfoldable pub close_loop : ℕ → List Inode → Option (Option Inode × List Inode)
close_loop sector [] = none
close_loop sector (inode ∷ rest) =
    let later = close_loop sector rest in
    if inode.sector == sector
    then if inode.open_cnt == 1
      then some (some inode, rest)
      else some (none, record inode { open_cnt = inode.open_cnt - 1 } ∷ rest)
    else (do (freed, rest) ← later; some (freed, inode ∷ rest))

-- `free_map_release (sector, 1)`
pub release_one : ℕ → Store → Option Store
release_one sector st = do m ← release st.wrote sector 1 st.map; some (with_map m st)

pub release_direct : ℕ → ℕ → ℕ → Store → Option Store
release_direct sector zero i st = some st
release_direct sector (suc left) i st = do
  ptr ← inode_get_direct_ptr sector i st
  let more = release_direct sector left (i + 1)
  if ptr == 0 then some st else (do st ← release_one ptr st; more st)

-- The loop of `clear_data` over a block of pointers: it ends at the first null pointer.
pub clear_entries : (ℕ → Store → Option (Bool × Store)) → ℕ → ℕ → ℕ → Store → Option (Bool × Store)
clear_entries clear sector zero i st = some (false, st)
clear_entries clear sector (suc left) i st = do
  ptr ← read_sector sector i st
  (stop, st) ← clear ptr st
  let more = clear_entries clear sector left (i + 1)
  if stop then some (true, st) else more st

pub clear_data : ℕ → ℕ → Store → Option (Bool × Store)
clear_data zero sector st = if sector == 0 then some (true, st) else none
clear_data (suc zero) sector st =
    if sector == 0 then some (true, st) else (do st ← release_one sector st; some (false, st))
clear_data (suc (suc level)) sector st =
    let clear = clear_entries (clear_data (suc level)) sector indirect_block 0 in
    if sector == 0 then some (true, st) else clear st

pub clear_blocks : ℕ → Store → Option Store
clear_blocks sector st = do
  st ← release_one sector st
  st ← release_direct sector num_direct_ptrs 0 st
  single ← inode_get_single_ptr sector st
  (_, st) ← clear_data 2 single st
  double ← inode_get_double_ptr sector st
  (_, st) ← clear_data 3 double st
  some st

unfoldable pub dispose : Option Inode → Store → Option Store
dispose none st = some st
dispose (some inode) st = if inode.removed then clear_blocks inode.sector st else some st

unfoldable pub inode_close : ℕ → List Inode × Store → Option (List Inode × Store)
inode_close sector (open_inodes, st) = do
  (freed, open_inodes) ← close_loop sector open_inodes
  st ← dispose freed st
  some (open_inodes, st)
