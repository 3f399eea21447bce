-- ===== src/Directory.antt =====
-- pintos/src/filesys/directory.c: a directory is a file of entries of 20 bytes. The caller has the
-- directory's lock. A string is the list of its characters, without the null byte.
mod Path
pub mod Names
pub mod Lookup
pub mod Slots
pub mod Change
pub mod Add
pub mod Entries
pub mod Remove
pub mod Listing
pub mod Parts
pub mod Walk
pub mod Counts
pub mod Resolve
pub mod Paths
pub mod Subdir
pub mod Enlarge
mod Tests
mod GrowthTests
unfoldable pub use Path.*
use group.Base.{
  ℕ, zero, suc, ◌+◌, ◌-◌, ◌*◌, Bool, true, false, not, ◌&&◌, ◌||◌, Option, none, some, List, [],
  ◌∷◌, ◌++◌, ◌==◌, leb, ltb, if◌then◌else◌, ◌>>=◌, ◌>>◌, assert, length, take, drop, set, get_or,
  min,
}
use group.Inode.{Store, Inode, of_bytes, to_bytes, inode_read_at, inode_write_at, inode_create_wild}
use group.Inode.Table.{inode_open, inode_remove, inode_close}

-- `NAME_MAX`, `sizeof (struct dir_entry)`, and more entries than a file can hold
abbrev pub name_max : ℕ
name_max = 14

abbrev pub entry_size : ℕ
entry_size = 20

abbrev pub max_entries : ℕ
max_entries = 423016

-- `struct dir_entry`, as its bytes: the sector, the name and `in_use`.
abbrev pub DirEntry : Type 0
DirEntry = List ℕ

abbrev pub inode_sector : DirEntry → ℕ
inode_sector e = of_bytes (take 4 e)

abbrev pub name_field : DirEntry → List ℕ
name_field e = take 15 (drop 4 e)

abbrev pub in_use : DirEntry → Bool
in_use e = not (get_or e 19 0 == 0)

-- `!strcmp (name, field)`; a field without a null byte is a fault.
unfoldable pub str_eq : List ℕ → List ℕ → Option Bool
str_eq name [] = none
str_eq [] (c ∷ field) = some (c == 0)
str_eq (x ∷ name) (c ∷ field) = if x == c then str_eq name field else some false

-- `e.in_use && !strcmp (name, e.name)`
unfoldable pub matches : List ℕ → DirEntry → Option Bool
matches name e = if in_use e then str_eq name (name_field e) else some false

unfoldable pub lookup_loop : ℕ → ℕ → List ℕ → ℕ → Store → Option (Option (DirEntry × ℕ))
lookup_loop zero dir name ofs st = none
lookup_loop (suc fuel) dir name ofs st =
    let rest = lookup_loop fuel dir name (ofs + entry_size) st in
    do
      e ← inode_read_at dir entry_size ofs st
      if not (length e == entry_size)
          then some none
          else (do hit ← matches name e; if hit then some (some (e, ofs)) else rest)

-- The entry and its offset, or `none` for `false`.
unfoldable pub lookup_unsynched : ℕ → List ℕ → Store → Option (Option (DirEntry × ℕ))
lookup_unsynched dir name st = lookup_loop max_entries dir name 0 st

abbrev pub dot_dot : List ℕ
dot_dot = b'.' ∷ b'.' ∷ []

-- An inode is known by its sector; `malloc` succeeds in `inode_open`, where an ASSERT stops the kernel
-- otherwise.
unfoldable pub open_found :
    List ℕ → Option (DirEntry × ℕ) → List Inode → Option (Option ℕ × List Inode)
open_found name none inodes = do
  dotdot ← str_eq name (dot_dot ++ 0 ∷ [])
  assert (not dotdot)
  some (none, inodes)
open_found name (some (e, ofs)) inodes = do
  inodes ← inode_open true (inode_sector e) inodes
  some (some (inode_sector e), inodes)

unfoldable pub dir_lookup_unsynched :
    ℕ → List ℕ → List Inode × Store → Option (Option ℕ × List Inode)
dir_lookup_unsynched dir name (inodes, st) = do
  found ← lookup_unsynched dir name st
  open_found name found inodes

-- A short read leaves the bytes behind it as they were.
abbrev pub read_into : DirEntry → List ℕ → DirEntry
read_into e bytes = bytes ++ drop (length bytes) e

-- The loop that looks for a free slot: its offset or that of the end, and what `e` then holds.
unfoldable pub free_slot_loop : ℕ → ℕ → DirEntry → ℕ → Store → Option (DirEntry × ℕ)
free_slot_loop zero dir e ofs st = none
free_slot_loop (suc fuel) dir e ofs st =
    let rest = λ (e : DirEntry). free_slot_loop fuel dir e (ofs + entry_size) st in
    do
      bytes ← inode_read_at dir entry_size ofs st
      if not (length bytes == entry_size)
          then some (read_into e bytes, ofs)
          else if not (in_use bytes)
          then some (bytes, ofs)
          else rest bytes

-- `strlcpy (e.name, name, sizeof e.name)`, and the two other fields
unfoldable pub copy_name : List ℕ → List ℕ → List ℕ
copy_name name field = take name_max name ++ 0 ∷ drop (min (length name) name_max + 1) field

unfoldable pub fill_entry : DirEntry → List ℕ → ℕ → DirEntry
fill_entry e name sector = to_bytes 4 sector ++ copy_name name (name_field e) ++ 1 ∷ []

unfoldable pub add_new :
    DirEntry → Inode → List ℕ → ℕ → Store → Option (DirEntry × ℕ) → Option (Bool × Store)
add_new e dir name sector st (some found) = some (false, st)
add_new e dir name sector st none = do
  (e, ofs) ← free_slot_loop max_entries dir.sector e 0 st
  (written, st) ← inode_write_at dir (fill_entry e name sector) ofs st
  some (written == entry_size, st)

-- `e` is what the uninitialised variable holds at first.
unfoldable pub dir_add_unsynched : DirEntry → Inode → List ℕ → ℕ → Store → Option (Bool × Store)
dir_add_unsynched e dir name sector st =
    if length name == 0 || ltb name_max (length name)
    then some (false, st)
    else (do found ← lookup_unsynched dir.sector name st; add_new e dir name sector st found)

-- The inode of a pointer.
unfoldable pub inode_at : ℕ → List Inode → Option Inode
inode_at sector [] = none
inode_at sector (inode ∷ rest) = if inode.sector == sector then some inode else inode_at sector rest

unfoldable pub remove_found :
    ℕ → Option (DirEntry × ℕ) → List Inode × Store → Option (Bool × (List Inode × Store))
remove_found dir none fs = some (false, fs)
remove_found dir (some (e, ofs)) (inodes, st) = do
  inodes ← inode_open true (inode_sector e) inodes
  inode ← inode_at dir inodes
  (written, st) ← inode_write_at inode (set e 19 0) ofs st
  assert (written == entry_size)
  inodes ← inode_remove (inode_sector e) inodes
  fs ← inode_close (inode_sector e) (inodes, st)
  some (true, fs)

unfoldable pub dir_remove : ℕ → List ℕ → List Inode × Store → Option (Bool × (List Inode × Store))
dir_remove dir name fs = do found ← lookup_unsynched dir name fs.1; remove_found dir found fs

-- The characters of a field up to its null byte, or `NAME_MAX` of them.
unfoldable pub c_string : List ℕ → Option (List ℕ)
c_string [] = none
c_string (c ∷ field) =
    let rest = c_string field in if c == 0 then some [] else (do s ← rest; some (c ∷ s))

-- The loop of `dir_readdir`: the name, or `none` for `false`, and the position.
unfoldable pub readdir_loop :
    (DirEntry → Option Bool) → ℕ → ℕ → ℕ → Store → Option (Option (List ℕ) × ℕ)
readdir_loop wanted zero dir pos st = none
readdir_loop wanted (suc fuel) dir pos st =
    let rest = readdir_loop wanted fuel dir (pos + entry_size) st in
    do
      e ← inode_read_at dir entry_size pos st
      if not (length e == entry_size) then some (none, pos) else (do
        hit ← wanted e
        if hit
            then (do
              name ← c_string (name_field e)
              some (some (take name_max name), pos + entry_size))
            else rest)

unfoldable pub dir_readdir : ℕ → ℕ → Store → Option (Option (List ℕ) × ℕ)
dir_readdir = readdir_loop (λ e. some (in_use e)) max_entries

-- `e.in_use && !(strcmp (".", e.name) == 0) && !(strcmp ("..", e.name) == 0)`
unfoldable pub is_proper : DirEntry → Option Bool
is_proper e =
    if in_use e
    then (do
      dot ← str_eq (b'.' ∷ []) (name_field e)
      dotdot ← str_eq dot_dot (name_field e)
      some (not dot && not dotdot))
    else some false

unfoldable pub dir_readdir_2 : ℕ → ℕ → Store → Option (Option (List ℕ) × ℕ)
dir_readdir_2 = readdir_loop is_proper max_entries

unfoldable pub is_empty_loop : ℕ → ℕ → ℕ → Store → Option Bool
is_empty_loop zero dir ofs st = none
is_empty_loop (suc fuel) dir ofs st =
    let rest = is_empty_loop fuel dir (ofs + entry_size) st in
    do
      e ← inode_read_at dir entry_size ofs st
      if not (length e == entry_size)
          then some true
          else (do hit ← is_proper e; if hit then some false else rest)

unfoldable pub is_empty : ℕ → Store → Option Bool
is_empty dir st = is_empty_loop max_entries dir 0 st

unfoldable pub dir_create : ℕ → ℕ → Store → Option (Bool × Store)
dir_create sector entry_cnt = inode_create_wild sector (entry_cnt * entry_size) 1
