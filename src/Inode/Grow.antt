-- ===== src/Inode/Grow.antt =====
-- inode.c: new sectors for a file, and the creation of an inode.
use group.Base.{
  ℕ, zero, suc, ◌+◌, ◌-◌, ◌/◌, ◌%◌, Bool, true, false, not, Option, none, some, List, [], ◌∷◌, ◌==◌,
  leb, ltb, if◌then◌else◌, ◌>>=◌, ◌>>◌, assert, replicate,
}
use group.Cache.{sector_size}
use group.FreeMap.{FreeMap, allocate, release}
use group.Inode.Sectors.{Store, with_map, cached_write}
use group.Inode.Layout.{
  num_direct_ptrs, indirect_block, max_sectors, bytes_to_sectors, bytes_to_sector_index,
  inode_get_length, inode_set_length, inode_set_is_dir, inode_set_direct_ptr, inode_get_single_ptr,
  inode_set_single_ptr, inode_get_double_ptr, inode_set_double_ptr, inode_set_magic, inode_magic,
  read_sector, write_sector,
}

abbrev pub zero_block : List ℕ
zero_block = replicate sector_size 0

unfoldable pub zero_sector : FreeMap → Option ℕ → Store → Option (Option ℕ × Store)
zero_sector m none st = some (none, with_map m st)
zero_sector m (some sector) st = do
  st ← cached_write sector zero_block 0 (with_map m st)
  some (some sector, st)

-- The sector, or `none` for `false`.
unfoldable pub get_sector : Store → Option (Option ℕ × Store)
get_sector st = do (found, m) ← allocate st.wrote 1 st.map; zero_sector m found st

-- The loop `for (j = …; j > 0; j--)` over the sectors taken, the last first: the first is kept.
unfoldable pub give_back : List ℕ → Store → Option Store
give_back [] st = some st
give_back (first ∷ []) st = some st
give_back (sector ∷ more ∷ rest) st = do
  m ← release st.wrote sector 1 st.map
  give_back (more ∷ rest) (with_map m st)

unfoldable pub can_allocate_loop : ℕ → List ℕ → Store → Option (Bool × Store)
can_allocate_loop zero taken st = do st ← give_back taken st; some (true, st)
can_allocate_loop (suc left) taken st =
    let more = can_allocate_loop left in
    get_sector st >>= λ (found, st). elim found [
      | none ↦ give_back taken st >>= λ st. some (false, st)
      | some sector ↦ more (sector ∷ taken) st
    ]

unfoldable pub can_allocate : ℕ → Store → Option (Bool × Store)
can_allocate num = can_allocate_loop num []

-- `ASSERT (get_sector (&sec))`
unfoldable pub must_get : Option ℕ × Store → Option (ℕ × Store)
must_get (none, st) = none
must_get (some sector, st) = some (sector, st)

-- A pointer that is 0 gets a new sector.
unfoldable pub ensure : ℕ → (ℕ → Store → Option Store) → Store → Option (ℕ × Store)
ensure ptr install st =
    if ptr == 0
    then (do
      (new_sector, st) ← get_sector st >>= must_get
      st ← install new_sector st
      some (new_sector, st))
    else some (ptr, st)

-- The pointer to the new sector is put into its place.
unfoldable pub install_ptr : ℕ → ℕ → ℕ → Store → Option Store
install_ptr sector i sec st =
    if ltb i num_direct_ptrs
    then inode_set_direct_ptr sector i sec st
    else if ltb i (num_direct_ptrs + indirect_block)
    then (do
      ptr ← inode_get_single_ptr sector st
      (_, st) ← ensure ptr (inode_set_single_ptr sector) st
      single ← inode_get_single_ptr sector st
      write_sector single (i - num_direct_ptrs) sec st)
    else (do
      ptr ← inode_get_double_ptr sector st
      (_, st) ← ensure ptr (inode_set_double_ptr sector) st
      double ← inode_get_double_ptr sector st
      let dab = i - num_direct_ptrs - indirect_block
      ptr ← read_sector double (dab / indirect_block) st
      (ind_sec, st) ← ensure ptr (write_sector double (dab / indirect_block)) st
      write_sector ind_sec (dab % indirect_block) sec st)

unfoldable pub install_sector : ℕ → ℕ → Store → Option Store
install_sector sector i st = do
  assert (ltb i max_sectors)
  (sec, st) ← get_sector st >>= must_get
  st ← cached_write sec zero_block 0 st
  install_ptr sector i sec st

-- `for (i = from; i < from + sectors; i++)`
unfoldable pub install_loop : ℕ → ℕ → ℕ → Store → Option Store
install_loop sector zero i st = some st
install_loop sector (suc left) i st = do
  st ← install_sector sector i st
  install_loop sector left (i + 1) st

-- `from` of the code, and the sectors behind it
unfoldable pub inode_extend : ℕ → ℕ → Store → Option (Bool × Store)
inode_extend sector sectors st = do
  len ← inode_get_length sector st
  let from = if len == 0 then 0 else bytes_to_sector_index (len - 1) + 1
  (room, st) ← can_allocate sectors st
  if not room
      then some (false, st)
      else (do st ← install_loop sector sectors from st; some (true, st))

-- The length is written when the sectors are there.
abbrev pub set_extended : ℕ → ℕ → Bool × Store → Option (Bool × Store)
set_extended sector new_length (false, st) = some (false, st)
set_extended sector new_length (true, st) = do
  st ← inode_set_length sector new_length st
  some (true, st)

unfoldable pub inode_extend_to_bytes : ℕ → ℕ → Store → Option (Bool × Store)
inode_extend_to_bytes sector new_length st = do
  len ← inode_get_length sector st
  let from = bytes_to_sector_index (len - 1)
  let to = bytes_to_sector_index (new_length - 1)
  if len == 0
      then inode_extend sector (to + 1) st >>= set_extended sector new_length
      else if leb to from
      then if ltb len new_length then set_extended sector new_length (true, st) else some (true, st)
      else inode_extend sector (to - from) st >>= set_extended sector new_length

-- `inode_create_wild`; the loop of `inode_extend_start` is `install_loop` from 0.
unfoldable pub inode_create_wild : ℕ → ℕ → ℕ → Store → Option (Bool × Store)
inode_create_wild sector len is_dir st = do
  let sectors = bytes_to_sectors len
  (room, st) ← can_allocate sectors st
  if not room then some (false, st) else (do
    st ← inode_set_length sector len st
    st ← inode_set_is_dir sector is_dir st
    st ← inode_set_magic sector inode_magic st
    st ← install_loop sector sectors 0 st
    some (true, st))
