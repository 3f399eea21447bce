-- ===== src/Directory/Walk.antt =====
-- directory.c: the inode of a path, and the creation of a subdirectory. The state is the table of open
-- inodes and the sectors; the working directory is known by its inode's sector. `malloc` succeeds.
use group.Base.{
  ℕ, zero, suc, Bool, true, false, not, Option, none, some, List, [], ◌∷◌, ◌++◌, ◌==◌,
  if◌then◌else◌, ◌>>=◌, ◌>>◌, assert, length, take, get_or, is_some,
}
use group.FreeMap.{allocate, release, root_dir_sector}
use group.Inode.{Store, with_map, Inode, inode_set_is_dir, inode_get_is_dir}
use group.Inode.Table.{inode_open, inode_reopen, inode_close}
use group.Directory.{
  DirEntry, NextPart, end, too_long, got, slash, get_next_part, get_last_part, str_eq, dot_dot,
  inode_at, dir_lookup_unsynched, dir_add_unsynched, dir_create,
}

abbrev pub Fs : Type 0
Fs = List Inode × Store

-- `inode_is`: an inode that is freed has lost its magic number.
abbrev pub inode_is : ℕ → List Inode → Bool
inode_is sector inodes = is_some (inode_at sector inodes)

unfoldable pub to_be_removed : ℕ → List Inode → Option Bool
to_be_removed sector inodes = do inode ← inode_at sector inodes; some inode.removed

unfoldable pub dir_open_root : Fs → Option (ℕ × Fs)
dir_open_root (inodes, st) = do
  inodes ← inode_open true root_dir_sector inodes
  some (root_dir_sector, (inodes, st))

unfoldable pub dir_reopen : ℕ → Fs → Option (Option ℕ × Fs)
dir_reopen dir (inodes, st) =
    if not (inode_is dir inodes)
    then some (none, (inodes, st))
    else (do inodes ← inode_reopen dir inodes; some (some dir, (inodes, st)))

unfoldable pub dir_close : ℕ → Fs → Option Fs
dir_close dir (inodes, st) =
    if inode_is dir inodes then inode_close dir (inodes, st) else some (inodes, st)

-- The loop's last round, with `status` 0.
unfoldable pub at_end : ℕ → Fs → Option (Option ℕ × Fs)
at_end dir fs = do
  removed ← to_be_removed dir fs.0
  if removed then (do fs ← dir_close dir fs; some (none, fs)) else (do
    inodes ← inode_reopen dir fs.0
    fs ← dir_close dir (inodes, fs.1)
    some (some dir, fs))

-- `ASSERT (strcmp (path, "..") != 0)` of a path that is too long
unfoldable pub give_up : List ℕ → ℕ → Fs → Option (Option ℕ × Fs)
give_up path dir fs = do
  fs ← dir_close dir fs
  dotdot ← str_eq path (dot_dot ++ 0 ∷ [])
  assert (not dotdot)
  some (none, fs)

-- The inode found under the name, if the directory is not removed; it stays open where it is not used.
unfoldable pub step_into :
    (ℕ → Fs → Option (Option ℕ × Fs)) → ℕ → Option ℕ × List Inode → Store → Option (Option ℕ × Fs)
step_into go dir (none, inodes) st = do fs ← dir_close dir (inodes, st); some (none, fs)
step_into go dir (some next, inodes) st = do
  removed ← to_be_removed dir inodes
  if not removed
      then (do fs ← dir_close dir (inodes, st); go next fs)
      else (do fs ← dir_close dir (inodes, st); some (none, fs))

-- One round of the loop over the path; `again` is the next.
unfoldable pub walk_part :
    (List ℕ → ℕ → Fs → Option (Option ℕ × Fs)) → List ℕ → NextPart → ℕ → Fs → Option (Option ℕ × Fs)
walk_part again path too_long dir fs = give_up path dir fs
walk_part again path end dir fs = at_end dir fs
walk_part again path (got part rest) dir fs = do
  found ← dir_lookup_unsynched dir part fs
  step_into (again rest) dir found fs.1

unfoldable pub walk_loop : ℕ → List ℕ → List ℕ → ℕ → Fs → Option (Option ℕ × Fs)
walk_loop zero path src dir fs = none
walk_loop (suc fuel) path src dir fs =
    walk_part (walk_loop fuel path) path (get_next_part src) dir fs

unfoldable pub is_relative : List ℕ → Bool
is_relative [] = true
is_relative (c ∷ path) = not (c == slash)

unfoldable pub walk : List ℕ → Option ℕ × Fs → Option (Option ℕ × Fs)
walk path (none, fs) = some (none, fs)
walk path (some dir, fs) = walk_loop (suc (length path)) path path dir fs

-- The working directory itself.
unfoldable pub cwd_inode : ℕ → Fs → Option (Option ℕ × Fs)
cwd_inode cwd (inodes, st) = if not (inode_is cwd inodes) then some (none, (inodes, st)) else (do
  removed ← to_be_removed cwd inodes
  if removed
      then some (none, (inodes, st))
      else (do inodes ← inode_reopen cwd inodes; some (some cwd, (inodes, st))))

unfoldable pub get_inode_from_path : ℕ → List ℕ → Fs → Option (Option ℕ × Fs)
get_inode_from_path cwd [] fs = cwd_inode cwd fs
get_inode_from_path cwd (c ∷ path) fs = do
  only_slash ← str_eq (c ∷ path) (slash ∷ 0 ∷ [])
  if only_slash
      then (do (root, fs) ← dir_open_root fs; some (some root, fs))
      else if is_relative (c ∷ path)
      then dir_reopen cwd fs >>= walk (c ∷ path)
      else (do (root, fs) ← dir_open_root fs; walk (c ∷ path) (some root, fs))

-- `ASSERT (inode_is_dir (inn))`
unfoldable pub must_be_dir : Option ℕ × Fs → Option (Option ℕ × Fs)
must_be_dir (none, fs) = some (none, fs)
must_be_dir (some inn, fs) = do
  is_dir ← inode_get_is_dir inn fs.1
  assert (not (is_dir == 0))
  assert (inode_is inn fs.0)
  some (some inn, fs)

unfoldable pub get_dir_from_path : ℕ → List ℕ → Fs → Option (Option ℕ × Fs)
get_dir_from_path cwd path fs = get_inode_from_path cwd path fs >>= must_be_dir

-- The two loops that move `end` down: while the last of `path_len` characters is, or is not, a slash.
unfoldable pub trim : Bool → ℕ → List ℕ → ℕ
trim slashes zero copy = 0
trim slashes (suc n) copy =
    let shorter = trim slashes n copy in
    let is_slash = get_or copy n 0 == slash in
    if (if slashes then is_slash else not is_slash) then shorter else suc n

unfoldable pub subdir_path : List ℕ → List ℕ
subdir_path path = take (trim false (trim true (length path) path) path) path

unfoldable pub get_subdir_from_path : ℕ → List ℕ → Fs → Option (Option ℕ × Fs)
get_subdir_from_path cwd path fs = get_dir_from_path cwd (subdir_path path) fs

-- `success && free_map_allocate && dir_create && dir_add_unsynched`; the sector is 0 when there is none.
unfoldable pub create_entry :
    DirEntry → Inode → List ℕ → Option ℕ × Store → Option (Bool × (ℕ × Store))
create_entry e parent name (none, st) = some (false, (0, st))
create_entry e parent name (some sector, st) = do
  (made, st) ← dir_create sector 2 st
  if not made
      then some (false, (sector, st))
      else (do (added, st) ← dir_add_unsynched e parent name sector st; some (added, (sector, st)))

unfoldable pub allocate_one : Store → Option (Option ℕ × Store)
allocate_one st = do (sector, m) ← allocate st.wrote 1 st.map; some (sector, with_map m st)

unfoldable pub give_sector_back : ℕ → Store → Option Store
give_sector_back sector st =
    if not (sector == 0)
    then (do m ← release st.wrote sector 1 st.map; some (with_map m st))
    else some st

-- The entries "." and ".." of the new directory.
unfoldable pub add_dots : DirEntry → ℕ → Option ℕ × List Inode → Store → Option (Bool × Fs)
add_dots e parent (none, inodes) st = some (false, (inodes, st))
add_dots e parent (some new, inodes) st = do
  st ← inode_set_is_dir new 1 st
  inodes ← inode_open true new inodes
  inodes ← inode_open true parent inodes
  dot_entry ← inode_at new inodes
  (_, st) ← dir_add_unsynched e dot_entry (b'.' ∷ []) new st
  (_, st) ← dir_add_unsynched e dot_entry dot_dot parent st
  fs ← dir_close new (inodes, st)
  fs ← dir_close parent fs
  fs ← inode_close new fs
  some (true, fs)

-- `e` and `buffer` are what the variables on the stack hold at first. The result of `get_last_part` is
-- not looked at: a part that is too long leaves no string, and its use is a fault. The parent is closed
-- on success only.
unfoldable pub subdir_create : DirEntry → List ℕ → List ℕ → ℕ → Fs → Option (Bool × Fs)
subdir_create e buffer path parent (inodes, st) = do
  new_name ← get_last_part (suc (length path)) buffer path
  name ← new_name
  dir ← inode_at parent inodes
  (success, (sector, st)) ← allocate_one st >>= create_entry e dir name
  if not success then (do st ← give_sector_back sector st; some (false, (inodes, st))) else (do
    (new, inodes) ← dir_lookup_unsynched parent name (inodes, st)
    (success, fs) ← add_dots e parent (new, inodes) st
    fs ← dir_close parent fs
    some (success, fs))
