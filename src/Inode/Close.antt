-- ===== src/Inode/Close.antt =====
-- inode.c: `inode_close`, its list and what it gives back.
use group.Base.{ℕ, ◌≡◌, true, false, Option, none, some, List, ◌&&◌, ◌==◌, if◌then◌else◌, ◌>>=◌}
use group.Inode.{Store, Inode}
use group.Inode.Table.{clear_blocks}
use group.Inode.Counts.{openers, is_removed, Closed}

-- The inode is freed with its last opener, and by that alone.
abbrev Freed : ℕ → List Inode → Option Inode → Type 0
Freed sector t none = (openers sector t == 1) ≡ false
Freed sector t (some inode) =
    (inode.sector ≡ sector)
    × (((openers sector t == 1) ≡ true) × (inode.removed ≡ is_removed sector t))

-- What the last opener of a removed inode gives back, and no other.
abbrev pub given_back : ℕ → List Inode → Store → Option Store
given_back sector t st =
    if openers sector t == 1 && is_removed sector t then clear_blocks sector st else some st

module _ (sector : ℕ) (t : List Inode) (st : Store) where
  abbrev Ends : Option (List Inode × Store) → Type 0
  Ends r =
      (t' : List Inode) × (Closed sector t t'
        × (r ≡ (do st ← given_back sector t st; some (t', st))))
