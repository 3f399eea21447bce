-- ===== src/Inode/Tests.antt =====
-- inode.c on a small device: the inode of a file of 20 bytes in sector 5, its data in sector 7.
use group.Base.{
  ◌>>=◌, ℕ, ◌+◌, ◌*◌, ◌<◌, ◌≡◌, refl, true, false, some, List, [], ◌∷◌, ◌==◌, if◌then◌else◌, arith,
  Yields,
}
use group.Bitmap.{Bitmap}
use group.FreeMap.{FreeMap}
use group.Cache.{Bytes, sector_size, slice}
use group.Inode.{
  Store, Inode, inode_read_at, inode_write_at, can_allocate, read_loop, byte_to_sector, lookup,
}
use group.Inode.Blocks.{block_of, IsFile, byte_to_sector-block_of}
use group.Inode.Write.{WrittenR, inode_write_at-Written}
use group.Inode.Alloc.{IsCovered, Lost, can_allocate-Lost}
use group.Inode.Table.{inode_open, open_new, open_loop, close_loop, inode_close, dispose, new_inode}
use group.Inode.Counts.{IsTable, Opened, inode_open-Opened}
use group.Inode.RoundTrip.{inode_read_at-inode_write_at}

abbrev file_bytes : ℕ → Bytes
file_bytes s o =
    if s == 5 then (if o == 0 then 20 else if o == 8 then 7 else 0) else if s == 7 then o + 1 else 0

abbrev used : Bitmap
used = record { bit_cnt = 20; bits = 163 ∷ [] }

abbrev device : Store
device = record {
  bytes = file_bytes;
  size = 20;
  map = record { map = used; has_file = true; file = used; sectors = 0 };
  wrote = true;
  map_file = λ (s : ℕ). false;
  map_image = λ (m : FreeMap) (s o : ℕ). 0;
}

abbrev note : Inode
note = record { sector = 5; open_cnt = 1; removed = false; deny_write_cnt = 0 }

block_at : (i : ℕ) → i * sector_size < 20 → block_of device 5 i ≡ 7
unfolding block_of slice
block_at i h = let e : i ≡ 0 = omega arith in rw e refl

note-IsFile : IsFile device 5 20
unfolding slice
note-IsFile = record {
  here = record { nonzero = omega arith; on_device = omega arith };
  has_length = refl;
  fits = omega arith;
  block = λ i h. record {
    nonzero = λ e. omega (arith, block_at i h, e);
    on_device = omega (arith, block_at i h);
  };
  single = λ h. absurd (omega arith);
  double = λ h. absurd (omega arith);
  indirect = λ k h. absurd (omega arith);
  distinct = λ i j p q e. omega arith;
  not_inode = λ i h e. omega (arith, block_at i h, e);
  not_single = λ i h q. absurd (omega arith);
  not_double = λ i h q. absurd (omega arith);
  not_indirect = λ i k h q. absurd (omega arith);
}

device-IsCovered : IsCovered device
device-IsCovered = record {
  valid = record { sized = omega arith; words = omega arith; counted = omega arith };
  on_device = omega arith;
}

-- A read that starts inside stops at the end of the file.
read_to_end : inode_read_at 5 100 17 device ≡ some (18 ∷ 19 ∷ 20 ∷ [])
unfolding inode_read_at read_loop byte_to_sector lookup slice
read_to_end = refl

byte_to_sector-block_of_example : byte_to_sector 5 3 device ≡ some (some (block_of device 5 0))
byte_to_sector-block_of_example = byte_to_sector-block_of device 5 20 note-IsFile 3 (omega arith)

inode_write_at-Written_example :
    Yields (inode_write_at note (8 ∷ 9 ∷ []) 4 device) (WrittenR device 5 20 (8 ∷ 9 ∷ []) 4)
inode_write_at-Written_example =
    inode_write_at-Written 5 20 device note (8 ∷ 9 ∷ []) 4 refl note-IsFile refl (omega arith)
      (omega arith)

inode_read_at-inode_write_at_example :
    Yields
      (inode_write_at note (8 ∷ 9 ∷ []) 4 device)
      (λ r. inode_read_at 5 2 4 r.1 ≡ some (8 ∷ 9 ∷ []))
inode_read_at-inode_write_at_example =
    inode_read_at-inode_write_at 5 20 device note (8 ∷ 9 ∷ []) 4 refl note-IsFile refl (omega arith)
      (omega arith) (omega arith)

can_allocate-Lost_example : Yields (can_allocate 1 device) (Lost device)
can_allocate-Lost_example = can_allocate-Lost device device-IsCovered

abbrev two_open : List Inode
two_open = note ∷ new_inode 9 ∷ []

two_open-IsTable : IsTable two_open
two_open-IsTable = (omega arith, refl, (omega arith, refl, tt))

opened_again : inode_open true 5 two_open ≡ some (record note { open_cnt = 2 } ∷ new_inode 9 ∷ [])
unfolding inode_open open_new open_loop
opened_again = refl

closed_last : inode_close 9 (two_open, device) ≡ some (note ∷ [], device)
unfolding inode_close close_loop dispose
closed_last = refl

inode_open-Opened_example : Yields (inode_open true 5 two_open) (Opened 5 two_open)
inode_open-Opened_example = inode_open-Opened 5 two_open two_open-IsTable

-- The note is removed, and closed by its last opener.
abbrev one_removed : List Inode
one_removed = new_inode 9 ∷ record note { removed = true } ∷ []
