-- ===== src/FreeMap/Tests.antt =====
-- free-map.c: runs on a small free map, and the theorems at it.
use group.Base.{
  ℕ, ◌≡◌, refl, true, false, none, some, [], ◌∷◌, arith, Yields, Yields_some, zero, suc,
}
use group.Bitmap.{
  Bitmap, scan_and_flip, scan, scan_loop, contains, contains_loop, test, set_multiple, set_loop,
  set_bit, mark, modify, reset, all,
}
use group.Base.Bits.{complement, bit_at}
use group.Bitmap.Single.{IsValid, bit}
use group.Bitmap.Range.{within}
use group.FreeMap.{FreeMap, allocate, release, settle}
use group.FreeMap.Alloc.{in_use, Allocated, SameSectors, allocate-Allocated, release-allocate}

abbrev bitmap_of : ℕ → Bitmap
bitmap_of x = record { bit_cnt = 20; bits = x ∷ [] }

abbrev disk_map : ℕ → FreeMap
disk_map x = record { map = bitmap_of x; has_file = true; file = bitmap_of 3; sectors = 0 }

-- Sectors 0 and 1 are in use.
disk_map-IsValid : IsValid (bitmap_of 3)
disk_map-IsValid = record { sized = omega arith; words = omega arith; counted = omega arith }

abbrev grown : ℕ → ℕ → FreeMap
grown x taken = record (disk_map x) { file = bitmap_of x; sectors = taken }

first_allocation : allocate true 2 (disk_map 3) ≡ some (some 2, grown 15 2)
unfolding allocate settle scan_and_flip scan scan_loop contains contains_loop test set_multiple
    set_loop set_bit mark modify
first_allocation = refl

second_allocation : allocate true 3 (grown 15 2) ≡ some (some 4, grown 127 5)
unfolding first_allocation
second_allocation = refl

-- A failed write is undone.
failed_write : allocate false 2 (disk_map 3) ≡ some (none, record (disk_map 3) { sectors = 2 })
unfolding first_allocation reset complement
failed_write = refl

-- No run of 19 sectors is free.
device_full : allocate true 19 (disk_map 3) ≡ some (none, record (disk_map 3) { sectors = 19 })
unfolding first_allocation
device_full = refl

double_release : release true 2 1 (disk_map 3) ≡ none
unfolding release all contains contains_loop test
double_release = refl

grown-IsValid : IsValid (bitmap_of 15)
grown-IsValid = record { sized = omega arith; words = omega arith; counted = omega arith }

got_two : Allocated (disk_map 3) true 2 (some 2, grown 15 2)
got_two =
    Yields_some _ (allocate true 2 (disk_map 3))
      (allocate-Allocated (disk_map 3) disk_map-IsValid true 2 (omega arith)) first_allocation

got_three : Allocated (grown 15 2) true 3 (some 4, grown 127 5)
got_three =
    Yields_some _ (allocate true 3 (grown 15 2))
      (allocate-Allocated (grown 15 2) grown-IsValid true 3 (omega arith)) second_allocation

allocate-Allocated_example : Yields (allocate true 2 (disk_map 3)) (Allocated (disk_map 3) true 2)
allocate-Allocated_example = allocate-Allocated (disk_map 3) disk_map-IsValid true 2 (omega arith)

release-allocate_example : Yields (release true 2 2 (grown 15 2)) (SameSectors (disk_map 3))
release-allocate_example =
    release-allocate (disk_map 3) (grown 15 2) true 2 2 disk_map-IsValid refl got_two

-- Sectors 0 and 1 of the map can be released, since both are in use.
reserved_in_use : (j : ℕ) → within 0 2 j ≡ true → in_use (disk_map 3) j ≡ true
unfolding within bit bit_at
reserved_in_use zero h = refl
reserved_in_use (suc zero) h = refl
reserved_in_use (suc (suc j)) h = ground arith
