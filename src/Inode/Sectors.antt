-- ===== src/Inode/Sectors.antt =====
-- What pintos/src/filesys/inode.c uses of the buffer cache and of the free map: the sectors as they
-- show themselves through the cache, and words of four bytes in them, the lowest byte first.
use group.Base.{
  ℕ, zero, suc, ◌+◌, ◌-◌, ◌*◌, ◌/◌, ◌%◌, Bool, if◌then◌else◌, Option, some, List, [], ◌∷◌, leb, ltb,
  update, ◌>>=◌, ◌>>◌, assert, length,
}
use group.Cache.{Bytes, sector_size, slice, splice}
use group.FreeMap.{FreeMap}

-- The sectors' bytes, `fs_device`'s size, the free map; `wrote` says whether the map's file can be
-- written, `map_file` which sectors hold it, and `map_image` what `bitmap_write` leaves in them.
pub record Store : Type 0 where
  pub bytes : ℕ → Bytes
  pub size : ℕ
  pub map : FreeMap
  pub wrote : Bool
  pub map_file : ℕ → Bool
  pub map_image : FreeMap → ℕ → Bytes

-- A call of the free map changes its file as well.
abbrev pub with_map : FreeMap → Store → Store
with_map m st = record st {
  map = m;
  bytes = λ (s : ℕ). if st.map_file s then st.map_image m s else st.bytes s;
}

-- `read_buffered` and `write_buffered` as the cache fulfils them: a slice of what the sector shows, and
-- the bytes put into it. Out of the disk or of the sector is a fault.
abbrev pub cached_read : ℕ → ℕ → ℕ → Store → Option (List ℕ)
cached_read sector start end st = do
  assert (ltb sector st.size)
  assert (leb end sector_size)
  some (slice (st.bytes sector) start (end - start))

abbrev pub cached_write : ℕ → List ℕ → ℕ → Store → Option Store
cached_write sector bytes start st = do
  assert (ltb sector st.size)
  assert (leb (start + length bytes) sector_size)
  some (record st { bytes = update st.bytes sector (splice (st.bytes sector) start bytes) })

abbrev pub of_bytes : List ℕ → ℕ
of_bytes [] = 0
of_bytes (b ∷ bs) = b + 256 * of_bytes bs

abbrev pub to_bytes : ℕ → ℕ → List ℕ
to_bytes zero w = []
to_bytes (suc n) w = w % 256 ∷ to_bytes n (w / 256)

-- A word at the offset `at` of a sector, read and written.
abbrev pub get : ℕ → ℕ → Store → Option ℕ
get sector at st = do bytes ← cached_read sector at (at + 4) st; some (of_bytes bytes)

abbrev pub put : ℕ → ℕ → ℕ → Store → Option Store
put sector at w st = cached_write sector (to_bytes 4 w) at st
