-- ===== src/Cache/Read.antt =====
-- block.c: `read_buffered`, cached or not, against the contents that the cache stands for.
use group.Base.{
  ℕ, ◌+◌, ◌-◌, ◌≤◌, ◌<◌, ◌≡◌, refl, sym, ap, ◌∙◌, true, false, ◌&&◌, Option, none, some, List,
  arith, ◌==◌, leb,
}
use group.Cache.{
  Entry, Cache, M, Returns, Returns-bind, cache_size, sector_size, entry_in,
  acquire_buffer_entry_lock, check_sector_cached, put_slot, free_slot, slice, bounded_read,
  down_active, up_active, get_slot, load_sector, read_hit, read_miss, read_not_buffered, read_found,
  read_buffered_loop, read_buffered,
}
use group.Cache.Find.{find-none_of_absent}
use group.Cache.Inv.{view, Inv, view-hit}
use group.Cache.Evict.{IsUncached, Kept}
use group.Cache.Place.{Shows}
use group.Cache.Acquire.{
  IsReady, Acquired, acquire-Acquired, free_slot-Frees, load-view, Between, Between-Kept,
  Between-Shows, Between-down,
}

-- `start .. end` lies in a sector.
abbrev pub InSector : ℕ → ℕ → Type 0
InSector start end = (start ≤ end) × (end ≤ sector_size)

-- The bytes are those of the sector, and every sector reads as before.
unfoldable pub Reads : ℕ → Cache → (sector start end : ℕ) → List ℕ → Cache → Type 0
Reads n c sector start end bytes d =
    (bytes ≡ slice (view c sector) start (end - start)) × Shows n c sector (view c sector) d

module _ (n : ℕ) (c : Cache) (v : Inv n c) (sector start end : ℕ) (awake : 0 < c.active)
    (some_active : 0 < n) (inside : sector < c.size) (range : InSector start end) where
  in_bounds : (leb start end && leb end sector_size) ≡ true
  in_bounds = ground arith

  read_hit-Reads :
      (d : Cache) (i : ℕ) (e : Entry)
      → Kept n c d
      → i < cache_size
      → d.slots i ≡ some e
      → e.sector ≡ sector
      → Returns (read_hit sector start end i d) (Reads n c sector start end)
  unfolding read_hit down_active get_slot entry_in bounded_read up_active Reads
  read_hit-Reads d i e kept lt at q =
      rw (positive, at, in_bounds)
        (
          ap (λ b. slice b start (end - start)) contents,
          record {
            sound = kept.sound;
            here = kept.same_view sector;
            others = λ s ne. kept.same_view s;
            same_active = omega (arith, kept.same_active);
            same_size = kept.same_size;
          },
        )
    where
      positive : (d.active == 0) ≡ false
      positive = ground (arith, kept.same_active)

      contents : e.buffer ≡ view c sector
      contents =
          sym (view-hit d.slots d.disk i sector e kept.sound.unique lt at q) ∙ kept.same_view sector

  read_miss-Reads :
      (d : Cache)
      → Kept n c d
      → IsUncached d.slots sector
      → Returns (read_miss sector start end d) (Reads n c sector start end)
  unfolding read_miss down_active bounded_read put_slot up_active Reads
  read_miss-Reads d kept absent =
      rw (let e : (d.active == 0) ≡ false = ground (arith, kept.same_active) in e) (
        Returns-bind _ _ (load_sector sector below) _
          (load-view n below low.sound sector (rw kept.same_size inside) absent)
          λ b e (same, k).
            let mid = Between-Kept n c sector inside awake below e low k in
            Returns-bind _ _ (free_slot e) _ (free_slot-Frees n e mid.sound some_active)
              λ i f (k', lt, empty).
                let contents : b ≡ view c sector = same ∙ low.same_view sector in
                rw in_bounds (
                  ap (λ b. slice b start (end - start)) contents,
                  Between-Shows n c sector inside awake f i
                      (record {
                        sector = sector;
                        buffer = b;
                        use_bit = true;
                        dirty = false;
                        held = false;
                      })
                      (view c sector) (f.accesses + 1)
                      (Between-Kept n c sector inside awake e f mid k') contents lt empty refl refl
                      (λ _. contents),
                ))
    where
      below : Cache
      below = record d { active = d.active - 1 }

      low : Between n c sector inside awake below
      low = Between-down n c sector inside awake d kept absent

  read_found-Reads :
      (retry : M (List ℕ)) (o : Option ℕ) (d : Cache)
      → Acquired n c sector o d
      → Returns (read_found sector start end retry o d) (Reads n c sector start end)
  unfolding read_found read_not_buffered check_sector_cached
  read_found-Reads retry none d (kept, absent) =
      rw (find-none_of_absent d.slots sector cache_size 0 (λ k p q. absent k q))
        (read_miss-Reads d kept absent)
  read_found-Reads retry (some i) d (kept, lt, (e, at, q)) = read_hit-Reads d i e kept lt at q

  -- `read_buffered` ends without a fault and returns the bytes `start .. end` of what the sector
  -- shows, in the cache or on the disk; no sector shows anything else afterwards, and the state
  -- stays sound. Conditions: the state is sound, the semaphore of active entries is positive, other
  -- threads hold fewer than the 64 entries, by a count of `n`, the sector is on the disk, the range
  -- lies in a sector, and no other thread holds the lock of an entry of this sector.
  pub read_buffered-Reads :
      IsReady c sector → Returns (read_buffered sector start end c) (Reads n c sector start end)
  unfolding read_buffered read_buffered_loop
  read_buffered-Reads ready =
      Returns-bind _ _ (acquire_buffer_entry_lock sector c) _ (acquire-Acquired n c v sector ready)
        λ o d a. read_found-Reads _ o d a
