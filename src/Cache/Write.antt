-- ===== src/Cache/Write.antt =====
-- block.c: `write_buffered`, cached or not, against the contents that the cache stands for.
use group.Base.{
  ℕ, ◌+◌, ◌-◌, ◌≤◌, ◌<◌, ◌≡◌, refl, sym, ap, ◌∙◌, true, false, Option, none, some, List, arith,
  ◌==◌, leb, update, length,
}
use group.Cache.{
  Entry, Cache, M, Returns, Returns-bind, cache_size, sector_size, entry_in,
  acquire_buffer_entry_lock, check_sector_cached, put_slot, free_slot, splice, bounded_write,
  down_active, up_active, get_slot, load_sector, write_hit, write_miss, write_not_buffered,
  write_found, write_buffered_loop, write_buffered,
}
use group.Cache.Find.{find-none_of_absent}
use group.Cache.Inv.{view, Inv, view-hit}
use group.Cache.Evict.{IsUncached, Kept}
use group.Cache.Place.{Shows, change-Shows}
use group.Cache.Acquire.{
  IsReady, Acquired, acquire-Acquired, free_slot-Frees, load-view, Between, Between-Kept,
  Between-Shows, Between-down,
}

-- The sector shows the bytes written into what it showed; every other sector reads as before.
unfoldable pub Writes : ℕ → Cache → (sector start : ℕ) → List ℕ → Unit {0} → Cache → Type 0
Writes n c sector start bytes u d = Shows n c sector (splice (view c sector) start bytes) d

module _ (n : ℕ) (c : Cache) (v : Inv n c) (sector start : ℕ) (bytes : List ℕ)
    (awake : 0 < c.active) (some_active : 0 < n) (inside : sector < c.size)
    (fits : start + length bytes ≤ sector_size) where
  in_bounds : leb (start + length bytes) sector_size ≡ true
  in_bounds = ground arith

  write_hit-Writes :
      (d : Cache) (i : ℕ) (e : Entry)
      → Kept n c d
      → i < cache_size
      → d.slots i ≡ some e
      → e.sector ≡ sector
      → Returns (write_hit sector start bytes i d) (Writes n c sector start bytes)
  unfolding write_hit down_active get_slot entry_in bounded_write put_slot up_active Writes
  write_hit-Writes d i e kept lt at q =
      rw (positive, at, in_bounds)
        (record {
          sound = s.sound;
          here = rw (← q) s.here ∙ ap (λ b. splice b start bytes) contents;
          others = λ t ne. s.others t (rw q ne) ∙ kept.same_view t;
          same_active = omega (arith, kept.same_active);
          same_size = kept.same_size;
        })
    where
      positive : (d.active == 0) ≡ false
      positive = ground (arith, kept.same_active)

      contents : e.buffer ≡ view c sector
      contents =
          sym (view-hit d.slots d.disk i sector e kept.sound.unique lt at q) ∙ kept.same_view sector

      e' : Entry
      e' = record e { buffer = splice e.buffer start bytes; dirty = true }

      s :
          Shows n d e.sector
            (splice e.buffer start bytes)
            (record d { slots = update d.slots i (some e') })
      s =
          change-Shows n d kept.sound i e' lt e at refl refl
            (record { clean = λ f. cc; inside = (kept.sound.entries i e lt at).inside })

  write_miss-Writes :
      (d : Cache)
      → Kept n c d
      → IsUncached d.slots sector
      → Returns (write_miss sector start bytes d) (Writes n c sector start bytes)
  unfolding write_miss down_active bounded_write put_slot up_active Writes
  write_miss-Writes d kept absent =
      rw (let e : (d.active == 0) ≡ false = ground (arith, kept.same_active) in e) (
        Returns-bind _ _ (load_sector sector below) _
          (load-view n below low.sound sector (rw kept.same_size inside) absent)
          λ b e (same, k).
            let mid = Between-Kept n c sector inside awake below e low k in
            Returns-bind _ _ (free_slot e) _ (free_slot-Frees n e mid.sound some_active)
              λ i f (k', lt, empty).
                let contents : b ≡ view c sector = same ∙ low.same_view sector in
                rw in_bounds (
                  Between-Shows n c sector inside awake f i
                    (record {
                      sector = sector;
                      buffer = splice b start bytes;
                      use_bit = true;
                      dirty = true;
                      held = false;
                    })
                    (splice (view c sector) start bytes) (f.accesses + 1)
                    (Between-Kept n c sector inside awake e f mid k')
                    (ap (λ b. splice b start bytes) contents) lt empty refl refl (λ f. cc)))
    where
      below : Cache
      below = record d { active = d.active - 1 }

      low : Between n c sector inside awake below
      low = Between-down n c sector inside awake d kept absent

  write_found-Writes :
      (retry : M (Unit {0})) (o : Option ℕ) (d : Cache)
      → Acquired n c sector o d
      → Returns (write_found sector start bytes retry o d) (Writes n c sector start bytes)
  unfolding write_found write_not_buffered check_sector_cached
  write_found-Writes retry none d (kept, absent) =
      rw (find-none_of_absent d.slots sector cache_size 0 (λ k p q. absent k q))
        (write_miss-Writes d kept absent)
  write_found-Writes retry (some i) d (kept, lt, (e, at, q)) = write_hit-Writes d i e kept lt at q

  -- `write_buffered` ends without a fault and puts the bytes at `start` into what the sector shows;
  -- no other sector shows anything else afterwards, and the state stays sound. Conditions: as for
  -- `read_buffered`, the bytes fitting into the sector.
  pub write_buffered-Writes :
      IsReady c sector
      → Returns (write_buffered sector start bytes c) (Writes n c sector start bytes)
  unfolding write_buffered write_buffered_loop
  write_buffered-Writes ready =
      Returns-bind _ _ (acquire_buffer_entry_lock sector c) _ (acquire-Acquired n c v sector ready)
        λ o d a. write_found-Writes _ o d a
