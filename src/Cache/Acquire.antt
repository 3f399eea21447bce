-- ===== src/Cache/Acquire.antt =====
-- block.c: the steps that `read_buffered` and `write_buffered` share.
use group.Base.{
  ℕ, ◌+◌, ◌-◌, ◌<◌, ◌≡◌, refl, sym, ap, ◌∙◌, Bool, true, false, Option, none, some, arith, leb,
  if◌then◌else◌, update, Option-cases, inl, inr, eq_of_==, ==_self,
}
use group.Cache.{
  Entry, Bytes, Cache, done, asleep, Returns, Returns-bind, cache_size, caches, find_loop,
  lock_found, lock_entry, assert_null, acquire_buffer_entry_lock, block_read, free_slot,
  load_sector, clock_algorithm_evict,
}
use group.Cache.Find.{find-some, find-none}
use group.Cache.Inv.{view, Inv, view-absent}
use group.Cache.Evict.{IsUncached, Kept}
use group.Cache.Clock.{touch-Kept, Frees, clock_algorithm_evict-Frees}
use group.Cache.Place.{Shows, install-Shows}

-- No other thread holds the entry of `sector`, if there is one.
abbrev pub IsReady : Cache → ℕ → Type 0
IsReady c sector =
    (i : ℕ) (e : Entry) → i < cache_size → c.slots i ≡ some e → e.sector ≡ sector → e.held ≡ false

pub caches-some :
    (s : ℕ) (x : Option Entry) → caches s x ≡ true → (e : Entry) × (x ≡ some e) × (e.sector ≡ s)
unfolding caches
caches-some s none h = cc
caches-some s (some e) h = (e, refl, eq_of_== e.sector s h)

clash : (b : Bool) → b ≡ true → b ≡ false → ⊥
clash b t f = cc

-- What a search of the cache finds: no entry, or the offset of the entry.
abbrev pub Acquired : ℕ → Cache → ℕ → Option ℕ → Cache → Type 0
Acquired n c sector none d = Kept n c d × IsUncached d.slots sector
Acquired n c sector (some i) d =
    Kept n c d × (i < cache_size) × ((e : Entry) × (d.slots i ≡ some e) × (e.sector ≡ sector))

module _ (n : ℕ) (c : Cache) (v : Inv n c) where
  pub Kept-same : Kept n c c
  Kept-same = record {
    sound = v;
    same_view = λ s. refl;
    same_active = refl;
    same_size = refl;
    no_new = λ s h. h;
  }

  -- The entry's lock is taken and its use bit set.
  pub acquire-Acquired :
      (sector : ℕ)
      → IsReady c sector
      → Returns (acquire_buffer_entry_lock sector c) (Acquired n c sector)
  unfolding acquire_buffer_entry_lock lock_found lock_entry
  acquire-Acquired sector ready = elim (Option-cases (find_loop cache_size 0 c.slots sector)) [
    | inl e ↦
        rw e
          (Kept-same, λ k p. find-none c.slots sector cache_size 0 k e (omega arith) (omega arith))
    | inr (i, e) ↦
        let (low, high, here) = find-some c.slots sector cache_size 0 i e in
        let (x, at, q) = caches-some sector (c.slots i) here in
        rw (e, at) (locked i x (omega arith) at q (ready i x (omega arith) at q) x.held refl)
  ]
    where
      locked :
          (i : ℕ) (x : Entry)
          → i < cache_size
          → c.slots i ≡ some x
          → x.sector ≡ sector
          → x.held ≡ false
          → (h : Bool) → x.held ≡ h
          → Returns
              (if h
                then asleep
                else done
                    (some i)
                    (record c { slots = update c.slots i (some (record x { use_bit = true })) }))
              (Acquired n c sector)
      locked i x lt at q free true h = absurd (clash x.held h free)
      locked i x lt at q free false h = (
        touch-Kept n c v i x true lt at,
        lt,
        (record x { use_bit = true }, rw (==_self i) refl, q),
      )

  -- `clock_algorithm_evict`, and the ASSERT behind it.
  pub free_slot-Frees : 0 < n → Returns (free_slot c) (Frees n c)
  unfolding free_slot assert_null
  free_slot-Frees pos =
      Returns-bind _ _ (clock_algorithm_evict c) _ (clock_algorithm_evict-Frees n c v pos)
        λ i d (kept, lt, empty). rw empty (kept, lt, empty)

  -- Loading a sector that is not cached reads its contents.
  pub load-view :
      (sector : ℕ)
      → sector < c.size
      → IsUncached c.slots sector
      → Returns (load_sector sector c) (λ b d. (b ≡ view c sector) × Kept n c d)
  unfolding load_sector block_read
  load-view sector inside absent = rw (let e : leb c.size sector ≡ false = ground arith in e) (
    sym (view-absent c.slots c.disk sector absent),
    record {
      sound = v;
      same_view = λ s. refl;
      same_active = refl;
      same_size = refl;
      no_new = λ s h. h;
    },
  )

module _ (n : ℕ) (c : Cache) (sector : ℕ) (inside : sector < c.size)
    (some_active : 0 < c.active) where
  -- A state between `down_active` and `up_active`.
  pub record Between (d : Cache) : Type 0 where
    pub sound : Inv n d
    pub same_view : (s : ℕ) → view d s ≡ view c s
    pub lower : d.active + 1 ≡ c.active
    pub same_size : d.size ≡ c.size
    pub absent : IsUncached d.slots sector

  pub Between-Kept : (d e : Cache) → Between d → Kept n d e → Between e
  Between-Kept d e b k = record {
    sound = k.sound;
    same_view = λ s. k.same_view s ∙ b.same_view s;
    lower = omega (arith, b.lower, k.same_active);
    same_size = k.same_size ∙ b.same_size;
    absent = k.no_new sector b.absent;
  }

  -- The new entry goes into the freed slot, and the semaphore is raised.
  pub Between-Shows :
      (d : Cache) (i : ℕ) (x : Entry) (b : Bytes) (accesses : ℕ)
      → Between d
      → x.buffer ≡ b
      → i < cache_size
      → d.slots i ≡ none
      → x.sector ≡ sector
      → x.held ≡ false
      → (x.dirty ≡ false → x.buffer ≡ view c sector)
      → Shows n c sector b (record d {
        slots = update d.slots i (some x);
        active = d.active + 1;
        accesses = accesses;
      })
  Between-Shows d i x content accesses b same lt empty q free clean =
      let s =
        install-Shows n d b.sound i x lt empty (rw q b.absent)
          (record {
            clean = λ f.
                clean f
                ∙ sym (b.same_view sector)
                ∙ view-absent d.slots d.disk sector b.absent
                ∙ ap d.disk (sym q);
            inside = rw (q, b.same_size) inside;
          })
          free in
      record {
        sound = s.sound;
        here = rw (← q) (s.here ∙ same);
        others = λ t ne. s.others t (rw q ne) ∙ b.same_view t;
        same_active = b.lower;
        same_size = b.same_size;
      }

  pub Between-down :
      (d : Cache)
      → Kept n c d
      → IsUncached d.slots sector
      → Between (record d { active = d.active - 1 })
  Between-down d k absent = record {
    sound = k.sound;
    same_view = k.same_view;
    lower = omega (arith, k.same_active);
    same_size = k.same_size;
    absent = absent;
  }
