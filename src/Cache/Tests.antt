-- ===== src/Cache/Tests.antt =====
-- block.c: runs of the buffer cache on a small device, and the theorems at it.
use group.Base.{
  ℕ, ◌+◌, ◌-◌, ◌≡◌, refl, true, false, Option, none, some, List, [], ◌∷◌, arith, subst,
  some-injective, update,
}
use group.FreeMap.{FreeMap}
use group.Cache.{
  Entry, Cache, Run, done, asleep, panic, ◌>>◌, Returns, caches, read_buffered, write_buffered,
  flush_buffer_cache, clock_algorithm_evict, clock_loop, clock_step, clock_slot, buffer_evict,
  init_buffer_cache, find_loop, lock_found, lock_entry, entry_in, assert_null,
  acquire_buffer_entry_lock, check_sector_cached, block_read, block_write, put_slot, evict_slot,
  flush_slot, flush_loop, slice, splice, bounded_read, bounded_write, down_active, up_active,
  get_slot, load_sector, free_slot, read_hit, read_miss, read_not_buffered, read_found,
  read_buffered_loop, write_hit, write_miss, write_not_buffered, write_found, write_buffered_loop,
}
use group.Cache.Inv.{Inv, IsSound-update, IsClean, view, init-Inv}
use group.Cache.Clock.{Frees, clock_algorithm_evict-Frees}
use group.Cache.Acquire.{IsReady}
use group.Cache.Read.{Reads, read_buffered-Reads}
use group.Cache.Write.{Writes, write_buffered-Writes}
use group.Cache.Flush.{IsIdle, IsFlushed, flush-IsFlushed}
use group.Cache.RoundTrip.{read-write}
use group.Inode.{Store, cached_read, cached_write}
use group.Inode.Refine.{Represents, read_buffered-cached_read, write_buffered-cached_write}

-- A device of nine sectors, whose byte `o` of sector `s` is `s + o`.
abbrev cold : Cache
cold = record {
  slots = λ _. none;
  hand = 0;
  active = 64;
  misses = 0;
  accesses = 0;
  disk = λ s o. s + o;
  size = 9;
  foreign = false;
  read_cnt = 0;
  write_cnt = 0;
}

abbrev changed : Entry
changed = record { sector = 5; buffer = λ o. 1; use_bit = true; dirty = true; held = false }

-- Slot 0 has a changed copy of sector 5.
abbrev warm : Cache
warm = record cold { slots = update (λ _. none) 0 (some changed) }

cold-Inv : Inv 64 cold
unfolding init_buffer_cache
cold-Inv = init-Inv (record cold { hand = 7; active = 3 }) refl

warm-Inv : Inv 64 warm
unfolding caches
warm-Inv =
    IsSound-update cold-Inv 0 (some changed) (omega arith) (λ s h k p ne. refl)
      (λ e h.
        subst (λ x. IsClean cold.disk 9 x) (some-injective _ _ h)
          (record { clean = λ f. cc; inside = omega arith }))
      (omega arith)

-- All the functions of the cache, open.
program : Unit {0}
unfolding caches find_loop lock_found lock_entry acquire_buffer_entry_lock check_sector_cached
    block_read block_write put_slot evict_slot buffer_evict flush_slot flush_loop flush_buffer_cache
    clock_slot clock_step clock_loop clock_algorithm_evict slice splice bounded_read bounded_write
    down_active up_active entry_in get_slot load_sector assert_null free_slot read_hit read_miss
    read_not_buffered read_found read_buffered_loop read_buffered write_hit write_miss
    write_not_buffered write_found write_buffered_loop write_buffered
program = tt

bytes_of : Run (List ℕ) → Option (List ℕ)
bytes_of (done bytes c) = some bytes
bytes_of r = none

read_runs : bytes_of (read_buffered 7 2 5 cold) ≡ some (9 ∷ 10 ∷ 11 ∷ [])
unfolding program bytes_of
read_runs = refl

write_then_read :
    bytes_of ((write_buffered 7 3 (100 ∷ []) >> read_buffered 7 2 5) cold)
    ≡ some (9 ∷ 100 ∷ 11 ∷ [])
unfolding program bytes_of
write_then_read = refl

-- A dirty entry reaches the disk by a flush.
flushed :
    bytes_of ((flush_buffer_cache >> λ c. done (slice (c.disk 5) 0 2) c) warm) ≡ some (1 ∷ 1 ∷ [])
unfolding program bytes_of
flushed = refl

-- Past the end of the device.
read_outside : read_buffered 9 0 4 cold ≡ panic
unfolding program
read_outside = refl

-- No entry may become active.
read_waits : read_buffered 7 0 4 (record cold { active = 0 }) ≡ asleep
unfolding program
read_waits = refl

warm-IsReady : (s : ℕ) → IsReady warm s
warm-IsReady s i e p h q = ground arith

warm-IsIdle : IsIdle warm
warm-IsIdle i e p h = ground arith

read_buffered-Reads_example : Returns (read_buffered 7 2 5 warm) (Reads 64 warm 7 2 5)
read_buffered-Reads_example =
    read_buffered-Reads 64 warm warm-Inv 7 2 5 (omega arith) (omega arith) (omega arith)
      (omega arith) (warm-IsReady 7)

-- The store that the cache shows.
abbrev shown : Store
shown = record {
  bytes = view warm;
  size = warm.size;
  map = record {
    map = record { bit_cnt = 0; bits = [] };
    has_file = false;
    file = record { bit_cnt = 0; bits = [] };
    sectors = 0;
  };
  wrote = true;
  map_file = λ (s : ℕ). false;
  map_image = λ (m : FreeMap) (s o : ℕ). 0;
}

shown-Represents : Represents 64 shown warm
shown-Represents = record { sound = warm-Inv; bytes = λ s. refl; size = refl }

read_buffered-cached_read_example :
    Returns
      (read_buffered 7 2 5 warm)
      (λ out d. (cached_read 7 2 5 shown ≡ some out) × Represents 64 shown d)
read_buffered-cached_read_example =
    read_buffered-cached_read 64 shown warm shown-Represents (omega arith) (omega arith) 7
      (omega arith) (warm-IsReady 7) 2 5 (omega arith) (omega arith)

write_buffered-cached_write_example :
    Returns
      (write_buffered 5 3 (8 ∷ 9 ∷ []) warm)
      (λ _ d. (st : Store) × ((cached_write 5 (8 ∷ 9 ∷ []) 3 shown ≡ some st) × Represents 64 st d))
write_buffered-cached_write_example =
    write_buffered-cached_write 64 shown warm shown-Represents (omega arith) (omega arith) 5
      (omega arith) (warm-IsReady 5) 3 (8 ∷ 9 ∷ []) (omega arith)

write_buffered-Writes_example :
    Returns (write_buffered 5 3 (8 ∷ 9 ∷ []) warm) (Writes 64 warm 5 3 (8 ∷ 9 ∷ []))
write_buffered-Writes_example =
    write_buffered-Writes 64 warm warm-Inv 5 3 (8 ∷ 9 ∷ []) (omega arith) (omega arith)
      (omega arith) (omega arith) (warm-IsReady 5)

clock_algorithm_evict-Frees_example : Returns (clock_algorithm_evict warm) (Frees 64 warm)
clock_algorithm_evict-Frees_example = clock_algorithm_evict-Frees 64 warm warm-Inv (omega arith)

flush-IsFlushed_example : Returns (flush_buffer_cache warm) (λ _ d. IsFlushed 64 warm d)
flush-IsFlushed_example = flush-IsFlushed 64 warm warm-Inv warm-IsIdle

state_of : Run (Unit {0}) → Cache
state_of (done u c) = c
state_of r = cold

-- The state after a write into the entry of slot 0.
abbrev written : Cache
written = record warm {
  slots =
      update (update warm.slots 0 (some changed)) 0
        (some (record changed { buffer = splice changed.buffer 3 (8 ∷ 9 ∷ []) }));
  active = 64 - 1 + 1;
  accesses = 1;
}

write_runs : write_buffered 5 3 (8 ∷ 9 ∷ []) warm ≡ done tt written
unfolding program
write_runs = refl

written-IsReady : IsReady written 5
written-IsReady i e p h q = ground arith

read-write_example : Returns (read_buffered 5 3 (3 + 2) written) (λ out e. out ≡ 8 ∷ 9 ∷ [])
read-write_example =
    read-write 64 warm written 5 3 (8 ∷ 9 ∷ []) warm-Inv (omega arith) (omega arith) (omega arith)
      (omega arith) (warm-IsReady 5) write_runs written-IsReady
