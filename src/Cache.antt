-- ===== src/Cache.antt =====
-- pintos/src/devices/block.c: the buffer cache over the file system's block device. An operation is
-- a run of one thread up to its end or to the point where it sleeps.
mod State
pub mod Find
pub mod Inv
pub mod Evict
pub mod Clock
pub mod Place
pub mod Acquire
pub mod Read
pub mod Write
pub mod Flush
pub mod RoundTrip
mod Tests
pub use State.*
use group.Base.{
  ℕ, zero, suc, ◌+◌, ◌-◌, ◌*◌, ◌%◌, Bool, true, false, not, ◌&&◌, Option, none, some, List, [], ◌∷◌,
  ◌==◌, leb, ltb, if◌then◌else◌, update, is_some, get_or, length,
}

-- Whether a slot holds an entry for `sector`.
unfoldable pub caches : ℕ → Option Entry → Bool
caches sector none = false
caches sector (some e) = e.sector == sector

-- The loop `for (i = 0; i < 64; i++)` of `acquire_buffer_entry_lock` and `check_sector_cached`, with
-- the rounds that are left.
pub find_loop : ℕ → ℕ → (ℕ → Option Entry) → ℕ → Option ℕ
find_loop zero i slots sector = none
find_loop (suc left) i slots sector =
    let rest = find_loop left (i + 1) slots sector in
    if caches sector (slots i) then some i else rest

-- `lock_acquire (&buffer_cache[i]->sector_lock); buffer_cache[i]->use_bit = 1; return i;`
pub lock_entry : ℕ → Option Entry → M (Option ℕ)
lock_entry i none c = panic
lock_entry i (some e) c =
    if e.held
    then asleep
    else done (some i) (record c { slots = update c.slots i (some (record e { use_bit = true })) })

pub lock_found : Option ℕ → M (Option ℕ)
lock_found none c = done none c
lock_found (some i) c = lock_entry i (c.slots i) c

-- The offset of the entry, its lock taken and its use bit set; `none` stands for -1.
pub acquire_buffer_entry_lock : ℕ → M (Option ℕ)
acquire_buffer_entry_lock sector c = lock_found (find_loop cache_size 0 c.slots sector) c

pub check_sector_cached : ℕ → Cache → Bool
check_sector_cached sector c = is_some (find_loop cache_size 0 c.slots sector)

-- `check_sector`, the driver's copy, and the count
pub block_read : ℕ → M Bytes
block_read sector c =
    if leb c.size sector
    then panic
    else done (c.disk sector) (record c { read_cnt = c.read_cnt + 1 })

pub block_write : ℕ → Bytes → M (Unit {0})
block_write sector buffer c =
    if leb c.size sector
    then panic
    else if c.foreign
    then panic
    else done tt (record c { disk = update c.disk sector buffer; write_cnt = c.write_cnt + 1 })

pub put_slot : ℕ → Option Entry → M (Unit {0})
put_slot i s c = done tt (record c { slots = update c.slots i s })

pub evict_slot : ℕ → Option Entry → M (Unit {0})
evict_slot offset none = λ c. panic
evict_slot offset (some cur) = do
  if cur.dirty then block_write cur.sector cur.buffer else pure tt
  put_slot offset none

pub buffer_evict : ℕ → M (Unit {0})
buffer_evict offset c = evict_slot offset (c.slots offset) c

-- `active_sema` starts at 64. The locks and the condition start free.
pub init_buffer_cache : Cache → Cache
init_buffer_cache c = record c { slots = λ _. none; hand = 0; active = cache_size }

-- One round of the flush: an entry's lock is taken and the entry evicted.
pub flush_slot : ℕ → Option Entry → M (Unit {0})
flush_slot i none = pure tt
flush_slot i (some e) = if e.held then (λ c. asleep) else buffer_evict i

pub flush_loop : ℕ → ℕ → M (Unit {0})
flush_loop zero i = pure tt
flush_loop (suc left) i = do λ c. flush_slot i (c.slots i) c; flush_loop left (i + 1)

pub flush_buffer_cache : M (Unit {0})
flush_buffer_cache = flush_loop cache_size 0

-- `clock_hand = (clock_hand + 1) % 64`
abbrev pub advance : Cache → Cache
advance c = record c { hand = (c.hand + 1) % cache_size }

-- One round of the clock at the slot under the hand: the offset that it returns, or `none` to go on.
pub clock_slot : Option Entry → M (Option ℕ)
clock_slot none c = done (some c.hand) (advance c)
clock_slot (some e) c =
    if e.held
    then done none (advance c)
    else if e.use_bit
    then done none
        (advance (record c { slots = update c.slots c.hand (some (record e { use_bit = false })) }))
    else and_then (buffer_evict c.hand c) (λ _ d. done (some d.hand) (advance d))

pub clock_step : M (Option ℕ)
clock_step c = clock_slot (c.slots c.hand) c

pub clock_loop : ℕ → M ℕ
clock_loop zero c = spins
clock_loop (suc fuel) c =
    and_then (clock_step c) (λ o d. elim o [ some i ↦ done i d | none ↦ clock_loop fuel d ])

-- Two turns of the hand, and one round.
pub clock_algorithm_evict : M ℕ
clock_algorithm_evict = clock_loop (2 * cache_size + 1)

-- `n` bytes of a buffer from `start`, and a buffer with the bytes written from `start`.
unfoldable pub slice : Bytes → ℕ → ℕ → List ℕ
slice b start zero = []
slice b start (suc n) = b start ∷ slice b (start + 1) n

unfoldable pub splice : Bytes → ℕ → List ℕ → Bytes
splice b start bytes o =
    if leb start o && ltb o (start + length bytes) then get_or bytes (o - start) 0 else b o

-- A copy outside of the buffer has no meaning in C.
pub bounded_read : Bytes → ℕ → ℕ → M (List ℕ)
bounded_read buffer start end c =
    if leb start end && leb end sector_size
    then done (slice buffer start (end - start)) (record c { accesses = c.accesses + 1 })
    else panic

pub bounded_write : Bytes → ℕ → List ℕ → M Bytes
bounded_write buffer start bytes c =
    if leb (start + length bytes) sector_size
    then done (splice buffer start bytes) (record c { accesses = c.accesses + 1 })
    else panic

-- `while (!sema_try_down (&active_sema))`: at zero the thread waits for `inactive_entry`.
pub down_active : M (Unit {0})
down_active c = if c.active == 0 then asleep else done tt (record c { active = c.active - 1 })

pub up_active : M (Unit {0})
up_active c = done tt (record c { active = c.active + 1 })

pub entry_in : Option Entry → M Entry
entry_in none c = panic
entry_in (some e) c = done e c

pub get_slot : ℕ → M Entry
get_slot i c = entry_in (c.slots i) c

-- A new entry's contents; `malloc` is taken to succeed, which the code does not check.
pub load_sector : ℕ → M Bytes
load_sector sector c = block_read sector (record c { misses = c.misses + 1 })

-- `ASSERT (buffer_cache[offset] == NULL);`
pub assert_null : ℕ → Option Entry → M ℕ
assert_null offset none c = done offset c
assert_null offset (some e) c = panic

-- `offset = clock_algorithm_evict (); ASSERT (buffer_cache[offset] == NULL);`
pub free_slot : M ℕ
free_slot = do offset ← clock_algorithm_evict; λ c. assert_null offset (c.slots offset) c

module _ (sector start end : ℕ) where
  pub read_hit : ℕ → M (List ℕ)
  read_hit offset = do
    down_active
    e ← get_slot offset
    bytes ← bounded_read e.buffer start end
    up_active
    pure bytes

  -- `read_not_buffered` behind its test
  pub read_miss : M (List ℕ)
  read_miss = do
    down_active
    buffer ← load_sector sector
    offset ← free_slot
    bytes ← bounded_read buffer start end
    put_slot offset (
        some (record {
          sector = sector;
          buffer = buffer;
          use_bit = true;
          dirty = false;
          held = false;
        }))
    up_active
    pure bytes

  -- `retry` is the call of `read_buffered`.
  pub read_not_buffered : M (List ℕ) → M (List ℕ)
  read_not_buffered retry c = if check_sector_cached sector c then retry c else read_miss c

  pub read_found : M (List ℕ) → Option ℕ → M (List ℕ)
  read_found retry none = read_not_buffered retry
  read_found retry (some offset) = read_hit offset

  -- The two functions call each other: the fuel bounds the depth.
  pub read_buffered_loop : ℕ → M (List ℕ)
  read_buffered_loop zero c = spins
  read_buffered_loop (suc fuel) c =
      let retry = read_buffered_loop fuel in
      and_then (acquire_buffer_entry_lock sector c) (read_found retry)

  pub read_buffered : M (List ℕ)
  read_buffered = read_buffered_loop 2

module _ (sector start : ℕ) (bytes : List ℕ) where
  pub write_hit : ℕ → M (Unit {0})
  write_hit offset = do
    down_active
    e ← get_slot offset
    buffer ← bounded_write e.buffer start bytes
    put_slot offset (some (record e { buffer = buffer; dirty = true }))
    up_active

  pub write_miss : M (Unit {0})
  write_miss = do
    down_active
    buffer ← load_sector sector
    offset ← free_slot
    buffer ← bounded_write buffer start bytes
    put_slot offset (
        some
          (record { sector = sector; buffer = buffer; use_bit = true; dirty = true; held = false }))
    up_active

  pub write_not_buffered : M (Unit {0}) → M (Unit {0})
  write_not_buffered retry c = if check_sector_cached sector c then retry c else write_miss c

  pub write_found : M (Unit {0}) → Option ℕ → M (Unit {0})
  write_found retry none = write_not_buffered retry
  write_found retry (some offset) = write_hit offset

  pub write_buffered_loop : ℕ → M (Unit {0})
  write_buffered_loop zero c = spins
  write_buffered_loop (suc fuel) c =
      let retry = write_buffered_loop fuel in
      and_then (acquire_buffer_entry_lock sector c) (write_found retry)

  pub write_buffered : M (Unit {0})
  write_buffered = write_buffered_loop 2
