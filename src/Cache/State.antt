-- ===== src/Cache/State.antt =====
-- The state of the buffer cache and of the device below it, and runs of a thread on it.
use group.Base.{ℕ, Bool, Option}

-- The bytes of a sector or of a buffer, by offset.
abbrev pub Bytes : Type 0
Bytes = ℕ → ℕ

-- BLOCK_SECTOR_SIZE, and the number of entries
abbrev pub sector_size : ℕ
sector_size = 512

abbrev pub cache_size : ℕ
cache_size = 64

-- `struct buffer_entry`, `sector_block` left out since there is one device. `held` says that another
-- thread holds `sector_lock`; what the running thread locks it releases before its run ends.
pub record Entry : Type 0 where
  pub sector : ℕ
  pub buffer : Bytes
  pub use_bit : Bool
  pub dirty : Bool
  pub held : Bool

-- `buffer_cache`, `clock_hand`, the value of `active_sema` and the statistics; of `struct block` the
-- contents, `size`, whether `type` is BLOCK_FOREIGN, and the two counters.
pub record Cache : Type 0 where
  pub slots : ℕ → Option Entry
  pub hand : ℕ
  pub active : ℕ
  pub misses : ℕ
  pub accesses : ℕ
  pub disk : ℕ → Bytes
  pub size : ℕ
  pub foreign : Bool
  pub read_cnt : ℕ
  pub write_cnt : ℕ

-- `asleep`: the thread waits for a lock, or for `inactive_entry`. `panic`: a failed ASSERT, a PANIC
-- or an access outside a buffer. `spins`: the clock is still turning when the rounds are used up.
pub data Run (A : Type 0) : Type 0 where
  done : A → Cache → Run A
  asleep panic spins : Run A

abbrev pub M : Type 0 → Type 0
M A = Cache → Run A

abbrev pub pure : {A : Type 0} → A → M A
pure = done

module _ {A B : Type 0} where
  abbrev pub and_then : Run A → (A → M B) → Run B
  and_then (done a c) k = k a c
  and_then asleep k = asleep
  and_then panic k = panic
  and_then spins k = spins

  infixl 5 ◌>>=◌ ◌>>◌
  abbrev pub ◌>>=◌ : M A → (A → M B) → M B
  m >>= k = λ c. and_then (m c) k

  abbrev pub ◌>>◌ : M A → M B → M B
  m >> n = m >>= λ _. n

-- The run ends, in a result and a state that satisfy `P`.
abbrev pub Returns : {A : Type 0} → Run A → (A → Cache → Type 0) → Type 0
Returns (done a c) P = P a c
Returns asleep P = ⊥
Returns panic P = ⊥
Returns spins P = ⊥

module _ {A : Type 0} where
  pub Returns-bind :
      {B : Type 0} (P : A → Cache → Type 0) (Q : B → Cache → Type 0) (r : Run A) (k : A → M B)
      → Returns r P
      → ((a : A) (c : Cache) → P a c → Returns (k a c) Q)
      → Returns (and_then r k) Q
  Returns-bind P Q (done a c) k h next = next a c h
  Returns-bind P Q asleep k h next = h
  Returns-bind P Q panic k h next = h
  Returns-bind P Q spins k h next = h

  pub Returns-mono :
      (P Q : A → Cache → Type 0) (r : Run A)
      → Returns r P
      → ((a : A) (c : Cache) → P a c → Q a c)
      → Returns r Q
  Returns-mono P Q (done a c) h weaken = weaken a c h
  Returns-mono P Q asleep h weaken = h
  Returns-mono P Q panic h weaken = h
  Returns-mono P Q spins h weaken = h
