-- ===== src/Cache/Inv.antt =====
-- block.c: what the cache and the disk stand for together, and the invariant of the cache.
use group.Base.{
  ℕ, zero, suc, ◌+◌, ◌≤◌, ◌<◌, ◌≡◌, refl, Bool, true, false, Option, none, some, arith, ◌==◌,
  if◌then◌else◌, update, Bool-cases, inl, inr, eq_of_==, ==_ne, ==_self,
}
use group.Cache.{Entry, Bytes, Cache, cache_size, caches, init_buffer_cache}
use group.Cache.Find.{
  Slots, entry_of, IsUnique, IsFreeBut, entry_of-absent, entry_of-hit, entry_of-update,
  IsUnique-update,
}

pub from_entry : Bytes → Option Entry → Bytes
from_entry b none = b
from_entry b (some e) = e.buffer

-- The contents of sector `s` as a reader sees them: the cached ones, or those of the disk.
pub view_of : Slots → (ℕ → Bytes) → ℕ → Bytes
view_of slots disk s = from_entry (disk s) (entry_of cache_size 0 slots s)

abbrev pub view : Cache → ℕ → Bytes
view c = view_of c.slots c.disk

abbrev pub held_of : Option Entry → ℕ
held_of none = 0
held_of (some e) = if e.held then 1 else 0

-- How many of the first `n` slots other threads hold.
pub held_count : ℕ → Slots → ℕ
held_count zero slots = 0
held_count (suc n) slots = held_count n slots + held_of (slots n)

held_count-update_of_le :
    (n : ℕ) (slots : Slots) (at : ℕ) (x : Option Entry)
    → n ≤ at
    → held_count n (update slots at x) ≡ held_count n slots
unfolding held_count
held_count-update_of_le zero slots at x h = refl
held_count-update_of_le (suc n) slots at x h =
    rw (held_count-update_of_le n slots at x (omega arith), ==_ne n at (omega arith))

held_count-update :
    (n : ℕ) (slots : Slots) (at : ℕ) (x : Option Entry)
    → at < n
    → held_count n (update slots at x) + held_of (slots at) ≡ held_count n slots + held_of x
unfolding held_count
held_count-update zero slots at x h = absurd (omega arith)
held_count-update (suc n) slots at x h = elim (Bool-cases (n == at)) [
  | inl e ↦
      rw (e, eq_of_== n at e, held_count-update_of_le at slots at x (omega arith)) (omega arith)
  | inr e ↦ rw e (omega (arith, held_count-update n slots at x (ground arith)))
]

-- Fewer holders than slots leave a slot that nobody holds.
pub unheld_slot :
    (n : ℕ) (slots : Slots) → held_count n slots < n → (k : ℕ) × (k < n) × (held_of (slots k) ≡ 0)
unfolding held_count
unheld_slot zero slots h = absurd (omega arith)
unheld_slot (suc n) slots h = elim (Bool-cases (held_of (slots n) == 0)) [
  | inl e ↦ (n, omega arith, eq_of_== (held_of (slots n)) 0 e)
  | inr e ↦ let (k, p, q) = unheld_slot n slots (ground arith) in (k, omega arith, q)
]

-- An entry that is not dirty agrees with the disk, and its sector lies on the device.
pub record IsClean (disk : ℕ → Bytes) (size : ℕ) (e : Entry) : Type 0 where
  pub clean : e.dirty ≡ false → e.buffer ≡ disk e.sector
  pub inside : e.sector < size

-- The invariant, with the value `active` of the semaphore.
pub record IsSound (slots : Slots) (hand : ℕ) (disk : ℕ → Bytes) (size active : ℕ) (foreign : Bool)
    : Type 0 where
  pub unique : IsUnique slots
  pub hand_in : hand < cache_size
  pub entries : (i : ℕ) (e : Entry) → i < cache_size → slots i ≡ some e → IsClean disk size e
  pub native : foreign ≡ false
  pub room : active + held_count cache_size slots ≤ cache_size

abbrev pub Inv : ℕ → Cache → Type 0
Inv active c = IsSound c.slots c.hand c.disk c.size active c.foreign

module _ (slots : Slots) (disk : ℕ → Bytes) where
  pub view-hit :
      (i s : ℕ) (e : Entry)
      → IsUnique slots
      → i < cache_size
      → slots i ≡ some e
      → e.sector ≡ s
      → view_of slots disk s ≡ e.buffer
  unfolding view_of from_entry caches
  view-hit i s e one lt at eq = rw (
    entry_of-hit slots s cache_size 0 i (omega arith) lt here (λ k p q h. one s k i q lt h here),
    at,
  )
    where
      here : caches s (slots i) ≡ true
      here = rw (at, eq, ==_self s)

  pub view-absent :
      (s : ℕ)
      → ((k : ℕ) → k < cache_size → caches s (slots k) ≡ false)
      → view_of slots disk s ≡ disk s
  unfolding view_of from_entry
  view-absent s h = rw (entry_of-absent slots s cache_size 0 (λ k p q. h k q))

  -- A write to a slot and to the disk that does not concern `s`.
  pub view-update :
      (at s : ℕ) (x : Option Entry) (disk' : ℕ → Bytes)
      → caches s x ≡ false
      → caches s (slots at) ≡ false
      → disk' s ≡ disk s
      → view_of (update slots at x) disk' s ≡ view_of slots disk s
  unfolding view_of
  view-update at s x disk' new old eq = rw (entry_of-update slots s cache_size 0 at x new old, eq)

module _ {slots : Slots} {hand : ℕ} {disk : ℕ → Bytes} {size active : ℕ} {foreign : Bool} where
  -- The invariant survives a write of a slot.
  pub IsSound-update :
      IsSound slots hand disk size active foreign
      → (at : ℕ) (x : Option Entry) → at < cache_size
      → ((s : ℕ) → caches s x ≡ true → IsFreeBut at slots s)
      → ((e : Entry) → x ≡ some e → IsClean disk size e)
      → held_of x ≤ held_of (slots at)
      → IsSound (update slots at x) hand disk size active foreign
  IsSound-update v at x lt alone ok held = record {
    unique = IsUnique-update slots at x v.unique alone;
    hand_in = v.hand_in;
    entries = λ i e p q. elim (Bool-cases (i == at)) [
      | inl t ↦ ok e (rw t at q)
      | inr f ↦ v.entries i e p (rw f at q)
    ];
    native = v.native;
    room = omega (arith, held_count-update cache_size slots at x lt, v.room);
  }

  -- A sector of a slot is cached nowhere else.
  pub alone_of_unique :
      IsSound slots hand disk size active foreign
      → (at s : ℕ) → at < cache_size
      → caches s (slots at) ≡ true
      → IsFreeBut at slots s
  alone_of_unique v at s lt here k p ne = elim (Bool-cases (caches s (slots k))) [
    | inl t ↦ absurd (ne (v.unique s k at p lt t here))
    | inr f ↦ f
  ]

no_holders : (n : ℕ) → held_count n (λ _. none) ≡ 0
unfolding held_count
no_holders zero = refl
no_holders (suc n) = omega (arith, no_holders n)

-- `init_buffer_cache` makes the state sound, whatever the memory held, on a device that is not
-- foreign.
pub init-Inv : (c : Cache) → c.foreign ≡ false → Inv cache_size (init_buffer_cache c)
unfolding init_buffer_cache caches
init-Inv c native = record {
  unique = λ s i j p q h. cc;
  hand_in = omega arith;
  entries = λ i e p h. cc;
  native = native;
  room = omega (arith, no_holders cache_size);
}
