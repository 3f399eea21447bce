-- ===== src/Synch/Step.antt =====
-- thread.c and synch.c: what the running thread does in one step, between two points where interrupts
-- are on, and the states that the kernel reaches.
use group.Base.{
  ℕ, ◌-◌, ◌≡◌, refl, Bool, true, false, not, Option, none, some, arith, ◌==◌, ltb, update, Yields,
  Yields-bind, Yields_some, Allows, Allows_some, Allows-assert, Bool-cases, inl, inr, eq_of_==,
}
use group.Sched.{
  Tid, user, down, acquire, own, raise, Kernel, thread_block, thread_yield, thread_exit,
}
use group.Sched.Inv.{waits, Inv, schedule-Inv}
use group.Synch.{
  go_to, sema_down_round, sema_up, set_holder, sema_try_down, lock_acquire, lock_try_acquire,
  after_try, lock_release, raise_lock, lock_held_by_current_thread,
}
use group.Synch.Lists.{current_elsewhere, go_to-Inv, go_free-Inv, sema_down_round-Inv}
use group.Synch.Wake.{value-Inv, sema_up-Raises, thread_yield-Inv, thread_exit-Inv, Raises}

-- `is_lock` tells the semaphores inside locks, which only the lock functions use, from the others.
-- A preempted thread yields at any place; the idle thread only blocks and yields.
pub data Step (is_lock : ℕ → Bool) (k : Kernel) : Kernel → Type 0 where
  preempt : {k' : Kernel} → thread_yield k ≡ some k' → Step is_lock k k'
  exit : {k' : Kernel} → (k.current == k.idle) ≡ false → thread_exit k ≡ some k' → Step is_lock k k'
  sleep_idle :
      {k' : Kernel} → (k.current == k.idle) ≡ true → thread_block k ≡ some k' → Step is_lock k k'
  call_down :
      (s : ℕ)
      → (k.current == k.idle) ≡ false
      → is_lock s ≡ false
      → k.pc k.current ≡ user
      → Step is_lock k (go_to (down s) k)
  down_round :
      (s : ℕ) {k' : Kernel}
      → k.pc k.current ≡ down s
      → sema_down_round s user k ≡ some k'
      → Step is_lock k k'
  try_down :
      (s : ℕ) → is_lock s ≡ false → k.pc k.current ≡ user → Step is_lock k (sema_try_down s k).0
  up :
      (s : ℕ) {k' : Kernel}
      → is_lock s ≡ false
      → k.pc k.current ≡ user
      → sema_up s k ≡ some k'
      → Step is_lock k k'
  call_acquire :
      (l : ℕ) {k' : Kernel}
      → (k.current == k.idle) ≡ false
      → k.pc k.current ≡ user
      → lock_acquire l k ≡ some k'
      → Step is_lock k k'
  acquire_round :
      (l : ℕ) {k' : Kernel}
      → k.pc k.current ≡ acquire l
      → sema_down_round l (own l) k ≡ some k'
      → Step is_lock k k'
  record_holder : (l : ℕ) → k.pc k.current ≡ own l → Step is_lock k (set_holder l k)
  try_acquire :
      (l : ℕ) {r : Kernel × Bool}
      → k.pc k.current ≡ user
      → lock_try_acquire l k ≡ some r
      → Step is_lock k r.0
  release :
      (l : ℕ) {k' : Kernel} → k.pc k.current ≡ user → lock_release l k ≡ some k' → Step is_lock k k'
  raise_round :
      (l : ℕ) {k' : Kernel}
      → k.pc k.current ≡ raise l
      → raise_lock l k ≡ some k'
      → Step is_lock k k'

pub data Reach (is_lock : ℕ → Bool) (k₀ : Kernel) : Kernel → Type 0 where
  start : Reach is_lock k₀ k₀
  later : {k k' : Kernel} → Reach is_lock k₀ k → Step is_lock k k' → Reach is_lock k₀ k'

-- The idle thread blocks: it stands on no list.
thread_block-Inv : (k : Kernel) → Inv k → (k.current == k.idle) ≡ true → Yields (thread_block k) Inv
unfolding thread_block
thread_block-Inv k v q = schedule-Inv _ (record {
  listed = record {
    on_ready = λ t. elim (Bool-cases (t == k.current)) [
      | inl e ↦ rw (e, eq_of_== t k.current e) ((current_elsewhere k v).0)
      | inr e ↦ rw e (v.listed.on_ready t)
    ];
    on_waiters = λ s t. elim (Bool-cases (t == k.current)) [
      | inl e ↦ rw (e, eq_of_== t k.current e, no_wait s) ((current_elsewhere k v).1 s)
      | inr e ↦ rw e (v.listed.on_waiters s t)
    ];
    idle_waits = v.listed.idle_waits;
  };
  none_runs = λ t. ground (arith, v.one_runs t);
})
  where
    no_wait : (s : ℕ) → waits (k.pc k.current) s ≡ false
    no_wait s = rw (eq_of_== k.current k.idle q) (v.listed.idle_waits s)

try_down-Inv : (s : ℕ) (k : Kernel) → Inv k → Inv (sema_try_down s k).0
unfolding sema_try_down
try_down-Inv s k v = elim (Bool-cases (ltb 0 (k.value s))) [
  | inl e ↦ rw e (value-Inv s (k.value s - 1) k v)
  | inr e ↦ rw e v
]

acquire-Inv :
    (l : ℕ) (k : Kernel) → Inv k → (k.current == k.idle) ≡ false → Allows (lock_acquire l k) Inv
unfolding lock_acquire
acquire-Inv l k v q =
    Allows-assert Inv (not (lock_held_by_current_thread l k)) (some (go_to (acquire l) k))
      (λ _. go_to-Inv k v (acquire l) (λ x. rw q refl))

holder-Inv :
    (l : ℕ) (o : Option Tid) (k : Kernel) → Inv k → Inv (record k { holder = update k.holder l o })
holder-Inv l o k i = record {
  listed = record {
    on_ready = i.listed.on_ready;
    on_waiters = i.listed.on_waiters;
    idle_waits = i.listed.idle_waits;
  };
  one_runs = i.one_runs;
}

try_acquire-Inv : (l : ℕ) (k : Kernel) → Inv k → Allows (lock_try_acquire l k) (λ r. Inv r.0)
unfolding lock_try_acquire after_try
try_acquire-Inv l k v =
    Allows-assert (λ r. Inv r.0) (not (lock_held_by_current_thread l k))
      (some (after_try l (sema_try_down l k))) (λ _. after (sema_try_down l k) (try_down-Inv l k v))
  where
    after : (r : Kernel × Bool) → Inv r.0 → Inv (after_try l r).0
    after (k', true) i = go_free-Inv k' i (own l) (λ x. refl)
    after (k', false) i = i

release-Inv : (l : ℕ) (k : Kernel) → Inv k → Allows (lock_release l k) Inv
unfolding lock_release
release-Inv l k v =
    Allows-assert Inv (lock_held_by_current_thread l k)
      (some (go_to (raise l) (record k { holder = update k.holder l none })))
      (λ _. go_free-Inv _ (holder-Inv l none k v) (raise l) (λ x. refl))

raise-Inv : (l : ℕ) (k : Kernel) → Inv k → Yields (raise_lock l k) Inv
unfolding raise_lock
raise-Inv l k v =
    Yields-bind _ Inv (sema_up l k) (λ k'. some (go_to user k')) (sema_up-Raises l k v)
      (λ k' h. go_free-Inv k' h.1 user (λ x. refl))

-- Every step keeps `Inv`: one thread runs, and each thread is on the list that its status says.
pub Step-Inv : {is_lock : ℕ → Bool} {k k' : Kernel} → Step is_lock k k' → Inv k → Inv k'
unfolding set_holder
Step-Inv {k = k} (preempt e) v = Yields_some Inv (thread_yield k) (thread_yield-Inv k v) e
Step-Inv {k = k} (exit q e) v = Yields_some Inv (thread_exit k) (thread_exit-Inv k v q) e
Step-Inv {k = k} (sleep_idle q e) v = Yields_some Inv (thread_block k) (thread_block-Inv k v q) e
Step-Inv {k = k} (call_down s q n p) v = go_to-Inv k v (down s) (λ x. rw q refl)
Step-Inv {k = k} (down_round s p e) v =
    Yields_some Inv (sema_down_round s user k)
      (sema_down_round-Inv k v s user (λ x. rw p refl) (λ x. refl)) e
Step-Inv {k = k} (try_down s n p) v = try_down-Inv s k v
Step-Inv {k = k} (up s n p e) v =
    let h =
      Yields_some (λ k'. Raises s k (k.waiters s) k' × Inv k') (sema_up s k) (sema_up-Raises s k v)
        e in
    h.1
Step-Inv {k = k} (call_acquire l q p e) v =
    Allows_some Inv (lock_acquire l k) (acquire-Inv l k v q) e
Step-Inv {k = k} (acquire_round l p e) v =
    Yields_some Inv (sema_down_round l (own l) k)
      (sema_down_round-Inv k v l (own l) (λ x. rw p refl) (λ x. refl)) e
Step-Inv {k = k} (record_holder l p) v =
    go_free-Inv _ (holder-Inv l (some k.current) k v) user (λ x. refl)
Step-Inv {k = k} (try_acquire l p e) v =
    Allows_some (λ r. Inv r.0) (lock_try_acquire l k) (try_acquire-Inv l k v) e
Step-Inv {k = k} (release l p e) v = Allows_some Inv (lock_release l k) (release-Inv l k v) e
Step-Inv {k = k} (raise_round l p e) v = Yields_some Inv (raise_lock l k) (raise-Inv l k v) e

-- From a state that satisfies `Inv`, every state that the kernel reaches satisfies it, whatever the
-- order in which the threads run: the current thread alone is running, a thread stands once on the
-- ready list if it is ready and not the idle thread, once on the list of the semaphore it waits for if
-- it is blocked there, and on no other list.
pub Reach-Inv : {is_lock : ℕ → Bool} {k₀ k : Kernel} → Inv k₀ → Reach is_lock k₀ k → Inv k
Reach-Inv v start = v
Reach-Inv v (later r s) = Step-Inv s (Reach-Inv v r)
