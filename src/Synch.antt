-- ===== src/Synch.antt =====
-- pintos/src/threads/synch.c: semaphores and locks as the running thread executes them, between the
-- points where interrupts are on. A lock has the number of its semaphore.
pub mod Lists
pub mod Wake
pub mod Owner
pub mod Frame
pub mod Moves
mod Tests
pub mod Step
pub mod Exclusion
use group.Base.{
  ◌^◌, ◌%◌, ℕ, zero, suc, ◌+◌, ◌-◌, ◌≡◌, ◌≢◌, Bool, true, false, not, ◌&&◌, Option, none, some,
  List, [], ◌∷◌, ◌++◌, ◌==◌, if◌then◌else◌, update, ◌>>=◌, ◌>>◌, assert, ltb,
}
use group.Sched.{
  Tid, Pc, user, down, acquire, own, raise, Kernel, thread_block, thread_unblock, thread_yield,
}

abbrev pub go_to : Pc → Kernel → Kernel
go_to p k = record k { pc = update k.pc k.current p }

unfoldable pub sema_init : ℕ → ℕ → Kernel → Kernel
sema_init s value k = record k { value = update k.value s value; waiters = update k.waiters s [] }

-- One round of the loop of `sema_down`: sleep on the list, or take the semaphore and go on at `next`.
unfoldable pub sema_down_round : ℕ → Pc → Kernel → Option Kernel
sema_down_round s next k =
    if k.value s == 0
    then thread_block (record k { waiters = update k.waiters s (k.waiters s ++ k.current ∷ []) })
    else some (go_to next (record k { value = update k.value s (k.value s - 1) }))

unfoldable pub sema_try_down : ℕ → Kernel → Kernel × Bool
sema_try_down s k =
    if ltb 0 (k.value s)
    then (record k { value = update k.value s (k.value s - 1) }, true)
    else (k, false)

unfoldable pub wake : ℕ → List Tid → Kernel → Option Kernel
wake s [] k = some k
wake s (t ∷ ts) k = thread_unblock t (record k { waiters = update k.waiters s ts })

-- The value is an `unsigned`.
unfoldable pub sema_up : ℕ → Kernel → Option Kernel
sema_up s k = do
  k ← wake s (k.waiters s) k
  some (record k { value = update k.value s ((k.value s + 1) % 2 ^ 32) })

unfoldable pub lock_init : ℕ → Kernel → Kernel
lock_init l k = record (sema_init l 1 k) { holder = update k.holder l none }

abbrev pub is_tid : Tid → Option Tid → Bool
is_tid t none = false
is_tid t (some u) = u == t

unfoldable pub lock_held_by_current_thread : ℕ → Kernel → Bool
lock_held_by_current_thread l k = is_tid k.current (k.holder l)

-- `lock_acquire` up to its `sema_down`; the loop is `sema_down_round`, the rest `set_holder`.
unfoldable pub lock_acquire : ℕ → Kernel → Option Kernel
lock_acquire l k = do assert (not (lock_held_by_current_thread l k)); some (go_to (acquire l) k)

unfoldable pub set_holder : ℕ → Kernel → Kernel
set_holder l k = go_to user (record k { holder = update k.holder l (some k.current) })

unfoldable pub after_try : ℕ → Kernel × Bool → Kernel × Bool
after_try l (k, true) = (go_to (own l) k, true)
after_try l (k, false) = (k, false)

-- On success the holder is recorded next, by `set_holder`.
unfoldable pub lock_try_acquire : ℕ → Kernel → Option (Kernel × Bool)
lock_try_acquire l k = do
  assert (not (lock_held_by_current_thread l k))
  some (after_try l (sema_try_down l k))

-- `lock_release` up to its `sema_up`.
unfoldable pub lock_release : ℕ → Kernel → Option Kernel
lock_release l k = do
  assert (lock_held_by_current_thread l k)
  some (go_to (raise l) (record k { holder = update k.holder l none }))

-- The `sema_up` of `lock_release`, and its return.
unfoldable pub raise_lock : ℕ → Kernel → Option Kernel
raise_lock l k = do k ← sema_up l k; some (go_to user k)
