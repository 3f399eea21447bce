-- ===== src/Sched.antt =====
-- pintos/src/threads/thread.c: the scheduler. Each function runs with interrupts off, so it is a
-- function on the kernel's state; a failed ASSERT is `none`.
pub mod Inv
use group.Base.{
  ℕ, zero, suc, ◌+◌, Bool, true, false, not, ◌&&◌, Option, none, some, List, [], ◌∷◌, ◌++◌, ◌==◌,
  leb, if◌then◌else◌, update, ◌>>=◌, ◌>>◌, assert,
}

abbrev pub Tid : Type 0
Tid = ℕ

pub data Status : Type 0 where
  running ready blocked dying : Status

abbrev pub is_running : Status → Bool
is_running running = true
is_running s = false

abbrev pub is_ready : Status → Bool
is_ready ready = true
is_ready s = false

abbrev pub is_blocked : Status → Bool
is_blocked blocked = true
is_blocked s = false

abbrev pub is_dying : Status → Bool
is_dying dying = true
is_dying s = false

-- Where a thread goes on when it runs next: in its own code, in the loop of `sema_down` on a
-- semaphore, in that of `lock_acquire` on a lock, behind that loop with the holder not yet recorded,
-- or in `lock_release` before its `sema_up`.
pub data Pc : Type 0 where
  user : Pc
  down : ℕ → Pc
  acquire : ℕ → Pc
  own : ℕ → Pc
  raise : ℕ → Pc

-- `ready_list`, the threads' status, `running_thread ()`, `idle_thread`, `initial_thread`,
-- `thread_ticks`, the pages given back by `palloc_free_page`; each semaphore's `value` and `waiters`,
-- each lock's `holder`, a lock being numbered as its semaphore; each thread's place in its code.
pub record Kernel : Type 0 where
  pub ready_list : List Tid
  pub status : Tid → Status
  pub current : Tid
  pub idle : Tid
  pub initial : Tid
  pub ticks : ℕ
  pub freed : List Tid
  pub value : ℕ → ℕ
  pub waiters : ℕ → List Tid
  pub holder : ℕ → Option Tid
  pub pc : Tid → Pc

-- The thread to run, and the ready list without it.
unfoldable pub next_thread_to_run : Tid → List Tid → Tid × List Tid
next_thread_to_run idle [] = (idle, [])
next_thread_to_run idle (t ∷ ts) = (t, ts)

-- `switch_threads`, and the tail that the new thread runs: `prev` is destroyed if it is dying.
unfoldable pub thread_schedule_tail : Tid → Tid → Kernel → Kernel
thread_schedule_tail prev cur k = record k {
  current = cur;
  status = update k.status cur running;
  ticks = 0;
  freed =
      if not (prev == cur) && is_dying (k.status prev) && not (prev == k.initial)
      then prev ∷ k.freed
      else k.freed;
}

unfoldable pub schedule : Kernel → Option Kernel
schedule k = do
  assert (not (is_running (k.status k.current)))
  let (next, rest) = next_thread_to_run k.idle k.ready_list
  some (thread_schedule_tail k.current next (record k { ready_list = rest }))

unfoldable pub thread_block : Kernel → Option Kernel
thread_block k = schedule (record k { status = update k.status k.current blocked })

unfoldable pub thread_unblock : Tid → Kernel → Option Kernel
thread_unblock t k = do
  assert (is_blocked (k.status t))
  some (record k { ready_list = k.ready_list ++ t ∷ []; status = update k.status t ready })

unfoldable pub thread_yield : Kernel → Option Kernel
thread_yield k = schedule (record k {
  ready_list = if k.current == k.idle then k.ready_list else k.ready_list ++ k.current ∷ [];
  status = update k.status k.current ready;
})

-- The end of `thread_exit`.
unfoldable pub thread_exit : Kernel → Option Kernel
thread_exit k = schedule (record k { status = update k.status k.current dying })

-- TIME_SLICE
abbrev pub time_slice : ℕ
time_slice = 4

-- `thread_tick`: whether to yield on return from the timer interrupt.
pub thread_tick : Kernel → Kernel × Bool
thread_tick k = (record k { ticks = k.ticks + 1 }, leb time_slice (k.ticks + 1))
