-- ===== src/Process.antt =====
-- pintos/src/threads/thread.c, pintos/src/userprog/process.c and the exits in syscall.c and exception.c:
-- the wait status that a process shares with its parent.
pub mod Step
mod Tally
mod Moves
pub mod Inv
pub mod Waits
pub mod Collect
pub mod Births
pub mod Progress
pub mod Shared
mod Tests
use group.Base.{
  ℕ, ◌+◌, ◌-◌, ◌%◌, ◌^◌, Bool, true, false, not, Option, none, some, List, [], ◌∷◌, ◌++◌, ◌≡◌, ◌==◌,
  if◌then◌else◌, update, ◌>>=◌, ◌>>◌, assert,
}

-- `struct wait_status`, with the value of `o_sem_exited`; an `int` is its 32-bit word.
pub record WaitStatus : Type 0 where
  pub o_tid : ℕ
  pub o_sem_exited : ℕ
  pub o_exit_code : ℕ
  pub o_reference_count : ℕ
  pub o_kernel_killed : Bool

abbrev pub minus_one : ℕ
minus_one = 2 ^ 32 - 1

-- The wait statuses that are allocated, by their addresses.
abbrev pub Heap : Type 0
Heap = ℕ → Option WaitStatus

-- Where a process is: in its own code, in `process_wait` before the `sema_down` on a wait status and
-- behind it, in `thread_exit` behind `process_exit`, or dying.
pub data Place : Type 0 where
  running : Place
  waiting : ℕ → Place
  collecting : ℕ → Place
  exiting : Place
  dying : Place

-- `struct thread`: its identifier, `o_wait_status`, `o_children_wait_status_list` and its place. Only
-- `thread_create` sets `o_wait_status`: `none` is the null pointer of the initial thread, and its use a
-- fault.
pub record Thread : Type 0 where
  pub tid : ℕ
  pub o_wait_status : Option ℕ
  pub children : List ℕ
  pub place : Place

-- The count of `wait_status_mod_ref` is a `uint32_t`; at 0 the wait status is freed.
unfoldable pub recounted : ℕ → WaitStatus → Option WaitStatus
recounted delta w =
    let refs = (w.o_reference_count + delta) % 2 ^ 32 in
    if refs == 0 then none else some (record w { o_reference_count = refs })

unfoldable pub wait_status_mod_ref : ℕ → ℕ → Heap → Option Heap
wait_status_mod_ref a delta heap = do w ← heap a; some (update heap a (recounted delta w))

-- The wait statuses of `thread_create`: the new thread and its parent. `malloc` gives the address.
abbrev pub new_status : ℕ → WaitStatus
new_status tid = record {
  o_tid = tid;
  o_sem_exited = 0;
  o_exit_code = 0;
  o_reference_count = 0;
  o_kernel_killed = false;
}

unfoldable pub thread_create : ℕ → ℕ → Thread → Heap → Option (Thread × (Thread × Heap))
thread_create tid a parent heap = do
  heap ← wait_status_mod_ref a 1 (update heap a (some (new_status tid)))
  heap ← wait_status_mod_ref a 1 heap
  some (
    record parent { children = a ∷ parent.children },
    (record { tid = tid; o_wait_status = some a; children = []; place = running }, heap),
  )

-- `exit_with_code` before `thread_exit`, and the mark of `kill`.
unfoldable pub set_exit_code : ℕ → Thread → Heap → Option Heap
set_exit_code code t heap = do
  own ← t.o_wait_status
  w ← heap own
  some (update heap own (some (record w { o_exit_code = code % 2 ^ 32 })))

unfoldable pub kill : Thread → Heap → Option Heap
kill t heap = do
  own ← t.o_wait_status
  w ← heap own
  some (update heap own (some (record w { o_kernel_killed = true })))

-- `process_exit`, as far as it is about the wait status
unfoldable pub process_exit : Thread → Heap → Option (Thread × Heap)
process_exit t heap = do
  own ← t.o_wait_status
  w ← heap own
  some (
    record t { place = exiting },
    update heap own (some (record w { o_sem_exited = (w.o_sem_exited + 1) % 2 ^ 32 })),
  )

-- A round of the loop of `thread_exit`, and what follows the loop.
unfoldable pub exit_round : List ℕ → Thread → Heap → Option (Thread × Heap)
exit_round (ws ∷ rest) t heap = do
  heap ← wait_status_mod_ref ws minus_one heap
  some (record t { children = rest }, heap)
exit_round [] t heap = do
  own ← t.o_wait_status
  heap ← wait_status_mod_ref own minus_one heap
  some (record t { place = dying }, heap)

unfoldable pub thread_exit : Thread → Heap → Option (Thread × Heap)
thread_exit t heap = exit_round t.children t heap

-- The loop of `thread_get_wait_status`
unfoldable pub thread_get_wait_status : List ℕ → ℕ → Heap → Option (Option ℕ)
thread_get_wait_status [] tid heap = some none
thread_get_wait_status (ws ∷ rest) tid heap =
    let later = thread_get_wait_status rest tid heap in
    do w ← heap ws; if w.o_tid == tid then some (some ws) else later

abbrev pub waits_on : Thread → Option ℕ → Option ℕ × Thread
waits_on t none = (some minus_one, t)
waits_on t (some ws) = (none, record t { place = waiting ws })

-- `process_wait` up to its `sema_down`: the process waits, or -1 is returned.
unfoldable pub process_wait : ℕ → Thread → Heap → Option (Option ℕ × Thread)
process_wait child_tid t heap = do
  found ← thread_get_wait_status t.children child_tid heap
  some (waits_on t found)

-- The `sema_down`: `none` within when the process goes on sleeping.
unfoldable pub wait_down : ℕ → Thread → Heap → Option (Option (Thread × Heap))
wait_down ws t heap = do
  w ← heap ws
  some (
      if w.o_sem_exited == 0
      then none
      else some (
        record t { place = collecting ws },
        update heap ws (some (record w { o_sem_exited = w.o_sem_exited - 1 })),
      ))

-- `list_remove`
unfoldable pub list_remove : ℕ → List ℕ → List ℕ
list_remove ws [] = []
list_remove ws (c ∷ rest) = if c == ws then rest else c ∷ list_remove ws rest

abbrev pub status_code : WaitStatus → ℕ
status_code w = if w.o_kernel_killed then minus_one else w.o_exit_code

-- The rest of `process_wait`, with the exit code that it returns.
unfoldable pub wait_collect : ℕ → Thread → Heap → Option (ℕ × (Thread × Heap))
wait_collect ws t heap = do
  w ← heap ws
  heap ← wait_status_mod_ref ws minus_one heap
  some (status_code w, (record t { children = list_remove ws t.children; place = running }, heap))
