-- ===== src/Intq.antt =====
-- pintos/src/devices/intq.c: a circular queue of bytes between an interrupt handler and a thread. A call
-- is one round of its loop, with interrupts off; the lock that lets one thread wait at a time is left out.
pub mod Fifo
mod Tests
use group.Base.{
  ℕ, ◌+◌, ◌%◌, Bool, true, false, not, ◌&&◌, ◌||◌, Option, none, some, ◌==◌, if◌then◌else◌, update,
  ◌>>◌, assert,
}
use group.Sched.{Tid}

-- INTQ_BUFSIZE
abbrev pub bufsize : ℕ
bufsize = 64

-- `struct intq`: the threads that wait, or NULL, the bytes, where the next is written and read.
pub record Intq : Type 0 where
  pub not_full : Option Tid
  pub not_empty : Option Tid
  pub buf : ℕ → ℕ
  pub head : ℕ
  pub tail : ℕ

-- The thread sleeps in its loop; or the call ends with a result, and the thread that it unblocks.
pub data Outcome (A : Type 0) : Type 0 where
  sleeps : Intq → Outcome A
  ends : A → Intq → Option Tid → Outcome A

abbrev pub next : ℕ → ℕ
next pos = (pos + 1) % bufsize

unfoldable pub intq_init : Intq → Intq
intq_init q = record q { not_full = none; not_empty = none; head = 0; tail = 0 }

abbrev pub intq_empty : Intq → Bool
intq_empty q = q.head == q.tail

abbrev pub intq_full : Intq → Bool
intq_full q = next q.head == q.tail

-- `wait` and `signal` on `&q->not_empty`, and on `&q->not_full`.
unfoldable pub wait_not_empty : Tid → Intq → Option Intq
wait_not_empty current q = assert (intq_empty q) >> some (record q { not_empty = some current })

unfoldable pub wait_not_full : Tid → Intq → Option Intq
wait_not_full current q = assert (intq_full q) >> some (record q { not_full = some current })

unfoldable pub signal_not_empty : Intq → Option (Intq × Option Tid)
signal_not_empty q =
    assert (not (intq_empty q)) >> some (record q { not_empty = none }, q.not_empty)

unfoldable pub signal_not_full : Intq → Option (Intq × Option Tid)
signal_not_full q = assert (not (intq_full q)) >> some (record q { not_full = none }, q.not_full)

abbrev asleep : {A : Type 0} → Option Intq → Option (Outcome A)
asleep none = none
asleep (some q) = some (sleeps q)

abbrev ended : {A : Type 0} → A → Option (Intq × Option Tid) → Option (Outcome A)
ended a none = none
ended a (some (q, woken)) = some (ends a q woken)

-- `in_interrupt` is `intr_context ()`: a handler must not sleep.
unfoldable pub intq_getc : Bool → Tid → Intq → Option (Outcome ℕ)
intq_getc in_interrupt current q =
    if intq_empty q
    then assert (not in_interrupt) >> asleep (wait_not_empty current q)
    else ended (q.buf q.tail) (signal_not_full (record q { tail = next q.tail }))

unfoldable pub intq_putc : Bool → Tid → ℕ → Intq → Option (Outcome (Unit {0}))
intq_putc in_interrupt current byte q =
    if intq_full q
    then assert (not in_interrupt) >> asleep (wait_not_full current q)
    else ended tt
        (signal_not_empty (record q { buf = update q.buf q.head byte; head = next q.head }))
