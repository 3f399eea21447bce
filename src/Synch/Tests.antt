-- ===== src/Synch/Tests.antt =====
-- thread.c and synch.c, run: thread 1 takes lock 7, thread 3 waits on semaphore 5.
use group.Base.{ℕ, ◌≡◌, refl, Bool, none, some, [], ◌∷◌, ◌==◌, arith, if◌then◌else◌, update, Yields}
use group.Sched.{
  Tid, Status, running, ready, blocked, dying, user, down, acquire, own, Kernel, thread_unblock,
}
use group.Sched.Inv.{Inv, count}
use group.Synch.{
  lock_init, sema_init, go_to, sema_down_round, sema_up, wake, set_holder, lock_acquire,
  lock_held_by_current_thread,
}
use group.Synch.Owner.{at_own, Exclusive}
use group.Synch.Wake.{sema_up-Raises, Raises}
use group.Synch.Step.{call_acquire, acquire_round, record_holder, Reach, start, later, Reach-Inv}
use group.Synch.Exclusion.{Reach-Exclusive}

abbrev status : Tid → Status
status t = if t == 1 then running else if t == 2 then ready else if t == 3 then blocked else dying

-- Thread 3 sleeps on semaphore 5.
abbrev two_threads : Kernel
two_threads = record {
  ready_list = 2 ∷ [];
  status = status;
  current = 1;
  idle = 0;
  initial = 1;
  ticks = 0;
  freed = [];
  value = λ s. 0;
  waiters = λ s. if s == 5 then 3 ∷ [] else [];
  holder = λ l. none;
  pc = λ t. if t == 3 then down 5 else user;
}

abbrev locks : ℕ → Bool
locks s = s == 7

two_threads-Inv : Inv two_threads
unfolding count
two_threads-Inv = record {
  listed = record {
    on_ready = λ t. ground arith;
    on_waiters = λ s t. ground arith;
    idle_waits = λ s. refl;
  };
  one_runs = λ t. ground arith;
}

unlocked : Kernel
unlocked = lock_init 7 two_threads

unlocked-Inv : Inv unlocked
unfolding unlocked lock_init sema_init count
unlocked-Inv = record {
  listed = record {
    on_ready = λ t. ground arith;
    on_waiters = λ s t. ground arith;
    idle_waits = λ s. refl;
  };
  one_runs = λ t. ground arith;
}

abbrev locked : Kernel
locked =
    set_holder 7
      (go_to (own 7) (record (go_to (acquire 7) unlocked) { value = update unlocked.value 7 0 }))

locking : Reach locks unlocked locked
unfolding unlocked lock_init sema_init lock_acquire lock_held_by_current_thread sema_down_round
locking =
    later (later (later start (call_acquire 7 refl refl refl)) (acquire_round 7 refl refl))
      (record_holder 7 refl)

Reach-Inv_example : Inv locked
Reach-Inv_example = Reach-Inv unlocked-Inv locking

Reach-Exclusive_example : Exclusive (locked.value 7) (locked.holder 7) (λ t. at_own (locked.pc t) 7)
unfolding unlocked
Reach-Exclusive_example =
    Reach-Exclusive 7 two_threads refl (λ t. ground arith) (λ t. ground arith) locking

sema_up-Raises_example :
    Yields (sema_up 5 two_threads) (λ k'. Raises 5 two_threads (3 ∷ []) k' × Inv k')
sema_up-Raises_example = sema_up-Raises 5 two_threads two_threads-Inv

-- Thread 1 in the loop of `sema_down` on semaphore 5.
abbrev waiting : Kernel
waiting = go_to (down 5) two_threads

waiting-Inv : Inv waiting
unfolding count
waiting-Inv = record {
  listed = record {
    on_ready = λ t. ground arith;
    on_waiters = λ s t. ground arith;
    idle_waits = λ s. refl;
  };
  one_runs = λ t. ground arith;
}

woken_in_order :
    (k : Kernel) × ((sema_up 5 two_threads ≡ some k)
      × (k.ready_list ≡ 2 ∷ 3 ∷ [])
      × (k.waiters 5 ≡ [])
      × (k.value 5 ≡ 1))
unfolding sema_up wake thread_unblock
woken_in_order = (_, (refl, refl, refl, refl))
