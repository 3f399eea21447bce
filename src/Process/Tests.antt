-- ===== src/Process/Tests.antt =====
-- A process that creates a child, waits for it and collects its exit code.
use group.Base.{ℕ, ◌≡◌, refl, none, some, List, [], ◌∷◌, update, Yields, arith}
use group.Process.{
  WaitStatus, Thread, Heap, running, waiting, collecting, exiting, new_status, thread_create,
  process_exit, process_wait, wait_down, wait_collect, set_exit_code, recounted,
  wait_status_mod_ref, thread_get_wait_status,
}
use group.Process.Step.{System, system, create, record_code, leave, wait, down, Reach, start, later}
use group.Process.Tally.{times, owns, collects, unsignalled, busy, ownless, refs, total, Settled}
use group.Process.Inv.{Inv}
use group.Process.Collect.{Collected, left}
use group.Process.Progress.{Usable}
use group.Process.Shared.{Reach-Balanced, Reach-Usable, Reach-Collected, Reach-Sleeps}

abbrev counted : ℕ → ℕ → WaitStatus
counted tid refs = record (new_status tid) { o_reference_count = refs }

abbrev first_heap : Heap
first_heap a = none

-- The initial thread.
abbrev main : List ℕ → Thread
main children = record { tid = 0; o_wait_status = none; children = children; place = running }

abbrev first : System
first = system [] [] (main [], first_heap)

first-Settled : (a : ℕ) → Settled (main [] ∷ []) a none
unfolding total owns collects unsignalled busy ownless times
first-Settled a = ground arith

first-Inv : Inv first
first-Inv = record { settled = first-Settled; kept = λ a z. refl }

abbrev born_heap : Heap
born_heap =
    update (update (update first_heap 1 (some (counted 1 0))) 1 (some (counted 1 1))) 1
      (some (counted 1 2))

abbrev child : Thread
child = record { tid = 1; o_wait_status = some 1; children = []; place = running }

after_create : Reach first (system [] (child ∷ []) (main (1 ∷ []), born_heap))
unfolding thread_create wait_status_mod_ref recounted
after_create =
    later {before = []} {after = []} {t = main []} {heap = first_heap} start
      (create 1 1 {r = (main (1 ∷ []), (child, born_heap))} refl refl refl)

abbrev waiter : Thread
waiter = record (main (1 ∷ [])) { place = waiting 1 }

after_wait : Reach first (system [] (child ∷ []) (waiter, born_heap))
unfolding process_wait thread_get_wait_status
after_wait =
    later {before = []} {after = child ∷ []} {t = main (1 ∷ [])} {heap = born_heap} after_create
      (wait 1 {r = (none, waiter)} refl refl)

abbrev coded_heap : Heap
coded_heap = update born_heap 1 (some (record (counted 1 2) { o_exit_code = 7 }))

abbrev gone_heap : Heap
gone_heap = update coded_heap 1 (some (record (counted 1 2) { o_exit_code = 7; o_sem_exited = 1 }))

abbrev gone : Thread
gone = record child { place = exiting }

after_code : Reach first (system (waiter ∷ []) [] (child, coded_heap))
unfolding set_exit_code
after_code =
    later {before = waiter ∷ []} {after = []} {t = child} {heap = born_heap} after_wait
      (record_code 7 refl refl)

after_leave : Reach first (system [] (gone ∷ []) (waiter, gone_heap))
unfolding process_exit
after_leave =
    later {before = waiter ∷ []} {after = []} {t = child} {heap = coded_heap} after_code
      (leave {r = (gone, gone_heap)} refl refl)

abbrev woken_heap : Heap
woken_heap = update gone_heap 1 (some (record (counted 1 2) { o_exit_code = 7; o_sem_exited = 0 }))

abbrev collector : Thread
collector = record (main (1 ∷ [])) { place = collecting 1 }

after_down : Reach first (system [] (gone ∷ []) (collector, woken_heap))
unfolding wait_down
after_down =
    later {before = []} {after = gone ∷ []} {t = waiter} {heap = gone_heap} after_leave
      (down 1 {r = (collector, woken_heap)} refl refl)

Reach-Balanced_example : Inv (system [] (gone ∷ []) (collector, woken_heap))
Reach-Balanced_example = Reach-Balanced first-Inv after_down

Reach-Usable_example : Usable running child coded_heap
Reach-Usable_example = Reach-Usable first (waiter ∷ []) [] child coded_heap first-Inv after_code

Reach-Collected_example :
    Yields (wait_collect 1 collector woken_heap) (Collected [] (gone ∷ []) collector woken_heap 1)
Reach-Collected_example =
    Reach-Collected first [] (gone ∷ []) collector woken_heap first-Inv after_down 1 refl

asleep : wait_down 1 waiter born_heap ≡ some none
unfolding wait_down
asleep = refl

Reach-Sleeps_example : left [] (child ∷ []) waiter born_heap 1 (waiting 1) ≡ 1
Reach-Sleeps_example =
    Reach-Sleeps first [] (child ∷ []) waiter born_heap first-Inv after_wait 1 refl asleep
