-- ===== src/Process/Shared.antt =====
-- The wait statuses of all processes, in every order of their steps.
use group.Base.{ℕ, ◌≡◌, refl, ap, sym, none, some, List, Yields, subst}
use group.Process.{Thread, Heap, waiting, collecting, wait_down, wait_collect}
use group.Process.Step.{System, system, Reach, start, later}
use group.Process.Inv.{Inv}
use group.Process.Collect.{wait_down-Sleeps, Collected, left}
use group.Process.Progress.{Usable, Step-Inv, usable, collected}

-- In every state that the processes reach from one that satisfies `Inv`, the count of a wait status is the number of lists and of
-- processes that hold it, at most one of each, and no wait status is kept with the count 0; the
-- value of its semaphore is at most 1, and 0 while its process has not left its code.
pub Reach-Balanced : {s₀ s : System} → Inv s₀ → Reach s₀ s → Inv s
Reach-Balanced i start = i
Reach-Balanced i (later {before = before} {after = after} {t = t} {heap = heap} reach step) =
    Step-Inv before after heap t step (Reach-Balanced i reach)

module _ (s₀ : System) (before after : List Thread) (t : Thread) (heap : Heap) (i : Inv s₀)
    (reach : Reach s₀ (system before after (t, heap))) where
  -- In every state that the processes reach from one that satisfies `Inv`, what a process does next finds
  -- the wait statuses that it uses: none of them was freed before, and none is freed twice. Only when a
  -- process runs without a wait status of its own, as the initial thread does, the write of its exit code,
  -- the mark of a kill and `process_exit` are faults.
  pub Reach-Usable : Usable t.place t heap
  Reach-Usable = usable before after heap t t.place refl (Reach-Balanced i reach)

  -- From a state that satisfies `Inv`: behind the `sema_down`, `process_wait` returns the code of the wait status, -1 after a kill; the process
  -- that it waited for is behind its `sema_up`, so that the code is final; and the list has the wait status no
  -- longer.
  pub Reach-Collected :
      (ws : ℕ)
      → t.place ≡ collecting ws
      → Yields (wait_collect ws t heap) (Collected before after t heap ws)
  Reach-Collected ws e = collected before after heap t ws e (Reach-Balanced i reach)

  -- From a state that satisfies `Inv`: a process sleeps in `process_wait` only while a process that owns the wait status has not exited: once
  -- that one is behind its `sema_up`, the `sema_down` goes through.
  pub Reach-Sleeps :
      (ws : ℕ)
      → t.place ≡ waiting ws
      → wait_down ws t heap ≡ some none
      → left before after t heap ws (waiting ws) ≡ 1
  Reach-Sleeps ws e =
      subst (λ t'. wait_down ws t' heap ≡ some none → left before after t heap ws (waiting ws) ≡ 1)
        (ap (λ q. record t { place = q }) (sym e))
        (wait_down-Sleeps before after t heap ws (
          subst (λ q. Inv (system before after (record t { place = q }, heap))) e
            (Reach-Balanced i reach)))
