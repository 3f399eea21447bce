-- ===== src/Process/Step.antt =====
-- Processes that create, wait for and exit from each other: any process takes the next step.
use group.Base.{ℕ, ◌≡◌, Option, none, some, List, ◌∷◌, ◌++◌}
use group.Process.{
  Thread, Heap, running, waiting, collecting, exiting, thread_create, set_exit_code, kill,
  process_exit, thread_exit, process_wait, wait_down, wait_collect,
}

-- The initial thread of the kernel, which has no wait status of its own, is one of the threads of the
-- initial system.
pub record System : Type 0 where
  pub threads : List Thread
  pub heap : Heap

-- The system in which the threads are these and the one between them takes the step.
abbrev pub system : List Thread → List Thread → Thread × Heap → System
system before after (t, heap) = record { threads = before ++ t ∷ after; heap = heap }

abbrev pub born : List Thread → List Thread → Thread × (Thread × Heap) → System
born before after (parent, (child, heap)) = record {
  threads = before ++ parent ∷ child ∷ after;
  heap = heap;
}

pub data Step (before after : List Thread) (t : Thread) (heap : Heap) : System → Type 0 where
  create :
      (tid a : ℕ) {r : Thread × (Thread × Heap)}
      → t.place ≡ running
      → heap a ≡ none
      → thread_create tid a t heap ≡ some r
      → Step before after t heap (born before after r)
  record_code :
      (code : ℕ) {heap' : Heap}
      → t.place ≡ running
      → set_exit_code code t heap ≡ some heap'
      → Step before after t heap (system before after (t, heap'))
  killed :
      {heap' : Heap}
      → t.place ≡ running
      → kill t heap ≡ some heap'
      → Step before after t heap (system before after (t, heap'))
  leave :
      {r : Thread × Heap}
      → t.place ≡ running
      → process_exit t heap ≡ some r
      → Step before after t heap (system before after r)
  exit :
      {r : Thread × Heap}
      → t.place ≡ exiting
      → thread_exit t heap ≡ some r
      → Step before after t heap (system before after r)
  wait :
      (tid : ℕ) {r : Option ℕ × Thread}
      → t.place ≡ running
      → process_wait tid t heap ≡ some r
      → Step before after t heap (system before after (r.1, heap))
  down :
      (ws : ℕ) {r : Thread × Heap}
      → t.place ≡ waiting ws
      → wait_down ws t heap ≡ some (some r)
      → Step before after t heap (system before after r)
  collect :
      (ws : ℕ) {r : ℕ × (Thread × Heap)}
      → t.place ≡ collecting ws
      → wait_collect ws t heap ≡ some r
      → Step before after t heap (system before after r.1)

pub data Reach (s₀ : System) : System → Type 0 where
  start : Reach s₀ s₀
  later :
      {s' : System} {before after : List Thread} {t : Thread} {heap : Heap}
      → Reach s₀ (system before after (t, heap))
      → Step before after t heap s'
      → Reach s₀ s'
