-- ===== src/Process/Waits.antt =====
-- `thread_exit` and `process_wait` between the other processes: no wait status is used after it is freed.
use group.Base.{
  ℕ, ◌+◌, ◌≤◌, ◌≡◌, Option, none, some, List, [], ◌∷◌, ◌==◌, arith, Bool-cases, inl, inr, Yields,
  Yields-bind, Yields-mono, ==_self,
}
use group.Process.{
  WaitStatus, Thread, Heap, Place, running, waiting, collecting, exiting, dying, exit_round,
  thread_exit, thread_get_wait_status, process_wait, waits_on, wait_down,
}
use group.Process.Step.{system}
use group.Process.Tally.{hit_same, hit-times, times, owns, busy, ownless, stray, total-middle}
use group.Process.Moves.{Moved-Settled, down-Moved, wait-Moved, pop-Moved, drop-Moved}
use group.Process.Inv.{Inv, stepped, held, mod_ref-some, own_hit, positive}

module _ (before after : List Thread) (t : Thread) (heap : Heap) where
  -- A process behind `process_exit` has a wait status.
  drop_own :
      (own : Option ℕ)
      → Inv (
          system before after
            (record t { o_wait_status = own; children = []; place = exiting }, heap))
      → Yields
          (exit_round [] (record t { o_wait_status = own; children = []; place = exiting }) heap)
          (λ r. Inv (system before after r))
  unfolding exit_round owns ownless busy
  drop_own none i =
      let z = (i.settled 0).placed in
      let s =
        total-middle (stray 0) before after
          (record t { o_wait_status = none; children = []; place = exiting }) in
      absurd (omega arith)
  drop_own (some own) i =
      let one = own_hit own in
      mod_ref-some before after _ heap i
        (record t { o_wait_status = some own; children = []; place = dying }) own (omega arith)
        (λ w found a. drop-Moved a own t heap w found)

  exit_round-Inv :
      (cs : List ℕ)
      → Inv (system before after (record t { children = cs; place = exiting }, heap))
      → Yields
          (exit_round cs (record t { children = cs; place = exiting }) heap)
          (λ r. Inv (system before after r))
  unfolding exit_round owns times
  exit_round-Inv [] i = drop_own t.o_wait_status i
  exit_round-Inv (ws ∷ cs) i =
      let one = hit_same ws ws (==_self ws) in
      mod_ref-some before after _ heap i (record t { children = cs; place = exiting }) ws
        (omega arith) (λ w found a. pop-Moved a ws cs t heap w found)

  pub thread_exit-Inv :
      Inv (system before after (record t { place = exiting }, heap))
      → Yields (thread_exit (record t { place = exiting }) heap) (λ r. Inv (system before after r))
  unfolding thread_exit
  thread_exit-Inv i = exit_round-Inv t.children i

-- What `thread_get_wait_status` finds is on the list.
pub data Found (cs : List ℕ) : Option ℕ → Type 0 where
  missing : Found cs none
  found_at : (ws : ℕ) → 1 ≤ times ws cs → Found cs (some ws)

further : (c : ℕ) (cs : List ℕ) (o : Option ℕ) → Found cs o → Found (c ∷ cs) o
unfolding times
further c cs o missing = missing
further c cs o (found_at ws le) = found_at ws (omega arith)

thread_get_wait_status-Found :
    (cs : List ℕ) (tid : ℕ) (heap : Heap)
    → ((a : ℕ) → 1 ≤ times a cs → (w : WaitStatus) × (heap a ≡ some w))
    → Yields (thread_get_wait_status cs tid heap) (Found cs)
unfolding thread_get_wait_status times
thread_get_wait_status-Found [] tid heap there = missing
thread_get_wait_status-Found (c ∷ cs) tid heap there =
    let one = hit_same c c (==_self c) in
    let (w, found) = there c (omega arith) in
    rw found (elim (Bool-cases (w.o_tid == tid)) [
      | inl e ↦ rw e (found_at c (omega arith))
      | inr e ↦ rw e (
          Yields-mono (Found cs) (Found (c ∷ cs)) (thread_get_wait_status cs tid heap)
            (thread_get_wait_status-Found cs tid heap (λ a le. there a (omega arith)))
            (further c cs))
    ])

module _ (before after : List Thread) (t : Thread) (heap : Heap) where
  wait_at :
      (ws : ℕ)
      → Inv (system before after (record t { place = running }, heap))
      → 1 ≤ times ws t.children
      → Inv (system before after (record t { place = waiting ws }, heap))
  wait_at ws i le = record {
    settled = λ a.
        Moved-Settled a before after _ _ (heap a) (heap a)
          (wait-Moved a ws t (heap a) (hit-times a ws t.children le)) (i.settled a);
    kept = i.kept;
  }

  waits_on-Inv :
      (o : Option ℕ)
      → Found t.children o
      → Inv (system before after (record t { place = running }, heap))
      → Inv (system before after ((waits_on (record t { place = running }) o).1, heap))
  waits_on-Inv none missing i = i
  waits_on-Inv (some ws) (found_at _ le) i = wait_at ws i le

  -- A process in `process_wait` has the wait status on its list.
  pub on_list :
      (ws : ℕ) (p : Place)
      → busy ws p ≡ 1
      → Inv (system before after (record t { place = p }, heap))
      → 1 ≤ times ws t.children
  on_list ws p e i =
      let m = i.settled ws in
      let z = m.placed in
      let s = total-middle (stray ws) before after (record t { place = p }) in omega arith

  pub waiting_held :
      (ws : ℕ)
      → Inv (system before after (record t { place = waiting ws }, heap))
      → 1 ≤ times ws t.children + owns ws (waiting ws) t.o_wait_status
  unfolding busy
  waiting_held ws i =
      let le = on_list ws (waiting ws) (hit_same ws ws (==_self ws)) i in omega arith

  pub collecting_held :
      (ws : ℕ)
      → Inv (system before after (record t { place = collecting ws }, heap))
      → 1 ≤ times ws t.children + owns ws (collecting ws) t.o_wait_status
  unfolding busy
  collecting_held ws i =
      let le = on_list ws (collecting ws) (hit_same ws ws (==_self ws)) i in omega arith

  pub process_wait-Inv :
      (tid : ℕ)
      → Inv (system before after (record t { place = running }, heap))
      → Yields
          (process_wait tid (record t { place = running }) heap)
          (λ r. Inv (system before after (r.1, heap)))
  unfolding process_wait
  process_wait-Inv tid i =
      Yields-bind (Found t.children) (λ r. Inv (system before after (r.1, heap)))
        (thread_get_wait_status t.children tid heap)
        (λ o. some (waits_on (record t { place = running }) o))
        (thread_get_wait_status-Found t.children tid heap
          (λ a le. held before after _ heap i a (omega arith)))
        (λ o f. waits_on-Inv o f i)

  pub wait_down-Inv :
      (ws : ℕ)
      → Inv (system before after (record t { place = waiting ws }, heap))
      → Yields
          (wait_down ws (record t { place = waiting ws }) heap)
          (λ o. elim o [ none ↦ Unit | some r ↦ Inv (system before after r) ])
  unfolding wait_down
  wait_down-Inv ws i =
      let (w, found) = held before after _ heap i ws (waiting_held ws i) in
      rw found (elim (Bool-cases (w.o_sem_exited == 0)) [
        | inl e ↦ rw e tt
        | inr e ↦ rw e (
            stepped before after _ _ heap _ _ i (λ a. down-Moved a ws t heap w found e)
              (λ z. absurd (positive before after _ heap i ws w found z)))
      ])
