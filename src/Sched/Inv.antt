-- ===== src/Sched/Inv.antt =====
-- thread.c: the threads' status and the lists that they stand on.
use group.Base.{
  ℕ, ◌+◌, ◌≡◌, refl, ◌∙◌, Bool, true, false, not, ◌&&◌, List, [], ◌∷◌, ◌++◌, arith, ◌==◌,
  if◌then◌else◌, Yields, Bool-cases, inl, inr, eq_of_==,
}
use group.Sched.{
  Tid, Status, running, ready, blocked, dying, is_running, is_ready, is_blocked, Pc, user, down,
  acquire, own, raise, Kernel, next_thread_to_run, thread_schedule_tail, schedule,
}

-- How often `t` stands on a list.
unfoldable pub count : Tid → List Tid → ℕ
count t [] = 0
count t (x ∷ xs) = (if t == x then 1 else 0) + count t xs

pub count-append : (t : Tid) (xs ys : List Tid) → count t (xs ++ ys) ≡ count t xs + count t ys
unfolding count
count-append t [] ys = omega arith
count-append t (x ∷ xs) ys = omega (arith, count-append t xs ys)

-- Whether a place in the code is the loop that waits for semaphore `s`.
abbrev pub waits : Pc → ℕ → Bool
waits user s = false
waits (down x) s = x == s
waits (acquire l) s = l == s
waits (own l) s = false
waits (raise l) s = false

abbrev pub one_if : Bool → ℕ
one_if b = if b then 1 else 0

-- What the lists hold, whoever runs.
pub record Listed (k : Kernel) : Type 0 where
  pub on_ready :
      (t : Tid) → count t k.ready_list ≡ one_if (is_ready (k.status t) && not (t == k.idle))
  pub on_waiters :
      (s : ℕ) (t : Tid)
      → count t (k.waiters s) ≡ one_if (is_blocked (k.status t) && waits (k.pc t) s)
  pub idle_waits : (s : ℕ) → waits (k.pc k.idle) s ≡ false

-- The invariant: the lists, and that the current thread alone is running.
pub record Inv (k : Kernel) : Type 0 where
  pub listed : Listed k
  pub one_runs : (t : Tid) → is_running (k.status t) ≡ (t == k.current)

-- The state at a call of `schedule`: the current thread has left the running state.
pub record NoneRuns (k : Kernel) : Type 0 where
  pub listed : Listed k
  pub none_runs : (t : Tid) → is_running (k.status t) ≡ false

-- The thread that is picked leaves the ready list and runs; it waits for nothing.
switch-Inv :
    (k : Kernel) (next : Tid) (rest : List Tid)
    → NoneRuns k
    → ((t : Tid)
        → count t rest ≡ one_if (is_ready (k.status t) && not (t == k.idle) && not (t == next)))
    → ((s : ℕ) → (is_blocked (k.status next) && waits (k.pc next) s) ≡ false)
    → Inv (thread_schedule_tail k.current next (record k { ready_list = rest }))
unfolding thread_schedule_tail
switch-Inv k next rest v on_rest no_wait = record {
  listed = record {
    on_ready = λ t. ground (arith, on_rest t);
    on_waiters = λ s t. elim (Bool-cases (t == next)) [
      | inl e ↦ rw e (v.listed.on_waiters s t ∙ rw (eq_of_== t next e, no_wait s))
      | inr e ↦ rw e (v.listed.on_waiters s t)
    ];
    idle_waits = v.listed.idle_waits;
  };
  one_runs = λ t. ground (arith, v.none_runs t);
}

ready_not_blocked : (s : Status) → is_ready s ≡ true → is_blocked s ≡ false
ready_not_blocked ready h = refl
ready_not_blocked running h = cc
ready_not_blocked blocked h = cc
ready_not_blocked dying h = cc

pub schedule-Inv : (k : Kernel) → NoneRuns k → Yields (schedule k) Inv
unfolding schedule next_thread_to_run count
schedule-Inv k v = rw (v.none_runs k.current) (pick k.ready_list refl)
  where
    pick :
        (q : List Tid)
        → k.ready_list ≡ q
        → Inv (
            thread_schedule_tail k.current
              (next_thread_to_run k.idle q).0
              (record k { ready_list = (next_thread_to_run k.idle q).1 }))
    pick [] e =
        switch-Inv k k.idle [] v (λ t. let h = rw e at (v.listed.on_ready t) in ground (arith, h))
          (λ s. rw (v.listed.idle_waits s) (ground arith))
    pick (x ∷ xs) e =
        let at_x = rw e at (v.listed.on_ready x) in
        let is_x : is_ready (k.status x) ≡ true = ground (arith, at_x) in
        switch-Inv k x xs v
          (λ t. let h = rw e at (v.listed.on_ready t) in ground (arith, h, at_x, eq_of_== t x))
          (λ s. rw (ready_not_blocked (k.status x) is_x) refl)
