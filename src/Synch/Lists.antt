-- ===== src/Synch/Lists.antt =====
-- synch.c: the lists of threads over a round of `sema_down`.
use group.Base.{
  ℕ, ◌-◌, ◌≡◌, refl, sym, ◌∙◌, true, false, ◌&&◌, [], ◌∷◌, ◌++◌, arith, ◌==◌, update, Yields,
  Bool-cases, inl, inr, eq_of_==, ne_of_==, ==_self, ==_ne,
}
use group.Sched.{
  Tid, Status, running, ready, blocked, dying, is_running, is_ready, is_blocked, Pc, Kernel,
  thread_block,
}
use group.Sched.Inv.{count, count-append, waits, one_if, Inv, schedule-Inv}
use group.Synch.{go_to, sema_down_round}

-- The current thread waits for semaphore `s`, and for no other.
abbrev pub WaitsFor : ℕ → Kernel → Type 0
WaitsFor s k = (x : ℕ) → waits (k.pc k.current) x ≡ (s == x)

pub running_only :
    (s : Status) → is_running s ≡ true → (is_ready s ≡ false) × (is_blocked s ≡ false)
running_only running h = (refl, refl)
running_only ready h = cc
running_only blocked h = cc
running_only dying h = cc

module _ (k : Kernel) (v : Inv k) where
  -- A thread that may sleep is not the idle thread.
  sleeper_not_idle : (s : ℕ) → WaitsFor s k → (k.current == k.idle) ≡ false
  sleeper_not_idle s w = elim (Bool-cases (k.current == k.idle)) [
    | inl e ↦
        let a = w s in
        let b = v.listed.idle_waits s in
        absurd (clash (a ∙ ==_self s) (rw (eq_of_== k.current k.idle e) b))
    | inr e ↦ e
  ]
    where
      clash : waits (k.pc k.current) s ≡ true → waits (k.pc k.current) s ≡ false → ⊥
      clash a b = cc

  current_running : is_running (k.status k.current) ≡ true
  current_running = v.one_runs k.current ∙ ==_self k.current

  pub current_elsewhere :
      (count k.current k.ready_list ≡ 0) × ((x : ℕ) → count k.current (k.waiters x) ≡ 0)
  current_elsewhere = (
    v.listed.on_ready k.current ∙ rw ((running_only (k.status k.current) current_running).0) refl,
    λ x.
        v.listed.on_waiters x k.current
        ∙ rw ((running_only (k.status k.current) current_running).1) refl,
  )

  -- The thread that sleeps joins the list of `s`.
  sleep_on_waiters :
      (s : ℕ)
      → WaitsFor s k
      → (x : ℕ) (t : Tid)
      → count t (update k.waiters s (k.waiters s ++ k.current ∷ []) x)
        ≡ one_if (is_blocked (update k.status k.current blocked t) && waits (k.pc t) x)
  unfolding count
  sleep_on_waiters s w x t = elim (Bool-cases (t == k.current)) [
    | inl e ↦
        rw (e, eq_of_== t k.current e, w x)
          (elim (Bool-cases (x == s)) [
            | inl q ↦
                rw (q, eq_of_== x s q, ==_self s, count-append)
                  (omega (arith, current_elsewhere.1 s, own_count))
            | inr q ↦ rw (q, ==_ne s x (λ r. ne_of_== x s q (sym r))) (current_elsewhere.1 x)
          ])
    | inr e ↦ rw e (elim (Bool-cases (x == s)) [
      | inl q ↦
          rw (q, eq_of_== x s q, count-append)
            (let a = v.listed.on_waiters s t in
              let b : count t (k.current ∷ []) ≡ 0 = rw e refl in omega (arith, a, b))
      | inr q ↦ rw q (v.listed.on_waiters x t)
    ])
  ]
    where
      own_count : count k.current (k.current ∷ []) ≡ 1
      own_count = rw (==_self k.current) refl

  down_sleeps :
      (s : ℕ)
      → WaitsFor s k
      → Yields
          (thread_block (record k { waiters = update k.waiters s (k.waiters s ++ k.current ∷ []) }))
          Inv
  unfolding thread_block
  down_sleeps s w = schedule-Inv _ (record {
    listed = record {
      on_ready = λ t. elim (Bool-cases (t == k.current)) [
        | inl e ↦ rw (e, eq_of_== t k.current e) (current_elsewhere.0)
        | inr e ↦ rw e (v.listed.on_ready t)
      ];
      on_waiters = sleep_on_waiters s w;
      idle_waits = v.listed.idle_waits;
    };
    none_runs = λ t. ground (arith, v.one_runs t);
  })

  -- A change of the current thread's place; the idle thread waits for nothing there.
  pub go_to-Inv :
      (p : Pc) → ((x : ℕ) → (k.current == k.idle && waits p x) ≡ false) → Inv (go_to p k)
  go_to-Inv p w = record {
    listed = record {
      on_ready = v.listed.on_ready;
      on_waiters = λ x t. elim (Bool-cases (t == k.current)) [
        | inl e ↦
            rw (e, eq_of_== t k.current e, (running_only (k.status k.current) current_running).1)
              (current_elsewhere.1 x)
        | inr e ↦ rw e (v.listed.on_waiters x t)
      ];
      idle_waits = λ x. ground (arith, v.listed.idle_waits x, w x);
    };
    one_runs = v.one_runs;
  }

  pub go_free-Inv : (p : Pc) → ((x : ℕ) → waits p x ≡ false) → Inv (go_to p k)
  go_free-Inv p w = go_to-Inv p (λ x. rw (w x) (ground arith))

  -- A round of the loop of `sema_down`, by a thread whose place in the code waits for `s` alone and
  -- goes on at a place that waits for nothing, fails no ASSERT and keeps `Inv`, asleep or not: it
  -- sleeps on the list of `s` and another thread runs, or it takes the semaphore.
  pub sema_down_round-Inv :
      (s : ℕ) (next : Pc)
      → WaitsFor s k
      → ((x : ℕ) → waits next x ≡ false)
      → Yields (sema_down_round s next k) Inv
  unfolding sema_down_round
  sema_down_round-Inv s next w q = elim (Bool-cases (k.value s == 0)) [
    | inl e ↦ rw e (down_sleeps s w)
    | inr e ↦ rw e (repack (go_free-Inv next q))
  ]
    where
      repack :
          Inv (go_to next k)
          → Inv (go_to next (record k { value = update k.value s (k.value s - 1) }))
      repack i = record {
        listed = record {
          on_ready = i.listed.on_ready;
          on_waiters = i.listed.on_waiters;
          idle_waits = i.listed.idle_waits;
        };
        one_runs = i.one_runs;
      }
