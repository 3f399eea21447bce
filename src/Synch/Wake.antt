-- ===== src/Synch/Wake.antt =====
-- synch.c and thread.c: the lists of threads over `sema_up`, `thread_yield` and `thread_exit`.
use group.Base.{
  ◌^◌, ◌%◌, ℕ, ◌+◌, ◌≡◌, refl, sym, ◌∙◌, Bool, true, false, not, ◌&&◌, some, List, [], ◌∷◌, ◌++◌,
  arith, ◌==◌, if◌then◌else◌, update, Yields, ◌>>=◌, Bool-cases, inl, inr, eq_of_==, ne_of_==,
  ==_self,
}
use group.Sched.{
  Tid, Status, running, ready, blocked, dying, is_running, is_ready, is_blocked, Pc, user, down,
  acquire, own, raise, Kernel, thread_unblock, thread_yield, thread_exit,
}
use group.Sched.Inv.{count, count-append, waits, one_if, Inv, schedule-Inv}
use group.Synch.{sema_up, wake}
use group.Synch.Lists.{current_elsewhere}

pub waits_one : (p : Pc) (x y : ℕ) → waits p x ≡ true → waits p y ≡ true → x ≡ y
waits_one user x y h q = absurd cc
waits_one (down a) x y h q = omega (arith, eq_of_== a x h, eq_of_== a y q)
waits_one (acquire a) x y h q = omega (arith, eq_of_== a x h, eq_of_== a y q)
waits_one (own a) x y h q = absurd cc
waits_one (raise a) x y h q = absurd cc

blocked_only : (s : Status) → is_blocked s ≡ true → (is_ready s ≡ false) × (is_running s ≡ false)
blocked_only blocked h = (refl, refl)
blocked_only ready h = cc
blocked_only running h = cc
blocked_only dying h = cc

abbrev pub popped : ℕ → List Tid → Kernel → Kernel
popped s rest k = record k { waiters = update k.waiters s rest }

abbrev pub woken : ℕ → Tid → List Tid → Kernel → Kernel
woken s t rest k = record (popped s rest k) {
  ready_list = k.ready_list ++ t ∷ [];
  status = update k.status t ready;
}

module _ (k : Kernel) (v : Inv k) (s : ℕ) (t : Tid) (rest : List Tid)
    (front : k.waiters s ≡ t ∷ rest) where
  front_waits : (is_blocked (k.status t) && waits (k.pc t) s) ≡ true
  unfolding count
  front_waits = let h = rw (front, ==_self t) at (v.listed.on_waiters s t) in ground (arith, h)

  front_blocked : is_blocked (k.status t) ≡ true
  front_blocked = ground (arith, front_waits)

  front_at : waits (k.pc t) s ≡ true
  front_at = ground (arith, front_waits)

  front_not_idle : (t == k.idle) ≡ false
  front_not_idle = elim (Bool-cases (t == k.idle)) [
    | inl e ↦ absurd (clash (rw (eq_of_== t k.idle e) at front_at) (v.listed.idle_waits s))
    | inr e ↦ e
  ]
    where
      clash : {b : Bool} → b ≡ true → b ≡ false → ⊥
      clash p q = cc

  once :
      (u : Tid)
      → count u rest ≡ (if u == t then 0 else one_if (is_blocked (k.status u) && waits (k.pc u) s))
  unfolding count
  once u = elim (Bool-cases (u == t)) [
    | inl e ↦
        let h =
          rw (front, e, eq_of_== u t e, front_blocked, front_at) at (v.listed.on_waiters s u) in
        rw e (omega (arith, h))
    | inr e ↦ let h = rw (front, e) at (v.listed.on_waiters s u) in rw e (omega (arith, h))
  ]

  on_ready_after :
      (u : Tid)
      → count u (k.ready_list ++ t ∷ [])
        ≡ one_if (is_ready (update k.status t ready u) && not (u == k.idle))
  unfolding count
  on_ready_after u = rw (count-append u k.ready_list (t ∷ [])) (elim (Bool-cases (u == t)) [
    | inl e ↦
        let same_t = eq_of_== u t e in
        let h : count t k.ready_list ≡ 0 =
          v.listed.on_ready t ∙ rw ((blocked_only (k.status t) front_blocked).0) refl in
        rw (e, same_t, front_not_idle) (omega (arith, h))
    | inr e ↦ rw e (omega (arith, v.listed.on_ready u))
  ])

  on_waiters_after :
      (x : ℕ) (u : Tid)
      → count u (update k.waiters s rest x)
        ≡ one_if (is_blocked (update k.status t ready u) && waits (k.pc u) x)
  on_waiters_after x u = elim (Bool-cases (x == s)) [
    | inl q ↦
        rw (q, eq_of_== x s q)
          (once u ∙ (elim (Bool-cases (u == t)) [ inl e ↦ rw e refl | inr e ↦ rw e refl ]))
    | inr q ↦ rw q (elim (Bool-cases (u == t)) [
      | inl e ↦
          rw (e, eq_of_== u t e) (v.listed.on_waiters x t ∙ rw (front_blocked, elsewhere x q) refl)
      | inr e ↦ rw e (v.listed.on_waiters x u)
    ])
  ]
    where
      elsewhere : (x : ℕ) → (x == s) ≡ false → waits (k.pc t) x ≡ false
      elsewhere x q = elim (Bool-cases (waits (k.pc t) x)) [
        | inl w ↦ absurd (ne_of_== x s q (waits_one (k.pc t) x s w front_at))
        | inr w ↦ w
      ]

  woken-Inv : Inv (woken s t rest k)
  woken-Inv = record {
    listed = record {
      on_ready = on_ready_after;
      on_waiters = on_waiters_after;
      idle_waits = v.listed.idle_waits;
    };
    one_runs = λ u. elim (Bool-cases (u == t)) [
      | inl e ↦
          rw (e, eq_of_== u t e) (sym (blocked_only (k.status t) front_blocked).1 ∙ v.one_runs t)
      | inr e ↦ rw e (v.one_runs u)
    ];
  }

pub value-Inv : (s n : ℕ) (k : Kernel) → Inv k → Inv (record k { value = update k.value s n })
value-Inv s n k i = record {
  listed = record {
    on_ready = i.listed.on_ready;
    on_waiters = i.listed.on_waiters;
    idle_waits = i.listed.idle_waits;
  };
  one_runs = i.one_runs;
}

-- `sema_up` adds one to the value, an `unsigned`; the first waiter, if there is one, goes to the end of the ready list.
pub Raises : ℕ → Kernel → List Tid → Kernel → Type 0
Raises s k [] k' = k' ≡ record k { value = update k.value s ((k.value s + 1) % 2 ^ 32) }
Raises s k (t ∷ ts) k' =
    k' ≡ record (woken s t ts k) { value = update k.value s ((k.value s + 1) % 2 ^ 32) }

-- From a state that satisfies `Inv`, `sema_up` fails no ASSERT: it adds one to the value modulo
-- 2 ^ 32, wakes the first waiter if there is one and no other thread, and keeps `Inv`.
pub sema_up-Raises :
    (s : ℕ) (k : Kernel) → Inv k → Yields (sema_up s k) (λ k'. Raises s k (k.waiters s) k' × Inv k')
unfolding sema_up wake Raises thread_unblock
sema_up-Raises s k v = go (k.waiters s) refl
  where
    go :
        (q : List Tid)
        → k.waiters s ≡ q
        → Yields
            (do
              k' ← wake s q k
              some (record k' { value = update k'.value s ((k'.value s + 1) % 2 ^ 32) }))
            (λ k'. Raises s k q k' × Inv k')
    go [] e = (refl, value-Inv s ((k.value s + 1) % 2 ^ 32) k v)
    go (t ∷ ts) e =
        rw (front_blocked k v s t ts e)
          (refl, value-Inv s ((k.value s + 1) % 2 ^ 32) (woken s t ts k) (woken-Inv k v s t ts e))

-- `thread_yield` fails no ASSERT and keeps `Inv`: the current thread goes to the ready list, unless
-- it is the idle thread, and the thread that is picked leaves it.
pub thread_yield-Inv : (k : Kernel) → Inv k → Yields (thread_yield k) Inv
unfolding thread_yield count
thread_yield-Inv k v = schedule-Inv _ (record {
  listed = record {
    on_ready = λ t. queued (k.current == k.idle) refl t;
    on_waiters = λ s t. elim (Bool-cases (t == k.current)) [
      | inl e ↦ rw (e, eq_of_== t k.current e) ((current_elsewhere k v).1 s)
      | inr e ↦ rw e (v.listed.on_waiters s t)
    ];
    idle_waits = v.listed.idle_waits;
  };
  none_runs = λ t. ground (arith, v.one_runs t);
})
  where
    queued :
        (b : Bool)
        → (k.current == k.idle) ≡ b
        → (t : Tid)
        → count t (if b then k.ready_list else k.ready_list ++ k.current ∷ [])
          ≡ one_if (is_ready (update k.status k.current ready t) && not (t == k.idle))
    queued true q t = elim (Bool-cases (t == k.current)) [
      | inl e ↦ rw (e, eq_of_== t k.current e, q) ((current_elsewhere k v).0)
      | inr e ↦ rw e (v.listed.on_ready t)
    ]
    queued false q t =
        rw (count-append t k.ready_list (k.current ∷ [])) (elim (Bool-cases (t == k.current)) [
          | inl e ↦ rw (e, eq_of_== t k.current e, q, (current_elsewhere k v).0) refl
          | inr e ↦ rw e (omega (arith, v.listed.on_ready t))
        ])

-- The end of `thread_exit`, by another thread than the idle one, fails no ASSERT and keeps `Inv`:
-- the dying thread stands on no list.
pub thread_exit-Inv :
    (k : Kernel) → Inv k → (k.current == k.idle) ≡ false → Yields (thread_exit k) Inv
unfolding thread_exit
thread_exit-Inv k v q = schedule-Inv _ (record {
  listed = record {
    on_ready = λ t. elim (Bool-cases (t == k.current)) [
      | inl e ↦ rw (e, eq_of_== t k.current e) ((current_elsewhere k v).0)
      | inr e ↦ rw e (v.listed.on_ready t)
    ];
    on_waiters = λ s t. elim (Bool-cases (t == k.current)) [
      | inl e ↦ rw (e, eq_of_== t k.current e) ((current_elsewhere k v).1 s)
      | inr e ↦ rw e (v.listed.on_waiters s t)
    ];
    idle_waits = v.listed.idle_waits;
  };
  none_runs = λ t. ground (arith, v.one_runs t);
})
