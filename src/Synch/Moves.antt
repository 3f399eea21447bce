-- ===== src/Synch/Moves.antt =====
-- synch.c: the lock operations, and the owner of a lock.
use group.Base.{
  ◌^◌, ◌%◌, ℕ, ◌+◌, ◌-◌, ◌≡◌, refl, sym, ap, subst, ◌∙◌, false, not, none, some, List, [], ◌∷◌,
  ◌++◌, arith, ◌==◌, ltb, update, Allows, Allows-bind, Allows-assert, Bool-cases, inl, inr,
  eq_of_==, ==_self,
}
use group.Sched.{Tid, ready, is_blocked, Pc, user, own, raise, Kernel, thread_unblock}
use group.Synch.{
  go_to, sema_down_round, sema_up, wake, set_holder, sema_try_down, lock_try_acquire, after_try,
  lock_release, raise_lock, lock_held_by_current_thread,
}
use group.Synch.Owner.{
  at_own, Exclusive-eq, Exclusive-take, Exclusive-hold, Exclusive-clear, Exclusive-raise,
}
use group.Synch.Frame.{
  at_down, Owned, block-Owned, go_to-Owned, move-Owned, other_value, other_holder,
}

pub ==_comm : (a b : ℕ) → (a == b) ≡ (b == a)
==_comm a b = ground arith

-- What holds of `l` itself and of every other number holds of `x`.
by_number : (P : ℕ → Type 0) (l x : ℕ) → P l → ((x == l) ≡ false → P x) → P x
by_number P l x same other = elim (Bool-cases (x == l)) [
  | inl e ↦ subst P (sym (eq_of_== x l e)) same
  | inr e ↦ other e
]

module _ (l : ℕ) (k : Kernel) (o : Owned l k) where
  -- The semaphore of lock `x` is taken.
  pub taken-Owned :
      (x : ℕ)
      → at_own (k.pc k.current) l ≡ false
      → (k.value x == 0) ≡ false
      → Owned l (go_to (own x) (record k { value = update k.value x (k.value x - 1) }))
  taken-Owned x c =
      by_number
        (λ x.
          (k.value x == 0) ≡ false
          → Owned l (go_to (own x) (record k { value = update k.value x (k.value x - 1) })))
        l x
        (λ nz.
          go_to-Owned l _ (own l)
            (Exclusive-eq (rw (==_self l) refl) refl (λ t. rw (==_self l) refl)
              (Exclusive-take o.exclusive k.current nz))
            o.no_down refl)
        (λ e nz. move-Owned l _ (own x) (other_value l x _ k o (==_comm l x ∙ e)) c e refl)

  -- A round of a loop that takes semaphore `s` at the place `next`.
  pub round-Owned :
      (s : ℕ) (next : Pc)
      → ((k.value s == 0) ≡ false
          → Owned l (go_to next (record k { value = update k.value s (k.value s - 1) })))
      → Allows (sema_down_round s next k) (Owned l)
  unfolding sema_down_round
  round-Owned s next h = elim (Bool-cases (k.value s == 0)) [
    | inl e ↦ rw e (block-Owned l k o _)
    | inr e ↦ rw e (h e)
  ]

  pub try-Owned :
      (x : ℕ) → at_own (k.pc k.current) l ≡ false → Allows (lock_try_acquire x k) (λ r. Owned l r.0)
  unfolding lock_try_acquire after_try sema_try_down
  try-Owned x c =
      Allows-assert (λ r. Owned l r.0) (not (lock_held_by_current_thread x k))
        (some (after_try x (sema_try_down x k)))
        (λ _. elim (Bool-cases (ltb 0 (k.value x))) [
          | inl e ↦ rw e (taken-Owned x c (ground (arith, e)))
          | inr e ↦ rw e o
        ])

  pub hold-Owned : (x : ℕ) → k.pc k.current ≡ own x → Owned l (set_holder x k)
  unfolding set_holder
  hold-Owned x =
      by_number (λ x. k.pc k.current ≡ own x → Owned l (set_holder x k)) l x
        (λ p.
          go_to-Owned l _ user
            (Exclusive-eq refl (rw (==_self l) refl) (λ t. refl)
              (Exclusive-hold o.exclusive k.current (rw p (==_self l))))
            o.no_down refl)
        (λ e p. move-Owned l _ user (other_holder l x _ k o (==_comm l x ∙ e)) (rw p e) refl refl)

  pub release-Owned : (x : ℕ) → k.pc k.current ≡ user → Allows (lock_release x k) (Owned l)
  unfolding lock_release lock_held_by_current_thread
  release-Owned x p =
      by_number (λ x. Allows (lock_release x k) (Owned l)) l x
        (Allows-assert (Owned l) (lock_held_by_current_thread l k)
          (some (go_to (raise l) (record k { holder = update k.holder l none })))
          (λ h.
            go_to-Owned l _ (raise l)
              (Exclusive-eq refl (rw (==_self l) refl) (λ t. rw (==_self l) refl)
                (Exclusive-clear o.exclusive k.current h))
              o.no_down refl))
        (λ e.
          Allows-assert (Owned l) (lock_held_by_current_thread x k)
            (some (go_to (raise x) (record k { holder = update k.holder x none })))
            (λ h.
              move-Owned l _ (raise x) (other_holder l x none k o (==_comm l x ∙ e)) (rw p refl) e
                refl))

-- What `sema_up` leaves alone.
record Woken (k k' : Kernel) : Type 0 where
  value : k'.value ≡ k.value
  holder : k'.holder ≡ k.holder
  pc : k'.pc ≡ k.pc
  current : k'.current ≡ k.current

wake-Woken : (s : ℕ) (q : List Tid) (k : Kernel) → Allows (wake s q k) (Woken k)
unfolding wake thread_unblock
wake-Woken s [] k = record { value = refl; holder = refl; pc = refl; current = refl }
wake-Woken s (t ∷ ts) k =
    Allows-assert (Woken k) (is_blocked (k.status t))
      (some (record k {
        waiters = update k.waiters s ts;
        ready_list = k.ready_list ++ t ∷ [];
        status = update k.status t ready;
      }))
      (λ _. record { value = refl; holder = refl; pc = refl; current = refl })

same-Owned : (l : ℕ) {k k' : Kernel} → Woken k k' → Owned l k → Owned l k'
same-Owned l w o = record {
  exclusive =
      Exclusive-eq (ap (λ f. f l) (sym w.value)) (ap (λ f. f l) (sym w.holder))
        (λ t. ap (λ f. at_own (f t) l) (sym w.pc)) o.exclusive;
  no_down = λ t. ap (λ f. at_down (f t) l) w.pc ∙ o.no_down t;
}

pub up-Owned :
    (l s : ℕ) (k : Kernel) → Owned l k → (l == s) ≡ false → Allows (sema_up s k) (Owned l)
unfolding sema_up
up-Owned l s k o e =
    Allows-bind (Woken k) (Owned l) (wake s (k.waiters s) k)
      (λ k'. some (record k' { value = update k'.value s ((k'.value s + 1) % 2 ^ 32) }))
      (wake-Woken s (k.waiters s) k) (λ k' w. other_value l s _ k' (same-Owned l w o) e)

raised : ℕ → Kernel → Kernel
raised x k = go_to user (record k { value = update k.value x ((k.value x + 1) % 2 ^ 32) })

raised-Owned : (l x : ℕ) (k : Kernel) → Owned l k → k.pc k.current ≡ raise x → Owned l (raised x k)
unfolding raised
raised-Owned l x k o =
    by_number (λ x. k.pc k.current ≡ raise x → Owned l (raised x k)) l x
      (λ p.
        go_to-Owned l _ user
          (Exclusive-eq (rw (==_self l) (omega (arith, o.exclusive.one))) refl (λ t. refl)
            (Exclusive-raise o.exclusive k.current (rw p (==_self l))))
          o.no_down refl)
      (λ e p. move-Owned l _ user (other_value l x _ k o (==_comm l x ∙ e)) (rw p e) refl refl)

pub raise-Owned :
    (l x : ℕ) (k : Kernel)
    → Owned l k
    → k.pc k.current ≡ raise x
    → Allows (raise_lock x k) (Owned l)
unfolding raise_lock sema_up raised
raise-Owned l x k o p =
    Allows-bind (λ k'. Owned l (go_to user k')) (Owned l) (sema_up x k) (λ k'. some (go_to user k'))
      (Allows-bind (Woken k) (λ k'. Owned l (go_to user k')) (wake x (k.waiters x) k)
        (λ k'. some (record k' { value = update k'.value x ((k'.value x + 1) % 2 ^ 32) }))
        (wake-Woken x (k.waiters x) k)
        (λ k' w. raised-Owned l x k' (same-Owned l w o) (place k' w)))
      (λ k' h. h)
  where
    place : (k' : Kernel) → Woken k k' → k'.pc k'.current ≡ raise x
    place k' w = rw (w.pc, w.current) p
