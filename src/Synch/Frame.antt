-- ===== src/Synch/Frame.antt =====
-- synch.c: the steps of the kernel that leave the owner of a lock as it is.
use group.Base.{
  ℕ, ◌≡◌, refl, Bool, false, not, Option, some, List, ◌==◌, update, Allows, Allows-assert,
  Bool-cases, inl, inr, eq_of_==,
}
use group.Sched.{
  Tid, is_running, Pc, user, down, acquire, own, raise, Kernel, schedule, thread_schedule_tail,
  next_thread_to_run, thread_block, thread_yield, thread_exit,
}
use group.Synch.{go_to}
use group.Synch.Owner.{at_own, Exclusive, Exclusive-eq}

abbrev pub at_down : Pc → ℕ → Bool
at_down user l = false
at_down (down x) l = x == l
at_down (acquire x) l = false
at_down (own x) l = false
at_down (raise x) l = false

-- Lock `l` has at most one owner, and its semaphore is used inside lock functions only.
pub record Owned (l : ℕ) (k : Kernel) : Type 0 where
  pub exclusive : Exclusive (k.value l) (k.holder l) (λ t. at_own (k.pc t) l)
  pub no_down : (t : Tid) → at_down (k.pc t) l ≡ false

-- Scheduling leaves the semaphores' values, the holders and the places alone.
schedule-Owned : (l : ℕ) (k : Kernel) → Owned l k → Allows (schedule k) (Owned l)
unfolding schedule thread_schedule_tail
schedule-Owned l k o =
    Allows-assert (Owned l) (not (is_running (k.status k.current)))
      (let (next, rest) = next_thread_to_run k.idle k.ready_list in
        some (thread_schedule_tail k.current next (record k { ready_list = rest })))
      (λ _. record { exclusive = o.exclusive; no_down = o.no_down })

module _ (l : ℕ) (k : Kernel) (o : Owned l k) where
  pub yield-Owned : Allows (thread_yield k) (Owned l)
  unfolding thread_yield
  yield-Owned = schedule-Owned l _ (record { exclusive = o.exclusive; no_down = o.no_down })

  pub exit-Owned : Allows (thread_exit k) (Owned l)
  unfolding thread_exit
  exit-Owned = schedule-Owned l _ (record { exclusive = o.exclusive; no_down = o.no_down })

  pub block-Owned : (q : ℕ → List Tid) → Allows (thread_block (record k { waiters = q })) (Owned l)
  unfolding thread_block
  block-Owned q = schedule-Owned l _ (record { exclusive = o.exclusive; no_down = o.no_down })

-- The current thread goes on at `p`, the lock's value and holder being `v` and `h`.
pub go_to-Owned :
    (l : ℕ) (k : Kernel) (p : Pc)
    → Exclusive (k.value l) (k.holder l) (update (λ t. at_own (k.pc t) l) k.current (at_own p l))
    → ((t : Tid) → at_down (k.pc t) l ≡ false)
    → at_down p l ≡ false
    → Owned l (go_to p k)
go_to-Owned l k p x n d = record {
  exclusive = Exclusive-eq refl refl place x;
  no_down = λ t. elim (Bool-cases (t == k.current)) [ inl e ↦ rw e d | inr e ↦ rw e (n t) ];
}
  where
    place :
        (t : Tid)
        → update (λ u. at_own (k.pc u) l) k.current (at_own p l) t
          ≡ at_own (update k.pc k.current p t) l
    place t = elim (Bool-cases (t == k.current)) [ inl e ↦ rw e refl | inr e ↦ rw e refl ]

-- A move between places that own nothing of `l`.
pub move-Owned :
    (l : ℕ) (k : Kernel) (p : Pc)
    → Owned l k
    → at_own (k.pc k.current) l ≡ false
    → at_own p l ≡ false
    → at_down p l ≡ false
    → Owned l (go_to p k)
move-Owned l k p o c q d = go_to-Owned l k p (Exclusive-eq refl refl still o.exclusive) o.no_down d
  where
    still : (t : Tid) → at_own (k.pc t) l ≡ update (λ u. at_own (k.pc u) l) k.current (at_own p l) t
    still t = elim (Bool-cases (t == k.current)) [
      | inl e ↦ rw (e, eq_of_== t k.current e, q) c
      | inr e ↦ rw e refl
    ]

-- Another semaphore's value, another lock's holder.
pub other_value :
    (l x n : ℕ) (k : Kernel)
    → Owned l k
    → (l == x) ≡ false
    → Owned l (record k { value = update k.value x n })
other_value l x n k o e = record {
  exclusive = Exclusive-eq (rw e refl) refl (λ t. refl) o.exclusive;
  no_down = o.no_down;
}

pub other_holder :
    (l x : ℕ) (h : Option Tid) (k : Kernel)
    → Owned l k
    → (l == x) ≡ false
    → Owned l (record k { holder = update k.holder x h })
other_holder l x h k o e = record {
  exclusive = Exclusive-eq refl (rw e refl) (λ t. refl) o.exclusive;
  no_down = o.no_down;
}
