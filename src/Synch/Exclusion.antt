-- ===== src/Synch/Exclusion.antt =====
-- synch.c: the owner of a lock, over the steps of the kernel.
use group.Base.{
  ℕ, ◌≡◌, refl, sym, ◌∙◌, Bool, true, false, not, none, some, arith, ◌==◌, ltb, Allows_some,
  Allows-assert, Bool-cases, inl, inr, eq_of_==, ==_self,
}
use group.Sched.{Tid, user, down, acquire, own, Kernel, thread_block, thread_yield, thread_exit}
use group.Synch.{
  lock_init, sema_init, go_to, sema_down_round, sema_up, sema_try_down, lock_acquire,
  lock_try_acquire, lock_release, raise_lock, lock_held_by_current_thread,
}
use group.Synch.Owner.{at_own, has, Exclusive, Exclusive-eq}
use group.Synch.Frame.{
  at_down, Owned, yield-Owned, exit-Owned, block-Owned, move-Owned, other_value,
}
use group.Synch.Moves.{
  ==_comm, taken-Owned, round-Owned, try-Owned, hold-Owned, release-Owned, up-Owned, raise-Owned,
}
use group.Synch.Step.{
  Step, preempt, exit, sleep_idle, call_down, down_round, try_down, up, call_acquire, acquire_round,
  record_holder, try_acquire, release, raise_round, Reach, start, later,
}

clash : {b : Bool} → b ≡ true → b ≡ false → ⊥
clash p q = cc

-- The plain semaphores are no locks.
not_lock : (is_lock : ℕ → Bool) (l s : ℕ) → is_lock l ≡ true → is_lock s ≡ false → (l == s) ≡ false
not_lock is_lock l s p q = elim (Bool-cases (l == s)) [
  | inl e ↦ absurd (clash (rw (eq_of_== l s e) at p) q)
  | inr e ↦ e
]

Step-Owned :
    {is_lock : ℕ → Bool} (l : ℕ) {k k' : Kernel}
    → is_lock l ≡ true
    → Step is_lock k k'
    → Owned l k
    → Owned l k'
unfolding lock_acquire sema_try_down
Step-Owned l {k} q (preempt e) o = Allows_some (Owned l) (thread_yield k) (yield-Owned l k o) e
Step-Owned l {k} q (exit _ e) o = Allows_some (Owned l) (thread_exit k) (exit-Owned l k o) e
Step-Owned l {k} q (sleep_idle _ e) o =
    Allows_some (Owned l) (thread_block k) (block-Owned l k o k.waiters) e
Step-Owned {is_lock} l {k} q (call_down s _ n p) o =
    move-Owned l k (down s) o (rw p refl) refl (==_comm s l ∙ not_lock is_lock l s q n)
Step-Owned l {k} q (down_round s p e) o =
    let d : (s == l) ≡ false = rw p at (o.no_down k.current) in
    Allows_some (Owned l) (sema_down_round s user k)
      (round-Owned l k o s user
        (λ _. move-Owned l _ user (other_value l s _ k o (==_comm l s ∙ d)) (rw p refl) refl refl))
      e
Step-Owned {is_lock} l {k} q (try_down s n p) o = elim (Bool-cases (ltb 0 (k.value s))) [
  | inl e ↦ rw e (other_value l s _ k o (not_lock is_lock l s q n))
  | inr e ↦ rw e o
]
Step-Owned {is_lock} l {k} q (up s n p e) o =
    Allows_some (Owned l) (sema_up s k) (up-Owned l s k o (not_lock is_lock l s q n)) e
Step-Owned l {k} q (call_acquire x _ p e) o =
    Allows_some (Owned l) (lock_acquire x k)
      (Allows-assert (Owned l) (not (lock_held_by_current_thread x k)) (some (go_to (acquire x) k))
        (λ _. move-Owned l k (acquire x) o (rw p refl) refl refl))
      e
Step-Owned l {k} q (acquire_round x p e) o =
    Allows_some (Owned l) (sema_down_round x (own x) k)
      (round-Owned l k o x (own x) (taken-Owned l k o x (rw p refl))) e
Step-Owned l {k} q (record_holder x p) o = hold-Owned l k o x p
Step-Owned l {k} q (try_acquire x p e) o =
    Allows_some (λ r. Owned l r.0) (lock_try_acquire x k) (try-Owned l k o x (rw p refl)) e
Step-Owned l {k} q (release x p e) o =
    Allows_some (Owned l) (lock_release x k) (release-Owned l k o x p) e
Step-Owned l {k} q (raise_round x p e) o =
    Allows_some (Owned l) (raise_lock x k) (raise-Owned l x k o p) e

Reach-Owned :
    {is_lock : ℕ → Bool} (l : ℕ) {k₀ k : Kernel}
    → is_lock l ≡ true
    → Owned l k₀
    → Reach is_lock k₀ k
    → Owned l k
Reach-Owned l q o start = o
Reach-Owned l q o (later r s) = Step-Owned l q s (Reach-Owned l q o r)

lock_init-Owned :
    (l : ℕ) (k : Kernel)
    → ((t : Tid) → at_own (k.pc t) l ≡ false)
    → ((t : Tid) → at_down (k.pc t) l ≡ false)
    → Owned l (lock_init l k)
unfolding lock_init sema_init
lock_init-Owned l k a d = record {
  exclusive = Exclusive-eq (rw (==_self l) refl) (rw (==_self l) refl) (λ t. sym (a t)) fresh;
  no_down = d;
}
  where
    none_has : (t : Tid) → has none (λ t. false) t ≡ true → ⊥
    none_has t y = cc

    fresh : Exclusive 1 none (λ t. false)
    fresh = record {
      one = omega arith;
      taken = λ t y. absurd (none_has t y);
      unique = λ t u y z. absurd (none_has t y);
      handoff = λ t y. refl;
    }

-- Mutual exclusion. After `lock_init l`, in every state that the kernel reaches while only the lock
-- functions touch the lock's semaphore, at most one thread owns lock `l`, recorded as its holder or
-- not yet, and then the semaphore's value is 0. The initial state has no thread inside the functions
-- that take or raise the semaphore.
pub Reach-Exclusive :
    {is_lock : ℕ → Bool} (l : ℕ) (k₀ : Kernel) {k : Kernel}
    → is_lock l ≡ true
    → ((t : Tid) → at_own (k₀.pc t) l ≡ false)
    → ((t : Tid) → at_down (k₀.pc t) l ≡ false)
    → Reach is_lock (lock_init l k₀) k
    → Exclusive (k.value l) (k.holder l) (λ t. at_own (k.pc t) l)
Reach-Exclusive l k₀ q a d r = (Reach-Owned l q (lock_init-Owned l k₀ a d) r).exclusive
