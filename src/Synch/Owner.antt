-- ===== src/Synch/Owner.antt =====
-- synch.c: who owns a lock, by its semaphore's value, its `holder`, and the threads in between.
use group.Base.{
  ℕ, ◌+◌, ◌-◌, ◌≤◌, ◌≡◌, refl, sym, ◌∙◌, Bool, true, false, ◌||◌, Option, none, some, arith, ◌==◌,
  update, Bool-cases, inl, inr, eq_of_==, ne_of_==, ==_self,
}
use group.Sched.{Tid, Pc, user, down, acquire, own, raise}
use group.Synch.{is_tid}

-- A thread has the semaphore of lock `l` while the holder is not recorded: before `set_holder`, and
-- in `lock_release` before its `sema_up`.
abbrev pub at_own : Pc → ℕ → Bool
at_own user l = false
at_own (down x) l = false
at_own (acquire x) l = false
at_own (own x) l = x == l
at_own (raise x) l = x == l

abbrev pub has : Option Tid → (Tid → Bool) → Tid → Bool
has h a t = a t || is_tid t h

-- The state of a lock: the value `v` of its semaphore, its holder `h`, the threads `a` at `own`.
pub record Exclusive (v : ℕ) (h : Option Tid) (a : Tid → Bool) : Type 0 where
  pub one : v ≤ 1
  pub taken : (t : Tid) → has h a t ≡ true → v ≡ 0
  pub unique : (t u : Tid) → has h a t ≡ true → has h a u ≡ true → t ≡ u
  pub handoff : (t : Tid) → a t ≡ true → h ≡ none

or_false : (b : Bool) → (b || false) ≡ true → b ≡ true
or_false true h = refl
or_false false h = h

pub Exclusive-eq :
    {v w : ℕ} {h g : Option Tid} {a b : Tid → Bool}
    → v ≡ w
    → h ≡ g
    → ((t : Tid) → a t ≡ b t)
    → Exclusive v h a
    → Exclusive w g b
Exclusive-eq {v} {w} {h} {g} {a} {b} p q r x = record {
  one = omega (arith, x.one);
  taken = λ t y. sym p ∙ x.taken t (rw (q, r t) y);
  unique = λ t u y z. x.unique t u (rw (q, r t) y) (rw (q, r u) z);
  handoff = λ t y. sym q ∙ x.handoff t (r t ∙ y);
}

module _ {v : ℕ} {h : Option Tid} {a : Tid → Bool} (x : Exclusive v h a) (c : Tid) where
  -- `sema_down` or `sema_try_down` succeeds.
  pub Exclusive-take : (v == 0) ≡ false → Exclusive (v - 1) h (update a c true)
  Exclusive-take nz = record {
    one = omega (arith, x.one);
    taken = λ t y. omega (arith, x.one);
    unique = λ t u y z. mine t y ∙ sym (mine u z);
    handoff = λ t y. free h refl;
  }
    where
      free : (g : Option Tid) → h ≡ g → h ≡ none
      free none e = e
      free (some u) e = absurd (ne_of_== v 0 nz (x.taken u (rw (e, ==_self u) (ground arith))))

      mine : (t : Tid) → has h (update a c true) t ≡ true → t ≡ c
      mine t y = elim (Bool-cases (t == c)) [
        | inl e ↦ eq_of_== t c e
        | inr e ↦ let z = rw e at y in absurd (ne_of_== v 0 nz (x.taken t z))
      ]

  -- The holder is recorded.
  pub Exclusive-hold : a c ≡ true → Exclusive v (some c) (update a c false)
  Exclusive-hold q = record {
    one = x.one;
    taken = λ t y. x.taken c (owns c q);
    unique = λ t u y z. mine t y ∙ sym (mine u z);
    handoff = λ t y. absurd (away t y);
  }
    where
      owns : (t : Tid) → a t ≡ true → has h a t ≡ true
      owns t e = rw e refl

      away : (t : Tid) → update a c false t ≡ true → ⊥
      away t y = elim (Bool-cases (t == c)) [
        | inl e ↦ let z = rw e at y in cc
        | inr e ↦ let z = rw e at y in ne_of_== t c e (x.unique t c (owns t z) (owns c q))
      ]

      mine : (t : Tid) → has (some c) (update a c false) t ≡ true → t ≡ c
      mine t y = elim (Bool-cases (update a c false t)) [
        | inl e ↦ absurd (away t e)
        | inr e ↦ let z = rw e at y in sym (eq_of_== c t z)
      ]

  -- The holder is cleared.
  pub Exclusive-clear : is_tid c h ≡ true → Exclusive v none (update a c true)
  Exclusive-clear q = record {
    one = x.one;
    taken = λ t y. x.taken c own_c;
    unique = λ t u y z. mine t y ∙ sym (mine u z);
    handoff = λ t y. refl;
  }
    where
      own_c : has h a c ≡ true
      own_c = rw q (ground arith)

      mine : (t : Tid) → has none (update a c true) t ≡ true → t ≡ c
      mine t y = elim (Bool-cases (t == c)) [
        | inl e ↦ eq_of_== t c e
        | inr e ↦ let z : a t ≡ true = or_false (a t) (rw e at y) in x.unique t c (rw z refl) own_c
      ]

  -- The semaphore is raised.
  pub Exclusive-raise : a c ≡ true → Exclusive (v + 1) h (update a c false)
  Exclusive-raise q = record {
    one = omega (arith, x.taken c (rw q refl));
    taken = λ t y. absurd (nobody t y);
    unique = λ t u y z. absurd (nobody t y);
    handoff = λ t y. x.handoff c q;
  }
    where
      nobody : (t : Tid) → has h (update a c false) t ≡ true → ⊥
      nobody t y = elim (Bool-cases (t == c)) [
        | inl e ↦ let z = rw (e, x.handoff c q) at y in cc
        | inr e ↦ let z = rw e at y in ne_of_== t c e (x.unique t c z (rw q refl))
      ]
