-- ===== src/Process/Tally.antt =====
-- Who holds a wait status: what each process counts for, and the sums over the processes.
use group.Base.{
  ℕ, ◌+◌, ◌-◌, ◌≤◌, ◌≡◌, refl, true, false, Option, none, some, List, [], ◌∷◌, ◌++◌, ◌==◌,
  if◌then◌else◌, arith, Bool-cases, inl, inr, eq_of_==,
}
use group.Process.{WaitStatus, Thread, Place, running, waiting, collecting, exiting, dying}

unfoldable pub hit : ℕ → ℕ → ℕ
hit a b = if a == b then 1 else 0

pub hit_same : (a b : ℕ) → (a == b) ≡ true → hit a b ≡ 1
unfolding hit
hit_same a b e = rw e refl

pub hit_other : (a b : ℕ) → (a == b) ≡ false → hit a b ≡ 0
unfolding hit
hit_other a b e = rw e refl

-- A process's own wait status; the initial thread has none.
abbrev pub hit_own : ℕ → Option ℕ → ℕ
hit_own a none = 0
hit_own a (some b) = hit a b

unfoldable pub times : ℕ → List ℕ → ℕ
times a [] = 0
times a (b ∷ bs) = hit a b + times a bs

pub hit-times : (a b : ℕ) (bs : List ℕ) → 1 ≤ times b bs → hit a b ≤ times a bs
hit-times a b bs le = elim (Bool-cases (a == b)) [
  | inl e ↦ rw (hit_same a b e, eq_of_== a b e) le
  | inr e ↦ rw (hit_other a b e) (omega arith)
]

-- The process has the wait status on its list; as its own, while it is not dying.
abbrev pub listed : ℕ → Thread → ℕ
listed a t = times a t.children

unfoldable pub owns : ℕ → Place → Option ℕ → ℕ
owns a dying own = 0
owns a running own = hit_own a own
owns a (waiting b) own = hit_own a own
owns a (collecting b) own = hit_own a own
owns a exiting own = hit_own a own

-- It owns the wait status and has not yet raised its semaphore.
unfoldable pub unsignalled : ℕ → Place → Option ℕ → ℕ
unsignalled a dying own = 0
unsignalled a exiting own = 0
unsignalled a running own = hit_own a own
unsignalled a (waiting b) own = hit_own a own
unsignalled a (collecting b) own = hit_own a own

-- It stands behind the `sema_down`, and anywhere in `process_wait`.
unfoldable pub collects : ℕ → Place → ℕ
collects a (collecting b) = hit a b
collects a running = 0
collects a (waiting b) = 0
collects a exiting = 0
collects a dying = 0

unfoldable pub busy : ℕ → Place → ℕ
busy a (collecting b) = hit a b
busy a (waiting b) = hit a b
busy a running = 0
busy a exiting = 0
busy a dying = 0

unfoldable pub total : (Thread → ℕ) → List Thread → ℕ
total f [] = 0
total f (t ∷ ts) = f t + total f ts

pub total-middle :
    (f : Thread → ℕ) (before after : List Thread) (t : Thread)
    → total f (before ++ t ∷ after) ≡ f t + total f (before ++ after)
unfolding total
total-middle f [] after t = refl
total-middle f (s ∷ before) after t = let ih = total-middle f before after t in omega arith

pub total_mono :
    (f g : Thread → ℕ) → ((t : Thread) → f t ≤ g t) → (ts : List Thread) → total f ts ≤ total g ts
unfolding total
total_mono f g h [] = omega arith
total_mono f g h (t ∷ ts) = let ih = total_mono f g h ts in let now = h t in omega arith

-- It is behind `process_exit` without a wait status.
unfoldable pub ownless : Place → Option ℕ → ℕ
ownless exiting none = 1
ownless exiting (some own) = 0
ownless dying own = 0
ownless running own = 0
ownless (waiting b) own = 0
ownless (collecting b) own = 0

-- When this sum is 0, a process that is in `process_wait` has the wait status on its list, and one behind
-- `process_exit` has a wait status.
abbrev pub stray : ℕ → Thread → ℕ
stray a t = busy a t.place - listed a t + ownless t.place t.o_wait_status

pub total-stray :
    (a : ℕ) (ts : List Thread)
    → total (λ t. busy a t.place) ts ≤ total (listed a) ts + total (stray a) ts
unfolding total
total-stray a [] = omega arith
total-stray a (t ∷ ts) = let ih = total-stray a ts in omega arith

pub collects-busy : (a : ℕ) (p : Place) → collects a p ≤ busy a p
unfolding collects busy
collects-busy a (collecting b) = omega arith
collects-busy a (waiting b) = omega arith
collects-busy a running = omega arith
collects-busy a exiting = omega arith
collects-busy a dying = omega arith

pub unsignalled-owns : (a : ℕ) (p : Place) (own : Option ℕ) → unsignalled a p own ≤ owns a p own
unfolding unsignalled owns
unsignalled-owns a (collecting b) own = omega arith
unsignalled-owns a (waiting b) own = omega arith
unsignalled-owns a running own = omega arith
unsignalled-owns a exiting own = omega arith
unsignalled-owns a dying own = omega arith

abbrev pub refs : Option WaitStatus → ℕ
refs none = 0
refs (some w) = w.o_reference_count

abbrev pub raised : Option WaitStatus → ℕ
raised none = 0
raised (some w) = w.o_sem_exited

-- The numbers of one wait status: its count and semaphore, and the sums of `listed`, `owns`,
-- `collects`, `unsignalled` and `stray`.
pub record Balanced (refs raised listed owns collects unsignalled stray : ℕ) : Type 0 where
  pub counted : refs ≡ listed + owns
  pub one_parent : listed ≤ 1
  pub one_owner : owns ≤ 1
  pub pending : listed ≤ raised + collects + unsignalled
  pub once : raised + collects + unsignalled ≤ 1
  pub placed : stray ≡ 0

abbrev pub Settled : List Thread → ℕ → Option WaitStatus → Type 0
Settled ts a cell =
    Balanced (refs cell) (raised cell) (total (listed a) ts)
      (total (λ t. owns a t.place t.o_wait_status) ts) (total (λ t. collects a t.place) ts)
      (total (λ t. unsignalled a t.place t.o_wait_status) ts) (total (stray a) ts)
