-- ===== src/Process/Progress.antt =====
-- One step of a process between the others: it ends, and keeps what holds of the wait statuses.
use group.Base.{
  ℕ, ◌≡◌, refl, ap, sym, ◌∙◌, Option, none, some, List, Yields, Yields_some, Yields-mono, subst,
}
use group.Process.{
  Thread, Heap, Place, running, waiting, collecting, exiting, dying, thread_create, set_exit_code,
  kill, process_exit, thread_exit, process_wait, wait_down, wait_collect,
}
use group.Process.Step.{
  System, system, born, Step, create, record_code, killed, leave, exit, wait, down, collect,
}
use group.Process.Inv.{Inv, set_exit_code-Inv, kill-Inv, process_exit-Inv}
use group.Process.Waits.{thread_exit-Inv, process_wait-Inv, wait_down-Inv}
use group.Process.Collect.{wait_collect-Collected, Collected}
use group.Process.Births.{thread_create-Inv}

abbrev pub Goes : {A : Type 0} → Option A → Type 0
Goes o = Yields o (λ a. Unit)

goes : {A : Type 0} (P : A → Type 0) (o : Option A) → Yields o P → Goes o
goes P o h = Yields-mono P (λ a. Unit) o h (λ a p. tt)

-- The exits of a process that runs use its own wait status: the initial thread, which has none, faults.
abbrev pub Exits : Option ℕ → Thread → Heap → Type 0
Exits none t heap =
    ((code : ℕ) → set_exit_code code t heap ≡ none)
    × ((kill t heap ≡ none) × (process_exit t heap ≡ none))
Exits (some own) t heap =
    ((code : ℕ) → Goes (set_exit_code code t heap))
    × (Goes (kill t heap) × Goes (process_exit t heap))

-- What a process may do in its place; a wait status that is freed would be a fault.
abbrev pub Usable : Place → Thread → Heap → Type 0
Usable running t heap = Exits t.o_wait_status t heap × ((tid : ℕ) → Goes (process_wait tid t heap))
Usable (waiting ws) t heap = Goes (wait_down ws t heap)
Usable (collecting ws) t heap = Goes (wait_collect ws t heap)
Usable exiting t heap = Goes (thread_exit t heap)
Usable dying t heap = Unit

-- Without a wait status the operation is a fault, with one it goes through.
abbrev Ends : {A : Type 0} → Option ℕ → Option A → (A → Type 0) → Type 0
Ends none o P = o ≡ none
Ends (some own) o P = Yields o P

Ends_some :
    {A : Type 0} (own : Option ℕ) (P : A → Type 0) (o : Option A) {a : A}
    → Ends own o P
    → o ≡ some a
    → P a
Ends_some none P o h e = absurd (clash (sym h ∙ e))
  where
    clash : {A : Type 0} {a : A} → none ≡ some a → ⊥
    clash q = cc
Ends_some (some own) P o h e = Yields_some P o h e

module _ (before after : List Thread) (heap : Heap) where
  abbrev pub With : Thread → Type 0
  With t = Inv (system before after (t, heap))

  -- A thread in a known place.
  placed :
      {A : Type 0} (t : Thread) (q : Place) (op : Thread → Option A) (P : Thread → A → Type 0)
      → (With (record t { place = q })
          → Yields (op (record t { place = q })) (P (record t { place = q })))
      → t.place ≡ q
      → With t
      → Yields (op t) (P t)
  placed t q op P h e =
      subst (λ t. With t → Yields (op t) (P t)) (ap (λ q. record t { place = q }) (sym e)) h

  module _ (t : Thread) where
    abbrev Next : Thread × Heap → Type 0
    Next r = Inv (system before after r)

    created :
        (tid a : ℕ)
        → heap a ≡ none
        → t.place ≡ running
        → With t
        → Yields (thread_create tid a t heap) (λ r. Inv (born before after r))
    created tid a free =
        placed t running (λ t. thread_create tid a t heap) (λ t r. Inv (born before after r))
          (thread_create-Inv before after tid a t heap free)

    -- A step of a process that runs and has this wait status.
    owned :
        {A : Type 0} (own : Option ℕ) (op : Thread → Option A) (P : Thread → A → Type 0)
        → ((b : ℕ)
            → With (record t { o_wait_status = some b; place = running })
            → Yields
                (op (record t { o_wait_status = some b; place = running }))
                (P (record t { o_wait_status = some b; place = running })))
        → (op (record t { o_wait_status = none; place = running }) ≡ none)
        → t.place ≡ running
        → t.o_wait_status ≡ own
        → With t
        → Ends own (op t) (P t)
    owned own op P go stop e o =
        subst (λ t. With t → Ends own (op t) (P t)) (ap (λ q. record t { place = q }) (sym e))
          (subst
            (λ w.
              With (record t { o_wait_status = w; place = running })
              → Ends own (op (record t { o_wait_status = w; place = running }))
                  (P (record t { o_wait_status = w; place = running })))
            (sym o) (known own))
      where
        known :
            (own : Option ℕ)
            → With (record t { o_wait_status = own; place = running })
            → Ends own
                (op (record t { o_wait_status = own; place = running }))
                (P (record t { o_wait_status = own; place = running }))
        known none i = stop
        known (some b) i = go b i

    coded :
        (own : Option ℕ) (code : ℕ)
        → t.place ≡ running
        → t.o_wait_status ≡ own
        → With t
        → Ends own (set_exit_code code t heap) (λ heap. Next (t, heap))
    unfolding set_exit_code
    coded own code =
        owned own (λ t. set_exit_code code t heap) (λ t heap. Next (t, heap))
          (λ b i. set_exit_code-Inv before after t heap b i code) refl

    marked :
        (own : Option ℕ)
        → t.place ≡ running
        → t.o_wait_status ≡ own
        → With t
        → Ends own (kill t heap) (λ heap. Next (t, heap))
    unfolding kill
    marked own =
        owned own (λ t. kill t heap) (λ t heap. Next (t, heap))
          (λ b i. kill-Inv before after t heap b i) refl

    left_running :
        (own : Option ℕ)
        → t.place ≡ running
        → t.o_wait_status ≡ own
        → With t
        → Ends own (process_exit t heap) Next
    unfolding process_exit
    left_running own =
        owned own (λ t. process_exit t heap) (λ t. Next)
          (λ b i. process_exit-Inv before after t heap b i) refl

    looked :
        (tid : ℕ)
        → t.place ≡ running
        → With t
        → Yields (process_wait tid t heap) (λ r. Next (r.1, heap))
    looked tid =
        placed t running (λ t. process_wait tid t heap) (λ t r. Next (r.1, heap))
          (process_wait-Inv before after t heap tid)

    exited : t.place ≡ exiting → With t → Yields (thread_exit t heap) Next
    exited =
        placed t exiting (λ t. thread_exit t heap) (λ t. Next) (thread_exit-Inv before after t heap)

    abbrev Passed : Option (Thread × Heap) → Type 0
    Passed none = Unit
    Passed (some r) = Next r

    passed : (ws : ℕ) → t.place ≡ waiting ws → With t → Yields (wait_down ws t heap) Passed
    passed ws =
        placed t (waiting ws) (λ t. wait_down ws t heap) (λ t. Passed)
          (wait_down-Inv before after t heap ws)

    pub collected :
        (ws : ℕ)
        → t.place ≡ collecting ws
        → With t
        → Yields (wait_collect ws t heap) (Collected before after t heap ws)
    collected ws =
        placed t (collecting ws) (λ t. wait_collect ws t heap)
          (λ t. Collected before after t heap ws) (wait_collect-Collected before after t heap ws)

    pub Step-Inv : {s : System} → Step before after t heap s → With t → Inv s
    Step-Inv (create tid a e free r) i =
        Yields_some _ (thread_create tid a t heap) (created tid a free e i) r
    Step-Inv (record_code code e r) i =
        Ends_some t.o_wait_status _ (set_exit_code code t heap)
          (coded t.o_wait_status code e refl i) r
    Step-Inv (killed e r) i =
        Ends_some t.o_wait_status _ (kill t heap) (marked t.o_wait_status e refl i) r
    Step-Inv (leave e r) i =
        Ends_some t.o_wait_status _ (process_exit t heap) (left_running t.o_wait_status e refl i) r
    Step-Inv (exit e r) i = Yields_some _ (thread_exit t heap) (exited e i) r
    Step-Inv (wait tid e r) i = Yields_some _ (process_wait tid t heap) (looked tid e i) r
    Step-Inv (down ws e r) i = Yields_some _ (wait_down ws t heap) (passed ws e i) r
    Step-Inv (collect ws e r) i =
        (Yields_some (Collected before after t heap ws) (wait_collect ws t heap) (collected ws e i)
          r).3

    exits : (own : Option ℕ) → t.o_wait_status ≡ own → t.place ≡ running → With t → Exits own t heap
    exits none o e i = (λ code. coded none code e o i, (marked none e o i, left_running none e o i))
    exits (some b) o e i = (
      λ code. goes _ _ (coded (some b) code e o i),
      (goes _ _ (marked (some b) e o i), goes _ _ (left_running (some b) e o i)),
    )

    pub usable : (q : Place) → t.place ≡ q → With t → Usable q t heap
    usable running e i = (exits t.o_wait_status refl e i, λ tid. goes _ _ (looked tid e i))
    usable (waiting ws) e i = goes _ _ (passed ws e i)
    usable (collecting ws) e i = goes _ _ (collected ws e i)
    usable exiting e i = goes _ _ (exited e i)
    usable dying e i = tt
