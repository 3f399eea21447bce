-- ===== src/Process/Births.antt =====
-- `thread_create`: the wait status of a new process is held by the process and by its parent.
use group.Base.{
  ℕ, ◌+◌, ◌≤◌, ◌≡◌, refl, sym, ap, Bool, true, false, Option, none, some, List, [], ◌∷◌, ◌++◌, ◌==◌,
  if◌then◌else◌, arith, update, Bool-cases, inl, inr, eq_of_==, ==_self, Yields, subst, ◌∙◌,
}
use group.Process.{
  WaitStatus, Thread, Heap, Place, running, new_status, recounted, wait_status_mod_ref,
  thread_create,
}
use group.Process.Step.{system, born}
use group.Process.Tally.{
  hit_same, hit_other, times, listed, owns, collects, unsignalled, unsignalled-owns, busy, ownless,
  stray, refs, raised, total, total-middle, total_mono, total-stray, collects-busy, Balanced,
  Settled,
}
use group.Process.Inv.{Inv}

referenced :
    (p : ℕ) (heap : Heap) (w : WaitStatus)
    → wait_status_mod_ref p 1 (update heap p (some w))
      ≡ some (update (update heap p (some w)) p (recounted 1 w))
unfolding wait_status_mod_ref
referenced p heap w = rw (==_self p) refl

kept_new :
    (b : Bool) (u v w cell : Option WaitStatus)
    → refs w ≡ 2
    → (refs cell ≡ 0 → cell ≡ none)
    → refs (if b then w else (if b then v else (if b then u else cell))) ≡ 0
    → (if b then w else (if b then v else (if b then u else cell))) ≡ none
kept_new true u v w cell two keep z = absurd (omega arith)
kept_new false u v w cell two keep z = keep z

module _ (before after : List Thread) (tid p : ℕ) (t : Thread) where
  abbrev parent : Thread
  parent = record t { children = p ∷ t.children; place = running }

  abbrev child : Thread
  child = record { tid = tid; o_wait_status = some p; children = []; place = running }

  total-born :
      (f : Thread → ℕ)
      → total f (before ++ parent ∷ child ∷ after)
        ≡ f parent + (f child + total f (before ++ after))
  total-born f =
      total-middle f before (child ∷ after) parent
      ∙ ap (λ n. f parent + n) (total-middle f before after child)

  abbrev own_by : (ℕ → Place → Option ℕ → ℕ) → ℕ → Thread → ℕ
  own_by f a t = f a t.place t.o_wait_status

  abbrev place_by : (ℕ → Place → ℕ) → ℕ → Thread → ℕ
  place_by f a t = f a t.place

  abbrev old : Thread
  old = record t { place = running }

  abbrev ts : List Thread
  ts = before ++ old ∷ after

  -- The numbers of the other processes stay as they are.
  born-Settled :
      (a : ℕ) (cell cell' : Option WaitStatus)
      → ((l o c u z : ℕ)
          → Balanced
              (refs cell)
              (raised cell)
              (times a t.children + l)
              (owns a running t.o_wait_status + o)
              (collects a running + c)
              (unsignalled a running t.o_wait_status + u)
              (stray a old + z)
          → collects a running + c ≤ times a t.children + l + (stray a old + z)
          → unsignalled a running t.o_wait_status + u ≤ owns a running t.o_wait_status + o
          → Balanced
              (refs cell')
              (raised cell')
              (times a (p ∷ t.children) + (times a [] + l))
              (owns a running t.o_wait_status + (owns a running (some p) + o))
              (collects a running + (collects a running + c))
              (unsignalled a running t.o_wait_status + (unsignalled a running (some p) + u))
              (stray a parent + (stray a child + z)))
      → Settled (before ++ record t { place = running } ∷ after) a cell
      → Settled (before ++ parent ∷ child ∷ after) a cell'
  born-Settled a cell cell' f h =
      rw
        (
          total-born (listed a),
          total-born (own_by owns a),
          total-born (place_by collects a),
          total-born (own_by unsignalled a),
          total-born (stray a),
        )
        (f _ _ _ _ _
          (rw
            (
              sym (total-middle (listed a) before after old),
              sym (total-middle (own_by owns a) before after old),
              sym (total-middle (place_by collects a) before after old),
              sym (total-middle (own_by unsignalled a) before after old),
              sym (total-middle (stray a) before after old),
            )
            h)
          (rw
            (
              sym (total-middle (listed a) before after old),
              sym (total-middle (place_by collects a) before after old),
              sym (total-middle (stray a) before after old),
            )
            (let cb =
                total_mono (place_by collects a) (place_by busy a) (λ t. collects-busy a t.place)
                  ts in
              let s = total-stray a ts in omega arith))
          (rw
            (
              sym (total-middle (own_by owns a) before after old),
              sym (total-middle (own_by unsignalled a) before after old),
            )
            (total_mono (own_by unsignalled a) (own_by owns a)
              (λ t. unsignalled-owns a t.place t.o_wait_status) ts)))

  -- The address was free: nothing was counted there.
  here :
      Settled (before ++ record t { place = running } ∷ after) p none
      → Settled
          (before ++ parent ∷ child ∷ after)
          p
          (some (record (new_status tid) { o_reference_count = 2 }))
  unfolding owns collects unsignalled busy times ownless
  here =
      born-Settled p none (some (record (new_status tid) { o_reference_count = 2 }))
        (λ l o c u z h le le'. let one = hit_same p p (==_self p) in ground arith)

  there :
      (a : ℕ) (cell : Option WaitStatus)
      → (a == p) ≡ false
      → Settled (before ++ record t { place = running } ∷ after) a cell
      → Settled (before ++ parent ∷ child ∷ after) a cell
  unfolding owns collects unsignalled busy times ownless
  there a cell e =
      born-Settled a cell cell (λ l o c u z h le le'. let none = hit_other a p e in ground arith)

  module _ (heap : Heap) where
    abbrev counted_twice : Heap
    counted_twice =
        update
          (update (update heap p (some (new_status tid))) p
            (some (record (new_status tid) { o_reference_count = 1 })))
          p (some (record (new_status tid) { o_reference_count = 2 }))

    thread_create-runs :
        thread_create tid p (record t { place = running }) heap
        ≡ some (parent, (child, counted_twice))
    unfolding thread_create recounted
    thread_create-runs =
        rw
          (
            referenced p heap (new_status tid),
            referenced p (update heap p (some (new_status tid)))
                (record (new_status tid) { o_reference_count = 1 }),
          )
          refl

    pub thread_create-Inv :
        heap p ≡ none
        → Inv (system before after (record t { place = running }, heap))
        → Yields
            (thread_create tid p (record t { place = running }) heap)
            (λ r. Inv (born before after r))
    thread_create-Inv free i = rw thread_create-runs (record {
      settled = λ a. elim (Bool-cases (a == p)) [
        | inl e ↦
            rw (e, eq_of_== a p e)
              (here (
                subst (λ c. Settled (before ++ record t { place = running } ∷ after) p c) free
                  (i.settled p)))
        | inr e ↦ rw e (there a (heap a) e (i.settled a))
      ];
      kept = λ a. kept_new (a == p) _ _ _ (heap a) refl (i.kept a);
    })
