-- ===== src/Process/Collect.antt =====
-- What `process_wait` returns, and how long it sleeps.
use group.Base.{
  ℕ, ◌≡◌, refl, sym, ap, Option, none, some, List, ◌∷◌, ◌++◌, ◌==◌, subst, ◌>>=◌, arith, Bool-cases,
  inl, inr, eq_of_==, Yields, Yields-bind, Yields_some, ==_self,
}
use group.Process.{
  WaitStatus, Thread, Heap, Place, running, waiting, collecting, minus_one, list_remove,
  wait_status_mod_ref, wait_down, wait_collect, status_code,
}
use group.Process.Step.{system}
use group.Process.Tally.{
  hit_same, times, listed, collects, unsignalled, busy, raised, total, total-middle, total_mono,
  total-stray, collects-busy,
}
use group.Process.Moves.{times-list_remove, collect-Moved}
use group.Process.Inv.{Inv, held, mod_ref-Inv}
use group.Process.Waits.{on_list, waiting_held, collecting_held}

module _ (before after : List Thread) (t : Thread) (heap : Heap) where
  -- Some process that owns the wait status has not yet raised its semaphore.
  abbrev pub left : ℕ → Place → ℕ
  left ws p =
      total (λ t. unsignalled ws t.place t.o_wait_status) (before ++ record t { place = p } ∷ after)

  -- Behind the `sema_down`, the process that owns the wait status is behind its `sema_up`.
  final :
      (ws : ℕ)
      → Inv (system before after (record t { place = collecting ws }, heap))
      → left ws (collecting ws) ≡ 0
  unfolding collects
  final ws i =
      let m = i.settled ws in
      let o = m.once in
      let one = hit_same ws ws (==_self ws) in
      let c =
        total-middle (λ t. collects ws t.place) before after (record t { place = collecting ws }) in
      omega arith

  -- What `process_wait` returns is final, and its list no longer has the wait status.
  abbrev pub Collected : ℕ → ℕ × (Thread × Heap) → Type 0
  Collected ws (code, (t', heap')) =
      ((w : WaitStatus) × ((heap ws ≡ some w) × (code ≡ status_code w)))
      × (left ws (collecting ws) ≡ 0)
      × (times ws t'.children ≡ 0)
      × Inv (system before after (t', heap'))

  once_listed :
      (ws : ℕ)
      → Inv (system before after (record t { place = collecting ws }, heap))
      → times ws (list_remove ws t.children) ≡ 0
  unfolding busy
  once_listed ws i =
      let m = i.settled ws in
      let o = m.one_parent in
      let one = hit_same ws ws (==_self ws) in
      let le = on_list before after t heap ws (collecting ws) one i in
      let l = total-middle (listed ws) before after (record t { place = collecting ws }) in
      let r = times-list_remove ws ws t.children (omega arith) in omega arith

  abbrev collect_from : ℕ → WaitStatus → Option (ℕ × (Thread × Heap))
  collect_from ws w = do
    heap ← wait_status_mod_ref ws minus_one heap
    some (status_code w, (record t { children = list_remove ws t.children; place = running }, heap))

  pub wait_collect-Collected :
      (ws : ℕ)
      → Inv (system before after (record t { place = collecting ws }, heap))
      → Yields (wait_collect ws (record t { place = collecting ws }) heap) (Collected ws)
  unfolding wait_collect
  wait_collect-Collected ws i =
      let (w, found) = held before after _ heap i ws (collecting_held before after t heap ws i) in
      subst (λ o. Yields (o >>= collect_from ws) (Collected ws)) (sym found)
        (Yields-bind
          (λ heap. Inv (
            system before after
              (record t { children = list_remove ws t.children; place = running }, heap)))
          (Collected ws) (wait_status_mod_ref ws minus_one heap) _
          (mod_ref-Inv before after _ heap i
            (record t { children = list_remove ws t.children; place = running }) ws
            (collecting_held before after t heap ws i)
            (λ w found a. collect-Moved a ws t heap w found))
          (λ heap' i'. ((w, (found, refl)), final ws i, once_listed ws i, i')))

  abbrev Zero : WaitStatus → Option (Thread × Heap) → Type 0
  Zero w none = w.o_sem_exited ≡ 0
  Zero w (some r) = Unit

  wait_down-Zero :
      (ws : ℕ) (w : WaitStatus)
      → heap ws ≡ some w
      → Yields (wait_down ws (record t { place = waiting ws }) heap) (Zero w)
  unfolding wait_down
  wait_down-Zero ws w found = rw found (elim (Bool-cases (w.o_sem_exited == 0)) [
    | inl e ↦ rw e (eq_of_== w.o_sem_exited 0 e)
    | inr e ↦ rw e tt
  ])

  -- `process_wait` sleeps only while the process that it waits for has not exited.
  pub wait_down-Sleeps :
      (ws : ℕ)
      → Inv (system before after (record t { place = waiting ws }, heap))
      → wait_down ws (record t { place = waiting ws }) heap ≡ some none
      → left ws (waiting ws) ≡ 1
  unfolding collects busy
  wait_down-Sleeps ws i e =
      let (w, found) = held before after _ heap i ws (waiting_held before after t heap ws i) in
      let m = i.settled ws in
      let p = m.one_parent in
      let o = m.once in
      let q = m.pending in
      let r = ap raised found in
      let asleep = Yields_some (Zero w) _ (wait_down-Zero ws w found) e in
      let z = m.placed in
      let one = hit_same ws ws (==_self ws) in
      let le = on_list before after t heap ws (waiting ws) one i in
      let l = total-middle (listed ws) before after (record t { place = waiting ws }) in
      let b = total-middle (λ t. busy ws t.place) before after (record t { place = waiting ws }) in
      let c =
        total-middle (λ t. collects ws t.place) before after (record t { place = waiting ws }) in
      let s = total-stray ws (before ++ record t { place = waiting ws } ∷ after) in
      let cb =
        total_mono (λ t. collects ws t.place) (λ t. busy ws t.place) (λ t. collects-busy ws t.place)
          (before ++ after) in
      omega arith
