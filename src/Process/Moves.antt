-- ===== src/Process/Moves.antt =====
-- Each step of a process and the sums of a wait status.
use group.Base.{
  ℕ, ◌+◌, ◌-◌, ◌%◌, ◌^◌, ◌≤◌, ◌≡◌, refl, sym, false, Option, some, List, [], ◌∷◌, ◌++◌, ◌==◌, arith,
  update, Bool-cases, inl, inr, eq_of_==, ne_of_==, ==_ne, subst, ◌∙◌,
}
use group.Process.{
  WaitStatus, Thread, Heap, running, waiting, collecting, exiting, dying, recounted, minus_one,
  list_remove,
}
use group.Process.Tally.{
  hit, hit_same, hit_other, times, listed, owns, collects, unsignalled, busy, ownless, stray,
  total-middle, refs, raised, Balanced, Settled,
}

pub data Moved (a : ℕ) (t t' : Thread) (cell cell' : Option WaitStatus) : Type 0 where
  moved :
      ((l o c u z : ℕ)
        → Balanced
            (refs cell)
            (raised cell)
            (listed a t + l)
            (owns a t.place t.o_wait_status + o)
            (collects a t.place + c)
            (unsignalled a t.place t.o_wait_status + u)
            (stray a t + z)
        → Balanced
            (refs cell')
            (raised cell')
            (listed a t' + l)
            (owns a t'.place t'.o_wait_status + o)
            (collects a t'.place + c)
            (unsignalled a t'.place t'.o_wait_status + u)
            (stray a t' + z))
      → Moved a t t' cell cell'

pub Moved-Settled :
    (a : ℕ) (before after : List Thread) (t t' : Thread) (cell cell' : Option WaitStatus)
    → Moved a t t' cell cell'
    → Settled (before ++ t ∷ after) a cell
    → Settled (before ++ t' ∷ after) a cell'
Moved-Settled a before after t t' cell cell' (moved f) h =
    rw
      (
        total-middle (listed a) before after t',
        total-middle (λ t. owns a t.place t.o_wait_status) before after t',
        total-middle (λ t. collects a t.place) before after t',
        total-middle (λ t. unsignalled a t.place t.o_wait_status) before after t',
        total-middle (stray a) before after t',
      )
      (f _ _ _ _ _ (
        rw
          (
            sym (total-middle (listed a) before after t),
            sym (total-middle (λ t. owns a t.place t.o_wait_status) before after t),
            sym (total-middle (λ t. collects a t.place) before after t),
            sym (total-middle (λ t. unsignalled a t.place t.o_wait_status) before after t),
            sym (total-middle (stray a) before after t),
          )
          h))

-- A wait status is written: the sums at its address, and at the others.
written-Moved :
    (a p : ℕ) (t t' : Thread) (heap : Heap) (cell v : Option WaitStatus)
    → heap p ≡ cell
    → (hit a p ≡ 1 → a ≡ p → Moved a t t' cell v)
    → (hit a p ≡ 0 → Moved a t t' (heap a) (heap a))
    → Moved a t t' (heap a) (update heap p v a)
written-Moved a p t t' heap cell v found here there = elim (Bool-cases (a == p)) [
  | inl e ↦
      let q = eq_of_== a p e in
      rw (e, subst (λ b. heap b ≡ cell) (sym q) found) (here (hit_same a p e) q)
  | inr e ↦ rw e (there (hit_other a p e))
]

pub coded-Moved :
    (a own : ℕ) (t : Thread) (heap : Heap) (w v : WaitStatus)
    → heap own ≡ some w
    → v.o_reference_count ≡ w.o_reference_count
    → v.o_sem_exited ≡ w.o_sem_exited
    → Moved a t t (heap a) (update heap own (some v) a)
coded-Moved a own t heap w v found counts sems =
    written-Moved a own t t heap (some w) (some v) found
      (λ one q. moved (λ l o c u z h. ground arith)) (λ none. moved (λ l o c u z h. h))

pub leave-Moved :
    (a own : ℕ) (t : Thread) (heap : Heap) (w : WaitStatus)
    → heap own ≡ some w
    → Moved a
        (record t { o_wait_status = some own; place = running })
        (record t { o_wait_status = some own; place = exiting })
        (heap a)
        (update heap own (some (record w { o_sem_exited = (w.o_sem_exited + 1) % 2 ^ 32 })) a)
unfolding owns collects unsignalled busy ownless
leave-Moved a own t heap w found =
    written-Moved a own _ _ heap (some w) _ found (λ one q. moved (λ l o c u z h. ground arith))
      (λ none. moved (λ l o c u z h. ground arith))

pub down-Moved :
    (a ws : ℕ) (t : Thread) (heap : Heap) (w : WaitStatus)
    → heap ws ≡ some w
    → (w.o_sem_exited == 0) ≡ false
    → Moved a
        (record t { place = waiting ws })
        (record t { place = collecting ws })
        (heap a)
        (update heap ws (some (record w { o_sem_exited = w.o_sem_exited - 1 })) a)
unfolding owns collects unsignalled busy ownless
down-Moved a ws t heap w found e =
    let n = ne_of_== w.o_sem_exited 0 e in
    written-Moved a ws _ _ heap (some w) _ found (λ one q. moved (λ l o c u z h. ground arith))
      (λ none. moved (λ l o c u z h. ground arith))

pub wait-Moved :
    (a ws : ℕ) (t : Thread) (cell : Option WaitStatus)
    → hit a ws ≤ times a t.children
    → Moved a (record t { place = running }) (record t { place = waiting ws }) cell cell
unfolding owns collects unsignalled busy ownless
wait-Moved a ws t cell le = moved (λ l o c u z h. ground arith)

-- The last reference frees the wait status.
recounted_down :
    (w : WaitStatus)
    → 1 ≤ w.o_reference_count
    → w.o_reference_count ≤ 2
    → (refs (recounted minus_one w) ≡ w.o_reference_count - 1)
      × ((w.o_reference_count ≡ 1 → raised (recounted minus_one w) ≡ 0)
          × (w.o_reference_count ≡ 2 → raised (recounted minus_one w) ≡ w.o_sem_exited))
unfolding recounted
recounted_down w lo hi = elim (Bool-cases (w.o_reference_count == 1)) [
  | inl e ↦ let q = eq_of_== w.o_reference_count 1 e in rw q (refl, (λ q. refl, λ q. ground arith))
  | inr e ↦
      let q = ne_of_== w.o_reference_count 1 e in
      let two : w.o_reference_count ≡ 2 = omega arith in
      rw two (refl, (λ q. ground arith, λ q. refl))
]

pub pop-Moved :
    (a ws : ℕ) (rest : List ℕ) (t : Thread) (heap : Heap) (w : WaitStatus)
    → heap ws ≡ some w
    → Moved a
        (record t { children = ws ∷ rest; place = exiting })
        (record t { children = rest; place = exiting })
        (heap a)
        (update heap ws (recounted minus_one w) a)
unfolding owns collects unsignalled busy ownless times
pop-Moved a ws rest t heap w found =
    written-Moved a ws _ _ heap (some w) _ found
      (λ one q. moved (λ l o c u z h.
        let (r, (s, s')) = recounted_down w (ground arith) (ground arith) in ground arith))
      (λ none. moved (λ l o c u z h. ground arith))

pub drop-Moved :
    (a own : ℕ) (t : Thread) (heap : Heap) (w : WaitStatus)
    → heap own ≡ some w
    → Moved a
        (record t { children = []; o_wait_status = some own; place = exiting })
        (record t { children = []; o_wait_status = some own; place = dying })
        (heap a)
        (update heap own (recounted minus_one w) a)
unfolding owns collects unsignalled busy ownless times
drop-Moved a own t heap w found =
    written-Moved a own _ _ heap (some w) _ found
      (λ one q. moved (λ l o c u z h.
        let (r, (s, s')) = recounted_down w (ground arith) (ground arith) in ground arith))
      (λ none. moved (λ l o c u z h. ground arith))

pub times-list_remove :
    (a ws : ℕ) (cs : List ℕ)
    → hit a ws ≤ times a cs
    → times a (list_remove ws cs) + hit a ws ≡ times a cs
unfolding times list_remove
times-list_remove a ws [] le = omega arith
times-list_remove a ws (c ∷ cs) le = elim (Bool-cases (c == ws)) [
  | inl e ↦ rw (e, eq_of_== c ws e) (omega arith)
  | inr e ↦ rw e (let ih = times-list_remove a ws cs (remaining e) in omega arith)
]
  where
    remaining : (c == ws) ≡ false → hit a ws ≤ times a cs
    remaining e = elim (Bool-cases (a == ws)) [
      | inl q ↦
          let other = hit_other a c (==_ne a c (λ r. ne_of_== c ws e (sym r ∙ eq_of_== a ws q))) in
          omega arith
      | inr q ↦ let none = hit_other a ws q in omega arith
    ]

pub collect-Moved :
    (a ws : ℕ) (t : Thread) (heap : Heap) (w : WaitStatus)
    → heap ws ≡ some w
    → Moved a
        (record t { place = collecting ws })
        (record t { children = list_remove ws t.children; place = running })
        (heap a)
        (update heap ws (recounted minus_one w) a)
unfolding owns collects unsignalled busy ownless
collect-Moved a ws t heap w found =
    written-Moved a ws _ _ heap (some w) _ found
      (λ one q. moved (λ l o c u z h.
        let removed = times-list_remove a ws t.children (ground arith) in
        let (r, (s, s')) = recounted_down w (ground arith) (ground arith) in ground arith))
      (λ none. moved (λ l o c u z h.
        let removed = times-list_remove a ws t.children (ground arith) in ground arith))
