-- ===== src/Process/Inv.antt =====
-- What holds of the wait statuses between the steps: each is counted as often as it is held.
use group.Base.{
  ℕ, ◌+◌, ◌%◌, ◌^◌, ◌≤◌, ◌≡◌, ◌≢◌, refl, sym, Option, none, some, List, ◌==◌, if◌then◌else◌, arith,
  update, Bool-cases, inl, inr, ==_self, ◌>>=◌, Yields, Yields-bind, subst, ◌∙◌,
}
use group.Process.{
  WaitStatus, Thread, Heap, running, recounted, minus_one, wait_status_mod_ref, set_exit_code, kill,
  process_exit,
}
use group.Process.Step.{System, system}
use group.Process.Tally.{hit, hit_same, listed, owns, total-middle, refs, Settled}
use group.Process.Moves.{Moved, Moved-Settled, coded-Moved, leave-Moved}

-- The processes and the heap: the sums of every address, and no wait status whose count is 0.
pub record Inv (s : System) : Type 0 where
  pub settled : (a : ℕ) → Settled s.threads a (s.heap a)
  pub kept : (a : ℕ) → refs (s.heap a) ≡ 0 → s.heap a ≡ none

-- A wait status is there when it is counted.
pub present : (cell : Option WaitStatus) → 1 ≤ refs cell → (w : WaitStatus) × (cell ≡ some w)
present none le = absurd (ground arith)
present (some w) le = (w, refl)

-- A process takes a step that writes one wait status.
pub stepped :
    (before after : List Thread) (t t' : Thread) (heap : Heap) (p : ℕ) (v : Option WaitStatus)
    → Inv (system before after (t, heap))
    → ((a : ℕ) → Moved a t t' (heap a) (update heap p v a))
    → (refs v ≡ 0 → v ≡ none)
    → Inv (system before after (t', update heap p v))
stepped before after t t' heap p v i move keep = record {
  settled =
      λ a. Moved-Settled a before after t t' (heap a) (update heap p v a) (move a) (i.settled a);
  kept = λ a z. elim (Bool-cases (a == p)) [
    | inl e ↦ rw e (keep (subst (λ b. refs (if b then v else heap a) ≡ 0) e z))
    | inr e ↦ rw e (i.kept a (subst (λ b. refs (if b then v else heap a) ≡ 0) e z))
  ];
}

pub kept_recounted :
    (w : WaitStatus) → refs (recounted minus_one w) ≡ 0 → recounted minus_one w ≡ none
unfolding recounted
kept_recounted w z = elim (Bool-cases ((w.o_reference_count + minus_one) % 2 ^ 32 == 0)) [
  | inl e ↦ rw e refl
  | inr e ↦ absurd (ground arith)
]

module _ (before after : List Thread) (t : Thread) (heap : Heap)
    (i : Inv (system before after (t, heap))) where
  pub held :
      (a : ℕ)
      → 1 ≤ listed a t + owns a t.place t.o_wait_status
      → (w : WaitStatus) × (heap a ≡ some w)
  held a le =
      let m = i.settled a in
      let l = total-middle (listed a) before after t in
      let o = total-middle (λ t. owns a t.place t.o_wait_status) before after t in
      let c = m.counted in present (heap a) (omega arith)

  pub mod_ref-Inv :
      (t' : Thread) (p : ℕ)
      → 1 ≤ listed p t + owns p t.place t.o_wait_status
      → ((w : WaitStatus)
          → heap p ≡ some w
          → (a : ℕ) → Moved a t t' (heap a) (update heap p (recounted minus_one w) a))
      → Yields (wait_status_mod_ref p minus_one heap) (λ heap. Inv (system before after (t', heap)))
  unfolding wait_status_mod_ref
  mod_ref-Inv t' p le move =
      let (w, found) = held p le in
      rw found (stepped before after t t' heap p _ i (move w found) (kept_recounted w))

  pub positive : (p : ℕ) (w : WaitStatus) → heap p ≡ some w → w.o_reference_count ≢ 0
  positive p w found z =
      let e = i.kept p (rw found z) in
      absurd (subst (λ o. elim o [ none ↦ ⊥ | some w ↦ Unit ]) (sym found ∙ e) tt)

  pub mod_ref-some :
      (t' : Thread) (p : ℕ)
      → 1 ≤ listed p t + owns p t.place t.o_wait_status
      → ((w : WaitStatus)
          → heap p ≡ some w
          → (a : ℕ) → Moved a t t' (heap a) (update heap p (recounted minus_one w) a))
      → Yields
          (wait_status_mod_ref p minus_one heap >>= λ heap. some (t', heap))
          (λ r. Inv (system before after r))
  mod_ref-some t' p le move =
      Yields-bind (λ heap. Inv (system before after (t', heap))) (λ r. Inv (system before after r))
        (wait_status_mod_ref p minus_one heap) (λ heap. some (t', heap)) (mod_ref-Inv t' p le move)
        (λ heap i. i)

pub own_hit : (a : ℕ) → hit a a ≡ 1
own_hit a = hit_same a a (==_self a)

-- The wait status of a running process is written.
module _ (before after : List Thread) (t : Thread) (heap : Heap) (own : ℕ)
    (i : Inv
      (system before after (record t { o_wait_status = some own; place = running }, heap))) where
  abbrev runner : Thread
  runner = record t { o_wait_status = some own; place = running }

  own_held : (w : WaitStatus) × (heap own ≡ some w)
  unfolding owns
  own_held = let one = own_hit own in held before after runner heap i own (omega arith)

  pub set_exit_code-Inv :
      (code : ℕ)
      → Yields (set_exit_code code runner heap) (λ heap. Inv (system before after (runner, heap)))
  unfolding set_exit_code
  set_exit_code-Inv code =
      let (w, found) = own_held in
      let n = positive before after runner heap i own w found in
      rw found (
        stepped before after _ _ heap _ _ i (λ a. coded-Moved a own _ heap w _ found refl refl)
          (λ z. absurd (n z)))

  pub kill-Inv : Yields (kill runner heap) (λ heap. Inv (system before after (runner, heap)))
  unfolding kill
  kill-Inv =
      let (w, found) = own_held in
      let n = positive before after runner heap i own w found in
      rw found (
        stepped before after _ _ heap _ _ i (λ a. coded-Moved a own _ heap w _ found refl refl)
          (λ z. absurd (n z)))

  pub process_exit-Inv : Yields (process_exit runner heap) (λ r. Inv (system before after r))
  unfolding process_exit
  process_exit-Inv =
      let (w, found) = own_held in
      let n = positive before after runner heap i own w found in
      rw found (
        stepped before after _ _ heap _ _ i (λ a. leave-Moved a own t heap w found)
          (λ z. absurd (n z)))
