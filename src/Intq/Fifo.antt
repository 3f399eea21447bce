-- ===== src/Intq/Fifo.antt =====
-- intq.c: the queue as the list of its bytes.
use group.Base.{
  ℕ, zero, suc, ◌+◌, ◌-◌, ◌%◌, ◌<◌, ◌≡◌, ◌≢◌, refl, ap, ap₂, ◌∙◌, false, none, some, List, [], ◌∷◌,
  ◌++◌, ◌==◌, update, arith, Bool-cases, inl, inr, ==_ne, ==_self, Yields,
}
use group.Sched.{Tid}
use group.Intq.{
  Intq, Outcome, sleeps, ends, bufsize, next, intq_empty, intq_full, intq_getc, intq_putc,
  wait_not_empty, wait_not_full, signal_not_empty, signal_not_full,
}

pub record IsQueue (q : Intq) : Type 0 where
  pub head_in : q.head < bufsize
  pub tail_in : q.tail < bufsize

-- The number of bytes, and the bytes from the oldest on.
abbrev pub used : Intq → ℕ
used q = (q.head + bufsize - q.tail) % bufsize

unfoldable pub items : ℕ → ℕ → (ℕ → ℕ) → List ℕ
items zero at buf = []
items (suc n) at buf = buf at ∷ items n (next at) buf

abbrev pub contents : Intq → List ℕ
contents q = items (used q) q.tail q.buf

items-snoc :
    (n at : ℕ) (buf : ℕ → ℕ)
    → at < bufsize
    → items (n + 1) at buf ≡ items n at buf ++ buf ((at + n) % bufsize) ∷ []
unfolding items
items-snoc zero at buf h = let e : at ≡ (at + 0) % 64 = omega arith in ap (λ i. buf i ∷ []) e
items-snoc (suc n) at buf h =
    let e : suc n + 1 ≡ suc (n + 1) = omega arith in
    let i : (next at + n) % 64 ≡ (at + suc n) % 64 = omega arith in
    rw e (
      ap (λ xs. buf at ∷ xs)
        (items-snoc n (next at) buf (omega arith)
          ∙ ap (λ j. items n (next at) buf ++ buf j ∷ []) i))

-- A byte written where none of the items stands.
items-update :
    (n at : ℕ) (buf : ℕ → ℕ) (head byte : ℕ)
    → at < bufsize
    → ((k : ℕ) → k < n → (at + k) % bufsize ≢ head)
    → items n at (update buf head byte) ≡ items n at buf
unfolding items
items-update zero at buf head byte h free = refl
items-update (suc n) at buf head byte h free =
    let other : at ≢ head = λ e. free 0 (omega arith) (omega (arith, e)) in
    rw (==_ne at head other) (
      ap (λ xs. buf at ∷ xs)
        (items-update n (next at) buf head byte (omega arith)
          (λ k p e. free (suc k) (omega arith) (omega (arith, e)))))

-- What a call of `intq_putc` does to the queue.
unfoldable pub Put : Intq → ℕ → Tid → Outcome (Unit {0}) → Type 0
Put q byte current (sleeps q') =
    (used q ≡ 63) × (contents q' ≡ contents q) × (q'.not_full ≡ some current)
Put q byte current (ends u q' woken) =
    IsQueue q'
    × (contents q' ≡ contents q ++ byte ∷ [])
    × (woken ≡ q.not_empty)
    × (q'.not_empty ≡ none)

unfoldable pub Got : Intq → Tid → Outcome ℕ → Type 0
Got q current (sleeps q') =
    (used q ≡ 0) × (contents q' ≡ contents q) × (q'.not_empty ≡ some current)
Got q current (ends byte q' woken) =
    IsQueue q' × (contents q ≡ byte ∷ contents q') × (woken ≡ q.not_full) × (q'.not_full ≡ none)

module _ (q : Intq) (v : IsQueue q) (current : Tid) where
  -- `intq_putc` outside of an interrupt handler passes its ASSERTs: with 63 bytes in the queue the thread
  -- is recorded as the one that waits until the queue is not full, and else the byte goes behind the
  -- others, and the thread that waits for a byte is unblocked.
  pub intq_putc-Put : (byte : ℕ) → Yields (intq_putc false current byte q) (Put q byte current)
  unfolding intq_putc Put wait_not_full signal_not_empty
  intq_putc-Put byte = elim (Bool-cases (intq_full q)) [
    | inl e ↦ rw e (let n : used q ≡ 63 = ground (arith, v.head_in, v.tail_in) in (n, refl, refl))
    | inr e ↦
        let more : (next q.head + 64 - q.tail) % 64 ≡ used q + 1 =
          ground (arith, v.head_in, v.tail_in) in
        rw e (record { head_in = omega arith; tail_in = v.tail_in }, stored more, refl, refl)
  ]
    where
      stored :
          (next q.head + 64 - q.tail) % 64 ≡ used q + 1
          → items ((next q.head + 64 - q.tail) % 64) q.tail (update q.buf q.head byte)
            ≡ contents q ++ byte ∷ []
      stored more =
          let at_head : (q.tail + used q) % 64 ≡ q.head = omega (arith, v.head_in, v.tail_in) in
          ap (λ n. items n q.tail (update q.buf q.head byte)) more
          ∙ items-snoc (used q) q.tail (update q.buf q.head byte) v.tail_in
          ∙ ap₂ (λ xs x. xs ++ x ∷ [])
              (items-update (used q) q.tail q.buf q.head byte v.tail_in
                (λ k p e. omega (arith, v.head_in, v.tail_in, e)))
              (rw (at_head, ==_self q.head) refl)

  -- `intq_getc` outside of an interrupt handler passes its ASSERTs: with no byte in the queue the thread
  -- is recorded as the one that waits until the queue is not empty, and else the oldest byte is taken out
  -- and returned, and the thread that waits for room is unblocked.
  pub intq_getc-Got : Yields (intq_getc false current q) (Got q current)
  unfolding intq_getc Got wait_not_empty signal_not_full items
  intq_getc-Got = elim (Bool-cases (intq_empty q)) [
    | inl e ↦ rw e (let n : used q ≡ 0 = ground (arith, v.head_in, v.tail_in) in (n, refl, refl))
    | inr e ↦
        let less : used q ≡ suc ((q.head + 64 - next q.tail) % 64) =
          ground (arith, v.head_in, v.tail_in) in
        let room : (next q.head == next q.tail) ≡ false = ground (arith, v.head_in, v.tail_in) in
        rw (e, room)
          (
            record { head_in = v.head_in; tail_in = omega arith },
            ap (λ n. items n q.tail q.buf) less,
            refl,
            refl,
          )
  ]
