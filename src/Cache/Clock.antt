-- ===== src/Cache/Clock.antt =====
-- block.c: the clock algorithm, by its rounds.
use group.Base.{
  ℕ, zero, suc, ◌+◌, ◌-◌, ◌*◌, ◌%◌, ◌<◌, ◌≡◌, ◌≢◌, refl, sym, ◌∙◌, subst, some-injective, Bool,
  true, false, Option, none, some, arith, ◌==◌, if◌then◌else◌, update, Bool-cases, Option-cases,
  inl, inr, eq_of_==, ne_of_==, ==_self,
}
use group.Cache.{
  Entry, Cache, Run, done, Returns, Returns-bind, Returns-mono, and_then, cache_size, caches,
  buffer_evict, advance, clock_slot, clock_step, clock_loop, clock_algorithm_evict,
}
use group.Cache.Inv.{
  held_of, IsClean, IsSound, Inv, view-hit, view-update, IsSound-update, alone_of_unique,
  unheld_slot,
}
use group.Cache.Evict.{Kept, Kept-trans, caches_here, evict-Kept}

module _ (n : ℕ) (c : Cache) (v : Inv n c) where
  pub advance-Kept : Kept n c (advance c)
  advance-Kept = record {
    sound = record {
      unique = v.unique;
      hand_in = omega arith;
      entries = v.entries;
      native = v.native;
      room = v.room;
    };
    same_view = λ s. refl;
    same_active = refl;
    same_size = refl;
    no_new = λ s h. h;
  }

  -- Setting or clearing a use bit.
  pub touch-Kept :
      (i : ℕ) (e : Entry) (u : Bool)
      → i < cache_size
      → c.slots i ≡ some e
      → Kept n c (record c { slots = update c.slots i (some (record e { use_bit = u })) })
  unfolding caches
  touch-Kept i e u lt at = record {
    sound = touched;
    same_view = λ s. elim (Bool-cases (e.sector == s)) [
      | inl t ↦
          view-hit _ c.disk i s e' touched.unique lt (rw (==_self i)) (eq_of_== e.sector s t)
          ∙ sym (view-hit c.slots c.disk i s e v.unique lt at (eq_of_== e.sector s t))
      | inr f ↦
          view-update c.slots c.disk i s (some e') c.disk f (caches_here n c v i e lt at s ∙ f) refl
    ];
    same_active = refl;
    same_size = refl;
    no_new = λ s h k p. elim (Bool-cases (k == i)) [
      | inl t ↦ rw t (sym (caches_here n c v i e lt at s) ∙ h i lt)
      | inr f ↦ rw f (h k p)
    ];
  }
    where
      e' : Entry
      e' = record e { use_bit = u }

      touched : IsSound (update c.slots i (some e')) c.hand c.disk c.size n c.foreign
      touched =
          IsSound-update v i (some e') lt
            (λ s h. alone_of_unique v i s lt (caches_here n c v i e lt at s ∙ h))
            (λ x q. subst (IsClean c.disk c.size) (some-injective _ _ q) (record {
              clean = (v.entries i e lt at).clean;
              inside = (v.entries i e lt at).inside;
            }))
            (rw at (omega arith))

-- Rounds until the hand frees slot `k`: the way to it, and one more turn for its use bit.
abbrev dist : ℕ → ℕ → ℕ
dist hand k = (k + cache_size - hand) % cache_size

abbrev second_chance : Option Entry → ℕ
second_chance none = 0
second_chance (some e) = if e.use_bit then cache_size else 0

rounds : Cache → ℕ → ℕ
rounds c k = dist c.hand k + second_chance (c.slots k)

-- After a round: the offset is free, or slot `k` is still not held and nearer.
pub Progress : Cache → ℕ → Option ℕ → Cache → Type 0
Progress c k (some i) d = (i < cache_size) × (d.slots i ≡ none)
Progress c k none d = (held_of (d.slots k) ≡ 0) × (rounds d k < rounds c k)

module _ (n : ℕ) (c : Cache) (v : Inv n c) (k : ℕ) (lt : k < cache_size)
    (open_slot : held_of (c.slots k) ≡ 0) where
  advance-Progress : k ≢ c.hand → Progress c k none (advance c)
  unfolding Progress rounds
  advance-Progress ne = (open_slot, omega (arith, v.hand_in))

  -- The slot under the hand has an entry that nobody holds, with its use bit set.
  spare-Progress :
      (e : Entry)
      → c.slots c.hand ≡ some e
      → e.held ≡ false
      → e.use_bit ≡ true
      → Progress c k none (
          advance
            (record c { slots = update c.slots c.hand (some (record e { use_bit = false })) }))
  unfolding Progress rounds
  spare-Progress e at free used = elim (Bool-cases (k == c.hand)) [
    | inl t ↦ rw t (rw free refl, rw (eq_of_== k c.hand t, at, used) (omega (arith, v.hand_in)))
    | inr f ↦ rw f (open_slot, omega (arith, v.hand_in, ne_of_== k c.hand f))
  ]

  full-Progress :
      (e : Entry)
      → c.slots c.hand ≡ some e
      → Returns (clock_slot (some e) c) (λ o d. Kept n c d × Progress c k o d)
  unfolding clock_slot Progress
  full-Progress e at = branch e.held e.use_bit refl refl
    where
      not_here : e.held ≡ true → k ≢ c.hand
      not_here h q = ground (arith, open_slot, at, q)

      emptied :
          (d : Cache)
          → d.slots ≡ update c.slots c.hand none
          → d.hand ≡ c.hand
          → d.slots d.hand ≡ none
      emptied d slots hand = rw (hand, slots, ==_self c.hand)

      branch :
          (h u : Bool)
          → e.held ≡ h
          → e.use_bit ≡ u
          → Returns
              (if h
                then done none (advance c)
                else if u
                then done none (
                    advance (record c {
                      slots = update c.slots c.hand (some (record e { use_bit = false }));
                    }))
                else and_then (buffer_evict c.hand c) (λ _ d. done (some d.hand) (advance d)))
              (λ o d. Kept n c d × Progress c k o d)
      branch true u h used = (advance-Kept n c v, advance-Progress (not_here h))
      branch false true h used =
          let t = touch-Kept n c v c.hand e false v.hand_in at in
          (Kept-trans t (advance-Kept n _ t.sound), spare-Progress e at h used)
      branch false false h used =
          Returns-bind _ _ (buffer_evict c.hand c) _ (evict-Kept n c v c.hand e v.hand_in at)
            λ o d (kept, slots, hand). (
              Kept-trans kept (advance-Kept n d kept.sound),
              (kept.sound.hand_in, emptied d slots hand),
            )

  pub clock_step-Progress : Returns (clock_step c) (λ o d. Kept n c d × Progress c k o d)
  unfolding clock_step clock_slot Progress
  clock_step-Progress = elim (Option-cases (c.slots c.hand)) [
    | inl empty ↦ rw empty (advance-Kept n c v, (v.hand_in, empty))
    | inr (e, at) ↦ rw at (full-Progress e at)
  ]

-- What the clock promises: a free offset, and the same contents.
abbrev pub Frees : ℕ → Cache → ℕ → Cache → Type 0
Frees n c i d = Kept n c d × (i < cache_size) × (d.slots i ≡ none)

-- The rest of the loop after one round.
after_round :
    (n fuel k : ℕ) {c : Cache} (r : Option ℕ) (d : Cache)
    → ((d : Cache)
        → Inv n d
        → held_of (d.slots k) ≡ 0
        → rounds d k < fuel
        → Returns (clock_loop fuel d) (Frees n d))
    → rounds c k < suc fuel
    → Kept n c d
    → Progress c k r d
    → Returns (elim r as (λ _. Run ℕ) [ some i ↦ done i d | none ↦ clock_loop fuel d ]) (Frees n c)
unfolding Progress
after_round n fuel k none d again m kept p =
    Returns-mono _ _ (clock_loop fuel d) (again d kept.sound p.0 (omega (arith, p.1)))
      λ i e (more, rest, free). (Kept-trans kept more, rest, free)
after_round n fuel k (some i) d again m kept p = (kept, p.0, p.1)

-- The clock stops within the rounds that the slot `k` needs.
clock_loop-Frees :
    (n fuel k : ℕ)
    → k < cache_size
    → (c : Cache) → Inv n c
    → held_of (c.slots k) ≡ 0
    → rounds c k < fuel
    → Returns (clock_loop fuel c) (Frees n c)
unfolding clock_loop
clock_loop-Frees n zero k lt c v o m = absurd (omega arith)
clock_loop-Frees n (suc fuel) k lt c v o m =
    Returns-bind _ _ (clock_step c) _ (clock_step-Progress n c v k lt o)
      λ r d (kept, p). after_round n fuel k r d (clock_loop-Frees n fuel k lt) m kept p

-- In a sound state where other threads hold fewer than the 64 entries, by a count of `n`, the clock
-- stops within two turns and a round, whatever the use bits: it returns the offset of an empty
-- slot, every sector shows what it did, and no sector becomes cached.
pub clock_algorithm_evict-Frees :
    (n : ℕ) (c : Cache) → Inv n c → 0 < n → Returns (clock_algorithm_evict c) (Frees n c)
unfolding clock_algorithm_evict rounds
clock_algorithm_evict-Frees n c v pos =
    let (k, lt, o) = unheld_slot cache_size c.slots (omega (arith, v.room)) in
    clock_loop-Frees n (2 * cache_size + 1) k lt c v o (bounded k)
  where
    bounded : (k : ℕ) → rounds c k < 2 * cache_size + 1
    bounded k = elim (Option-cases (c.slots k)) [
      | inl e ↦ rw e (omega arith)
      | inr (e, q) ↦ rw q (ground arith)
    ]
