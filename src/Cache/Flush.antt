-- ===== src/Cache/Flush.antt =====
-- block.c: the flush of the cache.
use group.Base.{
  ℕ, zero, suc, ◌+◌, ◌<◌, ◌≡◌, sym, ◌∙◌, false, none, some, arith, ◌==◌, Option-cases, Bool-cases,
  inl, inr, eq_of_==,
}
use group.Cache.{
  Entry, Cache, Returns, Returns-bind, Returns-mono, cache_size, caches, buffer_evict, flush_slot,
  flush_loop, flush_buffer_cache,
}
use group.Cache.Inv.{view, Inv, view-absent}
use group.Cache.Evict.{Kept, Kept-trans, evict-Kept}
use group.Cache.Acquire.{Kept-same}

none_ne_some : (x : Entry) → none ≡ some x → ⊥
none_ne_some x h = cc

-- No other thread holds an entry.
abbrev pub IsIdle : Cache → Type 0
IsIdle c = (i : ℕ) (e : Entry) → i < cache_size → c.slots i ≡ some e → e.held ≡ false

-- The slots below `i` are empty, and what is left in the others was there in `c`.
record Flushed (n i : ℕ) (c d : Cache) : Type 0 where
  kept : Kept n c d
  empty : (k : ℕ) → k < i → d.slots k ≡ none
  rest : (k : ℕ) (e : Entry) → d.slots k ≡ some e → c.slots k ≡ some e

module _ (n : ℕ) (c : Cache) (idle : IsIdle c) where
  flush_slot-Flushed :
      (i : ℕ) (d : Cache)
      → i < cache_size
      → Flushed n i c d
      → Returns (flush_slot i (d.slots i) d) (λ _ e. Flushed n (i + 1) c e)
  unfolding flush_slot
  flush_slot-Flushed i d lt f = elim (Option-cases (d.slots i)) [
    | inl none_here ↦ rw none_here (record {
      kept = f.kept;
      empty = λ k p. elim (Bool-cases (k == i)) [
        | inl t ↦ rw (eq_of_== k i t) none_here
        | inr t ↦ f.empty k (ground arith)
      ];
      rest = f.rest;
    })
    | inr (e, at) ↦
        rw (at, idle i e lt (f.rest i e at))
          (Returns-mono _ _ (buffer_evict i d) (evict-Kept n d f.kept.sound i e lt at)
            λ u g (k', slots, hand). record {
              kept = Kept-trans f.kept k';
              empty = λ k p. rw slots (elim (Bool-cases (k == i)) [
                | inl t ↦ rw t
                | inr t ↦ rw t (f.empty k (ground arith))
              ]);
              rest = λ k x q. elim (Bool-cases (k == i)) [
                | inl t ↦ absurd (none_ne_some x (rw t at (rw slots at q)))
                | inr t ↦ f.rest k x (rw t at (rw slots at q))
              ];
            })
  ]

  flush_loop-Flushed :
      (left i : ℕ) (d : Cache)
      → i + left ≡ cache_size
      → Flushed n i c d
      → Returns (flush_loop left i d) (λ _ e. Flushed n cache_size c e)
  unfolding flush_loop
  flush_loop-Flushed zero i d e f = record {
    kept = f.kept;
    empty = λ k p. f.empty k (omega arith);
    rest = f.rest;
  }
  flush_loop-Flushed (suc left) i d e f =
      Returns-bind _ _ (flush_slot i (d.slots i) d) _ (flush_slot-Flushed i d (omega arith) f)
        λ u g. flush_loop-Flushed left (i + 1) g (omega arith)

-- After a flush no sector is cached, and the disk holds what every sector showed before.
pub record IsFlushed (n : ℕ) (c d : Cache) : Type 0 where
  pub sound : Inv n d
  pub empty : (k : ℕ) → k < cache_size → d.slots k ≡ none
  pub on_disk : (s : ℕ) → d.disk s ≡ view c s
  pub same_active : d.active ≡ c.active

-- `flush_buffer_cache` of a sound state in which no other thread holds an entry ends without a
-- fault: every slot is empty, and each sector of the disk holds what the sector showed before.
pub flush-IsFlushed :
    (n : ℕ) (c : Cache)
    → Inv n c
    → IsIdle c
    → Returns (flush_buffer_cache c) (λ _ d. IsFlushed n c d)
unfolding flush_buffer_cache caches
flush-IsFlushed n c v idle =
    Returns-mono _ _ (flush_loop cache_size 0 c)
      (flush_loop-Flushed n c idle cache_size 0 c (omega arith)
        (record { kept = Kept-same n c v; empty = λ k p. absurd (omega arith); rest = λ k e q. q }))
      λ u d f. record {
        sound = f.kept.sound;
        empty = f.empty;
        on_disk =
            λ s. sym (view-absent d.slots d.disk s (λ k p. rw (f.empty k p))) ∙ f.kept.same_view s;
        same_active = f.kept.same_active;
      }
