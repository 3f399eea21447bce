-- ===== src/Cache/Evict.antt =====
-- block.c: the eviction of one entry, against what a reader sees.
use group.Base.{
  ℕ, ◌+◌, ◌<◌, ◌≡◌, ◌≢◌, refl, sym, ◌∙◌, Bool, false, none, some, arith, ◌==◌, leb, update,
  Bool-cases, inl, inr, eq_of_==, ne_of_==, ==_ne, ==_self,
}
use group.Cache.{
  Entry, Bytes, Cache, done, Returns, cache_size, caches, block_write, put_slot, evict_slot,
  buffer_evict,
}
use group.Cache.Find.{Slots}
use group.Cache.Inv.{
  view_of, view, IsSound, Inv, view-hit, view-absent, view-update, IsSound-update, alone_of_unique,
}

-- No slot caches `s`.
abbrev pub IsUncached : Slots → ℕ → Type 0
IsUncached slots s = (k : ℕ) → k < cache_size → caches s (slots k) ≡ false

-- `d` is sound, shows the same contents as `c`, and caches no sector that `c` does not.
pub record Kept (n : ℕ) (c d : Cache) : Type 0 where
  pub sound : Inv n d
  pub same_view : (s : ℕ) → view d s ≡ view c s
  pub same_active : d.active ≡ c.active
  pub same_size : d.size ≡ c.size
  pub no_new : (s : ℕ) → IsUncached c.slots s → IsUncached d.slots s

pub Kept-trans : {n : ℕ} {c d e : Cache} → Kept n c d → Kept n d e → Kept n c e
Kept-trans x y = record {
  sound = y.sound;
  same_view = λ s. y.same_view s ∙ x.same_view s;
  same_active = y.same_active ∙ x.same_active;
  same_size = y.same_size ∙ x.same_size;
  no_new = λ s h. y.no_new s (x.no_new s h);
}

-- A write to the disk at a sector that is not cached.
IsSound-disk :
    {slots : Slots} {hand : ℕ} {disk : ℕ → Bytes} {size active : ℕ} {foreign : Bool} (s : ℕ)
    (b : Bytes)
    → IsUncached slots s
    → IsSound slots hand disk size active foreign
    → IsSound slots hand (update disk s b) size active foreign
unfolding caches
IsSound-disk {slots} {disk} s b absent v = record {
  unique = v.unique;
  hand_in = v.hand_in;
  entries = λ i e p q. record {
    clean = λ f. (v.entries i e p q).clean f ∙ sym (elsewhere i e p q);
    inside = (v.entries i e p q).inside;
  };
  native = v.native;
  room = v.room;
}
  where
    elsewhere :
        (i : ℕ) (e : Entry)
        → i < cache_size
        → slots i ≡ some e
        → update disk s b e.sector ≡ disk e.sector
    elsewhere i e p q = let f : (e.sector == s) ≡ false = rw q at (absent i p) in rw f

module _ (n : ℕ) (c : Cache) (v : Inv n c) (i : ℕ) (e : Entry) (lt : i < cache_size)
    (at : c.slots i ≡ some e) where
  pub caches_here : (s : ℕ) → caches s (c.slots i) ≡ (e.sector == s)
  unfolding caches
  caches_here s = rw at

  -- The sector of the evicted entry is cached no more.
  gone : IsUncached (update c.slots i none) e.sector
  unfolding caches
  gone k p = elim (Bool-cases (k == i)) [
    | inl t ↦ rw t
    | inr f ↦ rw f (
        alone_of_unique v i e.sector lt (caches_here e.sector ∙ ==_self e.sector) k p
          (ne_of_== k i f))
  ]

  shrinks : (s : ℕ) → IsUncached c.slots s → IsUncached (update c.slots i none) s
  unfolding caches
  shrinks s h k p = elim (Bool-cases (k == i)) [ inl t ↦ rw t | inr f ↦ rw f (h k p) ]

  IsSound-without : IsSound (update c.slots i none) c.hand c.disk c.size n c.foreign
  unfolding caches
  IsSound-without = IsSound-update v i none lt (λ s h. cc) (λ x h. cc) (omega arith)

  -- The contents are the same once the disk holds the entry's buffer.
  same_view_without :
      (disk : ℕ → Bytes)
      → disk e.sector ≡ e.buffer
      → ((s : ℕ) → s ≢ e.sector → disk s ≡ c.disk s)
      → (s : ℕ) → view_of (update c.slots i none) disk s ≡ view c s
  unfolding caches
  same_view_without disk here others s = elim (Bool-cases (e.sector == s)) [
    | inl t ↦
        let q = eq_of_== e.sector s t in
        rw (← q) (
          view-absent _ disk e.sector gone
          ∙ here
          ∙ sym (view-hit c.slots c.disk i e.sector e v.unique lt at refl))
    | inr f ↦
        view-update c.slots c.disk i s none disk refl (caches_here s ∙ f)
          (others s (λ q. ne_of_== e.sector s f (sym q)))
  ]

  not_past : leb c.size e.sector ≡ false
  not_past = let h = (v.entries i e lt at).inside in ground arith

  writes :
      block_write e.sector e.buffer c
      ≡ done tt (record c { disk = update c.disk e.sector e.buffer; write_cnt = c.write_cnt + 1 })
  unfolding block_write
  writes = simp (not_past, v.native)

  -- `buffer_evict` of a sound state's entry ends without a fault, empties its slot and no other,
  -- writes a dirty buffer back, so that every sector shows what it did, and leaves the clock hand
  -- where it was.
  pub evict-Kept :
      Returns
        (buffer_evict i c)
        (λ _ d. Kept n c d × (d.slots ≡ update c.slots i none) × (d.hand ≡ c.hand))
  unfolding buffer_evict evict_slot put_slot
  evict-Kept = rw at (elim (Bool-cases e.dirty) [
    | inl t ↦
        rw (t, writes)
          (
            record {
              sound = IsSound-disk e.sector e.buffer gone IsSound-without;
              same_view =
                  same_view_without _ (rw (==_self e.sector)) (λ s ne. rw (==_ne s e.sector ne));
              same_active = refl;
              same_size = refl;
              no_new = shrinks;
            },
            refl,
            refl,
          )
    | inr f ↦ rw f (
      record {
        sound = IsSound-without;
        same_view = same_view_without c.disk (sym ((v.entries i e lt at).clean f)) (λ s ne. refl);
        same_active = refl;
        same_size = refl;
        no_new = shrinks;
      },
      refl,
      refl,
    )
  ])
