-- ===== src/Cache/Place.antt =====
-- block.c: an entry put into a slot, a new one or a changed one.
use group.Base.{
  ℕ, ◌≤◌, ◌<◌, ◌≡◌, ◌≢◌, refl, sym, ◌∙◌, subst, some-injective, false, none, some, arith, update,
  eq_of_==, ==_ne, ==_self,
}
use group.Cache.{Entry, Bytes, Cache, cache_size, caches}
use group.Cache.Find.{IsFreeBut}
use group.Cache.Inv.{
  view, held_of, IsClean, Inv, view-hit, view-update, IsSound-update, alone_of_unique,
}
use group.Cache.Evict.{IsUncached, Kept, caches_here}

-- `d` shows `b` at `sector` and the contents of `c` elsewhere.
pub record Shows (n : ℕ) (c : Cache) (sector : ℕ) (b : Bytes) (d : Cache) : Type 0 where
  pub sound : Inv n d
  pub here : view d sector ≡ b
  pub others : (s : ℕ) → s ≢ sector → view d s ≡ view c s
  pub same_active : d.active ≡ c.active
  pub same_size : d.size ≡ c.size

pub Shows-of_Kept :
    {n : ℕ} {c d : Cache} (sector : ℕ) → Kept n c d → Shows n c sector (view c sector) d
Shows-of_Kept sector k = record {
  sound = k.sound;
  here = k.same_view sector;
  others = λ s ne. k.same_view s;
  same_active = k.same_active;
  same_size = k.same_size;
}

-- The states between two runs differ in what no reader sees.
pub Shows-after :
    {n : ℕ} {c d e : Cache} {sector : ℕ} {b : Bytes}
    → Kept n c d
    → Shows n d sector b e
    → Shows n c sector b e
Shows-after k x = record {
  sound = x.sound;
  here = x.here;
  others = λ s ne. x.others s ne ∙ k.same_view s;
  same_active = x.same_active ∙ k.same_active;
  same_size = x.same_size ∙ k.same_size;
}

module _ (n : ℕ) (d : Cache) (v : Inv n d) (i : ℕ) (x : Entry) (lt : i < cache_size) where
  abbrev pub placed : Cache
  placed = record d { slots = update d.slots i (some x) }

  -- `x` replaces what slot `i` holds, which is `x`'s sector or nothing.
  module _ (alone : IsFreeBut i d.slots x.sector)
      (old : (s : ℕ) → s ≢ x.sector → caches s (d.slots i) ≡ false) (ok : IsClean d.disk d.size x)
      (free : held_of (some x) ≤ held_of (d.slots i)) where
    placed_sound : Inv n placed
    unfolding caches
    placed_sound =
        IsSound-update v i (some x) lt (λ s h. rw (← eq_of_== x.sector s h) alone)
          (λ y q. subst (IsClean d.disk d.size) (some-injective _ _ q) ok) free

    pub placed-Shows : Shows n d x.sector x.buffer placed
    unfolding caches
    placed-Shows = record {
      sound = placed_sound;
      here = view-hit _ d.disk i x.sector x (placed_sound.unique) lt (rw (==_self i)) refl;
      others = λ s ne.
          view-update d.slots d.disk i s (some x) d.disk (==_ne x.sector s (λ q. ne (sym q)))
            (old s ne) refl;
      same_active = refl;
      same_size = refl;
    }

  -- A new entry in an empty slot.
  pub install-Shows :
      d.slots i ≡ none
      → IsUncached d.slots x.sector
      → IsClean d.disk d.size x
      → x.held ≡ false
      → Shows n d x.sector x.buffer placed
  unfolding caches
  install-Shows empty absent ok free =
      placed-Shows (λ k p ne. absent k p) (λ s ne. rw empty refl) ok (ground arith)

  -- A changed entry in its own slot.
  pub change-Shows :
      (e : Entry)
      → d.slots i ≡ some e
      → x.sector ≡ e.sector
      → x.held ≡ e.held
      → IsClean d.disk d.size x
      → Shows n d x.sector x.buffer placed
  unfolding caches
  change-Shows e at same_sector same_held ok =
      placed-Shows
        (alone_of_unique v i x.sector lt
          (caches_here n d v i e lt at x.sector ∙ rw same_sector (==_self e.sector)))
        (λ s ne.
          caches_here n d v i e lt at s ∙ ==_ne e.sector s (λ q. ne (sym q ∙ sym same_sector)))
        ok (rw at (ground arith))
