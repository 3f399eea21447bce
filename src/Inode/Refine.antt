-- ===== src/Inode/Refine.antt =====
-- inode.c on block.c: the sectors of the inodes and those that the buffer cache shows.
use group.Base.{
  ℕ, ◌+◌, ◌-◌, ◌≤◌, ◌<◌, ◌≡◌, refl, sym, ap, ◌∙◌, true, some, List, leb, ltb, ◌==◌, update, arith,
  length, Bool-cases, inl, inr, eq_of_==, ne_of_==,
}
use group.Cache.{
  Cache, Returns, Returns-mono, sector_size, slice, splice, read_buffered, write_buffered,
}
use group.Cache.Inv.{view, Inv}
use group.Cache.Place.{Shows}
use group.Cache.Acquire.{IsReady}
use group.Cache.Read.{Reads, read_buffered-Reads}
use group.Cache.Write.{Writes, write_buffered-Writes}
use group.Inode.{Store, cached_read, cached_write}

-- The store's sectors are those that a sound cache shows.
pub record Represents (n : ℕ) (st : Store) (c : Cache) : Type 0 where
  pub sound : Inv n c
  pub bytes : (s : ℕ) → view c s ≡ st.bytes s
  pub size : c.size ≡ st.size

module _ (n : ℕ) (st : Store) (c : Cache) (r : Represents n st c) (awake : 0 < c.active)
    (some_active : 0 < n) (sector : ℕ) (inside : sector < st.size) (ready : IsReady c sector) where
  here : ltb sector st.size ≡ true
  here = ground arith

  -- `read_buffered` refines the read that the inodes use: on a cache that represents the store, and
  -- under the conditions of `read_buffered`, it returns the same bytes, and the cache then represents
  -- the same store.
  pub read_buffered-cached_read :
      (start end : ℕ)
      → start ≤ end
      → end ≤ sector_size
      → Returns
          (read_buffered sector start end c)
          (λ out d. (cached_read sector start end st ≡ some out) × Represents n st d)
  unfolding Reads
  read_buffered-cached_read start end le fits =
      Returns-mono _ _ (read_buffered sector start end c)
        (read_buffered-Reads n c r.sound sector start end awake some_active (omega (arith, r.size))
          (le, fits) ready)
        (λ out d (same, shows). (result out same, after d shows))
    where
      result :
          (out : List ℕ)
          → out ≡ slice (view c sector) start (end - start)
          → cached_read sector start end st ≡ some out
      result out same =
          let q : leb end 512 ≡ true = ground arith in
          rw (here, q)
            (ap some (ap (λ b. slice b start (end - start)) (sym (r.bytes sector)) ∙ sym same))

      after : (d : Cache) → Shows n c sector (view c sector) d → Represents n st d
      after d x = record {
        sound = x.sound;
        bytes = λ s. elim (Bool-cases (s == sector)) [
          | inl e ↦
              ap (view d) (eq_of_== s sector e)
              ∙ x.here
              ∙ r.bytes sector
              ∙ ap st.bytes (sym (eq_of_== s sector e))
          | inr e ↦ x.others s (ne_of_== s sector e) ∙ r.bytes s
        ];
        size = x.same_size ∙ r.size;
      }

  -- `write_buffered` refines the write that the inodes use: on a cache that represents the store, and
  -- under the conditions of `write_buffered`, the cache then represents the store that is written.
  pub write_buffered-cached_write :
      (start : ℕ) (bytes : List ℕ)
      → start + length bytes ≤ sector_size
      → Returns (write_buffered sector start bytes c) (λ _ d.
        (st' : Store) × ((cached_write sector bytes start st ≡ some st') × Represents n st' d))
  unfolding Writes
  write_buffered-cached_write start bytes fits =
      Returns-mono _ _ (write_buffered sector start bytes c)
        (write_buffered-Writes n c r.sound sector start bytes awake some_active
          (omega (arith, r.size)) fits ready)
        (λ _ d x. (_, (result, after d x)))
    where
      written : Store
      written = record st { bytes = update st.bytes sector (splice (st.bytes sector) start bytes) }

      result : cached_write sector bytes start st ≡ some written
      result = let q : leb (start + length bytes) 512 ≡ true = ground arith in rw (here, q) refl

      after :
          (d : Cache)
          → Shows n c sector (splice (view c sector) start bytes) d
          → Represents n written d
      after d x = record {
        sound = x.sound;
        bytes = λ s. elim (Bool-cases (s == sector)) [
          | inl e ↦ rw e (
              ap (view d) (eq_of_== s sector e)
              ∙ x.here
              ∙ ap (λ b. splice b start bytes) (r.bytes sector))
          | inr e ↦ rw e (x.others s (ne_of_== s sector e) ∙ r.bytes s)
        ];
        size = x.same_size ∙ r.size;
      }
