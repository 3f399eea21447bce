-- ===== src/Inode/Alloc.antt =====
-- inode.c, `get_sector` and `can_allocate`: what they take from the free map.
use group.Base.{
  ℕ, zero, suc, ◌-◌, ◌≤◌, ◌<◌, ◌≡◌, ◌≢◌, refl, ◌∙◌, Bool, true, false, Option, none, some, ◌==◌,
  ltb, if◌then◌else◌, sym, ap, eq_of_==, Bool-cases, inl, inr, replicate, get_or, List, [], among,
  length, arith, ==_ne, ==_self, Yields, Yields-bind, length-replicate,
}
use group.Cache.{Bytes, sector_size, splice}
use group.FreeMap.{FreeMap, allocate}
use group.Bitmap.Single.{IsValid}
use group.Bitmap.Range.{within_one}
use group.FreeMap.Alloc.{
  in_use, SameSectors, Refusal, Allocated, granted, refused, allocate-Allocated,
}
use group.Inode.{Store, get_sector, zero_sector, can_allocate, can_allocate_loop, give_back}

-- The map covers the device.
pub record IsCovered (st : Store) : Type 0 where
  pub valid : IsValid st.map.map
  pub on_device : st.map.map.bit_cnt ≤ st.size

-- What no call of the free map changes.
pub record SameDevice (st st' : Store) : Type 0 where
  pub size : st'.size ≡ st.size
  pub cnt : st'.map.map.bit_cnt ≡ st.map.map.bit_cnt
  pub file_open : st'.map.has_file ≡ st.map.has_file
  pub wrote : st'.wrote ≡ st.wrote
  pub map_file : st'.map_file ≡ st.map_file

pub same_device : (st : Store) → SameDevice st st
same_device st = record { size = refl; cnt = refl; file_open = refl; wrote = refl; map_file = refl }

pub SameDevice-trans : (a b c : Store) → SameDevice a b → SameDevice b c → SameDevice a c
SameDevice-trans a b c p q = record {
  size = q.size ∙ p.size;
  cnt = q.cnt ∙ p.cnt;
  file_open = q.file_open ∙ p.file_open;
  wrote = q.wrote ∙ p.wrote;
  map_file = q.map_file ∙ p.map_file;
}

pub SameDevice-bytes :
    (a b : Store) (bytes : ℕ → Bytes) → SameDevice a b → SameDevice a (record b { bytes = bytes })
SameDevice-bytes a b bytes p = record {
  size = p.size;
  cnt = p.cnt;
  file_open = p.file_open;
  wrote = p.wrote;
  map_file = p.map_file;
}

-- Why there is no sector: the map's file cannot be written, or every sector is in use.
pub data Exhausted (st : Store) : Type 0 where
  unwritten : st.wrote ≡ false → Exhausted st
  all_used : ((j : ℕ) → j < st.map.map.bit_cnt → in_use st.map j ≡ true) → Exhausted st

-- A call of `get_sector` from `st`; the sectors of the map's file aside, only the new one changes.
pub data Got (st : Store) : Option ℕ × Store → Type 0 where
  got :
      {sector : ℕ} {st' : Store}
      → IsCovered st'
      → sector < st'.map.map.bit_cnt
      → SameDevice st st'
      → in_use st.map sector ≡ false
      → ((j : ℕ) → in_use st'.map j ≡ (if j == sector then true else in_use st.map j))
      → ((o : ℕ) → o < sector_size → st'.bytes sector o ≡ 0)
      → ((x : ℕ) → x ≢ sector → st.map_file x ≡ false → st'.bytes x ≡ st.bytes x)
      → Got st (some sector, st')
  full :
      {st' : Store}
      → SameSectors st.map st'.map
      → SameDevice st st'
      → ((x : ℕ) → st.map_file x ≡ false → st'.bytes x ≡ st.bytes x)
      → Exhausted st
      → Got st (none, st')

zeros : (n i : ℕ) → get_or {A = ℕ} (replicate n 0) i 0 ≡ 0
zeros zero i = refl
zeros (suc n) zero = refl
zeros (suc n) (suc i) = zeros n i

module _ (st : Store) (c : IsCovered st) where
  exhausted : Refusal st.map st.wrote 1 → Exhausted st
  exhausted (inl h) = unwritten (ground arith)
  exhausted (inr nowhere) = all_used (λ j h. elim (Bool-cases (in_use st.map j)) [
    | inl e ↦ e
    | inr e ↦ absurd (
        nowhere j (record {
          fits = omega arith;
          equal = λ i w.
              let at : i ≡ j = eq_of_== i j (sym (within_one j i) ∙ w) in ap (in_use st.map) at ∙ e;
        }))
  ])

  zero_sector-Got :
      (r : Option ℕ × FreeMap)
      → Allocated st.map st.wrote 1 r
      → Yields (zero_sector r.1 r.0 st) (Got st)
  unfolding zero_sector splice
  zero_sector-Got (none, m) (refused same why) =
      full same
        (record {
          size = refl;
          cnt = same.same_cnt;
          file_open = same.same_file;
          wrote = refl;
          map_file = refl;
        })
        (λ x q. rw q refl) (exhausted why)
  zero_sector-Got (some s, m) (granted run least f has) =
      let a : ltb s st.size ≡ true = ground (arith, run.fits, c.on_device) in
      rw a (
        got (record { valid = f.valid; on_device = omega (arith, f.same_cnt, c.on_device) })
          (omega (arith, f.same_cnt, run.fits))
          (record { size = refl; cnt = f.same_cnt; file_open = has; wrote = refl; map_file = refl })
          (run.equal s (within_one s s ∙ ==_self s)) (λ j. f.bits_of j ∙ rw (within_one s j) refl)
          (λ o h.
            rw (==_self s) (ground (arith, zeros 512 (o - 0), h, length-replicate {A = ℕ} 512 0)))
          (λ x h q. rw (==_ne x s h, q) refl))

  -- `get_sector` on a device that the map covers ends without a fault: it returns a sector that was
  -- free, which is then the only one more in use, filled with zeros, and no other sector but those of the
  -- map's file changes; or there is no sector, the map says what it did, and no such sector changes.
  pub get_sector-Got : Yields (get_sector st) (Got st)
  unfolding get_sector
  get_sector-Got =
      Yields-bind (Allocated st.map st.wrote 1) (Got st) (allocate st.wrote 1 st.map) _
        (allocate-Allocated st.map c.valid st.wrote 1 (omega arith))
        (λ (found, m) h. zero_sector-Got (found, m) h)

-- The map's file cannot be written, or at most `k` sectors are free.
pub data Crowded (st : Store) (k : ℕ) : Type 0 where
  no_file : st.wrote ≡ false → Crowded st k
  few :
      (free : List ℕ)
      → length free ≤ k
      → ((j : ℕ) → j < st.map.map.bit_cnt → in_use st.map j ≡ false → among j free ≡ true)
      → Crowded st k

pub Crowded-now : (st : Store) → Exhausted st → Crowded st 0
Crowded-now st (unwritten h) = no_file h
Crowded-now st (all_used h) =
    few [] (omega arith) (λ j lt free. absurd (ground (arith, h j lt, free)))

pub Crowded_more : (st : Store) (k m : ℕ) → k ≤ m → Crowded st k → Crowded st m
Crowded_more st k m le (no_file h) = no_file h
Crowded_more st k m le (few free short h) = few free (omega arith) h

-- What `can_allocate` of one sector leaves of the map: the sector that it tried stays in use.
unfoldable pub Lost : Store → Bool × Store → Type 0
Lost st (true, st') = (s : ℕ) × ((in_use st.map s ≡ false) × (in_use st'.map s ≡ true))
Lost st (false, st') = SameSectors st.map st'.map

-- `can_allocate` of one sector, a mere question, loses a sector whenever it says yes: a sector that
-- was free is in use afterwards. When it says no, the map says what it did.
pub can_allocate-Lost : (st : Store) → IsCovered st → Yields (can_allocate 1 st) (Lost st)
unfolding can_allocate can_allocate_loop give_back Lost
can_allocate-Lost st c =
    Yields-bind (Got st) (Lost st) (get_sector st) _ (get_sector-Got st c) answer
  where
    answer :
        (r : Option ℕ × Store)
        → Got st r
        → Yields
            (elim r.0 as (λ _. Option (Bool × Store)) [
              | none ↦ some (false, r.1)
              | some sector ↦ some (true, r.1)
            ])
            (Lost st)
    answer (some s, st') (got v lt same free now blank rest) =
        (s, (free, now s ∙ rw (==_self s) refl))
    answer (none, st') (full same device bytes why) = same
