-- ===== src/Directory/Add.antt =====
-- directory.c: `dir_add_unsynched`.
use group.Base.{
  ℕ, zero, suc, ◌+◌, ◌*◌, ◌≤◌, ◌<◌, ◌≡◌, refl, ap, ◌∙◌, Bool, true, false, ◌||◌, Option, none, some,
  List, ◌==◌, ltb, ◌>>=◌, update, length, arith, Bool-cases, inl, inr, eq_of_==, ne_of_==, Yields,
  Yields-bind,
}
use group.Inode.{Store, Inode, inode_write_at}
use group.Inode.Write.{Written, WrittenR, inode_write_at-Written}
use group.Directory.{
  DirEntry, entry_size, name_max, max_entries, in_use, inode_sector, free_slot_loop, fill_entry,
  lookup_unsynched, dir_add_unsynched, add_new,
}
use group.Directory.Names.{IsText, Calls, Maps}
use group.Directory.Lookup.{
  slot, IsDir, Looked, read_slot, read_end, whole_slot, fewer_than_max, lookup_unsynched-Looked,
}
use group.Directory.Slots.{
  length-fill_entry, fill_entry-Calls, inode_sector-fill_entry, slot-Written,
}
use group.Directory.Change.{OthersKept, here, changed-IsNames, changed-OthersKept}

-- Where the loop stops: at a free slot with the slot in `e`, or behind the last.
pub data FreeSlot (slots : ℕ → DirEntry) (cnt : ℕ) : DirEntry × ℕ → Type 0 where
  free : (j : ℕ) → j < cnt → in_use (slots j) ≡ false → FreeSlot slots cnt (slots j, j * entry_size)
  full :
      (e : DirEntry)
      → length e ≡ entry_size
      → ((j : ℕ) → j < cnt → in_use (slots j) ≡ true)
      → FreeSlot slots cnt (e, cnt * entry_size)

module _ (st : Store) (dir cnt : ℕ) (d : IsDir st dir cnt) where
  pub free_slot_loop-FreeSlot :
      (fuel k : ℕ) (e : DirEntry)
      → length e ≡ entry_size
      → k ≤ cnt
      → cnt < fuel + k
      → ((j : ℕ) → j < k → in_use (slot st dir j) ≡ true)
      → Yields (free_slot_loop fuel dir e (k * entry_size) st) (FreeSlot (slot st dir) cnt)
  unfolding free_slot_loop
  free_slot_loop-FreeSlot zero k e whole p q used = absurd (omega arith)
  free_slot_loop-FreeSlot (suc fuel) k e whole p q used = elim (Bool-cases (k == cnt)) [
    | inl s ↦
        rw (eq_of_== k cnt s, read_end st dir cnt d.file)
          (full e whole (λ j lt. used j (omega (arith, eq_of_== k cnt s))))
    | inr s ↦
        let lt : k < cnt = ground (arith, ne_of_== k cnt s) in
        let step : k * 20 + 20 ≡ (k + 1) * 20 = omega arith in
        rw (read_slot st dir cnt d.file k lt, whole_slot st dir k, step)
          (elim (Bool-cases (in_use (slot st dir k))) [
            | inl u ↦ rw u (
                free_slot_loop-FreeSlot fuel (k + 1) (slot st dir k)
                  (eq_of_== _ _ (whole_slot st dir k)) (omega arith) (omega arith)
                  (λ j lj. elim (Bool-cases (j == k)) [
                    | inl a ↦ ap (λ x. in_use (slot st dir x)) (eq_of_== j k a) ∙ u
                    | inr a ↦ used j (ground (arith, ne_of_== j k a))
                  ]))
            | inr u ↦ rw u (free k lt u)
          ])
  ]

-- The name now leads to the sector; every other name leads where it led.
pub record Added (st : Store) (dir cnt : ℕ) (name : List ℕ) (sector : ℕ) (st' : Store)
    : Type 0 where
  pub is_dir : IsDir st' dir cnt
  pub maps : Maps (slot st' dir) cnt name sector
  pub others : OthersKept (slot st dir) (slot st' dir) cnt name

-- By the result of the addition; it refuses a name that is there already.
abbrev pub AddedR : Store → ℕ → ℕ → List ℕ → ℕ → Bool × Store → Type 0
AddedR st dir cnt name sector (true, st') =
    ((s : ℕ) → Maps (slot st dir) cnt name s → ⊥) × Added st dir cnt name sector st'
AddedR st dir cnt name sector (false, st') = ((s : ℕ) × Maps (slot st dir) cnt name s) × (st' ≡ st)

module _ (st : Store) (dir : Inode) (cnt : ℕ) (d : IsDir st dir.sector cnt)
    (allowed : dir.deny_write_cnt ≡ 0) (name : List ℕ) (t : IsText name)
    (some_char : 0 < length name) (short : length name ≤ name_max) (sector : ℕ)
    (in_word : sector < 4294967296) where
  -- A free slot is filled.
  filled :
      (k : ℕ)
      → k < cnt
      → in_use (slot st dir.sector k) ≡ false
      → ((j : ℕ) → j < cnt → Calls (slot st dir.sector j) name → ⊥)
      → (w : ℕ) (st' : Store)
      → Written st dir.sector
          (cnt * entry_size)
          (fill_entry (slot st dir.sector k) name sector)
          (k * entry_size)
          w
          st'
      → Added st dir.sector cnt name sector st'
  filled k lt unused fresh w st' wr = record {
    is_dir = record {
      file = wr.file;
      names =
          changed-IsNames (slot st dir.sector) (slot st' dir.sector) cnt k entry lt changed d.names
            (λ u. (name, calls.named))
            (λ j h s a b. absurd (
              fresh j h (record {
                used = b.used;
                named = let n = a.named in let m = b.named in let c = calls.named in cc;
              })));
    };
    maps = record {
      at = k;
      inside = lt;
      calls = rw now calls;
      leads = ap inode_sector now ∙ inode_sector-fill_entry old whole name t short sector in_word;
    };
    others =
        changed-OthersKept (slot st dir.sector) (slot st' dir.sector) cnt k entry lt changed name
          (λ n ne c. ground (arith, unused, c.used))
          (λ n ne c. let a = c.named in let b = calls.named in ne (cc));
  }
    where
      old : DirEntry
      old = slot st dir.sector k

      whole : length (slot st dir.sector k) ≡ 20
      whole = eq_of_== (length (slot st dir.sector k)) 20 (whole_slot st dir.sector k)

      entry : DirEntry
      entry = fill_entry (slot st dir.sector k) name sector

      calls : Calls (fill_entry (slot st dir.sector k) name sector) name
      calls = fill_entry-Calls old whole name t short sector

      changed :
          (j : ℕ)
          → j < cnt
          → slot st' dir.sector j
            ≡ update (slot st dir.sector) k (fill_entry (slot st dir.sector k) name sector) j
      changed =
          slot-Written st st' dir.sector cnt k w entry
            (length-fill_entry old whole name t short sector) lt wr

      now : slot st' dir.sector k ≡ fill_entry (slot st dir.sector k) name sector
      now = here (slot st dir.sector) (slot st' dir.sector) cnt k entry lt changed

  added :
      (e : DirEntry)
      → length e ≡ entry_size
      → (j : ℕ) → j < cnt
      → in_use (slot st dir.sector j) ≡ false
      → ((j : ℕ) → j < cnt → Calls (slot st dir.sector j) name → ⊥)
      → Yields (add_new e dir name sector st none) (AddedR st dir.sector cnt name sector)
  unfolding add_new
  added e whole j lt unused fresh =
      Yields-bind (FreeSlot (slot st dir.sector) cnt) _
        (free_slot_loop max_entries dir.sector e 0 st) _
        (free_slot_loop-FreeSlot st dir.sector cnt d max_entries 0 e whole (omega arith)
          (omega (arith, fewer_than_max st dir.sector cnt d.file)) (λ i h. absurd (omega arith)))
        (λ r f. write r f)
    where
      written :
          (k : ℕ)
          → k < cnt
          → in_use (slot st dir.sector k) ≡ false
          → (w : ℕ) (st' : Store)
          → Written st dir.sector
              (cnt * entry_size)
              (fill_entry (slot st dir.sector k) name sector)
              (k * entry_size)
              w
              st'
          → AddedR st dir.sector cnt name sector (w == 20, st')
      written k h u w st' wr =
          let all : w ≡ 20 =
            wr.all_written
            ∙ length-fill_entry (slot st dir.sector k)
                (eq_of_== (length (slot st dir.sector k)) 20 (whole_slot st dir.sector k)) name t
                short sector in
          rw (all) ((λ s m. fresh m.at m.inside m.calls), filled k h u fresh w st' wr)

      write :
          (r : DirEntry × ℕ)
          → FreeSlot (slot st dir.sector) cnt r
          → Yields
              (inode_write_at dir (fill_entry r.0 name sector) r.1 st >>= λ (written, st).
                some (written == 20, st))
              (AddedR st dir.sector cnt name sector)
      write r (free k h u) =
          let l =
            length-fill_entry (slot st dir.sector k)
              (eq_of_== (length (slot st dir.sector k)) 20 (whole_slot st dir.sector k)) name t
              short sector in
          Yields-bind
            (WrittenR st dir.sector (cnt * 20) (fill_entry (slot st dir.sector k) name sector)
              (k * 20))
            _ (inode_write_at dir (fill_entry (slot st dir.sector k) name sector) (k * 20) st) _
            (inode_write_at-Written dir.sector (cnt * 20) st dir
              (fill_entry (slot st dir.sector k) name sector) (k * 20) refl d.file allowed
              (omega arith) (omega (arith, l)))
            (λ (w, st') wr. written k h u w st' wr)
      write r (full e' l used) = absurd (ground (arith, used j lt, unused))

  -- `dir_add_unsynched` of a name of 1 to 14 characters to a well-formed directory with a free slot,
  -- while nobody denies writes, ends without a fault. When no entry has the name it returns true, the
  -- name then leads to the sector, and every other name leads where it led; when one has, it returns
  -- false and changes nothing.
  pub dir_add_unsynched-Added :
      (e : DirEntry)
      → length e ≡ entry_size
      → (j : ℕ) → j < cnt
      → in_use (slot st dir.sector j) ≡ false
      → Yields (dir_add_unsynched e dir name sector st) (AddedR st dir.sector cnt name sector)
  unfolding dir_add_unsynched add_new
  dir_add_unsynched-Added e whole j lt unused =
      let ok : (length name == 0 || ltb 14 (length name)) ≡ false = ground arith in
      rw ok (
        Yields-bind (Looked (slot st dir.sector) cnt name 0) _ (lookup_unsynched dir.sector name st)
          _ (lookup_unsynched-Looked st dir.sector cnt d name t) add)
    where
      add :
          (found : Option (DirEntry × ℕ))
          → Looked (slot st dir.sector) cnt name 0 found
          → Yields (add_new e dir name sector st found) (AddedR st dir.sector cnt name sector)
      add none fresh = added e whole j lt unused (λ i h. fresh i (omega arith) h)
      add (some (x, ofs)) (i, p, q, r, s, c) = (
        (
          inode_sector (slot st dir.sector i),
          record { at = i; inside = q; calls = c; leads = refl },
        ),
        refl,
      )
