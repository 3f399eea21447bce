-- ===== src/Directory/Enlarge.antt =====
-- directory.c: `dir_add_unsynched` to a directory without a free slot, which grows.
use group.Base.{
  ℕ, ◌+◌, ◌-◌, ◌*◌, ◌≤◌, ◌<◌, ◌≡◌, ◌≢◌, refl, sym, ap, ◌∙◌, Bool, true, false, ◌||◌, Option, none,
  some, List, [], ◌==◌, ltb, if◌then◌else◌, ◌>>=◌, update, length, arith, Bool-cases, inl, inr, ◌↔◌,
  eq_of_==, ne_of_==, Unless, Unless-bind, Unless-after, Unless-weaken, subst,
}
use group.Cache.{sector_size}
use group.Inode.{Store, Inode, max_sectors, bytes_to_sectors, inode_write_at}
use group.Inode.Read.{byte_at, contents}
use group.Inode.RoundTrip.{contents-eq}
use group.Inode.Longer.{IsSolid, IsSolid-IsFile}
use group.Inode.Alloc.{Crowded, Crowded_more}
use group.Inode.Grown.{Appended, AppendedR, inode_write_at-Appended}
use group.Directory.{
  DirEntry, entry_size, name_max, max_entries, in_use, inode_sector, free_slot_loop, fill_entry,
  lookup_unsynched, add_new, dir_add_unsynched,
}
use group.Directory.Names.{IsText, Calls, IsNames, Maps}
use group.Directory.Lookup.{slot, IsDir, Looked, fewer_than_max, lookup_unsynched-Looked}
use group.Directory.Slots.{
  contents-same, length-fill_entry, fill_entry-Calls, inode_sector-fill_entry,
}
use group.Directory.Change.{changed-IsNames, changed-OthersKept}
use group.Directory.Add.{FreeSlot, free, full, free_slot_loop-FreeSlot}

-- The slots with an unused one behind them.
abbrev padded : (ℕ → DirEntry) → ℕ → ℕ → DirEntry
padded slots cnt j = if j == cnt then [] else slots j

module _ (slots : ℕ → DirEntry) (cnt : ℕ) where
  pad : (j : ℕ) → j < cnt → padded slots cnt j ≡ slots j
  pad j h = let e : (j == cnt) ≡ false = ground arith in rw e refl

  unpad : (j : ℕ) (name : List ℕ) → j < cnt + 1 → Calls (padded slots cnt j) name → j < cnt
  unpad j name h c = elim (Bool-cases (j == cnt)) [
    | inl e ↦ let u = c.used in let z = rw e at u in absurd (ground (arith, z))
    | inr e ↦ ground (arith, ne_of_== j cnt e)
  ]

  padded-Maps : (n : List ℕ) (s : ℕ) → Maps slots cnt n s ↔ Maps (padded slots cnt) (cnt + 1) n s
  padded-Maps n s = (there, back)
    where
      there : Maps slots cnt n s → Maps (padded slots cnt) (cnt + 1) n s
      there m = record {
        at = m.at;
        inside = omega (arith, m.inside);
        calls = rw (pad m.at m.inside) m.calls;
        leads = rw (pad m.at m.inside) m.leads;
      }

      back : Maps (padded slots cnt) (cnt + 1) n s → Maps slots cnt n s
      back m =
          let h = unpad m.at n m.inside m.calls in
          record {
            at = m.at;
            inside = h;
            calls = subst (λ e. Calls e n) (pad m.at h) m.calls;
            leads = sym (ap inode_sector (pad m.at h)) ∙ m.leads;
          }

  padded-IsNames : IsNames slots cnt → IsNames (padded slots cnt) (cnt + 1)
  padded-IsNames i = record {
    named = λ j h u. elim (Bool-cases (j == cnt)) [
      | inl e ↦ let z = rw e at u in absurd (ground (arith, z))
      | inr e ↦
          let lt : j < cnt = ground (arith, ne_of_== j cnt e) in
          rw (pad j lt) (i.named j lt (sym (ap in_use (pad j lt)) ∙ u))
    ];
    unique = λ j k p q s a b.
        let hj = unpad j s p a in
        let hk = unpad k s q b in
        i.unique j k hj hk s (subst (λ e. Calls e s) (pad j hj) a)
          (subst (λ e. Calls e s) (pad k hk) b);
  }

-- One slot more, in which the name leads to the sector; every other name leads where it led.
pub record Enlarged (st : Store) (dir cnt : ℕ) (name : List ℕ) (sector : ℕ) (st' : Store)
    : Type 0 where
  pub solid : IsSolid st' dir ((cnt + 1) * entry_size)
  pub names : IsNames (slot st' dir) (cnt + 1)
  pub maps : Maps (slot st' dir) (cnt + 1) name sector
  pub others :
      (n : List ℕ) (s : ℕ)
      → n ≢ name
      → Maps (slot st dir) cnt n s ↔ Maps (slot st' dir) (cnt + 1) n s

-- The directory as it was.
pub record Unchanged (st : Store) (dir cnt : ℕ) (st' : Store) : Type 0 where
  pub solid : IsSolid st' dir (cnt * entry_size)
  pub slots : (j : ℕ) → j < cnt → slot st' dir j ≡ slot st dir j

abbrev pub EnlargedR : Store → ℕ → ℕ → List ℕ → ℕ → Bool × Store → Type 0
EnlargedR st dir cnt name sector (true, st') =
    ((s : ℕ) → Maps (slot st dir) cnt name s → ⊥) × Enlarged st dir cnt name sector st'
EnlargedR st dir cnt name sector (false, st') = Unchanged st dir cnt st'

module _ (st : Store) (dir : Inode) (cnt : ℕ) (solid : IsSolid st dir.sector (cnt * entry_size))
    (names : IsNames (slot st dir.sector) cnt) (allowed : dir.deny_write_cnt ≡ 0)
    (no_free : (j : ℕ) → j < cnt → in_use (slot st dir.sector j) ≡ true)
    (room : (cnt + 1) * entry_size ≤ max_sectors * sector_size) (name : List ℕ) (t : IsText name)
    (some_char : 0 < length name) (short : length name ≤ name_max) (sector : ℕ)
    (in_word : sector < 4294967296) where
  well_formed : IsDir st dir.sector cnt
  well_formed = record { file = IsSolid-IsFile st dir.sector (cnt * 20) solid; names = names }

  kept_slots :
      (st' : Store)
      → ((pos : ℕ) → pos < cnt * 20 → byte_at st' dir.sector pos ≡ byte_at st dir.sector pos)
      → (j : ℕ) → j < cnt
      → slot st' dir.sector j ≡ slot st dir.sector j
  kept_slots st' old j h =
      contents-same st st' dir.sector (j * 20) 20 (λ i lt. old (j * 20 + i) (omega arith))

  enlarged :
      (e : DirEntry)
      → length e ≡ entry_size
      → ((j : ℕ) → j < cnt → Calls (slot st dir.sector j) name → ⊥)
      → (st' : Store) → Appended st dir.sector (cnt * 20) (fill_entry e name sector) st'
      → Enlarged st dir.sector cnt name sector st'
  enlarged e whole fresh st' a = record {
    solid = subst (IsSolid st' dir.sector) size a.solid;
    names =
        changed-IsNames (padded (slot st dir.sector) cnt) (slot st' dir.sector) (cnt + 1) cnt entry
          (omega arith) changed (padded-IsNames (slot st dir.sector) cnt names)
          (λ u. (name, calls.named)) (λ j h s x y. absurd (taken j h s x y));
    maps = record {
      at = cnt;
      inside = omega arith;
      calls = rw now calls;
      leads = ap inode_sector now ∙ inode_sector-fill_entry e whole name t short sector in_word;
    };
    others = λ n s ne.
        let (p, q) = padded-Maps (slot st dir.sector) cnt n s in
        let (f, g) =
          changed-OthersKept (padded (slot st dir.sector) cnt) (slot st' dir.sector) (cnt + 1) cnt
            entry (omega arith) changed name (λ n ne c. empty n c)
            (λ n ne c. let x = c.named in let y = calls.named in ne (cc)) n s ne in
        (λ m. f (p m), λ m. q (g m));
  }
    where
      entry : DirEntry
      entry = fill_entry e name sector

      long : length (fill_entry e name sector) ≡ 20
      long = length-fill_entry e whole name t short sector

      size : cnt * 20 + length (fill_entry e name sector) ≡ (cnt + 1) * 20
      size = omega (arith, long)

      calls : Calls (fill_entry e name sector) name
      calls = fill_entry-Calls e whole name t short sector

      now : slot st' dir.sector cnt ≡ fill_entry e name sector
      now =
          ap (contents st' dir.sector (cnt * 20)) (sym long)
          ∙ contents-eq st' dir.sector (cnt * 20) (fill_entry e name sector) (λ i h. a.new i h)

      changed :
          (j : ℕ)
          → j < cnt + 1
          → slot st' dir.sector j
            ≡ update (padded (slot st dir.sector) cnt) cnt (fill_entry e name sector) j
      changed j h = elim (Bool-cases (j == cnt)) [
        | inl q ↦ rw q (rw (eq_of_== j cnt q) now)
        | inr q ↦ rw q (kept_slots st' a.old j (ground (arith, ne_of_== j cnt q)))
      ]

      taken :
          (j : ℕ)
          → j < cnt + 1
          → (s : List ℕ) → Calls (fill_entry e name sector) s
          → Calls (padded (slot st dir.sector) cnt j) s
          → ⊥
      taken j h s x y =
          let lt = unpad (slot st dir.sector) cnt j s h y in
          let n = x.named in
          let m = calls.named in
          let same : s ≡ name = cc in
          fresh j lt (
            subst (λ z. Calls (slot st dir.sector j) z) same
              (subst (λ z. Calls z s) (pad (slot st dir.sector) cnt j lt) y))

      empty : (n : List ℕ) → Calls (padded (slot st dir.sector) cnt cnt) n → ⊥
      empty n c = let lt = unpad (slot st dir.sector) cnt cnt n (omega arith) c in omega (arith, lt)

  appended :
      (e : DirEntry)
      → length e ≡ entry_size
      → ((j : ℕ) → j < cnt → Calls (slot st dir.sector j) name → ⊥)
      → (n : ℕ) (st' : Store)
      → AppendedR st dir.sector (cnt * 20) (fill_entry e name sector) (n, st')
      → EnlargedR st dir.sector cnt name sector (n == 20, st')
  appended e whole fresh n st' (inl (all, a)) =
      rw (all, length-fill_entry e whole name t short sector)
        ((λ s m. fresh m.at m.inside m.calls), enlarged e whole fresh st' a)
  appended e whole fresh n st' (inr (none_written, r)) =
      rw none_written (record { solid = r.solid; slots = kept_slots st' r.old })

  abbrev Full : Type 0
  Full = Crowded st 3

  add_at_end :
      (e : DirEntry)
      → length e ≡ entry_size
      → ((j : ℕ) → j < cnt → Calls (slot st dir.sector j) name → ⊥)
      → Unless Full (add_new e dir name sector st none) (EnlargedR st dir.sector cnt name sector)
  unfolding add_new
  add_at_end e whole fresh =
      Unless-after Full (FreeSlot (slot st dir.sector) cnt)
        (EnlargedR st dir.sector cnt name sector) (free_slot_loop max_entries dir.sector e 0 st) _
        (free_slot_loop-FreeSlot st dir.sector cnt well_formed max_entries 0 e whole (omega arith)
          (omega (arith, fewer_than_max st dir.sector cnt well_formed.file))
          (λ i h. absurd (omega arith)))
        write
    where
      write :
          (r : DirEntry × ℕ)
          → FreeSlot (slot st dir.sector) cnt r
          → Unless {A = Bool × Store} Full
              (inode_write_at dir (fill_entry r.0 name sector) r.1 st >>= λ (written, st).
                some (written == 20, st))
              (EnlargedR st dir.sector cnt name sector)
      write r (free k h u) = absurd (ground (arith, no_free k h, u))
      write r (full e' l used) =
          let long = length-fill_entry e' l name t short sector in
          Unless-bind Full (AppendedR st dir.sector (cnt * 20) (fill_entry e' name sector))
            (EnlargedR st dir.sector cnt name sector)
            (inode_write_at dir (fill_entry e' name sector) (cnt * 20) st) _
            (Unless-weaken Full
              (Crowded st (
                3
                * (bytes_to_sectors (cnt * 20 + length (fill_entry e' name sector))
                    - bytes_to_sectors (cnt * 20))))
              (AppendedR st dir.sector (cnt * 20) (fill_entry e' name sector))
              (inode_write_at dir (fill_entry e' name sector) (cnt * 20) st)
              (Crowded_more st _ 3 (omega (arith, long)))
              (inode_write_at-Appended st dir.sector (cnt * 20) (fill_entry e' name sector) solid
                (omega (arith, long)) (omega (arith, long)) dir refl allowed))
            (λ (n, st') a. appended e' l fresh n st' a)

  pub dir_add_unsynched-Enlarged :
      (e : DirEntry)
      → length e ≡ entry_size
      → Unless
          (Crowded st 3)
          (dir_add_unsynched e dir name sector st)
          (EnlargedR st dir.sector cnt name sector)
  unfolding dir_add_unsynched add_new
  dir_add_unsynched-Enlarged e whole =
      let ok : (length name == 0 || ltb 14 (length name)) ≡ false = ground arith in
      rw ok (
        Unless-after Full (Looked (slot st dir.sector) cnt name 0)
          (EnlargedR st dir.sector cnt name sector) (lookup_unsynched dir.sector name st) _
          (lookup_unsynched-Looked st dir.sector cnt well_formed name t) add)
    where
      add :
          (found : Option (DirEntry × ℕ))
          → Looked (slot st dir.sector) cnt name 0 found
          → Unless Full
              (add_new e dir name sector st found)
              (EnlargedR st dir.sector cnt name sector)
      add none fresh = add_at_end e whole (λ i h. fresh i (omega arith) h)
      add (some found) l = record { solid = solid; slots = λ j h. refl }
