-- ===== src/Directory/Lookup.antt =====
-- directory.c: the slots of a directory in its file, and `lookup_unsynched`.
use group.Base.{
  ℕ, zero, suc, ◌+◌, ◌-◌, ◌*◌, ◌≤◌, ◌<◌, ◌≡◌, refl, sym, ap, ◌∙◌, Bool, true, false, Option, none,
  some, List, [], ◌==◌, if◌then◌else◌, min, length, arith, Bool-cases, inl, inr, Yields,
  Yields-bind, Yields-mono, eq_of_==, ne_of_==,
}
use group.Inode.{Store, inode_read_at}
use group.Inode.Blocks.{IsFile}
use group.Inode.Read.{contents, inode_read_at-contents}
use group.Directory.{DirEntry, entry_size, max_entries, matches, lookup_loop, lookup_unsynched}
use group.Directory.Names.{IsText, Calls, IsNames, matches-Calls}

-- Slot `k` of the directory.
abbrev pub slot : Store → ℕ → ℕ → DirEntry
slot st dir k = contents st dir (k * entry_size) entry_size

-- A directory of `cnt` slots.
pub record IsDir (st : Store) (dir cnt : ℕ) : Type 0 where
  pub file : IsFile st dir (cnt * entry_size)
  pub names : IsNames (slot st dir) cnt

-- The slot found, the offset with it; or no slot from `k` on has the name.
abbrev pub Looked : (ℕ → DirEntry) → ℕ → List ℕ → ℕ → Option (DirEntry × ℕ) → Type 0
Looked slots cnt name k none = (j : ℕ) → k ≤ j → j < cnt → Calls (slots j) name → ⊥
Looked slots cnt name k (some (e, ofs)) =
    (j : ℕ) × (k ≤ j) × (j < cnt) × (ofs ≡ j * entry_size) × (e ≡ slots j) × Calls (slots j) name

length-contents : (st : Store) (ino pos n : ℕ) → length (contents st ino pos n) ≡ n
unfolding contents
length-contents st ino pos zero = refl
length-contents st ino pos (suc n) = ap suc (length-contents st ino (pos + 1) n)

pub whole_slot : (st : Store) (dir k : ℕ) → (length (slot st dir k) == entry_size) ≡ true
whole_slot st dir k = rw (length-contents st dir (k * 20) 20) refl

module _ (st : Store) (dir cnt : ℕ) (f : IsFile st dir (cnt * entry_size)) where
  pub read_slot :
      (k : ℕ) → k < cnt → inode_read_at dir entry_size (k * entry_size) st ≡ some (slot st dir k)
  read_slot k h =
      let m : min 20 (cnt * 20 - k * 20) ≡ 20 = ground arith in
      inode_read_at-contents st dir (cnt * 20) f (omega (arith, f.fits)) 20 (k * 20)
        (omega (arith, f.fits))
      ∙ rw m refl

  pub read_end : inode_read_at dir entry_size (cnt * entry_size) st ≡ some []
  unfolding contents
  read_end =
      let m : min 20 (cnt * 20 - cnt * 20) ≡ 0 = ground arith in
      inode_read_at-contents st dir (cnt * 20) f (omega (arith, f.fits)) 20 (cnt * 20)
        (omega (arith, f.fits))
      ∙ rw m refl

  pub fewer_than_max : cnt < max_entries
  fewer_than_max = omega (arith, f.fits)

module _ (st : Store) (dir cnt : ℕ) (d : IsDir st dir cnt) (name : List ℕ) (t : IsText name) where
  past :
      (k : ℕ)
      → (Calls (slot st dir k) name → ⊥)
      → (r : Option (DirEntry × ℕ)) → Looked (slot st dir) cnt name (k + 1) r
      → Looked (slot st dir) cnt name k r
  past k other none h = λ j p q c. elim (Bool-cases (j == k)) [
    | inl e ↦ other (rw (sym (eq_of_== j k e)) c)
    | inr e ↦ h j (ground (arith, ne_of_== j k e)) q c
  ]
  past k other (some (e, ofs)) (j, p, q, r, s, c) = (j, omega arith, q, r, s, c)

  lookup_loop-Looked :
      (fuel k : ℕ)
      → k ≤ cnt
      → cnt < fuel + k
      → Yields (lookup_loop fuel dir name (k * entry_size) st) (Looked (slot st dir) cnt name k)
  unfolding lookup_loop
  lookup_loop-Looked zero k p q = absurd (omega arith)
  lookup_loop-Looked (suc fuel) k p q = elim (Bool-cases (k == cnt)) [
    | inl e ↦ rw (eq_of_== k cnt e, read_end st dir cnt d.file) (λ j a b c. absurd (omega arith))
    | inr e ↦
        let lt : k < cnt = ground (arith, ne_of_== k cnt e) in
        let step : k * 20 + 20 ≡ (k + 1) * 20 = omega arith in
        rw (read_slot st dir cnt d.file k lt, whole_slot st dir k, step)
          (Yields-bind
            (λ b. if b then Calls (slot st dir k) name else (Calls (slot st dir k) name → ⊥)) _
            (matches name (slot st dir k)) _
            (matches-Calls (slot st dir k) name t (d.names.named k lt))
            (λ b c. branch lt (lookup_loop-Looked fuel (k + 1) (omega arith) (omega arith)) b c))
  ]
    where
      branch :
          k < cnt
          → Yields
              (lookup_loop fuel dir name ((k + 1) * 20) st)
              (Looked (slot st dir) cnt name (k + 1))
          → (b : Bool)
          → (if b then Calls (slot st dir k) name else (Calls (slot st dir k) name → ⊥))
          → Yields
              (if b
                then some (some (slot st dir k, k * 20))
                else lookup_loop fuel dir name ((k + 1) * 20) st)
              (Looked (slot st dir) cnt name k)
      branch lt again true c = (k, omega arith, lt, refl, refl, c)
      branch lt again false c =
          Yields-mono (Looked (slot st dir) cnt name (k + 1)) (Looked (slot st dir) cnt name k) _
            again (past k c)

  -- `lookup_unsynched` in a well-formed directory ends without a fault. It finds the entry of the name
  -- and its offset, or returns false when no slot has the name.
  pub lookup_unsynched-Looked :
      Yields (lookup_unsynched dir name st) (Looked (slot st dir) cnt name 0)
  unfolding lookup_unsynched
  lookup_unsynched-Looked =
      lookup_loop-Looked max_entries 0 (omega arith)
        (omega (arith, fewer_than_max st dir cnt d.file))
