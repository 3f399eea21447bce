-- ===== src/Directory/Remove.antt =====
-- directory.c: `dir_remove` of an entry whose inode is open, as its callers have it.
use group.Base.{
  ℕ, ◌*◌, ◌<◌, ◌≡◌, ◌≢◌, refl, sym, ap, ◌∙◌, Bool, true, false, Option, none, some, List, ◌==◌,
  ◌>>=◌, ◌>>◌, assert, update, length, set, arith, Bool-cases, inl, inr, eq_of_==, ne_of_==, subst,
  Yields, Yields-bind, Yields-chain, length-set, get_or-set_self,
}
use group.Inode.{Store, Inode, inode_write_at}
use group.Inode.Write.{Written, WrittenR, inode_write_at-Written}
use group.Inode.Table.{inode_open, inode_remove, inode_close}
use group.Inode.Counts.{is_removed, openers, IsTable, Opened}
use group.Directory.{
  DirEntry, entry_size, in_use, inode_sector, inode_at, lookup_unsynched, remove_found, dir_remove,
}
use group.Directory.Names.{IsText, Calls, Maps}
use group.Directory.Lookup.{slot, IsDir, Looked, whole_slot, lookup_unsynched-Looked}
use group.Directory.Slots.{slot-Written}
use group.Directory.Change.{OthersKept, here, elsewhere, changed-IsNames, changed-OthersKept}
use group.Directory.Entries.{
  denied, Writable, denied-Writable, SameMarks, MarkedClosed, marked_closed, reopened,
}

-- The directory without the name, and the inode marked for its last close.
pub record Removed (st : Store) (dir cnt : ℕ) (name : List ℕ) (sector : ℕ) (t : List Inode)
    (t' : List Inode) (st' : Store) : Type 0 where
  pub is_dir : IsDir st' dir cnt
  pub gone : (s : ℕ) → Maps (slot st' dir) cnt name s → ⊥
  pub others : OthersKept (slot st dir) (slot st' dir) cnt name
  pub sound : IsTable t'
  pub counts : (x : ℕ) → openers x t' ≡ openers x t
  pub marked : is_removed sector t' ≡ true
  pub marks : (x : ℕ) → x ≢ sector → is_removed x t' ≡ is_removed x t

abbrev pub RemovedR : Store → ℕ → ℕ → List ℕ → List Inode → Bool × (List Inode × Store) → Type 0
RemovedR st dir cnt name t (true, (t', st')) =
    (sector : ℕ) × Maps (slot st dir) cnt name sector × Removed st dir cnt name sector t t' st'
RemovedR st dir cnt name t (false, (t', st')) =
    ((s : ℕ) → Maps (slot st dir) cnt name s → ⊥) × (t' ≡ t) × (st' ≡ st)

module _ (st : Store) (dir cnt : ℕ) (d : IsDir st dir cnt) (name : List ℕ) (k : ℕ) (lt : k < cnt)
    (calls : Calls (slot st dir k) name) (t : List Inode) (ok : IsTable t)
    (is_open : 0 < openers (inode_sector (slot st dir k)) t) where
  abbrev erased : DirEntry
  erased = set (slot st dir k) 19 0

  whole : length erased ≡ 20
  whole =
      length-set (slot st dir k) 19 0 ∙ eq_of_== (length (slot st dir k)) 20 (whole_slot st dir k)

  unused : in_use erased ≡ false
  unused =
      rw
        (get_or-set_self (slot st dir k) 19 0 0
          (omega (arith, whole, length-set (slot st dir k) 19 0)))
        refl

  -- The names after the write of the slot.
  erase :
      (w : ℕ) (st' : Store)
      → Written st dir (cnt * entry_size) erased (k * entry_size) w st'
      → (IsDir st' dir cnt)
        × ((s : ℕ) → Maps (slot st' dir) cnt name s → ⊥)
        × OthersKept (slot st dir) (slot st' dir) cnt name
  erase w st' wr = (
    record {
      file = wr.file;
      names =
          changed-IsNames (slot st dir) (slot st' dir) cnt k erased lt changed d.names
            (λ u. absurd (ground (arith, u, unused)))
            (λ j h s a b. absurd (let q = a.used in ground (arith, q, unused)));
    },
    λ s m. lost m,
    changed-OthersKept (slot st dir) (slot st' dir) cnt k erased lt changed name
        (λ n ne c. let a = c.named in let b = calls.named in ne (cc))
        (λ n ne c. let q = c.used in ground (arith, q, unused)),
  )
    where
      changed :
          (j : ℕ) → j < cnt → slot st' dir j ≡ update (slot st dir) k (set (slot st dir k) 19 0) j
      changed = slot-Written st st' dir cnt k w erased whole lt wr

      lost : {s : ℕ} → Maps (slot st' dir) cnt name s → ⊥
      lost m = elim (Bool-cases (m.at == k)) [
        | inl e ↦
            let q = m.calls.used in
            let at = eq_of_== m.at k e in
            let h = here (slot st dir) (slot st' dir) cnt k erased lt changed in
            ground (arith, unused, sym (ap in_use (ap (slot st' dir) at ∙ h)) ∙ q)
        | inr e ↦
            let ne = ne_of_== m.at k e in
            let old =
              elsewhere (slot st dir) (slot st' dir) cnt k erased lt changed m.at m.inside ne in
            ne
              (d.names.unique m.at k m.inside lt name (subst (λ x. Calls x name) old m.calls) calls)
      ]

  removed :
      (a : denied dir t ≡ some 0)
      → Yields
          (remove_found dir (some (slot st dir k, k * entry_size)) (t, st))
          (RemovedR st dir cnt name t)
  unfolding remove_found
  removed a =
      Yields-bind (λ t₁. Opened (inode_sector (slot st dir k)) t t₁ × SameMarks t t₁) _
        (inode_open true (inode_sector (slot st dir k)) t) _
        (reopened (inode_sector (slot st dir k)) t ok is_open)
        (λ t₁ (o, m). write t₁ o m (denied-Writable dir t₁ (m.denial dir ∙ a)))
    where
      result :
          (st' : Store)
          → (IsDir st' dir cnt)
            × ((s : ℕ) → Maps (slot st' dir) cnt name s → ⊥)
            × OthersKept (slot st dir) (slot st' dir) cnt name
          → (t' : List Inode) → MarkedClosed (inode_sector (slot st dir k)) t t'
          → RemovedR st dir cnt name t (true, (t', st'))
      result st' (is_dir, gone, others) t' c = (
        inode_sector (slot st dir k),
        record { at = k; inside = lt; calls = calls; leads = refl },
        record {
          is_dir = is_dir;
          gone = gone;
          others = others;
          sound = c.sound;
          counts = c.counts;
          marked = c.marked;
          marks = c.marks;
        },
      )

      write :
          (t₁ : List Inode)
          → Opened (inode_sector (slot st dir k)) t t₁
          → SameMarks t t₁
          → Writable dir t₁
          → Yields
              (inode_at dir t₁ >>= λ inode.
                inode_write_at inode (set (slot st dir k) 19 0) (k * 20) st >>= λ (written, st').
                assert (written == 20)
                >> (inode_remove (inode_sector (slot st dir k)) t₁ >>= λ t₂.
                    inode_close (inode_sector (slot st dir k)) (t₂, st') >>= λ fs. some (true, fs)))
              (RemovedR st dir cnt name t)
      write t₁ o m w = rw (w.found) (
          Yields-bind (WrittenR st dir (cnt * 20) erased (k * 20)) _
            (inode_write_at w.inode erased (k * 20) st) _
            (inode_write_at-Written dir (cnt * 20) st w.inode erased (k * 20) w.here d.file
              w.allowed (omega arith) (omega (arith, whole)))
            (λ (written, st') wr.
              let all : (written == 20) ≡ true = ground (arith, wr.all_written, whole) in
              rw all (
                Yields-chain (λ r. MarkedClosed (inode_sector (slot st dir k)) t r.0 × (r.1 ≡ st'))
                  (RemovedR st dir cnt name t) (inode_remove (inode_sector (slot st dir k)) t₁)
                  (λ t₂. inode_close (inode_sector (slot st dir k)) (t₂, st')) _
                  (marked_closed (inode_sector (slot st dir k)) t t₁ o m is_open st')
                  (λ (t₃, st₃) (c, same). rw same (result st' (erase written st' wr) t₃ c)))))

-- `dir_remove` in a well-formed directory that is open and can be written, when the inodes of its
-- entries are open, ends without a fault. When an entry has the name it returns true: no entry has the
-- name then, every other name leads where it led, and the inode that the name led to, and no other, is
-- marked as removed, with the openers that it had. Otherwise it returns false and changes nothing.
pub dir_remove-Removed :
    (st : Store) (dir cnt : ℕ)
    → IsDir st dir cnt
    → (name : List ℕ) → IsText name
    → (t : List Inode) → IsTable t
    → denied dir t ≡ some 0
    → ((k : ℕ)
        → k < cnt
        → Calls (slot st dir k) name
        → 0 < openers (inode_sector (slot st dir k)) t)
    → Yields (dir_remove dir name (t, st)) (RemovedR st dir cnt name t)
unfolding dir_remove remove_found
dir_remove-Removed st dir cnt d name text t ok allowed is_open =
    Yields-bind (Looked (slot st dir) cnt name 0) _ (lookup_unsynched dir name st) _
      (lookup_unsynched-Looked st dir cnt d name text) remove
  where
    remove :
        (found : Option (DirEntry × ℕ))
        → Looked (slot st dir) cnt name 0 found
        → Yields (remove_found dir found (t, st)) (RemovedR st dir cnt name t)
    remove none absent = ((λ s m. absent m.at (omega arith) m.inside m.calls), refl, refl)
    remove (some (e, ofs)) (k, p, q, at, same, c) =
        rw (same, at) (removed st dir cnt d name k q c t ok (is_open k q c) allowed)
