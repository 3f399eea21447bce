-- ===== src/Inode/Tree/Extend.antt =====
-- inode.c: `install_sector` and `inode_extend` on the tree of a file.
use group.Base.{
  ℕ, ◌+◌, ◌-◌, ◌*◌, ◌/◌, ◌%◌, ◌≤◌, ◌<◌, ◌≡◌, refl, true, false, some, ◌>>=◌, ltb, arith, Bool-cases,
  inl, inr, ◌⊎◌, ==_ne, Unless, Unless-bind, Unless-after, Unless-weaken, Unless-of_Yields, length,
}
use group.Cache.{sector_size}
use group.Inode.{
  Store, get, get_sector, must_get, ensure, cached_write, zero_block, install_sector, install_ptr,
  read_sector, write_sector, inode_set_single_ptr, inode_set_double_ptr,
}
use group.Inode.Alloc.{Crowded}
use group.Inode.Blocks.{word, get-word, read_sector-word}
use group.Inode.Tree.{Node, root, single, double, indirect, addr}
use group.Inode.Tree.Point.{Taken, taken-IsFresh, taken_addr}
use group.Inode.Tree.Put.{With}
use group.Inode.Tree.Since.{Since, since_taken, since_taken_news, was_free, Crowded-since}
use group.Inode.Tree.Ensure.{must_get-Taken, Taken-cached_write, Growing, Ensured, ensure-Ensured}
use group.Inode.Tree.Install.{Has, Installed, direct, below_single, below_indirect}

module _ (ino : ℕ) (st₀ : Store) (H₀ : Node → Type 0) (n : ℕ) (small : n < 16524) where
  get_addr :
      (H : Node → Type 0) (x k : ℕ) (st : Store) (g : Growing ino st₀ H₀ x k st H) (at : ℕ)
      → at + 4 ≤ sector_size
      → get ino at st ≡ some (word st ino at)
  get_addr H x k st g at h =
      get-word st ino at (g.since.tree.alive root g.since.tree.rooted).sector.on_device h

  through_single :
      (x : ℕ) (st : Store)
      → Growing ino st₀ H₀ x 1 st (Has n)
      → ltb n 12 ≡ false
      → ltb n 140 ≡ true
      → Unless
          (Crowded st₀ 2)
          (ensure (addr st ino single) (inode_set_single_ptr ino) st >>= λ (_, st).
            get ino 56 st >>= λ single. write_sector single (n - 12) x st)
          (Installed ino st₀ H₀ n)
  through_single x st g e e₂ =
      Unless-bind (Crowded st₀ 2) (Ensured ino st₀ H₀ x 1 (Has n) single) (Installed ino st₀ H₀ n)
        (ensure (addr st ino single) (inode_set_single_ptr ino) st) _
        (ensure-Ensured ino st₀ H₀ x 1 st (Has n) g (omega arith) single tt tt there
          (inode_set_single_ptr ino) (λ st₁ new k. refl))
        (λ (ptr, st') (q, g'). rw (get_addr (With single (Has n)) x 2 st' g' 56 (omega arith)) (
          Unless-of_Yields (Crowded st₀ 2) (Installed ino st₀ H₀ n) _
            (below_single ino st₀ H₀ n small x 2 st' (omega arith) g' e e₂)))
    where
      there : Has n single ⊎ (Has n single → ⊥)
      there = elim (Bool-cases (ltb 12 n)) [
        | inl q ↦ inl (ground arith)
        | inr q ↦ inr (λ h. ground (arith, h))
      ]

  through_double :
      (x : ℕ) (st : Store)
      → Growing ino st₀ H₀ x 1 st (Has n)
      → ltb n 12 ≡ false
      → ltb n 140 ≡ false
      → Unless
          (Crowded st₀ 2)
          (ensure (addr st ino double) (inode_set_double_ptr ino) st >>= λ (_, st).
            get ino 60 st >>= λ double. read_sector double ((n - 140) / 128) st >>= λ ptr.
            ensure ptr (write_sector double ((n - 140) / 128)) st >>= λ (ind_sec, st).
            write_sector ind_sec ((n - 140) % 128) x st)
          (Installed ino st₀ H₀ n)
  through_double x st g e e₂ =
      Unless-bind (Crowded st₀ 2) (Ensured ino st₀ H₀ x 1 (Has n) double) (Installed ino st₀ H₀ n)
        (ensure (addr st ino double) (inode_set_double_ptr ino) st) _
        (ensure-Ensured ino st₀ H₀ x 1 st (Has n) g (omega arith) double tt tt there
          (inode_set_double_ptr ino) (λ st₁ new k. refl))
        (λ (ptr, st') (q, g').
          let a = (g'.since.tree.alive double (inl refl)).sector in
          rw
            (
              get_addr (With double (Has n)) x 2 st' g' 60 (omega arith),
              read_sector-word st' (addr st' ino double) ((n - 140) / 128) a (omega arith),
            )
            (Unless-bind (Crowded st₀ 2)
              (Ensured ino st₀ H₀ x 2 (With double (Has n)) (indirect ((n - 140) / 128)))
              (Installed ino st₀ H₀ n)
              (ensure (addr st' ino (indirect ((n - 140) / 128)))
                (write_sector (addr st' ino double) ((n - 140) / 128)) st')
              _
              (ensure-Ensured ino st₀ H₀ x 2 st' (With double (Has n)) g' (omega arith)
                (indirect ((n - 140) / 128)) (omega arith) (inl refl) row_there
                (write_sector (addr st' ino double) ((n - 140) / 128))
                (λ st₁ new k.
                  let d =
                    taken_addr st' ino (With double (Has n)) g'.since.tree new st₁ k double
                      (inl refl) in
                  rw (==_ne (addr st' ino double) 0 a.nonzero, d) refl))
              (λ (ind, st₂) (q₂, g₂). rw q₂ (
                Unless-of_Yields (Crowded st₀ 2) (Installed ino st₀ H₀ n) _
                  (below_indirect ino st₀ H₀ n small x 3 st₂ (omega arith) g₂ e e₂)))))
    where
      there : Has n double ⊎ (Has n double → ⊥)
      there = elim (Bool-cases (ltb 140 n)) [
        | inl q ↦ inl (ground arith)
        | inr q ↦ inr (λ h. ground (arith, h))
      ]

      row_there :
          With double (Has n) (indirect ((n - 140) / 128))
          ⊎ (With double (Has n) (indirect ((n - 140) / 128)) → ⊥)
      row_there = elim (Bool-cases (ltb (140 + 128 * ((n - 140) / 128)) n)) [
        | inl q ↦ inl (inr (ground arith))
        | inr q ↦ inr (λ h. elim h [ inl z ↦ ground (arith, z) | inr z ↦ ground (arith, z) ])
      ]

  install_ptr-Installed :
      (x : ℕ) (st : Store)
      → Growing ino st₀ H₀ x 1 st (Has n)
      → Unless (Crowded st₀ 2) (install_ptr ino n x st) (Installed ino st₀ H₀ n)
  unfolding install_ptr
  install_ptr-Installed x st g = elim (Bool-cases (ltb n 12)) [
    | inl e ↦ rw e (
        Unless-of_Yields (Crowded st₀ 2) (Installed ino st₀ H₀ n) _
          (direct ino st₀ H₀ n small x 1 st (omega arith) g e))
    | inr e ↦ rw e (elim (Bool-cases (ltb n 140)) [
      | inl e₂ ↦ rw (e₂, get_addr (Has n) x 1 st g 56 (omega arith)) (through_single x st g e e₂)
      | inr e₂ ↦
          let same : n - 12 - 128 ≡ n - 140 = omega arith in
          rw (e₂, get_addr (Has n) x 1 st g 60 (omega arith), same) (through_double x st g e e₂)
    ])
  ]

  -- `install_sector` of the block behind the last.
  pub install_sector-Installed :
      (st : Store)
      → (i : Since ino st₀ H₀ st (Has n)) → length i.news ≡ 0
      → Unless (Crowded st₀ 2) (install_sector ino n st) (Installed ino st₀ H₀ n)
  unfolding install_sector
  install_sector-Installed st i none_yet =
      let m : ltb n 16524 ≡ true = ground arith in
      rw m (
        Unless-bind (Crowded st₀ 2) (λ r. Taken st r.0 r.1) (Installed ino st₀ H₀ n)
          (get_sector st >>= must_get) _
          (Unless-weaken (Crowded st₀ 2) (Crowded st 0) (λ r. Taken st r.0 r.1)
            (get_sector st >>= must_get)
            (Crowded-since ino st₀ H₀ st (Has n) i 0 2 (omega (arith, none_yet)))
            (must_get-Taken st i.tree.covered))
          (λ (sec, st₁) k.
            Unless-after (Crowded st₀ 2) (Taken st sec) (Installed ino st₀ H₀ n)
              (cached_write sec zero_block 0 st₁) _ (Taken-cached_write st st₁ sec k)
              (λ st₂ k₂. install_ptr-Installed sec st₂ (growing sec st₂ k₂))))
    where
      growing : (sec : ℕ) (st₂ : Store) → Taken st sec st₂ → Growing ino st₀ H₀ sec 1 st₂ (Has n)
      growing sec st₂ k = record {
        since = since_taken ino st₀ H₀ st st₂ (Has n) sec i k;
        fresh = taken-IsFresh st ino (Has n) i.tree sec st₂ k;
        free = was_free ino st₀ H₀ st (Has n) i sec k.was_free;
        few_news =
            rw (since_taken_news ino st₀ H₀ st st₂ (Has n) sec i k) (omega (arith, none_yet));
      }
