-- ===== src/Inode/Tree/Frame.antt =====
-- inode.c: a tree keeps its sectors while the words that point to them stay.
use group.Base.{ℕ, ◌-◌, ◌/◌, ◌≡◌, refl, sym, ap, ◌∙◌, true, ltb, arith, Bool-cases, inl, inr}
use group.FreeMap.Alloc.{in_use}
use group.Inode.{Store}
use group.Inode.Blocks.{word}
use group.Inode.Alloc.{SameDevice}
use group.Inode.Tree.{
  Node, root, single, double, indirect, block, parent, offset, addr, IsChild, addr-parent, Alive,
  IsTree,
}

module _ (st st' : Store) (ino : ℕ) (H : Node → Type 0) (t : IsTree st ino H)
    (kept : (w : Node)
      → H w
      → IsChild w
      → word st' (addr st ino (parent w)) (offset w)
        ≡ word st (addr st ino (parent w)) (offset w)) where
  step :
      (w : Node)
      → H w
      → IsChild w
      → addr st' ino (parent w) ≡ addr st ino (parent w)
      → addr st' ino w ≡ addr st ino w
  step w h c e =
      addr-parent st' ino w c
      ∙ ap (λ s. word st' s (offset w)) e
      ∙ kept w h c
      ∙ sym (addr-parent st ino w c)

  indirect_kept : (k : ℕ) → H (indirect k) → addr st' ino (indirect k) ≡ addr st ino (indirect k)
  indirect_kept k h = elim (t.child (indirect k) h) [
    | inl e ↦ absurd (ground (arith, e))
    | inr c ↦ step (indirect k) h c (step double (t.closed (indirect k) h) tt refl)
  ]

  above_block :
      (i : ℕ) → H (block i) → addr st' ino (parent (block i)) ≡ addr st ino (parent (block i))
  above_block i h = elim (Bool-cases (ltb i 12)) [
    | inl e ↦ rw e refl
    | inr e ↦ rw e (elim (Bool-cases (ltb i 140)) [
      | inl e₂ ↦ rw e₂ (step single (rw (e, e₂) at (t.closed (block i) h)) tt refl)
      | inr e₂ ↦ rw e₂ (indirect_kept ((i - 140) / 128) (rw (e, e₂) at (t.closed (block i) h)))
    ])
  ]

  pub addr_kept : (w : Node) → H w → addr st' ino w ≡ addr st ino w
  addr_kept root h = refl
  addr_kept single h = step single h tt refl
  addr_kept double h = step double h tt refl
  addr_kept (indirect k) h = indirect_kept k h
  addr_kept (block i) h = elim (t.child (block i) h) [
    | inl e ↦ absurd (ground (arith, e))
    | inr c ↦ step (block i) h c (above_block i h)
  ]

  -- A pointer that is not in the tree, in a node that is.
  pub unset_kept :
      (w : Node)
      → IsChild w
      → H (parent w)
      → word st' (addr st ino (parent w)) (offset w) ≡ word st (addr st ino (parent w)) (offset w)
      → addr st' ino w ≡ addr st ino w
  unset_kept w c h e =
      addr-parent st' ino w c
      ∙ ap (λ s. word st' s (offset w)) (addr_kept (parent w) h)
      ∙ e
      ∙ sym (addr-parent st ino w c)

  pub Alive-keeps :
      SameDevice st st'
      → ((s : ℕ) → in_use st.map s ≡ true → in_use st'.map s ≡ true)
      → (w : Node) → H w
      → Alive st' (addr st' ino w)
  Alive-keeps same used w h =
      let a = t.alive w h in
      rw (addr_kept w h) (record {
        sector = record { nonzero = a.sector.nonzero; on_device = rw same.size a.sector.on_device };
        used = used (addr st ino w) a.used;
        apart = ap (λ f. f (addr st ino w)) same.map_file ∙ a.apart;
      })
