-- ===== src/Inode/Grown.antt =====
-- inode.c: `inode_write_at` at the end of a file, which grows.
use group.Base.{
  ℕ, suc, ◌+◌, ◌-◌, ◌*◌, ◌/◌, ◌%◌, ◌≤◌, ◌<◌, ◌≡◌, refl, ap, ◌∙◌, Bool, true, false, ◌&&◌, List,
  ◌==◌, leb, ltb, arith, inl, inr, ◌⊎◌, length, get_or, Yields, Yields-mono, Unless, Unless-bind,
  Unless-of_Yields, Yields-Allows,
}
use group.Cache.{sector_size}
use group.Inode.{
  Store, Inode, max_sectors, bytes_to_sectors, chunk, write_loop, inode_write_at,
  inode_extend_to_bytes,
}
use group.Inode.Alloc.{Crowded}
use group.Inode.Blocks.{get-word, byte_to_sector-end}
use group.Inode.Read.{byte_at}
use group.Inode.Write.{Written, WrittenR, write_loop-Written}
use group.Inode.Tree.{root}
use group.Inode.Tree.Since.{Since}
use group.Inode.Tree.Install.{Has}
use group.Inode.Tree.Loop.{block_kept}
use group.Inode.Longer.{IsSolid, IsSolid-IsFile, Longer, LongerR, inode_extend_to_bytes-Longer}
use group.Inode.Append.{SameMap, write_loop-SameMap, written-IsSolid}

-- The buffer stands behind the old bytes of the file.
pub record Appended (st : Store) (ino len : ℕ) (buffer : List ℕ) (st' : Store) : Type 0 where
  pub solid : IsSolid st' ino (len + length buffer)
  pub old : (pos : ℕ) → pos < len → byte_at st' ino pos ≡ byte_at st ino pos
  pub new : (i : ℕ) → i < length buffer → byte_at st' ino (len + i) ≡ get_or buffer i 0

-- The file as it was.
pub record Refused (st : Store) (ino len : ℕ) (st' : Store) : Type 0 where
  pub solid : IsSolid st' ino len
  pub old : (pos : ℕ) → pos < len → byte_at st' ino pos ≡ byte_at st ino pos

abbrev pub AppendedR : Store → ℕ → ℕ → List ℕ → ℕ × Store → Type 0
AppendedR st ino len buffer (n, st') =
    ((n ≡ length buffer) × Appended st ino len buffer st') ⊎ ((n ≡ 0) × Refused st ino len st')

module _ (st : Store) (ino len : ℕ) (buffer : List ℕ) (s : IsSolid st ino len)
    (some_bytes : 0 < length buffer) (room : len + length buffer ≤ max_sectors * sector_size) where
  appended :
      (st₁ : Store)
      → Longer st ino len (len + length buffer) st₁
      → Yields (write_loop (suc (length buffer)) ino buffer len st₁) (AppendedR st ino len buffer)
  appended st₁ l =
      Yields-mono (λ r. WrittenR st₁ ino (len + length buffer) buffer len r × SameMap st₁ r.1)
        (AppendedR st ino len buffer) (write_loop (suc (length buffer)) ino buffer len st₁)
        (Yields-Allows (WrittenR st₁ ino (len + length buffer) buffer len) (λ r. SameMap st₁ r.1)
          (write_loop (suc (length buffer)) ino buffer len st₁)
          (write_loop-Written ino (len + length buffer) (suc (length buffer)) buffer len st₁
            (IsSolid-IsFile st₁ ino (len + length buffer) l.solid) (omega arith) (omega arith))
          (write_loop-SameMap (suc (length buffer)) ino buffer len st₁))
        (λ (n, st₂) (w, m). inl (w.all_written, done n st₂ w m))
    where
      kept : (pos : ℕ) → pos < len → byte_at st₁ ino pos ≡ byte_at st ino pos
      kept pos h =
          let (_, same) = l.same_block (pos / 512) (omega arith) in ap (λ f. f (pos % 512)) same

      done :
          (n : ℕ) (st₂ : Store)
          → Written st₁ ino (len + length buffer) buffer len n st₂
          → SameMap st₁ st₂
          → Appended st ino len buffer st₂
      done n st₂ w m = record {
        solid = written-IsSolid st₁ ino (len + length buffer) l.solid st₂ m w.elsewhere;
        old = λ pos h.
            let out : (leb len pos && ltb pos (len + length buffer)) ≡ false = ground arith in
            w.byte pos (omega arith) ∙ rw out (kept pos h);
        new = λ i h.
            let t : (leb len (len + i) && ltb (len + i) (len + length buffer)) ≡ true =
              ground arith in
            let d : len + i - len ≡ i = omega arith in
            w.byte (len + i) (omega arith) ∙ rw (t, d) refl;
      }

  refused :
      (st₁ : Store)
      → Since ino st (Has (bytes_to_sectors len)) st₁ (Has (bytes_to_sectors len))
      → Yields (write_loop (suc (length buffer)) ino buffer len st₁) (AppendedR st ino len buffer)
  unfolding write_loop
  refused st₁ i =
      let nz : (length buffer == 0) ≡ false = ground arith in
      let z : (chunk len (length buffer) len == 0) ≡ true = ground arith in
      rw
        (
          nz,
          byte_to_sector-end st₁ ino len (IsSolid-IsFile st₁ ino len solid) len (omega arith)
              (omega arith),
          get-word st₁ ino 0 (i.tree.alive root tt).sector.on_device (omega arith),
          solid.has_length,
          z,
        )
        (inr (
          refl,
          record {
            solid = solid;
            old = λ pos h.
                let (_, same) =
                  block_kept ino st st₁ (bytes_to_sectors len) (Has (bytes_to_sectors len)) s.tree i
                    (pos / 512) (omega arith) in
                ap (λ f. f (pos % 512)) same;
          },
        ))
    where
      solid : IsSolid st₁ ino len
      solid = record {
        tree = i.tree;
        has_length = i.front 0 (omega arith) ∙ s.has_length;
        fits = s.fits;
      }

  pub inode_write_at-Appended :
      (inode : Inode)
      → inode.sector ≡ ino
      → inode.deny_write_cnt ≡ 0
      → Unless
          (Crowded st (3 * (bytes_to_sectors (len + length buffer) - bytes_to_sectors len)))
          (inode_write_at inode buffer len st)
          (AppendedR st ino len buffer)
  unfolding inode_write_at
  inode_write_at-Appended inode same allowed =
      rw (same, allowed)
        (Unless-bind
          (Crowded st (3 * (bytes_to_sectors (len + length buffer) - bytes_to_sectors len)))
          (LongerR st ino len (len + length buffer)) (AppendedR st ino len buffer)
          (inode_extend_to_bytes ino (len + length buffer) st) _
          (inode_extend_to_bytes-Longer st ino len (len + length buffer) s (omega arith) room)
          (λ (ok, st₁) l. Unless-of_Yields _ (AppendedR st ino len buffer) _ (write ok st₁ l)))
    where
      write :
          (ok : Bool) (st₁ : Store)
          → LongerR st ino len (len + length buffer) (ok, st₁)
          → Yields
              (write_loop (suc (length buffer)) ino buffer len st₁)
              (AppendedR st ino len buffer)
      write true st₁ l = appended st₁ l
      write false st₁ i = refused st₁ i
