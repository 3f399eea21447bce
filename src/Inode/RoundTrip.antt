-- ===== src/Inode/RoundTrip.antt =====
-- inode.c: a read of what was just written.
use group.Base.{
  ℕ, suc, ◌+◌, ◌-◌, ◌*◌, ◌≤◌, ◌<◌, ◌≡◌, refl, ap, ap₂, ◌∙◌, true, ◌&&◌, some, List, [], ◌∷◌, leb,
  ltb, length, get_or, min, arith, Yields, Yields-mono,
}
use group.Cache.{sector_size}
use group.Inode.{Store, Inode, max_sectors, inode_read_at, inode_write_at}
use group.Inode.Blocks.{IsFile}
use group.Inode.Read.{byte_at, contents, inode_read_at-contents}
use group.Inode.Write.{Written, WrittenR, inode_write_at-Written}

pub contents-eq :
    (st : Store) (ino pos : ℕ) (xs : List ℕ)
    → ((i : ℕ) → i < length xs → byte_at st ino (pos + i) ≡ get_or xs i 0)
    → contents st ino pos (length xs) ≡ xs
unfolding contents
contents-eq st ino pos [] h = refl
contents-eq st ino pos (x ∷ xs) h =
    let e : pos ≡ pos + 0 = omega arith in
    ap₂ (λ y ys. y ∷ ys) (ap (byte_at st ino) e ∙ h 0 (omega arith))
      (contents-eq st ino (pos + 1) xs (λ i q.
        let e₂ : pos + 1 + i ≡ pos + suc i = omega arith in
        ap (byte_at st ino) e₂ ∙ h (suc i) (omega arith)))

-- A read of the range just written returns the buffer, under the conditions of the write, in a file
-- below the largest size.
pub inode_read_at-inode_write_at :
    (ino len : ℕ) (st : Store) (inode : Inode) (buffer : List ℕ) (offset : ℕ)
    → inode.sector ≡ ino
    → IsFile st ino len
    → inode.deny_write_cnt ≡ 0
    → 0 < len
    → len < max_sectors * sector_size
    → offset + length buffer ≤ len
    → Yields
        (inode_write_at inode buffer offset st)
        (λ r. inode_read_at ino (length buffer) offset r.1 ≡ some buffer)
inode_read_at-inode_write_at ino len st inode buffer offset same f allowed pos room fits =
    Yields-mono (WrittenR st ino len buffer offset) _ (inode_write_at inode buffer offset st)
      (inode_write_at-Written ino len st inode buffer offset same f allowed pos fits)
      (λ (n, st') w. back st' n w)
  where
    back :
        (st' : Store) (n : ℕ)
        → Written st ino len buffer offset n st'
        → inode_read_at ino (length buffer) offset st' ≡ some buffer
    back st' n w =
        let m : min (length buffer) (len - offset) ≡ length buffer = ground arith in
        inode_read_at-contents st' ino len w.file room (length buffer) offset (omega arith)
        ∙ ap some (
            rw m (
              contents-eq st' ino offset buffer (λ i q.
                let t : (leb offset (offset + i) && ltb (offset + i) (offset + length buffer))
                    ≡ true =
                  ground arith in
                let d : offset + i - offset ≡ i = omega arith in
                w.byte (offset + i) (omega arith) ∙ rw (t, d) refl)))
