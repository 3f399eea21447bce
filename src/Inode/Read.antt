-- ===== src/Inode/Read.antt =====
-- inode.c, `inode_read_at`: the bytes of the file, up to its end.
use group.Base.{
  ℕ, zero, suc, ◌+◌, ◌-◌, ◌*◌, ◌/◌, ◌%◌, ◌≤◌, ◌<◌, ◌≡◌, refl, sym, ap, ap₂, ◌∙◌, true, false, some,
  List, [], ◌∷◌, ◌++◌, ◌==◌, leb, ltb, arith, Bool-cases, inl, inr, min,
}
use group.Cache.{sector_size, slice}
use group.Inode.{Store, cached_read, max_sectors, chunk, read_loop, inode_read_at}
use group.Inode.Blocks.{block_of, IsFile, get-word, byte_to_sector-block_of, byte_to_sector-end}

-- The byte at a position of a file, and `n` bytes from there.
abbrev pub byte_at : Store → ℕ → ℕ → ℕ
byte_at st ino pos = st.bytes (block_of st ino (pos / sector_size)) (pos % sector_size)

unfoldable pub contents : Store → ℕ → ℕ → ℕ → List ℕ
contents st ino pos zero = []
contents st ino pos (suc n) = byte_at st ino pos ∷ contents st ino (pos + 1) n

contents-append :
    (st : Store) (ino pos m n : ℕ)
    → contents st ino pos (m + n) ≡ contents st ino pos m ++ contents st ino (pos + m) n
unfolding contents
contents-append st ino pos zero n =
    let e : 0 + n ≡ n = omega arith in let e₂ : pos + 0 ≡ pos = omega arith in rw (e, e₂) refl
contents-append st ino pos (suc m) n =
    let e : suc m + n ≡ suc (m + n) = omega arith in
    let e₂ : pos + 1 + m ≡ pos + suc m = omega arith in
    rw (e, contents-append st ino (pos + 1) m n, e₂) refl

slice-contents :
    (st : Store) (ino i o n : ℕ)
    → o + n ≤ sector_size
    → slice (st.bytes (block_of st ino i)) o n ≡ contents st ino (i * sector_size + o) n
unfolding contents slice
slice-contents st ino i o zero h = refl
slice-contents st ino i o (suc n) h =
    let a : (i * 512 + o) / 512 ≡ i = omega arith in
    let b : (i * 512 + o) % 512 ≡ o = omega arith in
    let c : i * 512 + o + 1 ≡ i * 512 + (o + 1) = omega arith in
    ap₂ (λ x xs. x ∷ xs) (sym (ap₂ (λ x y. st.bytes (block_of st ino x) y) a b))
      (slice-contents st ino i (o + 1) n (omega arith) ∙ ap (λ p. contents st ino p n) (sym c))

module _ (st : Store) (ino len : ℕ) (f : IsFile st ino len)
    (room : len < max_sectors * sector_size) where
  -- One chunk of the file.
  read_chunk :
      (size offset : ℕ)
      → offset < len
      → cached_read
          (block_of st ino (offset / sector_size))
          (offset % sector_size)
          (offset % sector_size + chunk len size offset)
          st
        ≡ some (contents st ino offset (chunk len size offset))
  read_chunk size offset h =
      let s = f.block (offset / 512) (omega arith) in
      let a : ltb (block_of st ino (offset / 512)) st.size ≡ true = ground (arith, s.on_device) in
      let b : leb (offset % 512 + chunk len size offset) 512 ≡ true = ground arith in
      let c : offset % 512 + chunk len size offset - offset % 512 ≡ chunk len size offset =
        omega arith in
      let d : offset / 512 * 512 + offset % 512 ≡ offset = omega arith in
      rw (a, b, c)
        (ap some (
          slice-contents st ino (offset / 512) (offset % 512) (chunk len size offset) (ground arith)
          ∙ rw d refl))

  read_loop-contents :
      (fuel size offset : ℕ)
      → size < fuel
      → offset < max_sectors * sector_size
      → read_loop fuel ino size offset st ≡ some (contents st ino offset (min size (len - offset)))
  unfolding read_loop contents
  read_loop-contents zero size offset h p = absurd (omega arith)
  read_loop-contents (suc fuel) size offset h p = elim (Bool-cases (size == 0)) [
    | inl e ↦ let z : min size (len - offset) ≡ 0 = ground arith in rw (e, z) refl
    | inr e ↦ elim (Bool-cases (leb len offset)) [
      | inl past ↦
          let z : min size (len - offset) ≡ 0 = ground arith in
          let n : (chunk len size offset == 0) ≡ true = ground arith in
          rw
            (
              e,
              byte_to_sector-end st ino len f offset (ground arith) (omega arith),
              get-word st ino 0 f.here.on_device (omega arith),
              f.has_length,
              n,
              z,
            )
            refl
      | inr inside ↦
          let lt : offset < len = ground arith in
          let n : (chunk len size offset == 0) ≡ false = ground arith in
          let total : min size (len - offset)
              ≡ chunk len size offset
                + min (size - chunk len size offset) (len - (offset + chunk len size offset)) =
            ground arith in
          rw
            (
              e,
              byte_to_sector-block_of st ino len f offset lt,
              get-word st ino 0 f.here.on_device (omega arith),
              f.has_length,
              n,
              read_chunk size offset lt,
              read_loop-contents fuel (size - chunk len size offset)
                  (offset + chunk len size offset) (ground arith) (ground arith),
              total,
            )
            (ap some (sym (contents-append st ino offset (chunk len size offset) _)))
    ]
  ]

  pub inode_read_at-contents :
      (size offset : ℕ)
      → offset < max_sectors * sector_size
      → inode_read_at ino size offset st ≡ some (contents st ino offset (min size (len - offset)))
  unfolding inode_read_at
  inode_read_at-contents size offset h = read_loop-contents (suc size) size offset (omega arith) h
