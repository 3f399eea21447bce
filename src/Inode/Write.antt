-- ===== src/Inode/Write.antt =====
-- inode.c: `inode_write_at` inside of a file.
use group.Base.{
  ℕ, zero, suc, ◌+◌, ◌-◌, ◌*◌, ◌/◌, ◌%◌, ◌≤◌, ◌<◌, ◌≡◌, ◌≢◌, refl, ap, ◌∙◌, true, false, ◌&&◌, List,
  ◌==◌, leb, ltb, if◌then◌else◌, length, take, drop, get_or, arith, Bool-cases, inl, inr, eq_of_==,
  Yields, Yields-bind, length-take, length-drop, get_or-take, get_or-drop,
}
use group.Cache.{sector_size}
use group.Inode.{Store, Inode, chunk, write_loop, inode_write_at, inode_extend_to_bytes}
use group.Inode.Blocks.{block_of, IsFile, get-word, byte_to_sector-block_of}
use group.Inode.Read.{byte_at}
use group.Inode.Patch.{patched, patched-elsewhere, same_block, patched-IsFile, patched-byte_at}

-- All of `buffer` is written at `offset`; the file keeps its length, and no other sector changes.
pub record Written (st : Store) (ino len : ℕ) (buffer : List ℕ) (offset written : ℕ) (st' : Store)
    : Type 0 where
  pub all_written : written ≡ length buffer
  pub file : IsFile st' ino len
  pub byte :
      (pos : ℕ)
      → pos < len
      → byte_at st' ino pos ≡ (
          if leb offset pos && ltb pos (offset + length buffer)
          then get_or buffer (pos - offset) 0
          else byte_at st ino pos)
  pub elsewhere :
      (x : ℕ) → ((i : ℕ) → i * sector_size < len → block_of st ino i ≢ x) → st'.bytes x ≡ st.bytes x

abbrev pub WrittenR : Store → ℕ → ℕ → List ℕ → ℕ → ℕ × Store → Type 0
WrittenR st ino len buffer offset (n, st') = Written st ino len buffer offset n st'

-- A prefix and then the rest of the bytes: `x` is the byte before, `z` the one between.
two_writes :
    (buffer : List ℕ) (offset n p x z : ℕ)
    → n ≤ length buffer
    → z ≡ (if leb offset p && ltb p (offset + n) then get_or (take n buffer) (p - offset) 0 else x)
    → (if leb (offset + n) p && ltb p (offset + n + length (drop n buffer))
        then get_or (drop n buffer) (p - (offset + n)) 0
        else z)
      ≡ (if leb offset p && ltb p (offset + length buffer) then get_or buffer (p - offset) 0 else x)
two_writes buffer offset n p x z le h = elim (Bool-cases (leb (offset + n) p)) [
  | inl e ↦
      let i : n + (p - (offset + n)) ≡ p - offset = ground arith in
      ground (
        arith,
        h,
        length-drop n buffer le,
        get_or-drop n (p - (offset + n)) buffer 0 ∙ ap (λ k. get_or buffer k 0) i,
      )
  | inr e ↦ elim (Bool-cases (leb offset p)) [
    | inl q ↦ ground (arith, h, get_or-take n (p - offset) buffer 0 (ground arith))
    | inr q ↦ ground (arith, h)
  ]
]

module _ (ino len : ℕ) where
  -- One chunk, and then the rest.
  then_rest :
      (st : Store) (f : IsFile st ino len) (buffer : List ℕ) (offset n : ℕ)
      → offset + length buffer ≤ len
      → n ≤ length buffer
      → 0 < n
      → offset % sector_size + n ≤ sector_size
      → (w : ℕ) (st' : Store)
      → Written
          (patched st
            (block_of st ino (offset / sector_size))
            (offset % sector_size)
            (take n buffer))
          ino
          len
          (drop n buffer)
          (offset + n)
          w
          st'
      → Written st ino len buffer offset (n + w) st'
  then_rest st f buffer offset n fits le pos room w st' r = record {
    all_written = omega (arith, r.all_written, length-drop n buffer le);
    file = r.file;
    byte = λ p h. r.byte p h ∙ two_writes buffer offset n p (byte_at st ino p) _ le (between p h);
    elsewhere = λ x h.
        r.elsewhere x (λ i q.
          rw
            (same_block st ino len f (offset / 512) (omega arith) (offset % 512) (take n buffer) i
              q)
            (h i q))
        ∙ patched-elsewhere st ino len f (offset / 512) (omega arith) (offset % 512) (take n buffer)
            x (h (offset / 512) (omega arith));
  }
    where
      between :
          (p : ℕ)
          → p < len
          → byte_at
              (patched st (block_of st ino (offset / 512)) (offset % 512) (take n buffer))
              ino
              p
            ≡ (if leb offset p && ltb p (offset + n)
                then get_or (take n buffer) (p - offset) 0
                else byte_at st ino p)
      between p h =
          let l = length-take n buffer le in
          let d : offset / 512 * 512 + offset % 512 ≡ offset = omega arith in
          rw (d, l) at
            (patched-byte_at st ino len f (offset / 512) (omega arith) (offset % 512)
              (take n buffer) p h (omega (arith, l, room)))

  pub write_loop-Written :
      (fuel : ℕ) (buffer : List ℕ) (offset : ℕ) (st : Store)
      → IsFile st ino len
      → length buffer < fuel
      → offset + length buffer ≤ len
      → Yields (write_loop fuel ino buffer offset st) (WrittenR st ino len buffer offset)
  unfolding write_loop
  write_loop-Written zero buffer offset st f h fits = absurd (omega arith)
  write_loop-Written (suc fuel) buffer offset st f h fits = elim (Bool-cases (length buffer == 0)) [
    | inl e ↦ rw e (record {
      all_written = omega (arith, eq_of_== (length buffer) 0 e);
      file = f;
      byte = λ p h. ground (arith, e);
      elsewhere = λ x h. refl;
    })
    | inr e ↦
        let lt : offset < len = ground arith in
        let n = chunk len (length buffer) offset in
        let nz : (chunk len (length buffer) offset == 0) ≡ false = ground arith in
        let small : n ≤ length buffer = ground arith in
        let room : offset % 512 + n ≤ 512 = ground arith in
        let s = f.block (offset / 512) (omega arith) in
        let a : ltb (block_of st ino (offset / 512)) st.size ≡ true = ground (arith, s.on_device) in
        let b : leb (offset % 512 + length (take n buffer)) 512 ≡ true =
          ground (arith, length-take n buffer small, room) in
        rw
          (
            e,
            byte_to_sector-block_of st ino len f offset lt,
            get-word st ino 0 f.here.on_device (omega arith),
            f.has_length,
            nz,
            a,
            b,
          )
          (Yields-bind (WrittenR _ ino len (drop n buffer) (offset + n)) _ _ _
            (write_loop-Written fuel (drop n buffer) (offset + n) _
              (patched-IsFile st ino len f (offset / 512) (omega arith) (offset % 512)
                (take n buffer))
              (ground (arith, length-drop n buffer small))
              (ground (arith, length-drop n buffer small)))
            (λ (w, st') r. then_rest st f buffer offset n fits small (ground arith) room w st' r))
  ]

  -- `inode_write_at` of a range inside a file that is not empty, while nobody denies writes, ends without
  -- a fault: it writes all of the buffer, the file's other bytes and its length stay as they are, and
  -- so does every sector that is no block of the file.
  pub inode_write_at-Written :
      (st : Store) (inode : Inode) (buffer : List ℕ) (offset : ℕ)
      → inode.sector ≡ ino
      → IsFile st ino len
      → inode.deny_write_cnt ≡ 0
      → 0 < len
      → offset + length buffer ≤ len
      → Yields (inode_write_at inode buffer offset st) (WrittenR st ino len buffer offset)
  unfolding inode_write_at inode_extend_to_bytes
  inode_write_at-Written st inode buffer offset same f allowed some_bytes fits =
      let nz : (len == 0) ≡ false = ground arith in
      let to : leb ((offset + length buffer - 1) / 512) ((len - 1) / 512) ≡ true = ground arith in
      let no_growth : ltb len (offset + length buffer) ≡ false = ground arith in
      rw
        (
          same,
          get-word st ino 0 f.here.on_device (omega arith),
          f.has_length,
          nz,
          to,
          no_growth,
          allowed,
        )
        (write_loop-Written (suc (length buffer)) buffer offset st f (omega arith) fits)
