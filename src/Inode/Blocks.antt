-- ===== src/Inode/Blocks.antt =====
-- inode.c: the block map of a well-formed file, and `byte_to_sector` on it.
use group.Base.{
  ℕ, ◌+◌, ◌-◌, ◌*◌, ◌/◌, ◌%◌, ◌≤◌, ◌<◌, ◌≡◌, ◌≢◌, refl, true, false, none, some, leb, ltb,
  if◌then◌else◌, arith, Bool-cases, inl, inr, ==_ne,
}
use group.Cache.{sector_size, slice}
use group.Inode.{Store, of_bytes, get, max_sectors, read_sector, lookup, byte_to_sector}

abbrev pub word : Store → ℕ → ℕ → ℕ
word st sector at = of_bytes (slice (st.bytes sector) at 4)

abbrev pub single_of : Store → ℕ → ℕ
single_of st ino = word st ino 56

abbrev pub double_of : Store → ℕ → ℕ
double_of st ino = word st ino 60

abbrev pub indirect_of : Store → ℕ → ℕ → ℕ
indirect_of st ino k = word st (double_of st ino) (k * 4)

-- The sector of block `i`.
unfoldable pub block_of : Store → ℕ → ℕ → ℕ
block_of st ino i =
    if ltb i 12
    then word st ino (8 + 4 * i)
    else if ltb i 140
    then word st (single_of st ino) ((i - 12) * 4)
    else word st (indirect_of st ino ((i - 140) / 128)) ((i - 140) % 128 * 4)

-- A pointer in use: not null, and on the device.
pub record IsSector (st : Store) (s : ℕ) : Type 0 where
  pub nonzero : s ≢ 0
  pub on_device : s < st.size

-- A file of `len` bytes: its pointers are in use up to its length, its blocks are different from one
-- another, and no block is the inode or a block of pointers.
pub record IsFile (st : Store) (ino len : ℕ) : Type 0 where
  pub here : IsSector st ino
  pub has_length : word st ino 0 ≡ len
  pub fits : len ≤ max_sectors * sector_size
  pub block : (i : ℕ) → i * sector_size < len → IsSector st (block_of st ino i)
  pub single : 12 * sector_size < len → IsSector st (single_of st ino)
  pub double : 140 * sector_size < len → IsSector st (double_of st ino)
  pub indirect : (k : ℕ) → (140 + 128 * k) * sector_size < len → IsSector st (indirect_of st ino k)
  pub distinct :
      (i j : ℕ)
      → i * sector_size < len
      → j * sector_size < len
      → block_of st ino i ≡ block_of st ino j
      → i ≡ j
  pub not_inode : (i : ℕ) → i * sector_size < len → block_of st ino i ≢ ino
  pub not_single :
      (i : ℕ)
      → i * sector_size < len
      → 12 * sector_size < len
      → block_of st ino i ≢ single_of st ino
  pub not_double :
      (i : ℕ)
      → i * sector_size < len
      → 140 * sector_size < len
      → block_of st ino i ≢ double_of st ino
  pub not_indirect :
      (i k : ℕ)
      → i * sector_size < len
      → (140 + 128 * k) * sector_size < len
      → block_of st ino i ≢ indirect_of st ino k

pub get-word :
    (st : Store) (sector at : ℕ)
    → sector < st.size
    → at + 4 ≤ sector_size
    → get sector at st ≡ some (word st sector at)
get-word st sector at p q =
    let a : ltb sector st.size ≡ true = ground arith in
    let b : leb (at + 4) sector_size ≡ true = ground arith in
    let c : at + 4 - at ≡ 4 = omega arith in rw (a, b, c) refl

pub read_sector-word :
    (st : Store) (sector index : ℕ)
    → IsSector st sector
    → index < 128
    → read_sector sector index st ≡ some (word st sector (index * 4))
read_sector-word st sector index s q =
    rw (==_ne sector 0 s.nonzero) (get-word st sector (index * 4) s.on_device (omega arith))

module _ (st : Store) (ino len : ℕ) (f : IsFile st ino len) where
  pub lookup-block_of : (i : ℕ) → i * sector_size < len → lookup ino i st ≡ some (block_of st ino i)
  unfolding lookup block_of
  lookup-block_of i h = elim (Bool-cases (ltb i 12)) [
    | inl e ↦ rw e (get-word st ino (8 + 4 * i) f.here.on_device (ground arith))
    | inr e ↦ rw e (elim (Bool-cases (ltb i 140)) [
      | inl e₂ ↦
          rw (e₂, get-word st ino 56 f.here.on_device (omega arith))
            (read_sector-word st (single_of st ino) (i - 12) (f.single (ground arith))
              (ground arith))
      | inr e₂ ↦
          let lt : i < 16524 = omega (arith, f.fits) in
          let big : 140 ≤ i = ground arith in
          let same : i - 12 - 128 ≡ i - 140 = omega arith in
          rw
            (
              e₂,
              get-word st ino 60 f.here.on_device (omega arith),
              same,
              read_sector-word st (double_of st ino) ((i - 140) / 128) (f.double (omega arith))
                  (omega arith),
            )
            (read_sector-word st (indirect_of st ino ((i - 140) / 128)) ((i - 140) % 128)
              (f.indirect ((i - 140) / 128) (omega arith)) (omega arith))
    ])
  ]

  -- `byte_to_sector` finds the block of every byte of the file, and no sector behind its end.
  pub byte_to_sector-block_of :
      (pos : ℕ)
      → pos < len
      → byte_to_sector ino pos st ≡ some (some (block_of st ino (pos / sector_size)))
  unfolding byte_to_sector
  byte_to_sector-block_of pos h =
      let a : ltb (pos / 512) 16524 ≡ true = ground (arith, f.fits) in
      let b : leb len pos ≡ false = ground arith in
      let c : pos / 512 * 512 < len = omega arith in
      rw
        (
          a,
          get-word st ino 0 f.here.on_device (omega arith),
          f.has_length,
          b,
          lookup-block_of (pos / 512) c,
          ==_ne (block_of st ino (pos / 512)) 0 (f.block (pos / 512) c).nonzero,
        )
        refl

  pub byte_to_sector-end :
      (pos : ℕ)
      → len ≤ pos
      → pos / sector_size < max_sectors
      → byte_to_sector ino pos st ≡ some none
  unfolding byte_to_sector
  byte_to_sector-end pos h lt =
      let a : ltb (pos / 512) 16524 ≡ true = ground arith in
      let b : leb len pos ≡ true = ground arith in
      rw (a, get-word st ino 0 f.here.on_device (omega arith), f.has_length, b) refl
