-- ===== src/Inode/Append.antt =====
-- inode.c: `inode_write_at` at the end of a file, which makes it longer.
use group.Base.{
  ℕ, zero, suc, ◌+◌, ◌*◌, ◌%◌, ◌<◌, ◌≡◌, ◌≢◌, refl, sym, ap, ◌∙◌, true, false, Option, some, List,
  ◌==◌, leb, ltb, if◌then◌else◌, ◌>>=◌, arith, Bool-cases, inl, inr, ◌⊎◌, length, take, drop,
  Allows, Allows-bind, Allows-assert, Allows-then,
}
use group.Cache.{sector_size, slice}
use group.FreeMap.Alloc.{in_use}
use group.Inode.{
  Store, bytes_to_sectors, inode_get_length, of_bytes, cached_write, chunk, byte_to_sector,
  write_loop,
}
use group.Inode.Alloc.{SameDevice}
use group.Inode.Blocks.{word, block_of}
use group.Inode.Tree.{Node, root, block, parent, offset, addr, IsChild, IsPointers-IsChild}
use group.Inode.Tree.Frame.{addr_kept, unset_kept, Alive-keeps}
use group.Inode.Tree.Since.{IsInner, parent-IsInner}
use group.Inode.Tree.Install.{Has}
use group.Inode.Tree.Loop.{block_not_inner}
use group.Inode.Longer.{IsSolid}

-- All but the bytes.
pub record SameMap (st st' : Store) : Type 0 where
  pub map : st'.map ≡ st.map
  pub size : st'.size ≡ st.size
  pub wrote : st'.wrote ≡ st.wrote
  pub map_file : st'.map_file ≡ st.map_file

SameMap-trans : (a b c : Store) → SameMap a b → SameMap b c → SameMap a c
SameMap-trans a b c p q = record {
  map = q.map ∙ p.map;
  size = q.size ∙ p.size;
  wrote = q.wrote ∙ p.wrote;
  map_file = q.map_file ∙ p.map_file;
}

cached_write-SameMap :
    (sector : ℕ) (bytes : List ℕ) (start : ℕ) (st : Store)
    → Allows (cached_write sector bytes start st) (SameMap st)
cached_write-SameMap sector bytes start st = Allows-assert (SameMap st) (ltb sector st.size) _ (λ a.
    Allows-assert (SameMap st) (leb (start + length bytes) sector_size) _
      (λ b. record { map = refl; size = refl; wrote = refl; map_file = refl }))

pub write_loop-SameMap :
    (fuel ino : ℕ) (buffer : List ℕ) (offset : ℕ) (st : Store)
    → Allows (write_loop fuel ino buffer offset st) (λ r. SameMap st r.1)
unfolding write_loop
write_loop-SameMap zero ino buffer offset st = tt
write_loop-SameMap (suc fuel) ino buffer offset st = elim (Bool-cases (length buffer == 0)) [
  | inl e ↦ rw e (record { map = refl; size = refl; wrote = refl; map_file = refl })
  | inr e ↦ rw e (
      Allows-then (λ r. SameMap st r.1) (byte_to_sector ino offset st) _
        (λ idx.
          Allows-then (λ r. SameMap st r.1) (inode_get_length ino st) _
            (λ len.
              round idx (chunk len (length buffer) offset)
                (Bool-cases (chunk len (length buffer) offset == 0))
                (λ n st₁. write_loop-SameMap fuel ino (drop n buffer) (offset + n) st₁))))
]
  where
    round :
        (idx : Option ℕ) (n : ℕ)
        → ((n == 0) ≡ true) ⊎ ((n == 0) ≡ false)
        → ((n : ℕ) (st₁ : Store)
            → Allows (write_loop fuel ino (drop n buffer) (offset + n) st₁) (λ r. SameMap st₁ r.1))
        → Allows {A = ℕ × Store}
            (if n == 0
              then some (0, st)
              else (idx >>= λ sector.
                  cached_write sector (take n buffer) (offset % sector_size) st >>= λ st₁.
                  write_loop fuel ino (drop n buffer) (offset + n) st₁ >>= λ (w, st₂).
                  some (n + w, st₂)))
            (λ r. SameMap st r.1)
    round idx n (inl z) again =
        rw z (record { map = refl; size = refl; wrote = refl; map_file = refl })
    round idx n (inr z) again = rw z (
        Allows-then (λ r. SameMap st r.1) idx _
          (λ sector.
            Allows-bind (SameMap st) (λ r. SameMap st r.1)
              (cached_write sector (take n buffer) (offset % sector_size) st) _
              (cached_write-SameMap sector (take n buffer) (offset % sector_size) st)
              (λ st₁ p.
                Allows-bind (λ r. SameMap st₁ r.1) (λ r. SameMap st r.1)
                  (write_loop fuel ino (drop n buffer) (offset + n) st₁) _ (again n st₁)
                  (λ (w, st₂) q. SameMap-trans st st₁ st₂ p q))))

-- A write into the blocks of a file leaves its tree.
module _ (st : Store) (ino len : ℕ) (s : IsSolid st ino len) (st' : Store) (m : SameMap st st')
    (elsewhere : (x : ℕ)
      → ((i : ℕ) → i * sector_size < len → block_of st ino i ≢ x)
      → st'.bytes x ≡ st.bytes x) where
  abbrev Nodes : Node → Type 0
  Nodes = Has (bytes_to_sectors len)

  inner_bytes :
      (w : Node) → Nodes w → IsInner w → st'.bytes (addr st ino w) ≡ st.bytes (addr st ino w)
  inner_bytes w h p =
      elsewhere (addr st ino w)
        (λ i lt e. block_not_inner i w p (sym (s.tree.distinct (block i) w (omega arith) h e)))

  words :
      (w : Node)
      → Nodes (parent w)
      → IsChild w
      → word st' (addr st ino (parent w)) (offset w) ≡ word st (addr st ino (parent w)) (offset w)
  words w h c =
      ap (λ b. of_bytes (slice b (offset w) 4)) (inner_bytes (parent w) h (parent-IsInner w c))

  used : (x : ℕ) → in_use st.map x ≡ true → in_use st'.map x ≡ true
  used x h = ap (λ f. in_use f x) m.map ∙ h

  place : (w : Node) → Nodes w → addr st' ino w ≡ addr st ino w
  place = addr_kept st st' ino Nodes s.tree (λ w h c. words w (s.tree.closed w h) c)

  device : SameDevice st st'
  device = record {
    size = m.size;
    cnt = ap (λ f. f.map.bit_cnt) m.map;
    file_open = ap (λ f. f.has_file) m.map;
    wrote = m.wrote;
    map_file = m.map_file;
  }

  pub written-IsSolid : IsSolid st' ino len
  written-IsSolid = record {
    tree = record {
      covered = record {
        valid = rw m.map s.tree.covered.valid;
        on_device = omega (arith, ap (λ f. f.map.bit_cnt) m.map, m.size, s.tree.covered.on_device);
      };
      small = rw m.size s.tree.small;
      zero_used = used 0 s.tree.zero_used;
      map_open = ap (λ f. f.has_file) m.map ∙ s.tree.map_open;
      map_used = λ x h. used x (s.tree.map_used x (ap (λ f. f x) (sym m.map_file) ∙ h));
      rooted = tt;
      closed = s.tree.closed;
      child = s.tree.child;
      alive =
          Alive-keeps st st' ino Nodes s.tree (λ w h c. words w (s.tree.closed w h) c) device used;
      distinct = λ v w a b e. s.tree.distinct v w a b (sym (place v a) ∙ e ∙ place w b);
      unset = λ w p h n.
          unset_kept st st' ino Nodes s.tree (λ w h c. words w (s.tree.closed w h) c) w
            (IsPointers-IsChild w p) h (words w h (IsPointers-IsChild w p))
          ∙ s.tree.unset w p h n;
    };
    has_length = ap (λ b. of_bytes (slice b 0 4)) (inner_bytes root tt (inl refl)) ∙ s.has_length;
    fits = s.fits;
  }
