-- ===== src/Inode/Longer.antt =====
-- inode.c: `inode_extend_to_bytes` on a file with its tree of blocks.
use group.Base.{
  ℕ, ◌+◌, ◌-◌, ◌*◌, ◌/◌, ◌≤◌, ◌<◌, ◌≡◌, ◌≢◌, refl, sym, ap, ◌∙◌, Bool, true, false, not, some, ◌==◌,
  leb, ltb, if◌then◌else◌, ◌>>=◌, arith, Bool-cases, inl, inr, Yields, Unless, Unless-bind,
  Unless-after, Unless-of_Yields,
}
use group.Cache.{sector_size}
use group.FreeMap.Alloc.{in_use}
use group.Inode.{
  Store, max_sectors, bytes_to_sectors, inode_get_length, inode_extend, inode_extend_to_bytes,
  set_extended, can_allocate, install_loop,
}
use group.Inode.Alloc.{Crowded}
use group.Inode.Blocks.{word, block_of, get-word, IsFile}
use group.Inode.Words.{put_word-bytes, word-put_word}
use group.Inode.Tree.{Node, root, block, addr, IsTree}
use group.Inode.Tree.Since.{Since, IsInner}
use group.Inode.Tree.Install.{Has}
use group.Inode.Tree.Loop.{Extended, Extended-start, install_loop-Extended, block_kept}
use group.Inode.Tree.Probe.{Probed, can_allocate-Probed}
use group.Inode.Tree.Length.{
  lengthened, put-lengthened, addr-lengthened, lengthened-IsTree, IsTree-IsFile,
}

-- A file of `len` bytes whose blocks and blocks of pointers form a tree.
pub record IsSolid (st : Store) (ino len : ℕ) : Type 0 where
  pub tree : IsTree st ino (Has (bytes_to_sectors len))
  pub has_length : word st ino 0 ≡ len
  pub fits : len ≤ max_sectors * sector_size

pub IsSolid-IsFile : (st : Store) (ino len : ℕ) → IsSolid st ino len → IsFile st ino len
IsSolid-IsFile st ino len s =
    IsTree-IsFile st ino (bytes_to_sectors len) len s.tree (omega (arith, s.fits)) (omega arith)
      s.has_length

-- The file is longer: its old blocks have their sectors and bytes, the new ones hold zeros, and what
-- was in use besides the inode, its blocks of pointers and the sectors of the free map's file is
-- unchanged.
pub record Longer (st : Store) (ino len new : ℕ) (st' : Store) : Type 0 where
  pub solid : IsSolid st' ino new
  pub same_block :
      (b : ℕ)
      → b < bytes_to_sectors len
      → (block_of st' ino b ≡ block_of st ino b)
        × (st'.bytes (block_of st' ino b) ≡ st.bytes (block_of st ino b))
  pub zeros :
      (b i : ℕ)
      → bytes_to_sectors len ≤ b
      → b < bytes_to_sectors new
      → i < sector_size
      → st'.bytes (block_of st' ino b) i ≡ 0
  pub used : (x : ℕ) → in_use st.map x ≡ true → in_use st'.map x ≡ true
  pub elsewhere :
      (x : ℕ)
      → in_use st.map x ≡ true
      → st.map_file x ≡ false
      → ((w : Node) → Has (bytes_to_sectors len) w → IsInner w → addr st ino w ≢ x)
      → st'.bytes x ≡ st.bytes x

-- By the answer of `can_allocate`.
abbrev pub LongerR : Store → ℕ → ℕ → ℕ → Bool × Store → Type 0
LongerR st ino len new (true, st') = Longer st ino len new st'
LongerR st ino len new (false, st') =
    Since ino st (Has (bytes_to_sectors len)) st' (Has (bytes_to_sectors len))

module _ (st : Store) (ino len new : ℕ) (s : IsSolid st ino len) (more : len < new)
    (room : new ≤ max_sectors * sector_size) where
  abbrev n : ℕ
  n = bytes_to_sectors len

  abbrev ByRoom : ℕ → Bool × Store → Type 0
  ByRoom left (true, st') = Extended ino st (bytes_to_sectors len) (bytes_to_sectors len + left) st'
  ByRoom left (false, st') =
      Since ino st (Has (bytes_to_sectors len)) st' (Has (bytes_to_sectors len))

  -- At most three free sectors for each new block, or no way to write the map's file.
  abbrev Full : Type 0
  Full = Crowded st (3 * (bytes_to_sectors new - bytes_to_sectors len))

  read_length : inode_get_length ino st ≡ some len
  read_length =
      get-word st ino 0 (s.tree.alive root tt).sector.on_device (omega arith) ∙ ap some s.has_length

  inode_extend-ByRoom :
      (left : ℕ)
      → bytes_to_sectors len + left ≡ bytes_to_sectors new
      → Unless Full (inode_extend ino left st) (ByRoom left)
  unfolding inode_extend
  inode_extend-ByRoom left fits =
      rw (read_length, first_new)
        (Unless-after Full (λ r. Probed ino st (Has (bytes_to_sectors len)) s.tree r.1)
          (ByRoom left) (can_allocate left st) _
          (can_allocate-Probed ino st (Has (bytes_to_sectors len)) s.tree left)
          (λ (ok, st₁) i. answer ok st₁ i))
    where
      first_new : (if len == 0 then 0 else (len - 1) / 512 + 1) ≡ bytes_to_sectors len
      first_new = ground arith

      answer :
          (yes : Bool) (st₁ : Store)
          → Probed ino st (Has (bytes_to_sectors len)) s.tree st₁
          → Unless Full
              (if not yes
                then some (false, st₁)
                else (install_loop ino left (bytes_to_sectors len) st₁ >>= λ st. some (true, st)))
              (ByRoom left)
      answer false st₁ (i, few) = i
      answer true st₁ (i, few) =
          Unless-bind Full (Extended ino st (bytes_to_sectors len) (bytes_to_sectors len + left))
            (ByRoom left) (install_loop ino left (bytes_to_sectors len) st₁) _
            (install_loop-Extended ino st (bytes_to_sectors len)
              (3 * (bytes_to_sectors new - bytes_to_sectors len)) left (bytes_to_sectors len) st₁
              (omega arith) (omega (arith, fits)) (omega (arith, fits))
              (record {
                since = i;
                zeros = λ b i p q r. absurd (omega arith);
                few_news = omega (arith, few);
              }))
            (λ st₂ x. x)

  -- The new length is written.
  longer :
      (m : ℕ) (st₁ : Store)
      → m ≡ bytes_to_sectors new
      → Extended ino st (bytes_to_sectors len) m st₁
      → Yields (set_extended ino new (true, st₁)) (LongerR st ino len new)
  longer m st₁ e x = rw (put-lengthened st₁ ino (Has m) x.since.tree new) (record {
    solid = record {
      tree = rw (sym e) (lengthened-IsTree st₁ ino (Has m) x.since.tree new);
      has_length = word-put_word st₁ ino 0 new (omega arith);
      fits = room;
    };
    same_block = λ b h.
        let (p, q) = block_kept ino st st₁ (bytes_to_sectors len) (Has m) s.tree x.since b h in
        let (inside, _) = x.since.kept (block b) h in
        (
          place b inside ∙ p,
          ap (λ a. (lengthened st₁ ino (Has m) x.since.tree new).bytes a) (place b inside)
              ∙ bytes_at b inside
              ∙ q,
        );
    zeros = λ b i p q r.
        let inside : Has m (block b) = omega (arith, e) in
        ap (λ a. (lengthened st₁ ino (Has m) x.since.tree new).bytes a i) (place b inside)
        ∙ ap (λ f. f i) (bytes_at b inside)
        ∙ x.zeros b i p (omega (arith, e)) r;
    used = x.since.used;
    elsewhere = λ y h q apart.
        put_word-bytes st₁ ino 0 new y (λ z. apart root tt (inl refl) (sym z))
        ∙ x.since.bytes y h q apart;
  })
    where
      place :
          (b : ℕ)
          → b < m
          → block_of (lengthened st₁ ino (Has m) x.since.tree new) ino b ≡ block_of st₁ ino b
      place b h = addr-lengthened st₁ ino (Has m) x.since.tree new (block b) h

      bytes_at :
          (b : ℕ)
          → b < m
          → (lengthened st₁ ino (Has m) x.since.tree new).bytes (block_of st₁ ino b)
            ≡ st₁.bytes (block_of st₁ ino b)
      bytes_at b h =
          put_word-bytes st₁ ino 0 new (block_of st₁ ino b)
            (λ z. ground (arith, x.since.tree.distinct (block b) root h tt z))

  grown :
      (left : ℕ)
      → bytes_to_sectors len + left ≡ bytes_to_sectors new
      → Unless Full (inode_extend ino left st >>= set_extended ino new) (LongerR st ino len new)
  grown left e =
      Unless-bind Full (ByRoom left) (LongerR st ino len new) (inode_extend ino left st)
        (set_extended ino new) (inode_extend-ByRoom left e) (λ (ok, st₁) x. set ok st₁ x)
    where
      set :
          (yes : Bool) (st₁ : Store)
          → ByRoom left (yes, st₁)
          → Unless Full (set_extended ino new (yes, st₁)) (LongerR st ino len new)
      set false st₁ x = x
      set true st₁ x =
          Unless-of_Yields Full (LongerR st ino len new) (set_extended ino new (true, st₁))
            (longer (bytes_to_sectors len + left) st₁ e x)

  pub inode_extend_to_bytes-Longer :
      Unless
        (Crowded st (3 * (bytes_to_sectors new - bytes_to_sectors len)))
        (inode_extend_to_bytes ino new st)
        (LongerR st ino len new)
  unfolding inode_extend_to_bytes
  inode_extend_to_bytes-Longer = rw read_length (elim (Bool-cases (len == 0)) [
    | inl e ↦ rw e (grown ((new - 1) / 512 + 1) (ground arith))
    | inr e ↦ rw e (elim (Bool-cases (leb ((new - 1) / 512) ((len - 1) / 512))) [
      | inl f ↦
          let l : ltb len new ≡ true = ground arith in
          rw (f, l)
            (Unless-of_Yields Full (LongerR st ino len new) (set_extended ino new (true, st)) (
              longer (bytes_to_sectors len) st (ground arith)
                (Extended-start ino st (bytes_to_sectors len) s.tree)))
      | inr f ↦ rw f (grown ((new - 1) / 512 - (len - 1) / 512) (ground arith))
    ])
  ])
