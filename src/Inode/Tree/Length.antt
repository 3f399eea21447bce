-- ===== src/Inode/Tree/Length.antt =====
-- inode.c: the length of the file is written into the inode, in front of the pointers; and the file
-- that a tree of blocks holds.
use group.Base.{
  ℕ, ◌*◌, ◌≤◌, ◌≡◌, sym, ◌∙◌, ◌==◌, arith, some, Bool-cases, inl, inr, eq_of_==, ne_of_==,
}
use group.Cache.{sector_size}
use group.Inode.{Store, put}
use group.Inode.Blocks.{word, IsFile}
use group.Inode.Words.{put_word, put-put_word, word-put_word_ne}
use group.Inode.Tree.{
  Node, root, single, double, indirect, block, parent, offset, addr, IsChild, IsTree,
  IsPointers-IsChild,
}
use group.Inode.Tree.Frame.{addr_kept, unset_kept, Alive-keeps}
use group.Inode.Tree.Put.{root_place}
use group.Inode.Tree.Install.{Has}
use group.Inode.Alloc.{same_device, SameDevice-bytes}

module _ (st : Store) (ino : ℕ) (H : Node → Type 0) (t : IsTree st ino H) (len : ℕ) where
  abbrev pub lengthened : Store
  lengthened = put_word st ino 0 len

  pub put-lengthened : put ino 0 len st ≡ some lengthened
  put-lengthened = put-put_word st ino 0 len (t.alive root t.rooted).sector.on_device (omega arith)

  words :
      (w : Node)
      → H (parent w)
      → IsChild w
      → word lengthened (addr st ino (parent w)) (offset w)
        ≡ word st (addr st ino (parent w)) (offset w)
  words w h c =
      word-put_word_ne st ino 0 len (addr st ino (parent w)) (offset w)
        (elim (Bool-cases (addr st ino (parent w) == ino)) [
          | inr e ↦ inl (ne_of_== (addr st ino (parent w)) ino e)
          | inl e ↦
              let p =
                t.distinct (parent w) root h t.rooted (eq_of_== (addr st ino (parent w)) ino e) in
              inr (inr (omega (arith, root_place w c p)))
        ])

  pub addr-lengthened : (w : Node) → H w → addr lengthened ino w ≡ addr st ino w
  addr-lengthened = addr_kept st lengthened ino H t (λ w h c. words w (t.closed w h) c)

  pub lengthened-IsTree : IsTree lengthened ino H
  lengthened-IsTree = record {
    covered = record { valid = t.covered.valid; on_device = t.covered.on_device };
    small = t.small;
    zero_used = t.zero_used;
    map_open = t.map_open;
    map_used = t.map_used;
    rooted = t.rooted;
    closed = t.closed;
    child = t.child;
    alive =
        Alive-keeps st lengthened ino H t (λ w h c. words w (t.closed w h) c)
          (SameDevice-bytes st st _ (same_device st)) (λ s h. h);
    distinct =
        λ v w a b e. t.distinct v w a b (sym (addr-lengthened v a) ∙ e ∙ addr-lengthened w b);
    unset = λ w p h n.
        unset_kept st lengthened ino H t (λ w h c. words w (t.closed w h) c) w
          (IsPointers-IsChild w p) h (words w h (IsPointers-IsChild w p))
        ∙ t.unset w p h n;
  }

-- A tree of `n` blocks holds every file that fits into them.
pub IsTree-IsFile :
    (st : Store) (ino n len : ℕ)
    → IsTree st ino (Has n)
    → n ≤ 16524
    → len ≤ n * sector_size
    → word st ino 0 ≡ len
    → IsFile st ino len
IsTree-IsFile st ino n len t small fits l = record {
  here = (t.alive root tt).sector;
  has_length = l;
  fits = omega arith;
  block = λ i h. (t.alive (block i) (omega arith)).sector;
  single = λ h. (t.alive single (omega arith)).sector;
  double = λ h. (t.alive double (omega arith)).sector;
  indirect = λ k h. (t.alive (indirect k) (omega arith)).sector;
  distinct =
      λ i j p q e. same_block i j (t.distinct (block i) (block j) (omega arith) (omega arith) e);
  not_inode = λ i h e. absurd (ground (arith, t.distinct (block i) root (omega arith) tt e));
  not_single =
      λ i h q e. absurd (ground (arith, t.distinct (block i) single (omega arith) (omega arith) e));
  not_double =
      λ i h q e. absurd (ground (arith, t.distinct (block i) double (omega arith) (omega arith) e));
  not_indirect = λ i k h q e.
      absurd (ground (arith, t.distinct (block i) (indirect k) (omega arith) (omega arith) e));
}
  where
    same_block : (i j : ℕ) → block i ≡ block j → i ≡ j
    same_block i j e = ground (arith, e)
