-- ===== src/Inode/Tree/Point.antt =====
-- inode.c: a new sector is taken from the free map, and a pointer to it is put into the tree.
use group.Base.{
  ℕ, ◌<◌, ◌≡◌, ◌≢◌, refl, sym, ap, ◌∙◌, true, false, ◌==◌, if◌then◌else◌, arith, Bool-cases, inl,
  inr, ==_self,
}
use group.Cache.{sector_size, slice}
use group.FreeMap.Alloc.{in_use}
use group.Inode.{Store, of_bytes}
use group.Inode.Blocks.{word}
use group.Inode.Alloc.{IsCovered, SameDevice}
use group.Inode.Tree.{Node, parent, offset, addr, IsChild, Alive, IsTree, IsPointers-IsChild}
use group.Inode.Tree.Frame.{addr_kept, unset_kept, Alive-keeps}

-- A sector of zeros in use, that is not in the tree.
pub record IsFresh (st : Store) (ino : ℕ) (H : Node → Type 0) (s : ℕ) : Type 0 where
  pub alive : Alive st s
  pub zero : (i : ℕ) → i < sector_size → st.bytes s i ≡ 0
  pub outside : (w : Node) → H w → addr st ino w ≢ s

-- A sector was free, and is in use and full of zeros; nothing else changed but the map's file.
pub record Taken (st : Store) (s : ℕ) (st' : Store) : Type 0 where
  pub covered : IsCovered st'
  pub same : SameDevice st st'
  pub on_device : s < st'.size
  pub mapped : s < st'.map.map.bit_cnt
  pub was_free : in_use st.map s ≡ false
  pub used : (j : ℕ) → in_use st'.map j ≡ (if j == s then true else in_use st.map j)
  pub zero : (i : ℕ) → i < sector_size → st'.bytes s i ≡ 0
  pub others : (x : ℕ) → x ≢ s → st.map_file x ≡ false → st'.bytes x ≡ st.bytes x

pub Taken-monotone :
    (st st' : Store) (s : ℕ)
    → Taken st s st'
    → (x : ℕ) → in_use st.map x ≡ true
    → in_use st'.map x ≡ true
Taken-monotone st st' s k x h =
    k.used x ∙ elim (Bool-cases (x == s)) [ inl e ↦ rw e refl | inr e ↦ rw e h ]

pub Taken-apart :
    (st st' : Store) (s : ℕ) → Taken st s st' → (x : ℕ) → in_use st.map x ≡ true → x ≢ s
Taken-apart st st' s k x h e = ground (arith, ap (in_use st.map) e, h, k.was_free)

module _ (st : Store) (ino : ℕ) (H : Node → Type 0) (t : IsTree st ino H) (s : ℕ) (st' : Store)
    (k : Taken st s st') where
  node_apart : (w : Node) → H w → addr st ino w ≢ s
  node_apart w h = Taken-apart st st' s k (addr st ino w) (t.alive w h).used

  same_word : (w : Node) (o : ℕ) → H w → word st' (addr st ino w) o ≡ word st (addr st ino w) o
  same_word w o h =
      ap (λ b. of_bytes (slice b o 4))
        (k.others (addr st ino w) (node_apart w h) (t.alive w h).apart)

  words :
      (w : Node)
      → H w
      → IsChild w
      → word st' (addr st ino (parent w)) (offset w) ≡ word st (addr st ino (parent w)) (offset w)
  words w h c = same_word (parent w) (offset w) (t.closed w h)

  pub taken_addr : (w : Node) → H w → addr st' ino w ≡ addr st ino w
  taken_addr = addr_kept st st' ino H t words

  pub taken-IsTree : IsTree st' ino H
  taken-IsTree = record {
    covered = k.covered;
    small = rw k.same.size t.small;
    zero_used = Taken-monotone st st' s k 0 t.zero_used;
    map_open = k.same.file_open ∙ t.map_open;
    map_used =
        λ x h. Taken-monotone st st' s k x (t.map_used x (ap (λ f. f x) (sym k.same.map_file) ∙ h));
    rooted = t.rooted;
    closed = t.closed;
    child = t.child;
    alive = Alive-keeps st st' ino H t words k.same (Taken-monotone st st' s k);
    distinct = λ v w a b e. t.distinct v w a b (sym (taken_addr v a) ∙ e ∙ taken_addr w b);
    unset = λ w p h n.
        unset_kept st st' ino H t words w (IsPointers-IsChild w p) h
          (same_word (parent w) (offset w) h)
        ∙ t.unset w p h n;
  }

  not_map_file : st.map_file s ≡ false
  not_map_file = elim (Bool-cases (st.map_file s)) [
    | inl e ↦ absurd (ground (arith, t.map_used s e, k.was_free))
    | inr e ↦ e
  ]

  pub taken-IsFresh : IsFresh st' ino H s
  taken-IsFresh = record {
    alive = record {
      sector = record {
        nonzero = λ e. ground (arith, ap (in_use st.map) e, k.was_free, t.zero_used);
        on_device = k.on_device;
      };
      used = k.used s ∙ rw (==_self s) refl;
      apart = ap (λ f. f s) k.same.map_file ∙ not_map_file;
    };
    zero = k.zero;
    outside = λ w h e. node_apart w h (sym (taken_addr w h) ∙ e);
  }
