-- ===== src/Inode/Tree/Remap.antt =====
-- inode.c: the tree of a file under another free map, whose file has changed as well.
use group.Base.{ℕ, ◌≡◌, refl, sym, ap, ◌∙◌, true, false, List, among, inl}
use group.FreeMap.Alloc.{in_use}
use group.Inode.{Store, of_bytes}
use group.Cache.{slice}
use group.Inode.Blocks.{word}
use group.Inode.Alloc.{IsCovered, SameDevice, SameDevice-trans}
use group.Inode.Tree.{Node, root, parent, offset, addr, IsTree, IsChild, IsPointers-IsChild}
use group.Inode.Tree.Frame.{addr_kept, unset_kept}
use group.Inode.Tree.Since.{Since}

module _ (ino : ℕ) (st₀ : Store) (H : Node → Type 0) (t : IsTree st₀ ino H) where
  -- The free map is another, with the sectors in use that were in use at first; the other sectors, those
  -- of its file aside, are as they were.
  module _ (st st' : Store) (i : Since ino st₀ H st H) (same : SameDevice st st')
      (covered : IsCovered st') (used : (x : ℕ) → in_use st₀.map x ≡ true → in_use st'.map x ≡ true)
      (bytes : (x : ℕ) → st.map_file x ≡ false → st'.bytes x ≡ st.bytes x) (news : List ℕ)
      (only : (j : ℕ)
        → in_use st₀.map j ≡ false
        → among j news ≡ false
        → in_use st'.map j ≡ false) where
    same_word : (w : Node) (o : ℕ) → H w → word st' (addr st ino w) o ≡ word st (addr st ino w) o
    same_word w o h =
        ap (λ b. of_bytes (slice b o 4)) (bytes (addr st ino w) (i.tree.alive w h).apart)

    words :
        (w : Node)
        → H w
        → IsChild w
        → word st' (addr st ino (parent w)) (offset w) ≡ word st (addr st ino (parent w)) (offset w)
    words w h c = same_word (parent w) (offset w) (i.tree.closed w h)

    place : (w : Node) → H w → addr st' ino w ≡ addr st ino w
    place = addr_kept st st' ino H i.tree words

    pub since_remapped : Since ino st₀ H st' H
    since_remapped = record {
      tree = record {
        covered = covered;
        small = rw same.size i.tree.small;
        zero_used = used 0 t.zero_used;
        map_open = same.file_open ∙ i.tree.map_open;
        map_used = λ x h. used x (
            t.map_used x
              (ap (λ f. f x) (sym i.same.map_file) ∙ ap (λ f. f x) (sym same.map_file) ∙ h));
        rooted = i.tree.rooted;
        closed = i.tree.closed;
        child = i.tree.child;
        alive = λ w h.
            let a = i.tree.alive w h in
            rw (place w h) (record {
              sector = record {
                nonzero = a.sector.nonzero;
                on_device = rw same.size a.sector.on_device;
              };
              used = used (addr st ino w) (rw (i.kept w h).1 (t.alive w h).used);
              apart = ap (λ f. f (addr st ino w)) same.map_file ∙ a.apart;
            });
        distinct = λ v w a b e. i.tree.distinct v w a b (sym (place v a) ∙ e ∙ place w b);
        unset = λ w p h n.
            unset_kept st st' ino H i.tree words w (IsPointers-IsChild w p) h
              (same_word (parent w) (offset w) h)
            ∙ i.tree.unset w p h n;
      };
      same = SameDevice-trans st₀ st st' i.same same;
      used = used;
      kept = λ w h. let (h', e) = i.kept w h in (h', place w h' ∙ e);
      added = λ w h. inl h;
      bytes = λ x h q n. bytes x (ap (λ f. f x) i.same.map_file ∙ q) ∙ i.bytes x h q n;
      front = λ at h.
          ap (λ b. of_bytes (slice b at 4)) (bytes ino (i.tree.alive root i.tree.rooted).apart)
          ∙ i.front at h;
      news = news;
      only = only;
    }

    pub since_remapped_news : since_remapped.news ≡ news
    unfolding since_remapped
    since_remapped_news = refl
