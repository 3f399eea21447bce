-- ===== src/Inode/Tree/Put.antt =====
-- inode.c: the pointer to a new sector is put into its place in the tree.
use group.Base.{
  ℕ, ◌+◌, ◌≤◌, ◌≡◌, ◌≢◌, sym, ap, ◌∙◌, some, ◌==◌, arith, Bool-cases, inl, inr, ◌⊎◌, eq_of_==,
  ne_of_==, subst,
}
use group.Inode.{Store, put}
use group.Inode.Blocks.{word}
use group.Inode.Words.{
  put_word, put-put_word, put_word-bytes, word-put_word, word-put_word_ne, word_zero,
}
use group.Inode.Tree.{
  Node, root, single, double, indirect, block, parent, offset, addr, IsChild, IsPointers,
  addr-parent, Alive, IsTree, IsPointers-IsChild, places_apart, offset_fits,
}
use group.Inode.Tree.Frame.{addr_kept, unset_kept}
use group.Inode.Tree.Point.{IsFresh}

-- The Nodes with one more.
abbrev pub With : Node → (Node → Type 0) → Node → Type 0
With v H w = (w ≡ v) ⊎ H w

pub root_place : (v : Node) → IsChild v → parent v ≡ root → 8 ≤ offset v
root_place root c h = absurd c
root_place single c h = omega arith
root_place double c h = omega arith
root_place (indirect k) c h = absurd (ground (arith, h))
root_place (block i) c h = ground (arith, h)

module _ (st : Store) (ino : ℕ) (H : Node → Type 0) (t : IsTree st ino H) (v : Node) (c : IsChild v)
    (above : H (parent v)) (new : H v → ⊥) (s : ℕ) (f : IsFresh st ino H s) where
  abbrev pub pointed : Store
  pointed = put_word st (addr st ino (parent v)) (offset v) s

  pub put-pointed : put (addr st ino (parent v)) (offset v) s st ≡ some pointed
  put-pointed =
      put-put_word st (addr st ino (parent v)) (offset v) s
        (t.alive (parent v) above).sector.on_device (offset_fits v c)

  other_word :
      (w : Node)
      → IsChild w
      → H (parent w)
      → (w ≡ v → ⊥)
      → word pointed (addr st ino (parent w)) (offset w)
        ≡ word st (addr st ino (parent w)) (offset w)
  other_word w d h ne =
      word-put_word_ne st (addr st ino (parent v)) (offset v) s (addr st ino (parent w)) (offset w)
        (elim (Bool-cases (addr st ino (parent w) == addr st ino (parent v))) [
          | inr e ↦ inl (ne_of_== (addr st ino (parent w)) (addr st ino (parent v)) e)
          | inl e ↦ inr (
              apart (
                places_apart v w c d (
                  sym (
                    t.distinct (parent w) (parent v) h above
                      (eq_of_== (addr st ino (parent w)) (addr st ino (parent v)) e)))))
        ])
    where
      apart :
          (v ≡ w) ⊎ ((offset v + 4 ≤ offset w) ⊎ (offset w + 4 ≤ offset v))
          → (offset w + 4 ≤ offset v) ⊎ (offset v + 4 ≤ offset w)
      apart (inl e) = absurd (ne (sym e))
      apart (inr (inl p)) = inr p
      apart (inr (inr p)) = inl p

  not_new : (w : Node) → H w → w ≡ v → ⊥
  not_new w h e = new (subst H e h)

  words :
      (w : Node)
      → H w
      → IsChild w
      → word pointed (addr st ino (parent w)) (offset w)
        ≡ word st (addr st ino (parent w)) (offset w)
  words w h d = other_word w d (t.closed w h) (not_new w h)

  pub addr-pointed : (w : Node) → H w → addr pointed ino w ≡ addr st ino w
  addr-pointed = addr_kept st pointed ino H t words

  pub pointed_new : addr pointed ino v ≡ s
  pointed_new =
      addr-parent pointed ino v c
      ∙ ap (λ x. word pointed x (offset v)) (addr-pointed (parent v) above)
      ∙ word-put_word st (addr st ino (parent v)) (offset v) s
          (omega (arith, f.alive.sector.on_device, t.small))

  pub pointed_bytes : (x : ℕ) → x ≢ addr st ino (parent v) → pointed.bytes x ≡ st.bytes x
  pointed_bytes x h = put_word-bytes st (addr st ino (parent v)) (offset v) s x h

  -- The words in front of the pointers of the inode.
  pub pointed_front : (at : ℕ) → at + 4 ≤ 8 → word pointed ino at ≡ word st ino at
  pointed_front at h =
      word-put_word_ne st (addr st ino (parent v)) (offset v) s ino at
        (elim (Bool-cases (ino == addr st ino (parent v))) [
          | inr e ↦ inl (ne_of_== ino (addr st ino (parent v)) e)
          | inl e ↦
              let at_root : root ≡ parent v =
                t.distinct root (parent v) t.rooted above
                  (eq_of_== ino (addr st ino (parent v)) e) in
              inr (inl (omega (arith, root_place v c (sym at_root))))
        ])

  Alive-pointed : {x : ℕ} → Alive st x → Alive pointed x
  Alive-pointed a = record {
    sector = record { nonzero = a.sector.nonzero; on_device = a.sector.on_device };
    used = a.used;
    apart = a.apart;
  }

  pub pointed-IsTree : IsTree pointed ino (With v H)
  pointed-IsTree = record {
    covered = record { valid = t.covered.valid; on_device = t.covered.on_device };
    small = t.small;
    zero_used = t.zero_used;
    map_open = t.map_open;
    map_used = t.map_used;
    rooted = inr t.rooted;
    closed = closed;
    child = child;
    alive = alive;
    distinct = distinct;
    unset = unset;
  }
    where
      closed : (w : Node) → With v H w → With v H (parent w)
      closed w (inl e) = inr (rw e above)
      closed w (inr h) = inr (t.closed w h)

      child : (w : Node) → With v H w → (w ≡ root) ⊎ IsChild w
      child w (inl e) = inr (rw e c)
      child w (inr h) = t.child w h

      alive : (w : Node) → With v H w → Alive pointed (addr pointed ino w)
      alive w (inl e) = rw (e, pointed_new) (Alive-pointed f.alive)
      alive w (inr h) = rw (addr-pointed w h) (Alive-pointed (t.alive w h))

      distinct :
          (a b : Node) → With v H a → With v H b → addr pointed ino a ≡ addr pointed ino b → a ≡ b
      distinct a b (inl p) (inl q) e = p ∙ sym q
      distinct a b (inl p) (inr h) e =
          absurd
            (f.outside b h (sym (addr-pointed b h) ∙ sym e ∙ ap (addr pointed ino) p ∙ pointed_new))
      distinct a b (inr h) (inl q) e =
          absurd
            (f.outside a h (sym (addr-pointed a h) ∙ e ∙ ap (addr pointed ino) q ∙ pointed_new))
      distinct a b (inr h) (inr k) e =
          t.distinct a b h k (sym (addr-pointed a h) ∙ e ∙ addr-pointed b k)

      unset :
          (w : Node)
          → IsPointers w
          → With v H (parent w)
          → (With v H w → ⊥)
          → addr pointed ino w ≡ 0
      unset w p (inr h) n =
          unset_kept st pointed ino H t words w (IsPointers-IsChild w p) h
            (other_word w (IsPointers-IsChild w p) h (λ e. n (inl e)))
          ∙ t.unset w p h (λ h. n (inr h))
      unset w p (inl e) n =
          addr-parent pointed ino w (IsPointers-IsChild w p)
          ∙ ap (λ x. word pointed x (offset w)) (ap (addr pointed ino) e ∙ pointed_new)
          ∙ word_zero pointed s (offset w)
              (λ i h.
                ap (λ b. b i) (pointed_bytes s (λ z. f.outside (parent v) above (sym z)))
                ∙ f.zero i h)
              (offset_fits w (IsPointers-IsChild w p))

  -- Another new sector stays one.
  pub pointed-IsFresh : (x : ℕ) → IsFresh st ino H x → x ≢ s → IsFresh pointed ino (With v H) x
  pointed-IsFresh x g ne = record {
    alive = Alive-pointed g.alive;
    zero = λ i h.
        ap (λ b. b i) (pointed_bytes x (λ z. g.outside (parent v) above (sym z))) ∙ g.zero i h;
    outside = outside;
  }
    where
      outside : (w : Node) → With v H w → addr pointed ino w ≢ x
      outside w (inl e) q = ne (sym q ∙ ap (addr pointed ino) e ∙ pointed_new)
      outside w (inr h) q = g.outside w h (sym (addr-pointed w h) ∙ q)
