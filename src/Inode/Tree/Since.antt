-- ===== src/Inode/Tree/Since.antt =====
-- inode.c: what a growing tree has kept since a state that came before.
use group.Base.{
  ℕ, ◌+◌, ◌≤◌, ◌≡◌, ◌≢◌, refl, sym, ap, ◌∙◌, true, false, List, [], ◌∷◌, ◌++◌, ◌==◌, among,
  among-append, length, length-append, ltb, arith, Bool-cases, inl, inr, ◌⊎◌,
}
use group.Cache.{slice}
use group.FreeMap.Alloc.{in_use}
use group.Inode.{Store, of_bytes}
use group.Inode.Blocks.{word}
use group.Inode.Alloc.{
  SameDevice, same_device, SameDevice-trans, SameDevice-bytes, Crowded, no_file, few,
}
use group.Inode.Tree.{
  Node, root, single, double, indirect, block, parent, addr, IsChild, IsPointers, IsTree,
}
use group.Inode.Tree.Point.{IsFresh, Taken, Taken-monotone, Taken-apart, taken_addr, taken-IsTree}
use group.Inode.Tree.Put.{
  With, pointed, addr-pointed, pointed_new, pointed_bytes, pointed_front, pointed-IsTree,
}

-- The inode, or a block of pointers.
abbrev pub IsInner : Node → Type 0
IsInner v = (v ≡ root) ⊎ IsPointers v

pub parent-IsInner : (v : Node) → IsChild v → IsInner (parent v)
parent-IsInner root c = absurd c
parent-IsInner single c = inl refl
parent-IsInner double c = inl refl
parent-IsInner (indirect k) c = inr tt
parent-IsInner (block i) c = elim (Bool-cases (ltb i 12)) [
  | inl e ↦ rw e (inl refl)
  | inr e ↦ rw e (elim (Bool-cases (ltb i 140)) [
    | inl e₂ ↦ rw e₂ (inr tt)
    | inr e₂ ↦ rw e₂ (inr (omega arith))
  ])
]

module _ (ino : ℕ) (st₀ : Store) (H₀ : Node → Type 0) where
  -- Sectors in use are in use, the old Nodes are where they were, new Nodes are in sectors that were
  -- free, and only the inode, blocks of pointers and the map's file have changed of what was in use.
  -- Sectors that are in use now and were not stand in `news`.
  pub record Since (st : Store) (H : Node → Type 0) : Type 0 where
    pub tree : IsTree st ino H
    pub same : SameDevice st₀ st
    pub used : (x : ℕ) → in_use st₀.map x ≡ true → in_use st.map x ≡ true
    pub kept : (w : Node) → H₀ w → H w × (addr st ino w ≡ addr st₀ ino w)
    pub added : (w : Node) → H w → H₀ w ⊎ (in_use st₀.map (addr st ino w) ≡ false)
    pub bytes :
        (x : ℕ)
        → in_use st₀.map x ≡ true
        → st₀.map_file x ≡ false
        → ((w : Node) → H₀ w → IsInner w → addr st₀ ino w ≢ x)
        → st.bytes x ≡ st₀.bytes x
    pub front : (at : ℕ) → at + 4 ≤ 8 → word st ino at ≡ word st₀ ino at
    pub news : List ℕ
    pub only : (j : ℕ) → in_use st₀.map j ≡ false → among j news ≡ false → in_use st.map j ≡ false

  pub since_start : IsTree st₀ ino H₀ → Since st₀ H₀
  since_start t = record {
    tree = t;
    same = same_device st₀;
    used = λ x h. h;
    kept = λ w h. (h, refl);
    added = λ w h. inl h;
    bytes = λ x h q n. refl;
    front = λ at h. refl;
    news = [];
    only = λ j h n. h;
  }

  pub since_start_news : (t : IsTree st₀ ino H₀) → (since_start t).news ≡ []
  unfolding since_start
  since_start_news t = refl

  -- What is free now and what came in between was all that was free.
  pub Crowded-since :
      (st : Store) (H : Node → Type 0) (i : Since st H) (k m : ℕ)
      → length i.news + k ≤ m
      → Crowded st k
      → Crowded st₀ m
  Crowded-since st H i k m le (no_file h) = no_file (sym i.same.wrote ∙ h)
  Crowded-since st H i k m le (few free short h) =
      few (i.news ++ free) (omega (arith, length-append i.news free)) (λ j lt q.
        among-append j i.news free ∙ elim (Bool-cases (among j i.news)) [
          | inl e ↦ rw e refl
          | inr e ↦ rw e (h j (omega (arith, i.same.cnt)) (i.only j q e))
        ])

  pub was_free :
      (st : Store) (H : Node → Type 0)
      → Since st H
      → (x : ℕ) → in_use st.map x ≡ false
      → in_use st₀.map x ≡ false
  was_free st H s x h = elim (Bool-cases (in_use st₀.map x)) [
    | inl e ↦ absurd (ground (arith, s.used x e, h))
    | inr e ↦ e
  ]

  since-Taken_only :
      (st st' : Store) (H : Node → Type 0) (s : ℕ) (i : Since st H)
      → Taken st s st'
      → (j : ℕ) → in_use st₀.map j ≡ false
      → among j (s ∷ i.news) ≡ false
      → in_use st'.map j ≡ false
  unfolding among
  since-Taken_only st st' H s i k j h n = k.used j ∙ elim (Bool-cases (j == s)) [
    | inl e ↦ absurd (ground (arith, n))
    | inr e ↦ rw e (i.only j h (rw e at n))
  ]

  pub since_taken :
      (st st' : Store) (H : Node → Type 0) (s : ℕ) → Since st H → Taken st s st' → Since st' H
  since_taken st st' H s i k = record {
    tree = taken-IsTree st ino H i.tree s st' k;
    same = SameDevice-trans st₀ st st' i.same k.same;
    used = λ x h. Taken-monotone st st' s k x (i.used x h);
    kept = λ w h. let (h', e) = i.kept w h in (h', taken_addr st ino H i.tree s st' k w h' ∙ e);
    added = λ w h. rw (taken_addr st ino H i.tree s st' k w h) (i.added w h);
    bytes = λ x h q n.
        k.others x (Taken-apart st st' s k x (i.used x h)) (ap (λ f. f x) i.same.map_file ∙ q)
        ∙ i.bytes x h q n;
    front = λ at h.
        ap (λ b. of_bytes (slice b at 4))
          (k.others ino (Taken-apart st st' s k ino (i.tree.alive root i.tree.rooted).used)
            (i.tree.alive root i.tree.rooted).apart)
        ∙ i.front at h;
    news = s ∷ i.news;
    only = since-Taken_only st st' H s i k;
  }

  pub since_taken_news :
      (st st' : Store) (H : Node → Type 0) (s : ℕ) (i : Since st H) (k : Taken st s st')
      → (since_taken st st' H s i k).news ≡ s ∷ i.news
  unfolding since_taken
  since_taken_news st st' H s i k = refl

  module _ (st : Store) (H : Node → Type 0) (i : Since st H) (v : Node) (c : IsChild v)
      (above : H (parent v)) (new : H v → ⊥) (s : ℕ) (f : IsFresh st ino H s)
      (free : in_use st₀.map s ≡ false) where
    pub since_pointed : Since (pointed st ino H i.tree v c above new s f) (With v H)
    since_pointed = record {
      tree = pointed-IsTree st ino H i.tree v c above new s f;
      same = SameDevice-bytes st₀ st _ i.same;
      used = i.used;
      kept = λ w h.
          let (h', e) = i.kept w h in
          (inr h', addr-pointed st ino H i.tree v c above new s f w h' ∙ e);
      added = added;
      bytes = λ x h q n.
          pointed_bytes st ino H i.tree v c above new s f x (apart x h n) ∙ i.bytes x h q n;
      front = λ at h. pointed_front st ino H i.tree v c above new s f at h ∙ i.front at h;
      news = i.news;
      only = i.only;
    }
      where
        added :
            (w : Node)
            → With v H w
            → H₀ w
              ⊎ (in_use st₀.map (addr (pointed st ino H i.tree v c above new s f) ino w) ≡ false)
        added w (inl e) = inr (rw (e, pointed_new st ino H i.tree v c above new s f) free)
        added w (inr h) = rw (addr-pointed st ino H i.tree v c above new s f w h) (i.added w h)

        apart :
            (x : ℕ)
            → in_use st₀.map x ≡ true
            → ((w : Node) → H₀ w → IsInner w → addr st₀ ino w ≢ x)
            → x ≢ addr st ino (parent v)
        apart x h n e = elim (i.added (parent v) above) [
          | inl old ↦ n (parent v) old (parent-IsInner v c) (sym (i.kept (parent v) old).1 ∙ sym e)
          | inr q ↦ ground (arith, ap (in_use st₀.map) e, q, h)
        ]

    pub since_pointed_news : since_pointed.news ≡ i.news
    unfolding since_pointed
    since_pointed_news = refl
