-- ===== src/Inode/Tree/Loop.antt =====
-- inode.c: the loops over the new blocks.
use group.Base.{
  ℕ, zero, suc, ◌+◌, ◌≤◌, ◌<◌, ◌≡◌, ◌≢◌, refl, sym, ap, ◌∙◌, true, false, ◌==◌, arith, Bool-cases,
  inl, inr, ◌⊎◌, eq_of_==, ne_of_==, Unless, Unless-bind, Unless-weaken, length, length-append,
  among, among-append, ◌++◌, ◌*◌,
}
use group.Cache.{sector_size}
use group.FreeMap.Alloc.{in_use}
use group.Inode.{Store, install_sector, install_loop}
use group.Inode.Alloc.{SameDevice-trans, Crowded}
use group.Inode.Tree.{Node, root, single, double, indirect, block, addr, IsTree}
use group.Inode.Tree.Since.{Since, IsInner, since_start, since_start_news, was_free, Crowded-since}
use group.Inode.Tree.Install.{Has, Installed}
use group.Inode.Tree.Extend.{install_sector-Installed}

-- What has been kept since a state that kept what was there before.
pub since_trans :
    (ino : ℕ) (st₀ st st' : Store) (H₀ H H' : Node → Type 0)
    → Since ino st₀ H₀ st H
    → Since ino st H st' H'
    → Since ino st₀ H₀ st' H'
since_trans ino st₀ st st' H₀ H H' i j = record {
  tree = j.tree;
  same = SameDevice-trans st₀ st st' i.same j.same;
  used = λ x h. j.used x (i.used x h);
  kept = λ w h. let (h', e) = i.kept w h in let (h₂, e₂) = j.kept w h' in (h₂, e₂ ∙ e);
  added = λ w h. elim (j.added w h) [
    | inl h' ↦ let (h₂, e) = j.kept w h' in from (addr st ino w) (addr st' ino w) e w (i.added w h')
    | inr q ↦ inr (was_free ino st₀ H₀ st H i (addr st' ino w) q)
  ];
  bytes = λ x h q n.
      j.bytes x (i.used x h) (ap (λ f. f x) i.same.map_file ∙ q) (inner x h n) ∙ i.bytes x h q n;
  front = λ at h. j.front at h ∙ i.front at h;
  news = j.news ++ i.news;
  only = λ x h n. let (n₁, n₂) = apart x n in j.only x (i.only x h n₂) n₁;
}
  where
    apart :
        (x : ℕ)
        → among x (j.news ++ i.news) ≡ false
        → (among x j.news ≡ false) × (among x i.news ≡ false)
    apart x n =
        let m = sym (among-append x j.news i.news) ∙ n in
        elim (Bool-cases (among x j.news)) [
          | inl e ↦ absurd (ground (arith, rw e at m))
          | inr e ↦ (e, rw e at m)
        ]

    from :
        (a b : ℕ)
        → b ≡ a
        → (w : Node) → H₀ w ⊎ (in_use st₀.map a ≡ false)
        → H₀ w ⊎ (in_use st₀.map b ≡ false)
    from a b e w (inl h) = inl h
    from a b e w (inr q) = inr (ap (in_use st₀.map) e ∙ q)

    inner :
        (x : ℕ)
        → in_use st₀.map x ≡ true
        → ((w : Node) → H₀ w → IsInner w → addr st₀ ino w ≢ x)
        → (w : Node) → H w
        → IsInner w
        → addr st ino w ≢ x
    inner x h n w a p e = elim (i.added w a) [
      | inl old ↦ n w old p (sym (i.kept w old).1 ∙ e)
      | inr q ↦ ground (arith, ap (in_use st₀.map) e, q, h)
    ]

pub since_trans_news :
    (ino : ℕ) (st₀ st st' : Store) (H₀ H H' : Node → Type 0) (i : Since ino st₀ H₀ st H)
    (j : Since ino st H st' H')
    → (since_trans ino st₀ st st' H₀ H H' i j).news ≡ j.news ++ i.news
unfolding since_trans
since_trans_news ino st₀ st st' H₀ H H' i j = refl

-- The new blocks hold zeros, and the rest is kept; three sectors at most were taken for each, and one
-- before.
pub record Extended (ino : ℕ) (st₀ : Store) (from n : ℕ) (st : Store) : Type 0 where
  pub since : Since ino st₀ (Has from) st (Has n)
  pub zeros :
      (b i : ℕ) → from ≤ b → b < n → i < sector_size → st.bytes (addr st ino (block b)) i ≡ 0
  pub few_news : length since.news + 3 * from ≤ 1 + 3 * n

pub block_not_inner : (b : ℕ) (w : Node) → IsInner w → w ≡ block b → ⊥
block_not_inner b root p e = ground (arith, e)
block_not_inner b single p e = ground (arith, e)
block_not_inner b double p e = ground (arith, e)
block_not_inner b (indirect k) p e = ground (arith, e)
block_not_inner b (block i) (inl q) e = ground (arith, q)
block_not_inner b (block i) (inr q) e = q

-- A block keeps its sector and its bytes.
pub block_kept :
    (ino : ℕ) (st₀ st : Store) (n : ℕ) (H : Node → Type 0)
    → IsTree st₀ ino (Has n)
    → Since ino st₀ (Has n) st H
    → (b : ℕ) → b < n
    → (addr st ino (block b) ≡ addr st₀ ino (block b))
      × (st.bytes (addr st ino (block b)) ≡ st₀.bytes (addr st₀ ino (block b)))
block_kept ino st₀ st n H t i b h =
    let (_, e) = i.kept (block b) h in
    (
      e,
      ap st.bytes e
          ∙ i.bytes (addr st₀ ino (block b)) (t.alive (block b) h).used (t.alive (block b) h).apart
              (λ w a p q. block_not_inner b w p (t.distinct w (block b) a h q)),
    )

module _ (ino : ℕ) (st₀ : Store) (from : ℕ) where
  pub Extended-start : IsTree st₀ ino (Has from) → Extended ino st₀ from from st₀
  Extended-start t = record {
    since = since_start ino st₀ (Has from) t;
    zeros = λ b i p q r. absurd (omega arith);
    few_news = rw (since_start_news ino st₀ (Has from) t) (omega arith);
  }

  one_more :
      (n : ℕ) (st st₁ : Store)
      → from ≤ n
      → Extended ino st₀ from n st
      → Installed ino st (Has n) n st₁
      → Extended ino st₀ from (n + 1) st₁
  one_more n st st₁ le x s = record {
    since = since_trans ino st₀ st st₁ (Has from) (Has n) (Has (n + 1)) x.since s.since;
    zeros = λ b i p q r. elim (Bool-cases (b == n)) [
      | inl e ↦ rw (eq_of_== b n e) (s.zero i r)
      | inr e ↦
          let lt : b < n = ground (arith, ne_of_== b n e) in
          let (_, same) = block_kept ino st st₁ n (Has (n + 1)) x.since.tree s.since b lt in
          ap (λ f. f i) same ∙ x.zeros b i p lt r
    ];
    few_news =
        rw (since_trans_news ino st₀ st st₁ (Has from) (Has n) (Has (n + 1)) x.since s.since)
          (omega (arith, length-append s.since.news x.since.news, x.few_news, s.few_news));
  }

  -- The loop adds its blocks, in order.
  pub install_loop-Extended :
      (budget left n : ℕ) (st : Store)
      → from ≤ n
      → n + left ≤ 16524
      → 3 * (n + left) ≤ budget + 3 * from
      → Extended ino st₀ from n st
      → Unless (Crowded st₀ budget) (install_loop ino left n st) (Extended ino st₀ from (n + left))
  unfolding install_loop
  install_loop-Extended budget zero n st le fits b x = let e : n + 0 ≡ n = omega arith in rw e x
  install_loop-Extended budget (suc left) n st le fits b x =
      let e : n + suc left ≡ n + 1 + left = omega arith in
      rw e (
        Unless-bind (Crowded st₀ budget) (Installed ino st (Has n) n)
          (Extended ino st₀ from (n + 1 + left)) (install_sector ino n st) _
          (Unless-weaken (Crowded st₀ budget) (Crowded st 2) (Installed ino st (Has n) n)
            (install_sector ino n st)
            (Crowded-since ino st₀ (Has from) st (Has n) x.since 2 budget
              (omega (arith, x.few_news)))
            (install_sector-Installed ino st (Has n) n (omega arith) st
              (since_start ino st (Has n) x.since.tree)
              (ap length (since_start_news ino st (Has n) x.since.tree))))
          (λ st₁ s.
            install_loop-Extended budget left (n + 1) st₁ (omega arith) (omega arith) (omega arith)
              (one_more n st st₁ le x s)))
