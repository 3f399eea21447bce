-- ===== src/Inode/Tree/Install.antt =====
-- inode.c: `install_sector` of the block behind the last.
use group.Base.{
  ℕ, ◌+◌, ◌-◌, ◌*◌, ◌/◌, ◌%◌, ◌≤◌, ◌<◌, ◌≡◌, length, refl, sym, ap, ◌∙◌, true, false, ◌==◌, ltb,
  arith, Bool-cases, inl, inr, ==_ne, eq_of_==, ne_of_==, Yields,
}
use group.Cache.{sector_size}
use group.Inode.{Store, put, write_sector}
use group.Inode.Tree.{Node, root, single, double, indirect, block, parent, offset, addr}
use group.Inode.Tree.Put.{With, pointed, put-pointed, pointed_new, pointed_bytes}
use group.Inode.Tree.Since.{Since, since_pointed, since_pointed_news}
use group.Inode.Tree.Ensure.{Growing, since_same, since_same_news}

-- The Nodes of a file of `n` blocks.
abbrev pub Has : ℕ → Node → Type 0
Has n root = Unit
Has n single = 12 < n
Has n double = 140 < n
Has n (indirect k) = 140 + 128 * k < n
Has n (block i) = i < n

-- One block more, of zeros, for at most three sectors.
pub record Installed (ino : ℕ) (st₀ : Store) (H₀ : Node → Type 0) (n : ℕ) (st : Store)
    : Type 0 where
  pub since : Since ino st₀ H₀ st (Has (n + 1))
  pub zero : (i : ℕ) → i < sector_size → st.bytes (addr st ino (block n)) i ≡ 0
  pub few_news : length since.news ≤ 3

no_block : (n : ℕ) → Has n (block n) → ⊥
no_block n h = omega arith

to_more : (n : ℕ) (w : Node) → Has n w → Has (n + 1) w
to_more n root h = tt
to_more n single h = omega arith
to_more n double h = omega arith
to_more n (indirect k) h = omega arith
to_more n (block i) h = omega arith

last_block : (n : ℕ) (w : Node) → w ≡ block n → Has (n + 1) w
last_block n w e = rw e (omega arith)

or_last :
    (n i : ℕ) (H : Node → Type 0) → i < n + 1 → ((i < n) → H (block i)) → With (block n) H (block i)
or_last n i H h old = elim (Bool-cases (i == n)) [
  | inl e ↦ inl (ap block (eq_of_== i n e))
  | inr e ↦ inr (old (ground (arith, ne_of_== i n e)))
]

module _ (ino : ℕ) (st₀ : Store) (H₀ : Node → Type 0) (n : ℕ) (small : n < 16524) where
  -- The pointer to the new block is put into its place, in a tree that has the place.
  place_block :
      (H : Node → Type 0) (x k : ℕ) (st : Store)
      → k ≤ 3
      → Growing ino st₀ H₀ x k st H
      → H (parent (block n))
      → (H (block n) → ⊥)
      → ((w : Node) → With (block n) H w → Has (n + 1) w)
      → ((w : Node) → Has (n + 1) w → With (block n) H w)
      → Yields
          (put (addr st ino (parent (block n))) (offset (block n)) x st)
          (Installed ino st₀ H₀ n)
  place_block H x k st le g above new to from =
      rw (put-pointed st ino H g.since.tree (block n) small above new x g.fresh) (record {
        since =
            since_same ino st₀ (pointed st ino H g.since.tree (block n) small above new x g.fresh)
              H₀ (With (block n) H) (Has (n + 1)) to from
              (since_pointed ino st₀ H₀ st H g.since (block n) small above new x g.fresh g.free);
        zero = λ i h. rw (pointed_new st ino H g.since.tree (block n) small above new x g.fresh) (
            ap (λ b. b i)
              (pointed_bytes st ino H g.since.tree (block n) small above new x g.fresh x
                (λ z. g.fresh.outside (parent (block n)) above (sym z)))
            ∙ g.fresh.zero i h);
        few_news =
            rw
              (
                since_same_news ino st₀
                    (pointed st ino H g.since.tree (block n) small above new x g.fresh) H₀
                    (With (block n) H) (Has (n + 1)) to from _,
                since_pointed_news ino st₀ H₀ st H g.since (block n) small above new x g.fresh
                    g.free,
              )
              (omega (arith, g.few_news));
      })

  pub direct :
      (x k : ℕ) (st : Store)
      → k ≤ 3
      → Growing ino st₀ H₀ x k st (Has n)
      → ltb n 12 ≡ true
      → Yields (put ino (8 + 4 * n) x st) (Installed ino st₀ H₀ n)
  direct x k st le g e =
      let q : put ino (8 + 4 * n) x st
          ≡ put (addr st ino (parent (block n))) (offset (block n)) x st =
        rw e refl in
      rw q (place_block (Has n) x k st le g (rw e tt) (no_block n) to from)
    where
      to : (w : Node) → With (block n) (Has n) w → Has (n + 1) w
      to w (inl q) = last_block n w q
      to w (inr h) = to_more n w h

      from : (w : Node) → Has (n + 1) w → With (block n) (Has n) w
      from root h = inr tt
      from single h = absurd (ground (arith, h, e))
      from double h = absurd (ground (arith, h, e))
      from (indirect k) h = absurd (ground (arith, h, e))
      from (block i) h = or_last n i (Has n) h (λ p. p)

  pub below_single :
      (x k : ℕ) (st : Store)
      → k ≤ 3
      → Growing ino st₀ H₀ x k st (With single (Has n))
      → ltb n 12 ≡ false
      → ltb n 140 ≡ true
      → Yields (write_sector (addr st ino single) (n - 12) x st) (Installed ino st₀ H₀ n)
  below_single x k st le g e e₂ =
      let q : put (addr st ino single) ((n - 12) * 4) x st
          ≡ put (addr st ino (parent (block n))) (offset (block n)) x st =
        rw (e, e₂) refl in
      rw (==_ne (addr st ino single) 0 (g.since.tree.alive single (inl refl)).sector.nonzero, q)
        (place_block (With single (Has n)) x k st le g (rw (e, e₂) (inl refl)) new to from)
    where
      new : With single (Has n) (block n) → ⊥
      new (inl q) = ground (arith, q)
      new (inr h) = no_block n h

      to : (w : Node) → With (block n) (With single (Has n)) w → Has (n + 1) w
      to w (inl q) = last_block n w q
      to w (inr (inl q)) = rw q (ground (arith, e))
      to w (inr (inr h)) = to_more n w h

      from : (w : Node) → Has (n + 1) w → With (block n) (With single (Has n)) w
      from root h = inr (inr tt)
      from single h = inr (inl refl)
      from double h = absurd (ground (arith, h, e₂))
      from (indirect k) h = absurd (ground (arith, h, e₂))
      from (block i) h = or_last n i (With single (Has n)) h (λ p. inr p)

  abbrev pub row : ℕ
  row = (n - 140) / 128

  pub below_indirect :
      (x k : ℕ) (st : Store)
      → k ≤ 3
      → Growing ino st₀ H₀ x k st (With (indirect row) (With double (Has n)))
      → ltb n 12 ≡ false
      → ltb n 140 ≡ false
      → Yields
          (write_sector (addr st ino (indirect row)) ((n - 140) % 128) x st)
          (Installed ino st₀ H₀ n)
  below_indirect x k st le g e e₂ =
      let q : put (addr st ino (indirect row)) ((n - 140) % 128 * 4) x st
          ≡ put (addr st ino (parent (block n))) (offset (block n)) x st =
        rw (e, e₂) refl in
      rw
        (
          ==_ne (addr st ino (indirect row)) 0
              (g.since.tree.alive (indirect row) (inl refl)).sector.nonzero,
          q,
        )
        (place_block (With (indirect row) (With double (Has n))) x k st le g (rw (e, e₂) (inl refl))
          new to from)
    where
      new : With (indirect ((n - 140) / 128)) (With double (Has n)) (block n) → ⊥
      new (inl q) = ground (arith, q)
      new (inr (inl q)) = ground (arith, q)
      new (inr (inr h)) = no_block n h

      to :
          (w : Node)
          → With (block n) (With (indirect ((n - 140) / 128)) (With double (Has n))) w
          → Has (n + 1) w
      to w (inl q) = last_block n w q
      to w (inr (inl q)) = rw q (ground (arith, e₂))
      to w (inr (inr (inl q))) = rw q (ground (arith, e₂))
      to w (inr (inr (inr h))) = to_more n w h

      from :
          (w : Node)
          → Has (n + 1) w
          → With (block n) (With (indirect ((n - 140) / 128)) (With double (Has n))) w
      from root h = inr (inr (inr tt))
      from single h = inr (inr (inr (ground (arith, e₂))))
      from double h = inr (inr (inl refl))
      from (indirect k) h = elim (Bool-cases (k == (n - 140) / 128)) [
        | inl q ↦ inr (inl (ap indirect (eq_of_== k ((n - 140) / 128) q)))
        | inr q ↦ inr (inr (inr (ground (arith, h, e₂, ne_of_== k ((n - 140) / 128) q))))
      ]
      from (block i) h =
          or_last n i (With (indirect ((n - 140) / 128)) (With double (Has n))) h (λ p. inr (inr p))
