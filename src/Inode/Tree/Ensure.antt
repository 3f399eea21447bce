-- ===== src/Inode/Tree/Ensure.antt =====
-- inode.c: `get_sector` and the pointer blocks that `install_sector` sees to, in a tree that grows.
use group.Base.{
  ℕ, ◌-◌, ◌≡◌, refl, sym, ap, ◌∙◌, true, false, Option, none, some, ◌>>=◌, ltb, replicate, get_or,
  length-replicate, arith, inl, inr, ◌⊎◌, ==_ne, ==_self, Unless, Unless-bind, Unless-after,
  Unless-weaken, Yields, ◌+◌, ◌≤◌, length,
}
use group.Cache.{splice}
use group.FreeMap.Alloc.{in_use}
use group.Inode.{Store, get_sector, must_get, ensure, put, cached_write, zero_block}
use group.Inode.Alloc.{
  IsCovered, SameDevice-bytes, Crowded, Crowded-now, Got, got, full, get_sector-Got,
}
use group.Inode.Tree.{Node, root, parent, offset, addr, IsPointers, IsTree, IsPointers-IsChild}
use group.Inode.Tree.Point.{IsFresh, Taken, Taken-monotone, Taken-apart, taken_addr, taken-IsFresh}
use group.Inode.Tree.Put.{With, put-pointed, pointed_new, pointed-IsFresh}
use group.Inode.Tree.Since.{
  Since, was_free, since_taken, since_pointed, since_taken_news, since_pointed_news, Crowded-since,
}

-- A new sector; a failed ASSERT when there is none.
pub must_get-Taken :
    (st : Store)
    → IsCovered st
    → Unless (Crowded st 0) (get_sector st >>= must_get) (λ r. Taken st r.0 r.1)
unfolding must_get
must_get-Taken st c =
    Unless-after (Crowded st 0) (Got st) (λ r. Taken st r.0 r.1) (get_sector st) must_get
      (get_sector-Got st c) taken
  where
    taken :
        (r : Option ℕ × Store)
        → Got st r
        → Unless (Crowded st 0) (must_get r) (λ r. Taken st r.0 r.1)
    taken (some s, st') (got v lt same free now blank rest) = record {
      covered = v;
      same = same;
      on_device = omega (arith, v.on_device);
      mapped = lt;
      was_free = free;
      used = now;
      zero = blank;
      others = rest;
    }
    taken (none, st') (full same device bytes why) = Crowded-now st why

zeros : (n i : ℕ) → get_or {A = ℕ} (replicate n 0) i 0 ≡ 0
zeros ℕ.zero i = refl
zeros (ℕ.suc n) ℕ.zero = refl
zeros (ℕ.suc n) (ℕ.suc i) = zeros n i

-- `install_sector` fills the sector with zeros once more.
pub Taken-cached_write :
    (st st' : Store) (s : ℕ)
    → Taken st s st'
    → Yields (cached_write s zero_block 0 st') (Taken st s)
unfolding splice
Taken-cached_write st st' s k =
    let a : ltb s st'.size ≡ true = ground (arith, k.on_device) in
    rw a (record {
      covered = record { valid = k.covered.valid; on_device = k.covered.on_device };
      same = SameDevice-bytes st st' _ k.same;
      on_device = k.on_device;
      mapped = k.mapped;
      was_free = k.was_free;
      used = k.used;
      zero = λ i h.
          rw (==_self s) (ground (arith, zeros 512 (i - 0), h, length-replicate {A = ℕ} 512 0));
      others = λ x h q. rw (==_ne x s h) (k.others x h q);
    })

pub Taken-IsFresh :
    (st st' : Store) (ino : ℕ) (H : Node → Type 0) (t : IsTree st ino H) (s x : ℕ)
    → Taken st s st'
    → IsFresh st ino H x
    → IsFresh st' ino H x
Taken-IsFresh st st' ino H t s x k f = record {
  alive = record {
    sector = record {
      nonzero = f.alive.sector.nonzero;
      on_device = rw k.same.size f.alive.sector.on_device;
    };
    used = Taken-monotone st st' s k x f.alive.used;
    apart = ap (λ g. g x) k.same.map_file ∙ f.alive.apart;
  };
  zero = λ i h.
      ap (λ b. b i) (k.others x (Taken-apart st st' s k x f.alive.used) f.alive.apart) ∙ f.zero i h;
  outside = λ w h e. f.outside w h (sym (taken_addr st ino H t s st' k w h) ∙ e);
}

-- The same Nodes in other words.
pub IsTree-same :
    (st : Store) (ino : ℕ) (H K : Node → Type 0)
    → ((w : Node) → H w → K w)
    → ((w : Node) → K w → H w)
    → IsTree st ino H
    → IsTree st ino K
IsTree-same st ino H K to from t = record {
  covered = t.covered;
  small = t.small;
  zero_used = t.zero_used;
  map_open = t.map_open;
  map_used = t.map_used;
  rooted = to root t.rooted;
  closed = λ w h. to (parent w) (t.closed w (from w h));
  child = λ w h. t.child w (from w h);
  alive = λ w h. t.alive w (from w h);
  distinct = λ v w a b. t.distinct v w (from v a) (from w b);
  unset = λ w p h n. t.unset w p (from (parent w) h) (λ h. n (to w h));
}

pub since_same :
    (ino : ℕ) (st₀ st : Store) (H₀ H K : Node → Type 0)
    → ((w : Node) → H w → K w)
    → ((w : Node) → K w → H w)
    → Since ino st₀ H₀ st H
    → Since ino st₀ H₀ st K
since_same ino st₀ st H₀ H K to from s = record {
  tree = IsTree-same st ino H K to from s.tree;
  same = s.same;
  used = s.used;
  kept = λ w h. let (h', e) = s.kept w h in (to w h', e);
  added = λ w h. s.added w (from w h);
  bytes = s.bytes;
  front = s.front;
  news = s.news;
  only = s.only;
}

pub since_same_news :
    (ino : ℕ) (st₀ st : Store) (H₀ H K : Node → Type 0) (to : (w : Node) → H w → K w)
    (from : (w : Node) → K w → H w) (s : Since ino st₀ H₀ st H)
    → (since_same ino st₀ st H₀ H K to from s).news ≡ s.news
unfolding since_same
since_same_news ino st₀ st H₀ H K to from s = refl

-- A growing tree, and a sector of zeros that was free and is still to find its place; at most `k` sectors
-- were taken.
pub record Growing (ino : ℕ) (st₀ : Store) (H₀ : Node → Type 0) (x k : ℕ) (st : Store)
    (H : Node → Type 0) : Type 0 where
  pub since : Since ino st₀ H₀ st H
  pub fresh : IsFresh st ino H x
  pub free : in_use st₀.map x ≡ false
  pub few_news : length since.news ≤ k

-- A block of pointers that is there, and its sector.
abbrev pub Ensured :
    ℕ → Store → (Node → Type 0) → ℕ → ℕ → (Node → Type 0) → Node → ℕ × Store → Type 0
Ensured ino st₀ H₀ x k H v (ptr, st) =
    (ptr ≡ addr st ino v) × Growing ino st₀ H₀ x (k + 1) st (With v H)

module _ (ino : ℕ) (st₀ : Store) (H₀ : Node → Type 0) (x k : ℕ) (st : Store) (H : Node → Type 0)
    (g : Growing ino st₀ H₀ x k st H) (le : k ≤ 2) (v : Node) (p : IsPointers v)
    (above : H (parent v)) (there : H v ⊎ (H v → ⊥)) (install : ℕ → Store → Option Store)
    (puts : (st₁ : Store) (new : ℕ)
      → Taken st new st₁
      → install new st₁ ≡ put (addr st₁ ino (parent v)) (offset v) new st₁) where
  add_new :
      (new_node : H v → ⊥)
      → Unless
          (Crowded st₀ 2)
          (get_sector st >>= must_get >>= λ (new, st). install new st >>= λ st. some (new, st))
          (Ensured ino st₀ H₀ x k H v)
  add_new new_node =
      Unless-bind (Crowded st₀ 2) (λ r. Taken st r.0 r.1) (Ensured ino st₀ H₀ x k H v)
        (get_sector st >>= must_get) _
        (Unless-weaken (Crowded st₀ 2) (Crowded st 0) (λ r. Taken st r.0 r.1)
          (get_sector st >>= must_get)
          (Crowded-since ino st₀ H₀ st H g.since 0 2 (omega (arith, g.few_news)))
          (must_get-Taken st g.since.tree.covered))
        (λ (n, st₁) k. put_it n st₁ k)
    where
      put_it :
          (n : ℕ) (st₁ : Store)
          → Taken st n st₁
          → Unless {A = ℕ × Store}
              (Crowded st₀ 2)
              (install n st₁ >>= λ st. some (n, st))
              (Ensured ino st₀ H₀ x k H v)
      put_it n st₁ kk =
          let i = since_taken ino st₀ H₀ st st₁ H n g.since kk in
          let f = taken-IsFresh st ino H g.since.tree n st₁ kk in
          let c = IsPointers-IsChild v p in
          let free = was_free ino st₀ H₀ st H g.since n kk.was_free in
          rw (puts st₁ n kk, put-pointed st₁ ino H i.tree v c above new_node n f)
            (
              sym (pointed_new st₁ ino H i.tree v c above new_node n f),
              record {
                since = since_pointed ino st₀ H₀ st₁ H i v c above new_node n f free;
                fresh =
                    pointed-IsFresh st₁ ino H i.tree v c above new_node n f x
                      (Taken-IsFresh st st₁ ino H g.since.tree n x kk g.fresh)
                      (Taken-apart st st₁ n kk x g.fresh.alive.used);
                free = g.free;
                few_news =
                    rw
                      (
                        since_pointed_news ino st₀ H₀ st₁ H i v c above new_node n f free,
                        since_taken_news ino st₀ H₀ st st₁ H n g.since kk,
                      )
                      (omega (arith, g.few_news));
              },
            )

  -- `ensure` of the pointer to a block of pointers leaves it in the tree.
  pub ensure-Ensured :
      Unless (Crowded st₀ 2) (ensure (addr st ino v) install st) (Ensured ino st₀ H₀ x k H v)
  unfolding ensure
  ensure-Ensured = elim there [
    | inl h ↦ rw (==_ne (addr st ino v) 0 (g.since.tree.alive v h).sector.nonzero) (
      refl,
      record {
        since = since_same ino st₀ st H₀ H (With v H) (λ w a. inr a) (back h) g.since;
        fresh = record {
          alive = g.fresh.alive;
          zero = g.fresh.zero;
          outside = λ w a. g.fresh.outside w (back h w a);
        };
        free = g.free;
        few_news =
            rw (since_same_news ino st₀ st H₀ H (With v H) (λ w a. inr a) (back h) g.since)
              (omega (arith, g.few_news));
      },
    )
    | inr n ↦ rw (g.since.tree.unset v p above n) (add_new n)
  ]
    where
      back : H v → (w : Node) → With v H w → H w
      back h w (inl e) = rw e h
      back h w (inr a) = a
