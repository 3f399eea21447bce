-- ===== src/Inode/Tree/Probe.antt =====
-- inode.c: `can_allocate` takes sectors and gives all back but one; the tree of a file stays.
use group.Base.{
  ℕ, zero, suc, ◌≤◌, ◌<◌, ◌≡◌, refl, sym, ap, ◌∙◌, Bool, true, false, Option, none, some, List, [],
  ◌∷◌, ◌==◌, if◌then◌else◌, ◌>>=◌, among, length, arith, Bool-cases, inl, inr, ==_self, eq_of_==,
  Yields, Yields-bind,
}
use group.FreeMap.{FreeMap, release}
use group.FreeMap.Alloc.{in_use, SameSectors, release-Filled}
use group.Bitmap.Range.{within_one, Filled}
use group.Inode.{Store, with_map, get_sector, can_allocate, can_allocate_loop, give_back}
use group.Inode.Alloc.{IsCovered, SameDevice, Got, got, full, get_sector-Got}
use group.Inode.Tree.{Node, IsTree}
use group.Inode.Tree.Point.{Taken, Taken-monotone}
use group.Inode.Tree.Since.{
  Since, since_start, since_start_news, since_taken, since_taken_news, was_free,
}
use group.Inode.Tree.Remap.{since_remapped, since_remapped_news}

module _ (ino : ℕ) (st₀ : Store) (H : Node → Type 0) (t : IsTree st₀ ino H) where
  -- Sectors taken since then, each once.
  WereFree : Store → List ℕ → Type 0
  WereFree st [] = Unit
  WereFree st (s ∷ taken) =
      ((in_use st₀.map s ≡ false)
        × ((s < st.map.map.bit_cnt) × ((in_use st.map s ≡ true) × (among s taken ≡ false))))
      × WereFree st taken

  still_used :
      (st st' : Store) (taken : List ℕ)
      → st'.map.map.bit_cnt ≡ st.map.map.bit_cnt
      → ((j : ℕ) → among j taken ≡ true → in_use st.map j ≡ true → in_use st'.map j ≡ true)
      → WereFree st taken
      → WereFree st' taken
  unfolding WereFree among
  still_used st st' [] e keep w = tt
  still_used st st' (s ∷ taken) e keep ((free, (lt, (u, once))), w) = (
    (free, (rw e lt, (keep s (rw (==_self s) refl) u, once))),
    still_used st st' taken e (λ j h. keep j (ground arith)) w,
  )

  not_among :
      (st : Store) (taken : List ℕ) (s : ℕ)
      → WereFree st taken
      → in_use st.map s ≡ false
      → among s taken ≡ false
  unfolding WereFree among
  not_among st [] s w free = refl
  not_among st (x ∷ taken) s ((f, (lt, (u, once))), w) free = elim (Bool-cases (s == x)) [
    | inl e ↦ absurd (ground (arith, ap (in_use st.map) (eq_of_== s x e), u, free))
    | inr e ↦ rw e (not_among st taken s w free)
  ]

  -- What is left after sectors were given back.
  abbrev pub Probed : Store → Type 0
  Probed st' = (i : Since ino st₀ H st' H) × (length i.news ≤ 1)

  module _ (s : ℕ) (taken : List ℕ) (st : Store) (w : WereFree st (s ∷ taken))
      (i : Since ino st₀ H st H) (e : i.news ≡ s ∷ taken) (m : FreeMap)
      (f : Filled st.map.map s 1 false m.map) (has : m.has_file ≡ true) where
    freed : (j : ℕ) → in_use m j ≡ (if j == s then false else in_use st.map j)
    freed j = f.bits_of j ∙ rw (within_one s j) refl

    used_after : (x : ℕ) → in_use st₀.map x ≡ true → in_use m x ≡ true
    unfolding WereFree
    used_after x h = freed x ∙ elim (Bool-cases (x == s)) [
      | inl q ↦ absurd (ground (arith, ap (in_use st₀.map) (eq_of_== x s q), h, w.0.0))
      | inr q ↦ rw q (i.used x h)
    ]

    only_after : (j : ℕ) → in_use st₀.map j ≡ false → among j taken ≡ false → in_use m j ≡ false
    unfolding among
    only_after j h n = freed j ∙ elim (Bool-cases (j == s)) [
      | inl q ↦ rw q refl
      | inr q ↦ rw q (i.only j h (ap (among j) e ∙ rw q n))
    ]

    given_back : Since ino st₀ H (with_map m st) H
    given_back =
        since_remapped ino st₀ H t st (with_map m st) i
          (record {
            size = refl;
            cnt = f.same_cnt;
            file_open = has ∙ sym i.tree.map_open;
            wrote = refl;
            map_file = refl;
          })
          (record {
            valid = f.valid;
            on_device = omega (arith, f.same_cnt, i.tree.covered.on_device);
          })
          used_after (λ x q. rw q refl) taken only_after

    given_back_news : given_back.news ≡ taken
    unfolding given_back
    given_back_news =
        since_remapped_news ino st₀ H t st (with_map m st) i _ _ used_after (λ x q. rw q refl) taken
          only_after

    rest_taken : WereFree (with_map m st) taken
    unfolding WereFree
    rest_taken =
        still_used st (with_map m st) taken f.same_cnt
          (λ j a u. freed j ∙ elim (Bool-cases (j == s)) [
            | inl q ↦
                absurd (ground (arith, ap (λ x. among x taken) (eq_of_== j s q), a, w.0.1.1.1))
            | inr q ↦ rw q u
          ])
          w.1

  first_taken :
      (st : Store) (s : ℕ) (taken : List ℕ)
      → WereFree st (s ∷ taken)
      → (s < st.map.map.bit_cnt) × (in_use st.map s ≡ true)
  unfolding WereFree
  first_taken st s taken ((free, (lt, (u, once))), w) = (lt, u)

  one_more-Taken :
      (st st' : Store) (s : ℕ) (taken : List ℕ)
      → Since ino st₀ H st H
      → WereFree st taken
      → Taken st s st'
      → WereFree st' (s ∷ taken)
  unfolding WereFree
  one_more-Taken st st' s taken i w k = (
    (
      was_free ino st₀ H st H i s k.was_free,
      (k.mapped, (k.used s ∙ rw (==_self s) refl, not_among st taken s w k.was_free)),
    ),
    still_used st st' taken k.same.cnt (λ j a u. Taken-monotone st st' s k j u) w,
  )

  -- The state after a look at the full map.
  module _ (st st' : Store) (i : Since ino st₀ H st H) (same : SameSectors st.map st'.map)
      (device : SameDevice st st')
      (bytes : (x : ℕ) → st.map_file x ≡ false → st'.bytes x ≡ st.bytes x) where
    looked-IsCovered : IsCovered st'
    looked-IsCovered = record {
      valid = same.valid;
      on_device = omega (arith, same.same_cnt, device.size, i.tree.covered.on_device);
    }

    looked : Since ino st₀ H st' H
    looked =
        since_remapped ino st₀ H t st st' i device looked-IsCovered
          (λ x h. same.bits_of x ∙ i.used x h) bytes i.news (λ j h n. same.bits_of j ∙ i.only j h n)

    looked_news : looked.news ≡ i.news
    unfolding looked
    looked_news =
        since_remapped_news ino st₀ H t st st' i device looked-IsCovered
          (λ x h. same.bits_of x ∙ i.used x h) bytes i.news (λ j h n. same.bits_of j ∙ i.only j h n)

  give_back-Probed :
      (taken : List ℕ) (st : Store)
      → WereFree st taken
      → (i : Since ino st₀ H st H) → i.news ≡ taken
      → Yields (give_back taken st) Probed
  unfolding give_back
  give_back-Probed [] st w i e = (i, rw e (omega arith))
  give_back-Probed (s ∷ []) st w i e = (i, rw e (omega arith))
  give_back-Probed (s ∷ more ∷ taken) st w i e =
      Yields-bind (λ m. Filled st.map.map s 1 false m.map × (m.has_file ≡ true)) Probed
        (release st.wrote s 1 st.map) _ (released w)
        (λ m (f, has).
          give_back-Probed (more ∷ taken) (with_map m st)
            (rest_taken s (more ∷ taken) st w i e m f has)
            (given_back s (more ∷ taken) st w i e m f has)
            (given_back_news s (more ∷ taken) st w i e m f has))
    where
      released :
          WereFree st (s ∷ more ∷ taken)
          → Yields
              (release st.wrote s 1 st.map)
              (λ m. Filled st.map.map s 1 false m.map × (m.has_file ≡ true))
      released w =
          let (lt, marked) = first_taken st s (more ∷ taken) w in
          release-Filled st.map i.tree.covered.valid st.wrote 1 s (omega arith)
            (λ j q. let at : j ≡ s = eq_of_== j s (sym (within_one s j) ∙ q) in rw at marked)
            i.tree.map_open

  -- What `give_back` ends the loop with.
  finish :
      (b : Bool) (taken : List ℕ) (st : Store)
      → WereFree st taken
      → (i : Since ino st₀ H st H) → i.news ≡ taken
      → Yields {A = Bool × Store} (give_back taken st >>= λ st. some (b, st)) (λ r. Probed r.1)
  finish b taken st w i e =
      Yields-bind Probed (λ r. Probed r.1) (give_back taken st) _ (give_back-Probed taken st w i e)
        (λ st' p. p)

  can_allocate_loop-Probed :
      (left : ℕ) (taken : List ℕ) (st : Store)
      → WereFree st taken
      → (i : Since ino st₀ H st H) → i.news ≡ taken
      → Yields (can_allocate_loop left taken st) (λ r. Probed r.1)
  unfolding can_allocate_loop
  can_allocate_loop-Probed zero taken st w i e = finish true taken st w i e
  can_allocate_loop-Probed (suc left) taken st w i e =
      Yields-bind (Got st) (λ r. Probed r.1) (get_sector st) _ (get_sector-Got st i.tree.covered)
        (λ r g. next r g (λ s st' w i e. can_allocate_loop-Probed left (s ∷ taken) st' w i e))
    where
      next :
          (r : Option ℕ × Store)
          → Got st r
          → ((s : ℕ) (st' : Store)
              → WereFree st' (s ∷ taken)
              → (i : Since ino st₀ H st' H) → i.news ≡ s ∷ taken
              → Yields (can_allocate_loop left (s ∷ taken) st') (λ r. Probed r.1))
          → Yields
              (elim r.0 as (λ _. Option (Bool × Store)) [
                | none ↦ give_back taken r.1 >>= λ st. some (false, st)
                | some sector ↦ can_allocate_loop left (sector ∷ taken) r.1
              ])
              (λ r. Probed r.1)
      next (some s, st') (got v lt same free now blank rest) again =
          let k : Taken st s st' = record {
            covered = v;
            same = same;
            on_device = omega (arith, v.on_device);
            mapped = lt;
            was_free = free;
            used = now;
            zero = blank;
            others = rest;
          } in
          again s st' (one_more-Taken st st' s taken i w k) (since_taken ino st₀ H st st' H s i k)
            (since_taken_news ino st₀ H st st' H s i k ∙ ap (λ l. s ∷ l) e)
      next (none, st') (full same device bytes why) again =
          finish false taken st'
            (still_used st st' taken same.same_cnt (λ j a u. same.bits_of j ∙ u) w)
            (looked st st' i same device bytes) (looked_news st st' i same device bytes ∙ e)

  -- `can_allocate` ends without a fault and keeps the tree, whatever it answers; one sector at most is
  -- in use that was not.
  pub can_allocate-Probed : (num : ℕ) → Yields (can_allocate num st₀) (λ r. Probed r.1)
  unfolding can_allocate WereFree
  can_allocate-Probed num =
      can_allocate_loop-Probed num [] st₀ tt (since_start ino st₀ H t)
        (since_start_news ino st₀ H t)
