-- ===== src/FreeMap/Alloc.antt =====
-- free-map.c: what allocation and release do to the map.
use group.Base.{
  ℕ, ◌+◌, ◌≤◌, ◌<◌, ◌≡◌, refl, sym, ◌∙◌, ◌⊎◌, Bool, true, false, not, ◌&&◌, Option, none, some,
  arith, ltb, if◌then◌else◌, Yields, Yields-bind, Yields-mono, Bool-cases, inl, inr, ◌^◌, ==_ne,
  List, All, length,
}
use group.Bitmap.{Bitmap, bitmap_error, elem_cnt, set_multiple, scan_and_flip, mark, create}
use group.Bitmap.Single.{IsValid, bit, mark-Changed}
use group.Bitmap.Range.{
  within, Filled, set_multiple-Filled, all-occurs, occurs-false, occurs, occurs-true,
}
use group.Bitmap.Scan.{
  IsRun, Flipped, flipped, unchanged, scan_and_flip-Flipped, create-IsBlank, IsBlank?,
}
use group.FreeMap.{FreeMap, settle, allocate, release, init, init_map, counted}

-- Sector `j` is in use.
abbrev pub in_use : FreeMap → ℕ → Bool
in_use m j = bit m.map j

-- The maps of `m` and `n` mark the same sectors.
pub record SameSectors (m n : FreeMap) : Type 0 where
  pub valid : IsValid n.map
  pub same_cnt : n.map.bit_cnt ≡ m.map.bit_cnt
  pub bits_of : (j : ℕ) → in_use n j ≡ in_use m j
  pub same_file : n.has_file ≡ m.has_file

-- Why nothing is allocated: the file cannot be written, or there is no run of free sectors.
abbrev pub Refusal : FreeMap → Bool → ℕ → Type 0
Refusal m wrote cnt = ((m.has_file && not wrote) ≡ true) ⊎ ((i : ℕ) → ¬ IsRun m.map i cnt false)

-- A call of `free_map_allocate` from `m`.
pub data Allocated (m : FreeMap) (wrote : Bool) (cnt : ℕ) : Option ℕ × FreeMap → Type 0 where
  granted :
      {r : ℕ} {n : FreeMap}
      → IsRun m.map r cnt false
      → ((i : ℕ) → i < r → ¬ IsRun m.map i cnt false)
      → Filled m.map r cnt true n.map
      → n.has_file ≡ m.has_file
      → Allocated m wrote cnt (some r, n)
  refused : {n : FreeMap} → SameSectors m n → Refusal m wrote cnt → Allocated m wrote cnt (none, n)

module _ (m : FreeMap) (ok : IsValid m.map) (wrote : Bool) (cnt : ℕ) where
  -- Undoing the flip of a run restores the map.
  undo-SameSectors :
      (r : ℕ) {b c : Bitmap}
      → IsRun m.map r cnt false
      → Filled m.map r cnt true b
      → Filled b r cnt false c
      → (n : FreeMap) → n.map ≡ c
      → n.has_file ≡ m.has_file
      → SameSectors m n
  undo-SameSectors r {b} {c} run f g n e same = record {
    same_file = same;
    valid = rw e g.valid;
    same_cnt = rw e (g.same_cnt ∙ f.same_cnt);
    bits_of = λ j. rw e (g.bits_of j ∙ restored j);
  }
    where
      restored : (j : ℕ) → (if within r cnt j then false else bit b j) ≡ bit m.map j
      restored j = ground (arith, f.bits_of j, run.equal j)

  settle-Allocated :
      {x : ℕ × Bitmap}
      → Flipped ok cnt false 0 x
      → Yields (settle wrote cnt (counted m cnt) x) (Allocated m wrote cnt)
  unfolding settle
  settle-Allocated (flipped {r} {c} p from run least f) =
      rw (==_ne r bitmap_error p) (elim (Bool-cases (m.has_file && not wrote)) [
        | inl failed ↦ rw failed (
            Yields-bind _ _ (set_multiple c r cnt false) _
              (set_multiple-Filled f.valid r cnt false (omega (arith, run.fits, f.same_cnt)))
              λ d g. refused (undo-SameSectors r run f g _ refl refl) (inl failed))
        | inr fine ↦ rw fine (granted run (λ i. least i (omega arith)) f refl)
      ])
  settle-Allocated (unchanged nowhere) =
      refused (record { valid = ok; same_cnt = refl; bits_of = λ j. refl; same_file = refl })
        (inr (λ i. nowhere i (omega arith)))

  -- On a valid map and for a positive count, `free_map_allocate` marks the first free run of `cnt`
  -- sectors and no other sector; it reports failure only when the file is open and cannot be written
  -- or when there are no such sectors, and then every sector is as it was.
  pub allocate-Allocated : 0 < cnt → Yields (allocate wrote cnt m) (Allocated m wrote cnt)
  unfolding allocate
  allocate-Allocated pos =
      Yields-bind _ _ (scan_and_flip m.map 0 cnt false) _
        (scan_and_flip-Flipped ok cnt false 0 pos (omega arith)) λ x. settle-Allocated {x = x}

  occurs_of_used :
      (at : ℕ)
      → ((j : ℕ) → within at cnt j ≡ true → in_use m j ≡ true)
      → occurs ok cnt at false ≡ false
  occurs_of_used at used = elim (Bool-cases (occurs ok cnt at false)) [
    | inl e ↦ let (j, i, free) = occurs-true ok cnt at false e in ground (arith, used j i)
    | inr e ↦ e
  ]

  -- `free_map_release` of `cnt` sectors inside a valid map, all of them in use, passes its ASSERT,
  -- frees them, and no other sector, when the map's file is open.
  pub release-Filled :
      (sector : ℕ)
      → sector + cnt ≤ m.map.bit_cnt
      → ((j : ℕ) → within sector cnt j ≡ true → in_use m j ≡ true)
      → m.has_file ≡ true
      → Yields
          (release wrote sector cnt m)
          (λ n. Filled m.map sector cnt false n.map × (n.has_file ≡ true))
  unfolding release
  release-Filled sector fits used has =
      rw (all-occurs ok sector cnt fits, occurs_of_used sector used)
        (Yields-bind _ _ (set_multiple m.map sector cnt false) _
          (set_multiple-Filled ok sector cnt false fits) λ b f. rw has (f, refl))

  -- Releasing a range in which some sector is free fails the ASSERT of `free_map_release`.
  pub release_free_sector :
      (sector j : ℕ)
      → sector + cnt ≤ m.map.bit_cnt
      → within sector cnt j ≡ true
      → in_use m j ≡ false
      → release wrote sector cnt m ≡ none
  unfolding release
  release_free_sector sector j fits inside free = rw (all-occurs ok sector cnt fits, some_free)
    where
      some_free : occurs ok cnt sector false ≡ true
      some_free = elim (Bool-cases (occurs ok cnt sector false)) [
        | inl e ↦ e
        | inr e ↦ ground (arith, occurs-false ok cnt sector j false e inside)
      ]

-- The sectors of `granted` are in use afterwards and were free before.
granted_used :
    {m n : FreeMap} {wrote : Bool} {cnt r : ℕ}
    → Allocated m wrote cnt (some r, n)
    → (j : ℕ) → within r cnt j ≡ true
    → (in_use n j ≡ true) × (in_use m j ≡ false)
granted_used (granted run least f has) j inside = (rw (f.bits_of j, inside), run.equal j inside)

-- Two successful allocations in a row get disjoint sectors.
pub allocate_disjoint :
    {m n p : FreeMap} {v w : Bool} (c d r s : ℕ)
    → Allocated m v c (some r, n)
    → Allocated n w d (some s, p)
    → (j : ℕ) → within r c j ≡ true
    → within s d j ≡ false
allocate_disjoint c d r s first second j inside = elim (Bool-cases (within s d j)) [
  | inl e ↦ ground (arith, (granted_used first j inside).0, (granted_used second j e).1)
  | inr e ↦ e
]

-- Releasing, from a valid map whose file is open, what was just allocated restores the state of every
-- sector.
pub release-allocate :
    (m n : FreeMap) (wrote : Bool) (cnt r : ℕ)
    → IsValid m.map
    → m.has_file ≡ true
    → Allocated m wrote cnt (some r, n)
    → Yields (release wrote r cnt n) (SameSectors m)
release-allocate m n wrote cnt r ok has (granted run least f same) =
    Yields-mono _ _ (release wrote r cnt n)
      (release-Filled n f.valid wrote cnt r (omega (arith, run.fits, f.same_cnt))
        (λ j i. rw (f.bits_of j, i)) (same ∙ has))
      λ p (g, open_now). undo-SameSectors m ok wrote cnt r run f g p refl (open_now ∙ sym has)

-- A new free map: the sectors of the free map and of the root directory are in use, alone.
pub record IsFresh (block_size : ℕ) (m : FreeMap) : Type 0 where
  pub valid : IsValid m.map
  pub cnt : m.map.bit_cnt ≡ block_size
  pub reserved : (j : ℕ) → j < block_size → in_use m j ≡ ltb j 2

-- Whatever memory `malloc` returned, `free_map_init` on a disk of at least two sectors reserves the
-- sectors of the free map and of the root directory, and leaves the others free.
pub init-IsFresh :
    (block_size : ℕ) (bits : List ℕ)
    → 2 ≤ block_size
    → block_size < 2 ^ 32
    → elem_cnt block_size ≤ length bits
    → All (λ x. x < 2 ^ 32) bits
    → Yields (init true (some bits) block_size) (IsFresh block_size)
unfolding init init_map IsBlank?
init-IsFresh block_size bits two small room words =
    Yields-bind _ _ (create true (some bits) block_size) _
      (create-IsBlank block_size bits small room words) mark_both
  where
    mark_both :
        (o : Option Bitmap) → IsBlank? block_size o → Yields (init_map o) (IsFresh block_size)
    mark_both none h = elim h [ ]
    mark_both (some b) h =
        Yields-bind _ _ (mark b 0) _ (mark-Changed h.valid 0 (omega (arith, h.cnt))) λ c x.
          Yields-bind _ _ (mark c 1) _ (mark-Changed x.valid 1 (omega (arith, h.cnt, x.same_cnt)))
            λ d y. record {
              valid = y.valid;
              cnt = y.same_cnt ∙ x.same_cnt ∙ h.cnt;
              reserved = λ j l. ground (arith, y.bits_of j, x.bits_of j, h.blank j l);
            }
