-- ===== src/Directory/GrowthTests.antt =====
-- A full directory on the small device, which grows by an entry and by a write.
use group.Base.{
  ℕ, ◌<◌, ◌≡◌, refl, ap, true, [], ◌∷◌, ◌==◌, if◌then◌else◌, arith, Yields, Yields-of_Unless, ◌≤◌,
  List, length, among, eq_of_==, inl, inr, ◌⊎◌, replicate,
}
use group.Base.Bits.{bit_at}
use group.Bitmap.Single.{bit}
use group.Cache.{slice}
use group.Inode.{Store}
use group.Inode.Alloc.{Crowded, no_file, few}
use group.Inode.Blocks.{block_of}
use group.Inode.Read.{contents}
use group.Inode.Longer.{IsSolid}
use group.Inode.Tree.{
  Node, root, single, double, indirect, block, parent, addr, IsChild, IsPointers, Alive,
}
use group.Inode.Tree.Install.{Has}
use group.FreeMap.Alloc.{in_use as is_marked}
use group.Directory.{dir_add_unsynched}
use group.Directory.Names.{Calls, IsNames}
use group.Directory.Lookup.{slot}
use group.Directory.Enlarge.{EnlargedR, dir_add_unsynched-Enlarged}
use group.Directory.Tests.{ab, first_entry, dir_bytes, device, root_inode, first_named}

-- The same directory with the first slot alone; the map's file is in sector 4.
abbrev full_device : Store
full_device = record device {
  bytes = λ (s o : ℕ). if s == 1 then (if o == 0 then 20 else dir_bytes s o) else dir_bytes s o;
  map = record {
    map = record { bit_cnt = 20; bits = 659 ∷ [] };
    has_file = true;
    file = record { bit_cnt = 20; bits = 659 ∷ [] };
    sectors = 1;
  };
  map_file = λ (s : ℕ). s == 4;
}

one_block : (i : ℕ) → i < 1 → block_of full_device 1 i ≡ 7
unfolding block_of slice
one_block i h = let e : i ≡ 0 = omega arith in rw e refl

full-IsSolid : IsSolid full_device 1 20
unfolding slice bit bit_at
full-IsSolid = record {
  tree = record {
    covered = record {
      valid = record { sized = omega arith; words = omega arith; counted = omega arith };
      on_device = omega arith;
    };
    small = omega arith;
    zero_used = zero_used;
    map_open = refl;
    map_used = map_used;
    rooted = tt;
    closed = closed;
    child = child;
    alive = alive;
    distinct = distinct;
    unset = unset;
  };
  has_length = refl;
  fits = omega arith;
}
  where
    zero_used : is_marked full_device.map 0 ≡ true
    zero_used = refl

    map_used : (x : ℕ) → full_device.map_file x ≡ true → is_marked full_device.map x ≡ true
    map_used x h = rw (eq_of_== x 4 h) refl

    closed : (w : Node) → Has 1 w → Has 1 (parent w)
    closed root h = tt
    closed single h = tt
    closed double h = tt
    closed (indirect k) h = absurd (omega arith)
    closed (block i) h = let e : i ≡ 0 = omega arith in rw e tt

    child : (w : Node) → Has 1 w → (w ≡ root) ⊎ IsChild w
    child root h = inl refl
    child single h = inr tt
    child double h = inr tt
    child (indirect k) h = absurd (omega arith)
    child (block i) h = inr (omega arith)

    alive : (w : Node) → Has 1 w → Alive full_device (addr full_device 1 w)
    alive root h = record {
      sector = record { nonzero = omega arith; on_device = omega arith };
      used = refl;
      apart = refl;
    }
    alive single h = absurd (omega arith)
    alive double h = absurd (omega arith)
    alive (indirect k) h = absurd (omega arith)
    alive (block i) h = rw (one_block i h) (record {
      sector = record { nonzero = omega arith; on_device = omega arith };
      used = refl;
      apart = refl;
    })

    distinct :
        (v w : Node) → Has 1 v → Has 1 w → addr full_device 1 v ≡ addr full_device 1 w → v ≡ w
    distinct root root a b e = refl
    distinct root (block i) a b e = absurd (omega (arith, one_block i b, e))
    distinct (block i) root a b e = absurd (omega (arith, one_block i a, e))
    distinct (block i) (block j) a b e = ap block (omega arith)
    distinct single w a b e = absurd (omega arith)
    distinct double w a b e = absurd (omega arith)
    distinct (indirect k) w a b e = absurd (omega arith)
    distinct v single a b e = absurd (omega arith)
    distinct v double a b e = absurd (omega arith)
    distinct v (indirect k) a b e = absurd (omega arith)

    unset : (w : Node) → IsPointers w → Has 1 (parent w) → (Has 1 w → ⊥) → addr full_device 1 w ≡ 0
    unset root p h n = absurd p
    unset single p h n = refl
    unset double p h n = refl
    unset (indirect k) p h n = absurd (omega arith)
    unset (block i) p h n = absurd p

full_slot : slot full_device 1 0 ≡ first_entry
unfolding contents block_of slice
full_slot = refl

full-Calls : Calls (slot full_device 1 0) ab
full-Calls = record { used = rw full_slot refl; named = rw full_slot first_named }

only_slot : (j : ℕ) → j < 1 → j ≡ 0
only_slot j h = omega arith

full-IsNames : IsNames (slot full_device 1) 1
full-IsNames = record {
  named = λ k h u. rw (only_slot k h) (ab, full-Calls.named);
  unique = λ j k p q s a b. omega arith;
}

-- Four free sectors are more than three.
roomy : Crowded full_device 3 → ⊥
unfolding bit bit_at among
roomy (no_file h) = absurd cc
roomy (few free short h) =
    lacking free short (h 2 (omega arith) refl) (h 3 (omega arith) refl) (h 5 (omega arith) refl)
      (h 6 (omega arith) refl)
  where
    lacking :
        (free : List ℕ)
        → length free ≤ 3
        → among 2 free ≡ true
        → among 3 free ≡ true
        → among 5 free ≡ true
        → among 6 free ≡ true
        → ⊥
    lacking [] short a b c d = absurd cc
    lacking (x ∷ []) short a b c d = ground (arith, a, b, c, d)
    lacking (x ∷ y ∷ []) short a b c d = ground (arith, a, b, c, d)
    lacking (x ∷ y ∷ z ∷ []) short a b c d = ground (arith, a, b, c, d)
    lacking (x ∷ y ∷ z ∷ w ∷ r) short a b c d = omega arith

-- So the directory grows.
entry_added :
    Yields
      (dir_add_unsynched (replicate 20 7) root_inode (b'c' ∷ []) 11 full_device)
      (EnlargedR full_device 1 1 (b'c' ∷ []) 11)
entry_added =
    Yields-of_Unless (Crowded full_device 3) (EnlargedR full_device 1 1 (b'c' ∷ []) 11) _ roomy (
      dir_add_unsynched-Enlarged full_device root_inode 1 full-IsSolid full-IsNames refl
        (λ j h. rw (only_slot j h, full_slot) refl) (omega arith) (b'c' ∷ []) (omega arith, tt)
        (omega arith) (omega arith) 11 (omega arith) (replicate 20 7) refl)
