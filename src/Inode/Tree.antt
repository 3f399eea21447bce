-- ===== src/Inode/Tree.antt =====
-- inode.c: the blocks of a file and its blocks of pointers, as Nodes of a tree with the inode as its
-- root: where the pointer to each stands, and that the sectors are different and in use.
pub mod Frame
pub mod Point
pub mod Put
pub mod Since
pub mod Ensure
pub mod Install
pub mod Extend
pub mod Loop
pub mod Remap
pub mod Probe
pub mod Length
use group.Base.{
  ℕ, zero, suc, ◌+◌, ◌-◌, ◌*◌, ◌/◌, ◌%◌, ◌≤◌, ◌<◌, ◌≡◌, ◌≢◌, refl, sym, ap, ◌∙◌, Bool, true, false,
  ◌==◌, ltb, if◌then◌else◌, arith, Bool-cases, inl, inr, ◌⊎◌, eq_of_==, ne_of_==,
}
use group.Cache.{sector_size}
use group.FreeMap.Alloc.{in_use}
use group.Inode.{Store}
use group.Inode.Blocks.{word, block_of, IsSector}
use group.Inode.Alloc.{IsCovered}

pub data Node : Type 0 where
  root single double : Node
  indirect block : ℕ → Node

-- The node whose sector holds the pointer to a node, and the offset there.
abbrev pub parent : Node → Node
parent root = root
parent single = root
parent double = root
parent (indirect k) = double
parent (block i) =
    if ltb i 12 then root else if ltb i 140 then single else indirect ((i - 140) / 128)

abbrev pub offset : Node → ℕ
offset root = 0
offset single = 56
offset double = 60
offset (indirect k) = k * 4
offset (block i) =
    if ltb i 12 then 8 + 4 * i else if ltb i 140 then (i - 12) * 4 else (i - 140) % 128 * 4

abbrev pub addr : Store → ℕ → Node → ℕ
addr st ino root = ino
addr st ino single = word st ino 56
addr st ino double = word st ino 60
addr st ino (indirect k) = word st (word st ino 60) (k * 4)
addr st ino (block i) = block_of st ino i

-- Not the root.
abbrev pub IsChild : Node → Type 0
IsChild root = ⊥
IsChild single = Unit
IsChild double = Unit
IsChild (indirect k) = k < 128
IsChild (block i) = i < 16524

-- A block of pointers below the root.
abbrev pub IsPointers : Node → Type 0
IsPointers root = ⊥
IsPointers single = Unit
IsPointers double = Unit
IsPointers (indirect k) = k < 128
IsPointers (block i) = ⊥

pub addr-parent :
    (st : Store) (ino : ℕ) (v : Node)
    → IsChild v
    → addr st ino v ≡ word st (addr st ino (parent v)) (offset v)
unfolding block_of
addr-parent st ino root h = absurd h
addr-parent st ino single h = refl
addr-parent st ino double h = refl
addr-parent st ino (indirect k) h = refl
addr-parent st ino (block i) h = elim (Bool-cases (ltb i 12)) [
  | inl e ↦ rw e refl
  | inr e ↦ rw e (elim (Bool-cases (ltb i 140)) [ inl e₂ ↦ rw e₂ refl | inr e₂ ↦ rw e₂ refl ])
]

-- Two Nodes below the same node have their pointers in different words.
pub places_apart :
    (v w : Node)
    → IsChild v
    → IsChild w
    → parent v ≡ parent w
    → (v ≡ w) ⊎ ((offset v + 4 ≤ offset w) ⊎ (offset w + 4 ≤ offset v))
places_apart root w a b h = absurd a
places_apart v root a b h = absurd b
places_apart single single a b h = inl refl
places_apart single double a b h = inr (inl (omega arith))
places_apart single (indirect k) a b h = absurd (ground (arith, h))
places_apart single (block j) a b h = inr (inr (ground (arith, h)))
places_apart double single a b h = inr (inr (omega arith))
places_apart double double a b h = inl refl
places_apart double (indirect k) a b h = absurd (ground (arith, h))
places_apart double (block j) a b h = inr (inr (ground (arith, h)))
places_apart (indirect k) single a b h = absurd (ground (arith, h))
places_apart (indirect k) double a b h = absurd (ground (arith, h))
places_apart (indirect k) (indirect l) a b h = elim (Bool-cases (k == l)) [
  | inl e ↦ inl (ap indirect (eq_of_== k l e))
  | inr e ↦ inr (ground (arith, ne_of_== k l e))
]
places_apart (indirect k) (block j) a b h = absurd (ground (arith, h))
places_apart (block i) single a b h = inr (inl (ground (arith, h)))
places_apart (block i) double a b h = inr (inl (ground (arith, h)))
places_apart (block i) (indirect l) a b h = absurd (ground (arith, h))
places_apart (block i) (block j) a b h = elim (Bool-cases (i == j)) [
  | inl e ↦ inl (ap block (eq_of_== i j e))
  | inr e ↦ inr (ground (arith, h, ne_of_== i j e))
]

pub offset_fits : (v : Node) → IsChild v → offset v + 4 ≤ sector_size
offset_fits root h = absurd h
offset_fits single h = omega arith
offset_fits double h = omega arith
offset_fits (indirect k) h = omega arith
offset_fits (block i) h = ground arith

-- A sector in use: not the null pointer, on the device, marked in the free map, and not of its file.
pub record Alive (st : Store) (s : ℕ) : Type 0 where
  pub sector : IsSector st s
  pub used : in_use st.map s ≡ true
  pub apart : st.map_file s ≡ false

-- The Nodes of `H` are a tree: their sectors are in use and different from one another, and the
-- pointers to blocks of pointers that are not there are null. The map's file is open, and its sectors are
-- in use.
pub record IsTree (st : Store) (ino : ℕ) (H : Node → Type 0) : Type 0 where
  pub covered : IsCovered st
  pub small : st.size ≤ 4294967296
  pub zero_used : in_use st.map 0 ≡ true
  pub map_open : st.map.has_file ≡ true
  pub map_used : (x : ℕ) → st.map_file x ≡ true → in_use st.map x ≡ true
  pub rooted : H root
  pub closed : (w : Node) → H w → H (parent w)
  pub child : (w : Node) → H w → (w ≡ root) ⊎ IsChild w
  pub alive : (w : Node) → H w → Alive st (addr st ino w)
  pub distinct : (v w : Node) → H v → H w → addr st ino v ≡ addr st ino w → v ≡ w
  pub unset : (w : Node) → IsPointers w → H (parent w) → (H w → ⊥) → addr st ino w ≡ 0

pub IsPointers-IsChild : (w : Node) → IsPointers w → IsChild w
IsPointers-IsChild single h = tt
IsPointers-IsChild double h = tt
IsPointers-IsChild (indirect k) h = h
IsPointers-IsChild root h = absurd h
IsPointers-IsChild (block i) h = absurd h
