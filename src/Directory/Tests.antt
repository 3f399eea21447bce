-- ===== src/Directory/Tests.antt =====
-- directory.c on a small device: the root directory in sector 1, of two slots in sector 7; the first has
-- the name "ab", which leads to sector 9.
use group.Base.{
  ℕ, zero, suc, ◌*◌, ◌<◌, ◌≡◌, refl, sym, ◌∙◌, true, false, none, some, List, [], ◌∷◌, ◌==◌,
  if◌then◌else◌, arith, Yields, replicate,
}
use group.FreeMap.{FreeMap}
use group.Cache.{Bytes, sector_size, slice}
use group.Inode.{Store, Inode, inode_write_at, inode_extend_to_bytes}
use group.Inode.Blocks.{block_of, IsFile}
use group.Inode.Read.{contents}
use group.Inode.Table.{new_inode}
use group.Inode.Counts.{openers, IsTable}
use group.Directory.{
  DirEntry, in_use, name_field, inode_sector, c_string, get_last_part, dir_add_unsynched,
  dir_remove, dir_readdir, dir_readdir_2, is_empty, lookup_unsynched, dot_dot,
}
use group.Directory.Names.{Calls}
use group.Directory.Lookup.{slot, IsDir, Looked, lookup_unsynched-Looked}
use group.Directory.Add.{AddedR, dir_add_unsynched-Added}
use group.Directory.Remove.{RemovedR, dir_remove-Removed}
use group.Directory.Listing.{
  Listed, NamesLeft, IsProper, IsDots, dir_readdir_2-Listed, is_empty-names,
}
use group.Directory.Parts.{components, fit, last_of, get_last_part-last_of}
use group.Directory.Walk.{get_inode_from_path}
use group.Directory.Resolve.{Leads}
use group.Directory.Paths.{Resolved, get_inode_from_path-Resolved}

abbrev pub ab : List ℕ
ab = b'a' ∷ b'b' ∷ []

abbrev pub first_entry : DirEntry
first_entry =
    9 ∷ 0 ∷ 0 ∷ 0 ∷ b'a' ∷ b'b' ∷ 0 ∷ 0 ∷ 0 ∷ 0 ∷ 0 ∷ 0 ∷ 0 ∷ 0 ∷ 0 ∷ 0 ∷ 0 ∷ 0 ∷ 0 ∷ 1 ∷ []

abbrev pub dir_bytes : ℕ → Bytes
dir_bytes s o =
    if s == 1
    then (if o == 0 then 40 else if o == 8 then 7 else 0)
    else if s == 7
    then (if o == 0
        then 9
        else if o == 4
        then b'a'
        else if o == 5
        then b'b'
        else if o == 19
        then 1
        else 0)
    else 0

abbrev pub device : Store
device = record {
  bytes = dir_bytes;
  size = 20;
  map = record {
    map = record { bit_cnt = 20; bits = 643 ∷ [] };
    has_file = true;
    file = record { bit_cnt = 20; bits = 643 ∷ [] };
    sectors = 0;
  };
  wrote = true;
  map_file = λ (s : ℕ). false;
  map_image = λ (m : FreeMap) (s o : ℕ). 0;
}

abbrev pub root_inode : Inode
root_inode = record { sector = 1; open_cnt = 1; removed = false; deny_write_cnt = 0 }

abbrev table : List Inode
table = root_inode ∷ new_inode 9 ∷ []

block_at : (i : ℕ) → i * sector_size < 40 → block_of device 1 i ≡ 7
unfolding block_of slice
block_at i h = let e : i ≡ 0 = omega arith in rw e refl

root-IsFile : IsFile device 1 40
unfolding slice
root-IsFile = record {
  here = record { nonzero = omega arith; on_device = omega arith };
  has_length = refl;
  fits = omega arith;
  block = λ i h. record {
    nonzero = λ e. omega (arith, block_at i h, e);
    on_device = omega (arith, block_at i h);
  };
  single = λ h. absurd (omega arith);
  double = λ h. absurd (omega arith);
  indirect = λ k h. absurd (omega arith);
  distinct = λ i j p q e. omega arith;
  not_inode = λ i h e. omega (arith, block_at i h, e);
  not_single = λ i h q. absurd (omega arith);
  not_double = λ i h q. absurd (omega arith);
  not_indirect = λ i k h q. absurd (omega arith);
}

slot_zero : slot device 1 0 ≡ first_entry
unfolding contents block_of slice
slot_zero = refl

slot_one : slot device 1 1 ≡ replicate 20 0
unfolding contents block_of slice
slot_one = refl

pub first_named : c_string (name_field first_entry) ≡ some ab
unfolding c_string
first_named = refl

at_first : (k : ℕ) → k < 2 → in_use (slot device 1 k) ≡ true → k ≡ 0
at_first zero h u = refl
at_first (suc zero) h u = let z = rw slot_one at u in absurd (ground (arith, z))
at_first (suc (suc k)) h u = absurd (omega arith)

first-Calls : Calls (slot device 1 0) ab
first-Calls = record { used = rw slot_zero refl; named = rw slot_zero first_named }

root-IsDir : IsDir device 1 2
root-IsDir = record {
  file = root-IsFile;
  names = record {
    named = λ k h u. rw (at_first k h u) (ab, first-Calls.named);
    unique = λ j k p q s a b. at_first j p a.used ∙ sym (at_first k q b.used);
  };
}

free_one : in_use (slot device 1 1) ≡ false
free_one = rw slot_one refl

-- The name, the directory after its removal, and the next name.
found_ab : lookup_unsynched 1 ab device ≡ some (some (first_entry, 0))
unfolding lookup_unsynched group.Directory.lookup_loop group.Directory.matches
    group.Directory.str_eq group.Inode.inode_read_at group.Inode.read_loop
    group.Inode.byte_to_sector group.Inode.lookup slice
found_ab = refl

lookup_unsynched-Looked_example :
    Yields (lookup_unsynched 1 ab device) (Looked (slot device 1) 2 ab 0)
lookup_unsynched-Looked_example =
    lookup_unsynched-Looked device 1 2 root-IsDir ab (omega arith, (omega arith, tt))

dir_add_unsynched-Added_example :
    Yields
      (dir_add_unsynched (replicate 20 7) root_inode (b'c' ∷ []) 11 device)
      (AddedR device 1 2 (b'c' ∷ []) 11)
dir_add_unsynched-Added_example =
    dir_add_unsynched-Added device root_inode 2 root-IsDir refl (b'c' ∷ []) (omega arith, tt)
      (omega arith) (omega arith) 11 (omega arith) (replicate 20 7) refl 1 (omega arith) free_one

table-IsTable : IsTable table
table-IsTable = (omega arith, refl, (omega arith, refl, tt))

open_entries :
    (k : ℕ)
    → k < 2
    → Calls (slot device 1 k) ab
    → 0 < openers (inode_sector (slot device 1 k)) table
open_entries k h c = rw (at_first k h c.used, slot_zero) (omega arith)

dir_remove-Removed_example : Yields (dir_remove 1 ab (table, device)) (RemovedR device 1 2 ab table)
dir_remove-Removed_example =
    dir_remove-Removed device 1 2 root-IsDir ab (omega arith, (omega arith, tt)) table table-IsTable
      refl open_entries

dir_readdir_2-Listed_example :
    Yields (dir_readdir_2 1 (0 * 20) device) (Listed IsProper IsDots (slot device 1) 2 0)
dir_readdir_2-Listed_example = dir_readdir_2-Listed device 1 2 root-IsDir 0 (omega arith)

is_empty-names_example : Yields (is_empty 1 device) (NamesLeft (slot device 1) 2)
is_empty-names_example = is_empty-names device 1 2 root-IsDir

abbrev path : List ℕ
path = b'/' ∷ b'/' ∷ b'a' ∷ b'b' ∷ b'/' ∷ []

components-path : components path ≡ ab ∷ []
unfolding components group.Directory.Parts.pieces group.Directory.Parts.nonempty
components-path = refl

get_last_part-last_of_example :
    get_last_part 6 [] path
    ≡ some (if fit (components path) then some (last_of [] (components path)) else none)
get_last_part-last_of_example = get_last_part-last_of 6 [] path (omega arith)

ab-Leads : Leads device 1 ab 9
ab-Leads = record {
  cnt = 2;
  is_dir = root-IsDir;
  text = (omega arith, (omega arith, tt));
  short = omega arith;
  maps = record { at = 0; inside = omega arith; calls = first-Calls; leads = rw slot_zero refl };
}

get_inode_from_path-Resolved_example :
    Yields (get_inode_from_path 1 path (table, device)) (Resolved 9 table device)
unfolding group.Directory.Walk.is_relative
get_inode_from_path-Resolved_example =
    get_inode_from_path-Resolved device 1 table
      (record { sound = table-IsTable; kept = (refl, (refl, tt)) }) (omega arith) path 9
      (omega arith, (omega arith, (omega arith, (omega arith, (omega arith, tt)))))
      (rw components-path (9, ab-Leads, refl))
