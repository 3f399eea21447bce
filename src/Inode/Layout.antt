-- ===== src/Inode/Layout.antt =====
-- inode.c: the words of an inode on the disk, and of the blocks of pointers.
use group.Base.{ℕ, ◌+◌, ◌-◌, ◌*◌, ◌/◌, Bool, not, Option, ◌==◌, ◌>>◌, assert}
use group.Cache.{sector_size}
use group.Inode.Sectors.{Store, get, put}

-- NUM_DIRECT_PTRS, Indirect_Block, and the number of sectors that an inode can hold
abbrev pub num_direct_ptrs : ℕ
num_direct_ptrs = 12

abbrev pub indirect_block : ℕ
indirect_block = 128

abbrev pub max_sectors : ℕ
max_sectors = 16524

abbrev pub bytes_to_sectors : ℕ → ℕ
bytes_to_sectors size = (size + (sector_size - 1)) / sector_size

abbrev pub bytes_to_sector_index : ℕ → ℕ
bytes_to_sector_index offset = offset / sector_size

-- `struct inode`, its locks and conditions left out.
pub record Inode : Type 0 where
  pub sector : ℕ
  pub open_cnt : ℕ
  pub removed : Bool
  pub deny_write_cnt : ℕ

abbrev pub inode_get_length : ℕ → Store → Option ℕ
inode_get_length sector = get sector 0

abbrev pub inode_set_length : ℕ → ℕ → Store → Option Store
inode_set_length sector = put sector 0

abbrev pub inode_get_is_dir : ℕ → Store → Option ℕ
inode_get_is_dir sector = get sector 4

abbrev pub inode_set_is_dir : ℕ → ℕ → Store → Option Store
inode_set_is_dir sector = put sector 4

abbrev pub inode_get_direct_ptr : ℕ → ℕ → Store → Option ℕ
inode_get_direct_ptr sector i = get sector (8 + 4 * i)

abbrev pub inode_set_direct_ptr : ℕ → ℕ → ℕ → Store → Option Store
inode_set_direct_ptr sector i = put sector (8 + 4 * i)

abbrev pub inode_get_single_ptr : ℕ → Store → Option ℕ
inode_get_single_ptr sector = get sector (8 + 4 * num_direct_ptrs)

abbrev pub inode_set_single_ptr : ℕ → ℕ → Store → Option Store
inode_set_single_ptr sector = put sector (8 + 4 * num_direct_ptrs)

abbrev pub inode_get_double_ptr : ℕ → Store → Option ℕ
inode_get_double_ptr sector = get sector (8 + 4 * num_direct_ptrs + 4)

abbrev pub inode_set_double_ptr : ℕ → ℕ → Store → Option Store
inode_set_double_ptr sector = put sector (8 + 4 * num_direct_ptrs + 4)

abbrev pub inode_set_magic : ℕ → ℕ → Store → Option Store
inode_set_magic sector = put sector (8 + 4 * num_direct_ptrs + 8)

-- INODE_MAGIC
abbrev pub inode_magic : ℕ
inode_magic = 1229868868

abbrev pub read_sector : ℕ → ℕ → Store → Option ℕ
read_sector sector index st = do assert (not (sector == 0)); get sector (index * 4) st

abbrev pub write_sector : ℕ → ℕ → ℕ → Store → Option Store
write_sector sector index good_stuff st = do
  assert (not (sector == 0))
  put sector (index * 4) good_stuff st
