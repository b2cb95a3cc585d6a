-- ===== src/Device.antt =====
-- devices/block.c: the file system's block device, without its statistics. A sector holds a value
-- of the kind that was last written to it, so that no structure is read back as another one.
use cs439_pcs.Base.{ℕ, Bool, Option, none, some, List, ltb, ◌==◌, if◌then◌else◌}
use cs439_pcs.Base.{assert, ◌>>=◌, ◌>>◌, replicate}

-- BLOCK_SECTOR_SIZE
abbrev pub sector_size : ℕ
sector_size = 512

-- struct inode_disk, less the words that are not used.
pub record InodeDisk : Type 0 where
  pub length : ℕ
  pub magic : ℕ
  pub ptr : List ℕ
  pub parent : ℕ
  pub direct_level_index : ℕ
  pub first_level_index : ℕ
  pub second_level_index : ℕ
  pub sub_dir : Bool

-- The contents of a sector: 512 bytes, a struct indexed_block, or a struct inode_disk.
pub data Sector : Type 0 where
  bytes : List ℕ → Sector
  index_block : List ℕ → Sector
  inode_disk : InodeDisk → Sector

-- `sectors` at a number below `size` is what the device holds there.
pub record Device : Type 0 where
  pub size : ℕ
  pub sectors : ℕ → Sector

abbrev pub check_sector : Device → ℕ → Option (Unit {0})
check_sector block sector = assert (ltb sector block.size)

unfoldable pub block_read : Device → ℕ → Option Sector
block_read block sector = do check_sector block sector; some (block.sectors sector)

abbrev pub update : (ℕ → Sector) → ℕ → Sector → ℕ → Sector
update f sector x k = if sector == k then x else f k

unfoldable pub block_write : Device → ℕ → Sector → Option Device
block_write block sector x = do
  check_sector block sector
  some (record block { sectors = update block.sectors sector x })

-- Reads of one kind of sector; any other kind there is not modelled.
unfoldable pub read_index : Device → ℕ → Option (List ℕ)
read_index block sector = do
  x ← block_read block sector
  elim x [ index_block p ↦ some p | _ ↦ none ]

unfoldable pub read_bytes : Device → ℕ → Option (List ℕ)
read_bytes block sector = do x ← block_read block sector; elim x [ bytes p ↦ some p | _ ↦ none ]

unfoldable pub read_inode : Device → ℕ → Option InodeDisk
read_inode block sector = do
  x ← block_read block sector
  elim x [ inode_disk d ↦ some d | _ ↦ none ]

-- `static char zeros[BLOCK_SECTOR_SIZE]`
unfoldable pub zeros : Sector
zeros = bytes (replicate sector_size 0)
